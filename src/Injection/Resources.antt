-- ===== src/Injection/Resources.antt =====
-- The injection of the informers: for each resource a package, and a filtered one, that put its informer
-- into a context and get it from there.
use net_gateway_api_obsolete.Prelude.{String, Option, none, some, List, [], ◌∷◌}
use net_gateway_api_obsolete.Prelude.Outcome.{Outcome, ok, ◌>>=◌}
use net_gateway_api_obsolete.GoMap.{Map, lookup, insert}
use net_gateway_api_obsolete.Objects.{ObjectMeta}
use net_gateway_api_obsolete.Informers.{SharedIndexInformer, SharedInformerFactory}
use net_gateway_api_obsolete.Informers.Resources.{
  Version, Accessor, backend_policies, gateways, gateway_classes, http_routes, tcp_routes,
  tls_routes, udp_routes, networking, informer_of,
}
use net_gateway_api_obsolete.Injection.{
  InjectionContext, package_of, present, factory_get, filtered_get,
}
use net_gateway_api_obsolete.Injection.Callbacks.{
  Callbacks, register_informer, register_filtered_informers,
}

-- The functions of a package.
pub record InformerPackage (Config Client Object : Type 0) : Type 0 where
  pub with_informer :
      InjectionContext Config Client Object
      → Outcome (InjectionContext Config Client Object × SharedIndexInformer Object)
  pub init :
      Callbacks (InjectionContext Config Client Object) (SharedIndexInformer Object)
      → Callbacks (InjectionContext Config Client Object) (SharedIndexInformer Object)
  pub get : InjectionContext Config Client Object → Outcome Version

-- The functions of a filtered package.
pub record FilteredPackage (Config Client Object : Type 0) : Type 0 where
  pub with_informer :
      InjectionContext Config Client Object
      → Outcome (InjectionContext Config Client Object × List (SharedIndexInformer Object))
  pub init :
      Callbacks (InjectionContext Config Client Object) (SharedIndexInformer Object)
      → Callbacks (InjectionContext Config Client Object) (SharedIndexInformer Object)
  pub get : InjectionContext Config Client Object → String → Outcome Version

-- the filtered informers of a package
abbrev pub or_empty : Option (Map Version) → Map Version
or_empty none = []
or_empty (some m) = m

module _ {Config Client Object : Type 0} where
  -- `Get`
  unfoldable pub injected : Accessor → InjectionContext Config Client Object → Outcome Version
  injected a ctx = present (lookup (package_of a) ctx.informers)

  -- the filtered `Get`
  unfoldable pub filtered_injected :
      Accessor → InjectionContext Config Client Object → String → Outcome Version
  filtered_injected a ctx selector =
      present (lookup selector (or_empty (lookup (package_of a) ctx.filtered_informers)))

module _ {Config Client Object : Type 0} (meta : Object → ObjectMeta) where
  -- `withInformer`; `Informer` registers with the factory that the context points to
  unfoldable pub with_informer :
      Accessor
      → InjectionContext Config Client Object
      → Outcome (InjectionContext Config Client Object × SharedIndexInformer Object)
  unfolding factory_get networking informer_of
  with_informer a ctx = do
    f ← factory_get ctx
    let (informer, g) = informer_of meta a f in
        ok (
          record ctx {
            informers = insert (package_of a) (networking meta f) ctx.informers;
            factory = some g;
          },
          informer,
        )

  -- One round of the loop of the filtered `withInformer`, with the selector's factory.
  unfoldable pub filtered_round :
      Accessor
      → String
      → SharedInformerFactory Object
      → InjectionContext Config Client Object
      → InjectionContext Config Client Object × SharedIndexInformer Object
  unfolding networking informer_of
  filtered_round a selector f ctx =
      let (informer, g) = informer_of meta a f in
      let held = or_empty (lookup (package_of a) ctx.filtered_informers) in
      (
        record ctx {
          filtered_informers =
              insert (package_of a) (insert selector (networking meta f) held)
                ctx.filtered_informers;
          filtered_factories = insert selector g ctx.filtered_factories;
        },
        informer,
      )

  -- The loop.
  unfoldable pub filtered_informers_loop :
      Accessor
      → List String
      → InjectionContext Config Client Object
      → Outcome (InjectionContext Config Client Object × List (SharedIndexInformer Object))
  unfolding filtered_get filtered_round
  filtered_informers_loop a [] ctx = ok (ctx, [])
  filtered_informers_loop a (selector ∷ selectors) ctx = do
    f ← filtered_get ctx selector
    let next = filtered_round a selector f ctx
    rest ← filtered_informers_loop a selectors next.0
    ok (rest.0, next.1 ∷ rest.1)

  -- the filtered `withInformer`
  unfoldable pub with_filtered_informer :
      Accessor
      → InjectionContext Config Client Object
      → Outcome (InjectionContext Config Client Object × List (SharedIndexInformer Object))
  unfolding filtered_informers_loop
  with_filtered_informer a ctx =
      present ctx.label_selectors >>= λ selectors. filtered_informers_loop a selectors ctx

  unfoldable pub backend_policy_package : InformerPackage Config Client Object
  unfolding with_informer injected
  backend_policy_package = record {
    with_informer = with_informer backend_policies;
    init = register_informer (with_informer backend_policies);
    get = injected backend_policies;
  }

  unfoldable pub backend_policy_filtered : FilteredPackage Config Client Object
  unfolding with_filtered_informer filtered_injected
  backend_policy_filtered = record {
    with_informer = with_filtered_informer backend_policies;
    init = register_filtered_informers (with_filtered_informer backend_policies);
    get = filtered_injected backend_policies;
  }

  unfoldable pub gateway_package : InformerPackage Config Client Object
  unfolding with_informer injected
  gateway_package = record {
    with_informer = with_informer gateways;
    init = register_informer (with_informer gateways);
    get = injected gateways;
  }

  unfoldable pub gateway_filtered : FilteredPackage Config Client Object
  unfolding with_filtered_informer filtered_injected
  gateway_filtered = record {
    with_informer = with_filtered_informer gateways;
    init = register_filtered_informers (with_filtered_informer gateways);
    get = filtered_injected gateways;
  }

  unfoldable pub gateway_class_package : InformerPackage Config Client Object
  unfolding with_informer injected
  gateway_class_package = record {
    with_informer = with_informer gateway_classes;
    init = register_informer (with_informer gateway_classes);
    get = injected gateway_classes;
  }

  unfoldable pub gateway_class_filtered : FilteredPackage Config Client Object
  unfolding with_filtered_informer filtered_injected
  gateway_class_filtered = record {
    with_informer = with_filtered_informer gateway_classes;
    init = register_filtered_informers (with_filtered_informer gateway_classes);
    get = filtered_injected gateway_classes;
  }

  unfoldable pub http_route_package : InformerPackage Config Client Object
  unfolding with_informer injected
  http_route_package = record {
    with_informer = with_informer http_routes;
    init = register_informer (with_informer http_routes);
    get = injected http_routes;
  }

  unfoldable pub http_route_filtered : FilteredPackage Config Client Object
  unfolding with_filtered_informer filtered_injected
  http_route_filtered = record {
    with_informer = with_filtered_informer http_routes;
    init = register_filtered_informers (with_filtered_informer http_routes);
    get = filtered_injected http_routes;
  }

  unfoldable pub tcp_route_package : InformerPackage Config Client Object
  unfolding with_informer injected
  tcp_route_package = record {
    with_informer = with_informer tcp_routes;
    init = register_informer (with_informer tcp_routes);
    get = injected tcp_routes;
  }

  unfoldable pub tcp_route_filtered : FilteredPackage Config Client Object
  unfolding with_filtered_informer filtered_injected
  tcp_route_filtered = record {
    with_informer = with_filtered_informer tcp_routes;
    init = register_filtered_informers (with_filtered_informer tcp_routes);
    get = filtered_injected tcp_routes;
  }

  unfoldable pub tls_route_package : InformerPackage Config Client Object
  unfolding with_informer injected
  tls_route_package = record {
    with_informer = with_informer tls_routes;
    init = register_informer (with_informer tls_routes);
    get = injected tls_routes;
  }

  unfoldable pub tls_route_filtered : FilteredPackage Config Client Object
  unfolding with_filtered_informer filtered_injected
  tls_route_filtered = record {
    with_informer = with_filtered_informer tls_routes;
    init = register_filtered_informers (with_filtered_informer tls_routes);
    get = filtered_injected tls_routes;
  }

  unfoldable pub udp_route_package : InformerPackage Config Client Object
  unfolding with_informer injected
  udp_route_package = record {
    with_informer = with_informer udp_routes;
    init = register_informer (with_informer udp_routes);
    get = injected udp_routes;
  }

  unfoldable pub udp_route_filtered : FilteredPackage Config Client Object
  unfolding with_filtered_informer filtered_injected
  udp_route_filtered = record {
    with_informer = with_filtered_informer udp_routes;
    init = register_filtered_informers (with_filtered_informer udp_routes);
    get = filtered_injected udp_routes;
  }
