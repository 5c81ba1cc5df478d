-- ===== src/Injection/Imports.antt =====
-- The context of a program that imports the packages of some informers: their `init` functions register
-- the client, the factory and the informers, and the set-up runs what they registered.
use mathlib.Core.List.{append-nil, append_assoc}
use net_gateway_api_obsolete.Prelude.{
  ℕ, String, ◌≡◌, refl, sym, ap, ◌∙◌, Option, none, some, List, [], ◌∷◌, ◌++◌, All, All-map,
}
use net_gateway_api_obsolete.Prelude.Outcome.{Outcome, ok, ◌>>=◌}
use net_gateway_api_obsolete.Prelude.Action.{Action, lift}
use net_gateway_api_obsolete.GoMap.{lookup}
use net_gateway_api_obsolete.Objects.{ObjectMeta}
use net_gateway_api_obsolete.Informers.{
  SharedIndexInformer, namespace_all, new_shared_informer_factory_with_options, with_namespace,
}
use net_gateway_api_obsolete.Informers.Resources.{
  Accessor, backend_policies, gateways, gateway_classes, http_routes, tcp_routes, tls_routes,
  udp_routes,
}
use net_gateway_api_obsolete.Informers.Scopes.{Serves, IsScoped}
use net_gateway_api_obsolete.Resources.Forwards.{Pairs}
use net_gateway_api_obsolete.Injection.{
  InjectionContext, scope_options, present, client_get, with_client, with_informer_factory,
}
use net_gateway_api_obsolete.Injection.Callbacks.{ClientCallbacks, Callbacks, register_informer}
use net_gateway_api_obsolete.Injection.Resources.{
  InformerPackage, with_informer, injected, backend_policy_package, gateway_package,
  gateway_class_package, http_route_package, tcp_route_package, tls_route_package,
  udp_route_package,
}
use net_gateway_api_obsolete.Injection.Registry.{client_init, factory_init}
use net_gateway_api_obsolete.Injection.Setup.{
  scoped_version, set_up, set_up-one, Holds, injectors, run_informers-Next,
}

-- The namespace of a scope; without one, all namespaces.
abbrev pub scope_namespace : Option String → String
scope_namespace none = namespace_all
scope_namespace (some namespace) = namespace

abbrev pub no_clients : {World Ctx Config Client : Type 0} → ClientCallbacks World Ctx Config Client
no_clients = record { clients = []; client_fetchers = [] }

abbrev pub no_callbacks : {Ctx Informer : Type 0} → Callbacks Ctx Informer
no_callbacks = record { informer_factories = []; informers = []; filtered_informers = [] }

module _ {Object : Type 0} (meta : Object → ObjectMeta) where
  first-IsScoped :
      (resync_period : ℕ) (scope : Option String)
      → IsScoped meta
          (scope_namespace scope)
          none
          (new_shared_informer_factory_with_options resync_period (scope_options scope))
  unfolding new_shared_informer_factory_with_options with_namespace lookup
  first-IsScoped resync_period none = record {
    namespace = refl;
    tweak_list_options = refl;
    informers = λ a v found. cc;
  }
  first-IsScoped resync_period (some namespace) = record {
    namespace = refl;
    tweak_list_options = refl;
    informers = λ a v found. cc;
  }

module _ {Config Client Object : Type 0} (meta : Object → ObjectMeta) where
  abbrev pub informer_package : Accessor → InformerPackage Config Client Object
  informer_package backend_policies = backend_policy_package meta
  informer_package gateways = gateway_package meta
  informer_package gateway_classes = gateway_class_package meta
  informer_package http_routes = http_route_package meta
  informer_package tcp_routes = tcp_route_package meta
  informer_package tls_routes = tls_route_package meta
  informer_package udp_routes = udp_route_package meta

  -- The `init` functions of the packages of some accessors, in the order of the imports.
  abbrev pub inits :
      List Accessor
      → Callbacks (InjectionContext Config Client Object) (SharedIndexInformer Object)
      → Callbacks (InjectionContext Config Client Object) (SharedIndexInformer Object)
  inits [] r = r
  inits (a ∷ accessors) r = inits accessors ((informer_package a).init r)

  package_registers :
      (a : Accessor)
      (r : Callbacks (InjectionContext Config Client Object) (SharedIndexInformer Object))
      → (informer_package a).init r ≡ register_informer (with_informer meta a) r
  unfolding backend_policy_package gateway_package gateway_class_package http_route_package
      tcp_route_package tls_route_package udp_route_package
  package_registers backend_policies r = refl
  package_registers gateways r = refl
  package_registers gateway_classes r = refl
  package_registers http_routes r = refl
  package_registers tcp_routes r = refl
  package_registers tls_routes r = refl
  package_registers udp_routes r = refl

  package_gets :
      (a : Accessor) (ctx : InjectionContext Config Client Object)
      → (informer_package a).get ctx ≡ injected a ctx
  unfolding backend_policy_package gateway_package gateway_class_package http_route_package
      tcp_route_package tls_route_package udp_route_package
  package_gets backend_policies ctx = refl
  package_gets gateways ctx = refl
  package_gets gateway_classes ctx = refl
  package_gets http_routes ctx = refl
  package_gets tcp_routes ctx = refl
  package_gets tls_routes ctx = refl
  package_gets udp_routes ctx = refl

  inits-register :
      (accessors : List Accessor)
      (r : Callbacks (InjectionContext Config Client Object) (SharedIndexInformer Object))
      → inits accessors r ≡ record r { informers = r.informers ++ injectors meta accessors }
  inits-register [] r = ap (λ fs. record r { informers = fs }) (sym (append-nil r.informers))
  inits-register (a ∷ accessors) r =
      ap (inits accessors) (package_registers a r)
      ∙ inits-register accessors (register_informer (with_informer meta a) r)
      ∙ ap (λ fs. record r { informers = fs })
          (append_assoc r.informers (with_informer meta a ∷ []) (injectors meta accessors))

  abbrev with_factory :
      InjectionContext Config Client Object → InjectionContext Config Client Object
  with_factory ctx = record ctx {
    factory = some (
        new_shared_informer_factory_with_options ctx.resync_period
          (scope_options ctx.namespace_scope));
  }

  first-Holds :
      (ctx : InjectionContext Config Client Object) (c : Client)
      → ctx.client ≡ some c
      → Holds meta (scope_namespace ctx.namespace_scope) none c (with_factory ctx)
  first-Holds ctx c h = record {
    client = h;
    factory = _;
    held = refl;
    scoped = first-IsScoped meta ctx.resync_period ctx.namespace_scope;
  }

  -- A context from which the client and the informers of all accessors come.
  pub record Imported (c : Client) (ns : String) (accessors : List Accessor)
      (ctx : InjectionContext Config Client Object) : Type 0 where
    pub client : client_get ctx ≡ ok c
    pub factory : Holds meta ns none c ctx
    pub got : All (λ a. (informer_package a).get ctx ≡ ok (scoped_version ns none)) accessors

  module _ {World : Type 0}
      (setup_informers : ClientCallbacks World (InjectionContext Config Client Object) Config Client
        → Callbacks (InjectionContext Config Client Object) (SharedIndexInformer Object)
        → InjectionContext Config Client Object
        → Config
        → Action World (InjectionContext Config Client Object × List (SharedIndexInformer Object)))
      (runs_all : (clients : ClientCallbacks World
            (InjectionContext Config Client Object)
            Config
            Client)
          (r : Callbacks (InjectionContext Config Client Object) (SharedIndexInformer Object))
          (ctx : InjectionContext Config Client Object) (cfg : Config) (w : World)
        → setup_informers clients r ctx cfg w ≡ set_up clients r ctx cfg w) where
    -- Where a clientset can be made of the configuration: after the set-up of what the client's, the
    -- factory's and the informers' packages registered, in whatever order the latter were imported, the
    -- client and every informer that was imported come from the context, in the context's scope. The
    -- list that the set-up returns has one informer for each, which lists and watches its resource in
    -- that scope. knative's SetupInformers runs the callbacks as its documentation says.
    pub setup_informers-Imported :
        (new_for_config_or_die : Config → Outcome Client) (accessors : List Accessor)
        (ctx : InjectionContext Config Client Object) (cfg : Config) (w : World) {c : Client}
        → new_for_config_or_die cfg ≡ ok c
        → (next : InjectionContext Config Client Object) × (informers : List
            (SharedIndexInformer Object))
          × (setup_informers
                (client_init new_for_config_or_die no_clients)
                (inits accessors (factory_init no_callbacks))
                ctx
                cfg
                w
              ≡ (ok (next, informers), w))
          × Imported c (scope_namespace ctx.namespace_scope) accessors next
          × Pairs
              (λ a v. Serves meta a (scope_namespace ctx.namespace_scope) none v)
              accessors
              informers
    unfolding client_init with_client factory_init with_informer_factory client_get injected
    setup_informers-Imported new_for_config_or_die accessors ctx cfg w {c} made =
        let ns = scope_namespace ctx.namespace_scope in
        let given = record ctx { client = some c } in
        let (next, vs, p, steps, got, serves) =
          run_informers-Next meta ns none accessors c (with_factory given)
            (first-Holds given c refl) in
        (
          next,
          vs,
          runs_all _ _ ctx cfg w
              ∙ ap (λ r. set_up (client_init new_for_config_or_die no_clients) r ctx cfg w)
                  (inits-register accessors (factory_init no_callbacks))
              ∙ set_up-one (λ x y. lift (with_client new_for_config_or_die x y)) client_get
                  with_informer_factory (injectors meta accessors) ctx cfg w
                  (ap (λ (o : Outcome Client). (o >>= λ x. ok (record ctx { client = some x }), w))
                    made)
                  refl p,
          record {
            client = ap present steps.holds.client;
            factory = steps.holds;
            got = All-map (λ a g. package_gets a next ∙ ap present g) accessors got;
          },
          serves,
        )
