-- ===== src/Controller/Injected.antt =====
-- The context that the injection hands to the controller.
use net_gateway_api_obsolete.Prelude.{◌≡◌, ap, ◌∙◌, some}
use net_gateway_api_obsolete.Prelude.Outcome.{Outcome, ok, ◌>>=◌, bind_ok}
use net_gateway_api_obsolete.GoMap.{lookup, lookup-insert}
use net_gateway_api_obsolete.Objects.{ObjectMeta}
use net_gateway_api_obsolete.Informers.Resources.{Version}
use net_gateway_api_obsolete.Injection.{
  InjectionContext, present, client_get, with_informer_factory, factory_get,
}
use net_gateway_api_obsolete.Injection.Resources.{
  http_route_package, gateway_package, with_informer,
}

module _ {Config Client Object : Type 0} (meta : Object → ObjectMeta) where
  -- The factory, then the informers that the controller uses.
  abbrev pub inject :
      InjectionContext Config Client Object → Outcome (InjectionContext Config Client Object)
  inject ctx = with_informer_factory ctx >>= λ with_factory.
      (http_route_package meta).with_informer with_factory >>= λ with_routes.
      (gateway_package meta).with_informer with_routes.0 >>= λ with_gateways. ok with_gateways.0

  -- What the controller looks for in its context.
  pub record HasInformers (c : Client) (ctx : InjectionContext Config Client Object) : Type 0 where
    pub client : ctx.client ≡ some c
    pub routes : Version
    pub has_routes : lookup "httproute" ctx.informers ≡ some routes
    pub gateways : Version
    pub has_gateways : lookup "gateway" ctx.informers ≡ some gateways

  pub inject-HasInformers :
      (ctx : InjectionContext Config Client Object) (c : Client)
      → ctx.client ≡ some c
      → (injected_ctx : InjectionContext Config Client Object) × (inject ctx ≡ ok injected_ctx)
        × HasInformers c injected_ctx
  unfolding with_informer_factory client_get http_route_package gateway_package with_informer
      factory_get
  inject-HasInformers ctx c h = (
    _,
    bind_ok _ (bind_ok _ (ap present h)),
    record {
      client = h;
      routes = _;
      has_routes =
          lookup-insert "gateway" "httproute" _ _ ∙ lookup-insert "httproute" "httproute" _ _;
      gateways = _;
      has_gateways = lookup-insert "gateway" "gateway" _ _;
    },
  )
