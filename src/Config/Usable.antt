-- ===== src/Config/Usable.antt =====
-- What the reconciler and the probe lister rely on where they drop the error of `SplitMetaNamespaceKey`
-- on the keys that they look up in the configuration, pkg/reconciler/ingress/config/gateway.go.
use mathlib.Core.Option
use net_gateway_api_obsolete.Prelude.{
  String, ◌≡◌, ◌≢◌, ◌∙◌, ap, inl, inr, none, some, Option-cases, some_of_ne-none, subst, eq_iff,
  arith,
}
use net_gateway_api_obsolete.Prelude.Outcome.{Outcome, ok, bind-eq-ok}
use net_gateway_api_obsolete.GoMap.{Map, lookup, IsMap}
use net_gateway_api_obsolete.Objects.Ingress.{IngressVisibility}
use net_gateway_api_obsolete.Libraries.{Libraries}
use net_gateway_api_obsolete.Config.{
  Gateway, GatewayConfig, new_gateway_from_config_map, visibility_config_key, lookup_gateway,
  lookup_gateway_class, lookup_service, default_gateway, default_external, default_local,
}
use net_gateway_api_obsolete.Config.Accepted.{
  IsVisibility, IsAccepted, IsValidEntry, new_gateway_from_config_map_sound,
}

module _ (lib : Libraries) where
  -- What the clients read under a visibility: two keys that split without an error, and a class.
  pub record IsUsable (g : Gateway) (vis : IngressVisibility) : Type 0 where
    pub service : (lib.split_meta_namespace_key (lookup_service g vis)).error ≡ none
    pub gateway : (lib.split_meta_namespace_key (lookup_gateway g vis)).error ≡ none
    pub class : lookup_gateway_class g vis ≢ ""

  -- A namespace and a name with a slash between them make a key.
  pub record DefaultsSplit : Type 0 where
    pub service : (lib.split_meta_namespace_key default_external.service).error ≡ none
    pub gateway : (lib.split_meta_namespace_key default_external.gateway).error ≡ none
    pub local_service : (lib.split_meta_namespace_key default_local.service).error ≡ none
    pub local_gateway : (lib.split_meta_namespace_key default_local.gateway).error ≡ none

  IsUsable-default :
      (vis : IngressVisibility) → DefaultsSplit → IsVisibility vis → IsUsable default_gateway vis
  unfolding lookup_gateway lookup_gateway_class lookup_service lookup
  IsUsable-default vis d (inl e) = rw e (record {
    service = d.local_service;
    gateway = d.local_gateway;
    class = λ q. ground (arith, eq_iff "istio" "");
  })
  IsUsable-default vis d (inr e) = rw e (record {
    service = d.service;
    gateway = d.gateway;
    class = λ q. ground (arith, eq_iff "istio" "");
  })

  IsUsable-entry :
      (g : Gateway) (vis : IngressVisibility) (v : GatewayConfig)
      → lookup vis g.gateways ≡ some (some v)
      → IsValidEntry lib vis v
      → IsUsable g vis
  unfolding lookup_gateway lookup_gateway_class lookup_service
  IsUsable-entry g vis v p valid = record {
    service = rw p valid.service;
    gateway = rw p valid.gateway;
    class = rw p valid.class;
  }

  present :
      (m : Map GatewayConfig) (vis : IngressVisibility)
      → IsAccepted lib m
      → IsVisibility vis
      → (v : GatewayConfig) × (lookup vis m ≡ some v)
  present m vis a (inl e) = rw e (some_of_ne-none _ a.local)
  present m vis a (inr e) = rw e (some_of_ne-none _ a.external)

  module _ (unmarshal : String → Outcome (Map GatewayConfig)) (cm : Map String) where
    IsUsable-decoded :
        {g : Gateway} (text : String) (vis : IngressVisibility)
        → ((t : String) (m : Map GatewayConfig) → unmarshal t ≡ ok m → IsMap m)
        → lookup visibility_config_key cm ≡ some text
        → new_gateway_from_config_map lib unmarshal cm ≡ ok g
        → IsVisibility vis
        → IsUsable g vis
    unfolding new_gateway_from_config_map
    IsUsable-decoded {g} text vis maps given h known =
        let (entry, p, q) = bind-eq-ok (unmarshal text) _ (rw given at h) in
        let (accepted, same) =
          new_gateway_from_config_map_sound lib unmarshal cm given p (maps text entry p) h in
        let (v, found) = present entry vis accepted known in
        IsUsable-entry g vis v (same vis ∙ ap (Option.map some) found)
          (accepted.entries vis v found)

    -- Whatever the config map holds, a configuration that was accepted can be used under both
    -- visibilities: the keys of its service and its gateway split without an error, and its class is
    -- not empty. The decoder returns maps, and the default keys split.
    pub new_gateway_from_config_map-IsUsable :
        {g : Gateway} (vis : IngressVisibility)
        → DefaultsSplit
        → ((t : String) (m : Map GatewayConfig) → unmarshal t ≡ ok m → IsMap m)
        → new_gateway_from_config_map lib unmarshal cm ≡ ok g
        → IsVisibility vis
        → IsUsable g vis
    unfolding new_gateway_from_config_map
    new_gateway_from_config_map-IsUsable {g} vis d maps h known =
        elim (Option-cases (lookup visibility_config_key cm)) [
          | inl missing ↦
              let same : default_gateway ≡ g = cc in
              subst (λ (c : Gateway). IsUsable c vis) same (IsUsable-default vis d known)
          | inr found ↦ IsUsable-decoded found.0 vis maps found.1 h known
        ]
