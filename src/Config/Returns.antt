-- ===== src/Config/Returns.antt =====
-- `NewGatewayFromConfigMap` does not panic, and the map that it fills has each key once.
use net_gateway_api_obsolete.Prelude.{
  String, ◌≡◌, ◌≢◌, refl, Bool, Option, none, some, List, [], ◌∷◌, if◌then◌else◌, ◌||◌, ◌==◌,
  Bool-cases, inl, inr, subst,
}
use net_gateway_api_obsolete.Prelude.Outcome.{
  Error, Outcome, ok, err, panic, ◌>>=◌, bind-eq-ok, ok_injective,
}
use net_gateway_api_obsolete.GoMap.{Map, lookup, insert, IsMap, IsMap-insert}
use net_gateway_api_obsolete.Objects.Ingress.{
  IngressVisibility, visibility_cluster_local, visibility_external_ip,
}
use net_gateway_api_obsolete.Libraries.{Libraries}
use net_gateway_api_obsolete.Config.{
  Gateway, GatewayConfig, check_entry, collect_entries, require_keys, require_key,
  new_gateway_from_config_map, visibility_config_key, require_visibility, no_error, require_class,
  from_entries, from_visibility,
}

-- A chain of calls that return, returns.
bind_returns :
    {A : Type 0} {B : Type 0} (m : Outcome A) (f : A → Outcome B)
    → m ≢ panic
    → ((a : A) → f a ≢ panic)
    → (m >>= f) ≢ panic
bind_returns (ok a) f h k = k a
bind_returns (err e) f h k = λ e. cc
bind_returns panic f h k = λ e. h refl

ok_returns : {A : Type 0} (a : A) → ok a ≢ panic
ok_returns a h = cc

require_key_returns :
    (o : Option GatewayConfig) (vis : IngressVisibility) → require_key o vis ≢ panic
require_key_returns none vis h = cc
require_key_returns (some v) vis h = cc

require_keys_returns :
    (visibilities : List IngressVisibility) (entry : Map GatewayConfig)
    → require_keys visibilities entry ≢ panic
unfolding require_keys
require_keys_returns [] entry = ok_returns tt
require_keys_returns (vis ∷ rest) entry =
    bind_returns (require_key (lookup vis entry) vis) _ (require_key_returns (lookup vis entry) vis)
      (λ u. require_keys_returns rest entry)

no_error_returns : (o : Option Error) → no_error o ≢ panic
no_error_returns none h = cc
no_error_returns (some e) h = cc

test_returns :
    (b : Bool) (o p : Outcome (Unit {0})) → o ≢ panic → p ≢ panic → (if b then o else p) ≢ panic
test_returns b o p ho hp h = elim (Bool-cases b) [ inl e ↦ ho (rw e at h) | inr e ↦ hp (rw e at h) ]

error_returns : {A : Type 0} (e : Error) (o : Outcome A) → o ≡ err e → o ≢ panic
error_returns e o p h = cc

require_visibility_returns : (key : IngressVisibility) → require_visibility key ≢ panic
require_visibility_returns key =
    test_returns (key == visibility_cluster_local || key == visibility_external_ip) _ _
      (ok_returns tt) (error_returns _ _ refl)

require_class_returns :
    (key : IngressVisibility) (value : GatewayConfig) → require_class key value ≢ panic
require_class_returns key value =
    test_returns (value.gateway_class == "") _ _ (error_returns _ _ refl) (ok_returns tt)

module _ (lib : Libraries) where
  check_entry_returns :
      (key : IngressVisibility) (value : GatewayConfig) → check_entry lib key value ≢ panic
  unfolding check_entry
  check_entry_returns key value =
      let service = (lib.split_meta_namespace_key value.service).error in
      let gateway = (lib.split_meta_namespace_key value.gateway).error in
      bind_returns (require_visibility key) _ (require_visibility_returns key) (λ u.
        bind_returns (no_error service) _ (no_error_returns service) (λ u.
          bind_returns (no_error gateway) _ (no_error_returns gateway)
            (λ u. require_class_returns key value)))

  collect_entries_returns :
      (entry : Map GatewayConfig) (gateways : Map (Option GatewayConfig))
      → collect_entries lib entry gateways ≢ panic
  unfolding collect_entries
  collect_entries_returns [] gateways = ok_returns gateways
  collect_entries_returns ((key, value) ∷ rest) gateways =
      bind_returns (check_entry lib key value) _ (check_entry_returns key value)
        (λ u. collect_entries_returns rest (insert key (some value) gateways))

  from_entries_returns : (entry : Map GatewayConfig) → from_entries lib entry ≢ panic
  from_entries_returns entry =
      bind_returns (require_keys _ entry) _ (require_keys_returns _ entry) (λ u.
        bind_returns (collect_entries lib entry []) _ (collect_entries_returns entry [])
          (λ gateways. ok_returns _))

  module _ (unmarshal : String → Outcome (Map GatewayConfig))
      (decodes : (text : String) → unmarshal text ≢ panic) where
    from_visibility_returns : (o : Option String) → from_visibility lib unmarshal o ≢ panic
    from_visibility_returns none = ok_returns _
    from_visibility_returns (some text) =
        bind_returns (unmarshal text) _ (decodes text) from_entries_returns

    -- Where the decoder returns, so does the constructor of the configuration.
    pub new_gateway_from_config_map_returns :
        (config_map : Map String) → new_gateway_from_config_map lib unmarshal config_map ≢ panic
    unfolding new_gateway_from_config_map
    new_gateway_from_config_map_returns config_map =
        from_visibility_returns (lookup visibility_config_key config_map)

module _ (lib : Libraries) where
  collect_entries-IsMap :
      (entry : Map GatewayConfig) (gateways : Map (Option GatewayConfig))
      {made : Map (Option GatewayConfig)}
      → collect_entries lib entry gateways ≡ ok made
      → IsMap gateways
      → IsMap made
  unfolding collect_entries
  collect_entries-IsMap [] gateways h u = subst IsMap (ok_injective h) u
  collect_entries-IsMap ((key, value) ∷ rest) gateways h u =
      let (checked, p, q) = bind-eq-ok (check_entry lib key value) _ h in
      collect_entries-IsMap rest (insert key (some value) gateways) q
        (IsMap-insert key (some value) gateways u)

  from_visibility-IsMap :
      (unmarshal : String → Outcome (Map GatewayConfig)) (o : Option String) {g : Gateway}
      → from_visibility lib unmarshal o ≡ ok g
      → IsMap g.gateways
  unfolding lookup
  from_visibility-IsMap unmarshal none h =
      subst (λ (g : Gateway). IsMap g.gateways) (ok_injective h) (refl, (refl, tt))
  from_visibility-IsMap unmarshal (some text) h =
      let (entry, p, q) = bind-eq-ok (unmarshal text) _ h in
      let (required, r, t) = bind-eq-ok (require_keys _ entry) _ q in
      let (gateways, c, e) = bind-eq-ok (collect_entries lib entry []) _ t in
      subst (λ (g : Gateway). IsMap g.gateways) (ok_injective e)
        (collect_entries-IsMap entry [] c tt)

  -- Each visibility is configured once.
  pub new_gateway_from_config_map-IsMap :
      (unmarshal : String → Outcome (Map GatewayConfig)) (config_map : Map String) {g : Gateway}
      → new_gateway_from_config_map lib unmarshal config_map ≡ ok g
      → IsMap g.gateways
  unfolding new_gateway_from_config_map
  new_gateway_from_config_map-IsMap unmarshal config_map h =
      from_visibility-IsMap unmarshal (lookup visibility_config_key config_map) h
