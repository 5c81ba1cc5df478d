-- ===== src/Config/Accepted.antt =====
-- Which config maps `NewGatewayFromConfigMap` accepts, and what its clients rely on then.
use mathlib.Core.Option
use net_gateway_api_obsolete.Prelude.{
  String, ◌≡◌, ◌≢◌, ◌↔◌, refl, ap, ◌∙◌, ◌⊎◌, inl, inr, Option, none, some, [], ◌∷◌, All, arith,
  ◌==◌, eq_iff, Bool-cases, subst, eq_refl,
}
use net_gateway_api_obsolete.Prelude.Outcome.{Outcome, ok, bind-eq-ok}
use net_gateway_api_obsolete.GoMap.{
  Map, lookup, insert, insert_all, lookup-insert_all, or_else, IsMap,
}
use net_gateway_api_obsolete.Objects.Ingress.{
  IngressVisibility, visibility_external_ip, visibility_cluster_local,
}
use net_gateway_api_obsolete.Libraries.{Libraries}
use net_gateway_api_obsolete.Config.{
  Gateway, GatewayConfig, require_keys, check_entry, collect_entries, from_entries,
  new_gateway_from_config_map, visibility_config_key,
}

abbrev pub IsVisibility : String → Type 0
IsVisibility key = (key ≡ visibility_cluster_local) ⊎ (key ≡ visibility_external_ip)

or_else-none : (o : Option (Option GatewayConfig)) → or_else o none ≡ o
or_else-none none = refl
or_else-none (some v) = refl

module _ (lib : Libraries) where
  -- An entry under a known visibility, with two keys that split and a class.
  pub record IsValidEntry (key : IngressVisibility) (value : GatewayConfig) : Type 0 where
    pub visibility : IsVisibility key
    pub service : (lib.split_meta_namespace_key value.service).error ≡ none
    pub gateway : (lib.split_meta_namespace_key value.gateway).error ≡ none
    pub class : value.gateway_class ≢ ""

  -- Both visibilities are there, and every entry is valid.
  pub record IsAccepted (entry : Map GatewayConfig) : Type 0 where
    pub local : lookup visibility_cluster_local entry ≢ none
    pub external : lookup visibility_external_ip entry ≢ none
    pub entries : (k : String) (v : GatewayConfig) → lookup k entry ≡ some v → IsValidEntry k v

  check_entry_sound :
      (k : String) (v : GatewayConfig) → check_entry lib k v ≡ ok tt → IsValidEntry k v
  unfolding check_entry
  check_entry_sound k v h = ground (
    arith,
    eq_iff k visibility_cluster_local,
    eq_iff k visibility_external_ip,
    eq_iff v.gateway_class "",
  )

  check_entry_complete :
      (k : String) (v : GatewayConfig) → IsValidEntry k v → check_entry lib k v ≡ ok tt
  unfolding check_entry
  check_entry_complete k v h = ground (
    arith,
    eq_iff k visibility_cluster_local,
    eq_iff k visibility_external_ip,
    eq_iff v.gateway_class "",
  )

  abbrev pub AllValid : Map GatewayConfig → Type 0
  AllValid = All (λ e. IsValidEntry e.0 e.1)

  abbrev pointers : Map GatewayConfig → Map (Option GatewayConfig)
  pointers [] = []
  pointers ((k, v) ∷ m) = (k, some v) ∷ pointers m

  pointers-lookup :
      (k : String) (m : Map GatewayConfig) → lookup k (pointers m) ≡ Option.map some (lookup k m)
  unfolding lookup
  pointers-lookup k [] = refl
  pointers-lookup k ((j, v) ∷ m) = ground (arith, pointers-lookup k m)

  pointers-IsMap : (m : Map GatewayConfig) → IsMap m → IsMap (pointers m)
  pointers-IsMap [] h = tt
  pointers-IsMap ((j, v) ∷ m) h =
      (pointers-lookup j m ∙ ap (Option.map some) h.0, pointers-IsMap m h.1)

  lookup-pointers :
      (k : String) (m : Map GatewayConfig)
      → IsMap m
      → lookup k (insert_all (pointers m) []) ≡ Option.map some (lookup k m)
  unfolding lookup
  lookup-pointers k m unique =
      lookup-insert_all k (pointers m) [] (pointers-IsMap m unique)
      ∙ (or_else-none _ ∙ pointers-lookup k m)

  collect_entries-valid :
      (m : Map GatewayConfig) (gs : Map (Option GatewayConfig))
      → AllValid m
      → collect_entries lib m gs ≡ ok (insert_all (pointers m) gs)
  unfolding collect_entries insert_all
  collect_entries-valid [] gs h = refl
  collect_entries-valid ((k, v) ∷ m) gs h =
      rw (check_entry_complete k v h.0) (collect_entries-valid m (insert k (some v) gs) h.1)

  collect_entries_sound :
      (m : Map GatewayConfig) (gs : Map (Option GatewayConfig)) {r : Map (Option GatewayConfig)}
      → collect_entries lib m gs ≡ ok r
      → AllValid m
  unfolding collect_entries
  collect_entries_sound [] gs h = tt
  collect_entries_sound ((k, v) ∷ m) gs h =
      let (u, p, q) = bind-eq-ok (check_entry lib k v) _ h in
      (check_entry_sound k v p, collect_entries_sound m (insert k (some v) gs) q)

  pub AllValid-lookup :
      (m : Map GatewayConfig) (k : String) (v : GatewayConfig)
      → AllValid m
      → lookup k m ≡ some v
      → IsValidEntry k v
  unfolding lookup
  AllValid-lookup [] k v a h = cc
  AllValid-lookup ((j, w) ∷ m) k v a h = elim (Bool-cases (j == k)) [
    | inl e ↦
        let q : w ≡ v = ground arith in
        subst (λ (x : GatewayConfig). IsValidEntry k x) q
          (subst (λ (x : String). IsValidEntry x w) ((eq_iff j k).0 e) a.0)
    | inr n ↦ AllValid-lookup m k v a.1 (rw n at h)
  ]

  lookup-AllValid :
      (m : Map GatewayConfig)
      → IsMap m
      → ((k : String) (v : GatewayConfig) → lookup k m ≡ some v → IsValidEntry k v)
      → AllValid m
  unfolding lookup
  lookup-AllValid [] u h = tt
  lookup-AllValid ((j, w) ∷ m) u h =
      (h j w (rw eq_refl), lookup-AllValid m u.1 (λ k v p. h k v (later k v p)))
    where
      later :
          (k : String) (v : GatewayConfig) → lookup k m ≡ some v → lookup k ((j, w) ∷ m) ≡ some v
      later k v p = ground (arith, eq_iff j k, u.0)

  required :
      (m : Map GatewayConfig)
      → require_keys (visibility_cluster_local ∷ visibility_external_ip ∷ []) m ≡ ok tt
      → (lookup visibility_cluster_local m ≢ none) × (lookup visibility_external_ip m ≢ none)
  unfolding require_keys
  required m h = ground arith

  from_entries_sound :
      (m : Map GatewayConfig) {g : Gateway}
      → IsMap m
      → from_entries lib m ≡ ok g
      → IsAccepted m × ((k : String) → lookup k g.gateways ≡ Option.map some (lookup k m))
  from_entries_sound m {g} unique h =
      let (u, p, q) = bind-eq-ok (require_keys _ m) _ h in
      let (gs, c, e) = bind-eq-ok (collect_entries lib m []) _ q in
      let valid = collect_entries_sound m [] c in
      let (l, x) = required m p in
      let same : g.gateways ≡ insert_all (pointers m) [] = cc (collect_entries-valid m [] valid) in
      (
        record { local = l; external = x; entries = λ k v. AllValid-lookup m k v valid },
        λ k. rw same (lookup-pointers k m unique),
      )

  present :
      (m : Map GatewayConfig)
      → lookup visibility_cluster_local m ≢ none
      → lookup visibility_external_ip m ≢ none
      → require_keys (visibility_cluster_local ∷ visibility_external_ip ∷ []) m ≡ ok tt
  unfolding require_keys
  present m h k = ground arith

  from_entries_complete :
      (m : Map GatewayConfig)
      → IsMap m
      → IsAccepted m
      → from_entries lib m ≡ ok (record { gateways = insert_all (pointers m) [] })
  from_entries_complete m unique a =
      rw (present m a.local a.external)
        (rw (collect_entries-valid m [] (lookup-AllValid m unique a.entries)) refl)

  module _ (unmarshal : String → Outcome (Map GatewayConfig)) (cm : Map String) {text : String}
      {entry : Map GatewayConfig} (given : lookup visibility_config_key cm ≡ some text)
      (decoded : unmarshal text ≡ ok entry) (unique : IsMap entry) where
    -- What is accepted, and what comes back then.
    pub new_gateway_from_config_map_sound :
        {g : Gateway}
        → new_gateway_from_config_map lib unmarshal cm ≡ ok g
        → IsAccepted entry × ((k : String) → lookup k g.gateways ≡ Option.map some (lookup k entry))
    unfolding new_gateway_from_config_map
    new_gateway_from_config_map_sound h = from_entries_sound entry unique (rw (given, decoded) at h)

    -- Where the text of the config map decodes to a map: a configuration comes back just if both
    -- visibilities are there and every entry is valid, in whatever order the entries come, and it has
    -- the decoded entries and no others.
    pub new_gateway_from_config_map_iff : IsAccepted entry ↔ (
        (g : Gateway) × (new_gateway_from_config_map lib unmarshal cm ≡ ok g)
        × ((k : String) → lookup k g.gateways ≡ Option.map some (lookup k entry)))
    unfolding new_gateway_from_config_map
    new_gateway_from_config_map_iff = (
      λ a.
          let p : new_gateway_from_config_map lib unmarshal cm
              ≡ ok (record { gateways = insert_all (pointers entry) [] }) =
            rw given (rw decoded (from_entries_complete entry unique a)) in
          (_, p, (new_gateway_from_config_map_sound p).1),
      λ r. (new_gateway_from_config_map_sound r.1).0,
    )
