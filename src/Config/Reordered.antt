-- ===== src/Config/Reordered.antt =====
-- `NewGatewayFromConfigMap` ranges over a map, and Go leaves the order of the range open.
use mathlib.Core.Option
use mathlib.Core.Path.{fun_ext}
use net_gateway_api_obsolete.Prelude.{String, ◌≡◌, refl, sym, ap, ◌∙◌, Option, none, some}
use net_gateway_api_obsolete.Prelude.Outcome.{Outcome, ok, err, panic}
use net_gateway_api_obsolete.GoMap.{Map, lookup, IsMap}
use net_gateway_api_obsolete.Objects.Ingress.{IngressVisibility}
use net_gateway_api_obsolete.Libraries.{Libraries}
use net_gateway_api_obsolete.Config.{
  Gateway, GatewayConfig, lookup_gateway, lookup_gateway_class, lookup_service,
  new_gateway_from_config_map, visibility_config_key,
}
use net_gateway_api_obsolete.Config.Accepted.{
  IsAccepted, new_gateway_from_config_map_iff, new_gateway_from_config_map_sound,
}

-- What the lookups of a configuration answer for a visibility.
pub record Selected : Type 0 where
  pub gateway : String
  pub class : String
  pub service : String

abbrev selected : Gateway → IngressVisibility → Selected
selected g vis = record {
  gateway = lookup_gateway g vis;
  class = lookup_gateway_class g vis;
  service = lookup_service g vis;
}

-- What is seen of a configuration: whether there is one, and its lookups, without the error.
abbrev pub shown : Outcome Gateway → Option (IngressVisibility → Selected)
shown (ok g) = some (selected g)
shown (err e) = none
shown panic = none

selected_same :
    (a b : Gateway)
    → ((k : String) → lookup k a.gateways ≡ lookup k b.gateways)
    → selected a ≡ selected b
unfolding lookup_gateway lookup_gateway_class lookup_service
selected_same a b same = fun_ext (λ vis. rw same)

-- Two results are seen alike where each is matched by the other.
shown_same :
    (a b : Outcome Gateway)
    → ((g : Gateway) → a ≡ ok g → (h : Gateway) × (b ≡ ok h) × (selected g ≡ selected h))
    → ((h : Gateway) → b ≡ ok h → (g : Gateway) × (a ≡ ok g))
    → shown a ≡ shown b
shown_same (ok g) b to from = let (h, p, q) = to g refl in ap some q ∙ ap shown (sym p)
shown_same (err e) (ok h) to from = cc (from h refl).1
shown_same (err e) (err f) to from = refl
shown_same (err e) panic to from = refl
shown_same panic (ok h) to from = cc (from h refl).1
shown_same panic (err f) to from = refl
shown_same panic panic to from = refl

module _ (lib : Libraries) where
  IsAccepted-same :
      (m n : Map GatewayConfig)
      → ((k : String) → lookup k m ≡ lookup k n)
      → IsAccepted lib m
      → IsAccepted lib n
  IsAccepted-same m n same a = record {
    local = λ h. a.local (same _ ∙ h);
    external = λ h. a.external (same _ ∙ h);
    entries = λ k v h. a.entries k v (same k ∙ h);
  }

  -- Two decoders that decode the text of the config map to maps with the same entries, in whatever
  -- orders: whether the configuration is accepted, and what its lookups answer, is the same with both.
  pub new_gateway_from_config_map_reordered :
      (cm : Map String) {text : String}
      → lookup visibility_config_key cm ≡ some text
      → (one other : String → Outcome (Map GatewayConfig)) {m n : Map GatewayConfig}
      → one text ≡ ok m
      → other text ≡ ok n
      → IsMap m
      → IsMap n
      → ((k : String) → lookup k m ≡ lookup k n)
      → shown (new_gateway_from_config_map lib one cm)
        ≡ shown (new_gateway_from_config_map lib other cm)
  new_gateway_from_config_map_reordered cm given one other {m} {n} p q u v same =
      shown_same _ _
        (λ g e.
          let (a, fst) = new_gateway_from_config_map_sound lib one cm given p u e in
          let (h, f, snd) =
            (new_gateway_from_config_map_iff lib other cm given q v).0
              (IsAccepted-same m n same a) in
          (h, f, selected_same g h (λ k. fst k ∙ ap (Option.map some) (same k) ∙ sym (snd k))))
        (λ h e.
          let (a, rest) = new_gateway_from_config_map_sound lib other cm given q v e in
          let (g, f, last) =
            (new_gateway_from_config_map_iff lib one cm given p u).0
              (IsAccepted-same n m (λ k. sym (same k)) a) in
          (g, f))
