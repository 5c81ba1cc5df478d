-- ===== src/Probe/Tests.antt =====
-- The theorems on the probe targets, at the sample ingress; a set of strings is a list.
use net_gateway_api_obsolete.Prelude.{
  String, ◌≡◌, ◌↔◌, refl, inl, inr, Bool, true, false, ◌||◌, List, [], ◌∷◌, Any, ◌==◌, eq_iff,
  arith, Bool-cases,
}
use net_gateway_api_obsolete.Prelude.Outcome.{ok}
use net_gateway_api_obsolete.Objects.{Endpoints}
use net_gateway_api_obsolete.Config.{default_gateway}
use net_gateway_api_obsolete.Config.Context.{from_context}
use net_gateway_api_obsolete.Resources.{gateway_config}
use net_gateway_api_obsolete.Resources.Forwards.{Pairs}
use net_gateway_api_obsolete.Samples.{lib, ctx, spec}
use net_gateway_api_obsolete.Probe.{ProbeTarget, list_probe_targets}
use net_gateway_api_obsolete.Probe.Targets.{TargetOf, IsPodIp, list_probe_targets-TargetOf}

abbrev new_string_set : List String → List String
new_string_set xs = xs

abbrev has : List String → String → Bool
has [] x = false
has (y ∷ ys) x = (y == x) || has ys x

has-Any : (xs : List String) (x : String) → (has xs x ≡ true) ↔ Any (λ y. y ≡ x) xs
has-Any [] x = (λ h. cc, λ h. absurd h)
has-Any (y ∷ ys) x = let ih = has-Any ys x in (forth ih, back ih)
  where
    forth :
        ((has ys x ≡ true) ↔ Any (λ z. z ≡ x) ys)
        → has (y ∷ ys) x ≡ true
        → Any (λ z. z ≡ x) (y ∷ ys)
    forth ih h = elim (Bool-cases (y == x)) [
      | inl e ↦ inl ((eq_iff y x).0 e)
      | inr n ↦ inr (ih.0 (rw n at h))
    ]

    back :
        ((has ys x ≡ true) ↔ Any (λ z. z ≡ x) ys)
        → Any (λ z. z ≡ x) (y ∷ ys)
        → has (y ∷ ys) x ≡ true
    back ih (inl e) = rw ((eq_iff y x).1 e) refl
    back ih (inr m) = ground (arith, ih.1 m)

abbrev pods : Endpoints
pods = record {
  subsets =
      (record { addresses = [] })
      ∷ (record { addresses = (record { ip = "10.0.0.1" }) ∷ (record { ip = "10.0.0.2" }) ∷ [] })
      ∷ [];
}

configured : gateway_config lib ctx ≡ ok default_gateway
unfolding gateway_config from_context
configured = refl

list_probe_targets-TargetOf_example :
    (targets : List (ProbeTarget (List String))) × (ips : List String) × (list_probe_targets
        new_string_set lib ctx
        (λ namespace name. ok pods)
        spec
      ≡ ok targets)
    × Pairs (TargetOf ips spec.http_option) spec.rules targets
    × ((x : String) → (has ips x ≡ true) ↔ IsPodIp pods x)
list_probe_targets-TargetOf_example =
    list_probe_targets-TargetOf new_string_set lib ctx (λ namespace name. ok pods) configured has
      spec "10.0.0.1" has-Any refl (inr (inl (inl refl)))
