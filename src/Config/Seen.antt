-- ===== src/Config/Seen.antt =====
-- Pointers into the heap, and what is seen through them while the heap grows and is written.
use mathlib.Core.Option
use net_gateway_api_obsolete.Prelude.{
  ◌≤◌, ◌≢◌, set, ℕ, zero, suc, ◌<◌, ◌≤◌, String, ◌≡◌, ◌≢◌, refl, ap, Option, none, some, [], ◌∷◌,
  ◌++◌, length, length-append, set, All, All-map, arith, ◌==◌, Bool-cases, inl, inr,
}
use net_gateway_api_obsolete.GoMap.{lookup}
use net_gateway_api_obsolete.Config.{GatewayConfig}
use net_gateway_api_obsolete.Config.Heap.{Heap, cell, Pointers}

-- What a map that holds pointers is seen to hold.
abbrev pub seen : Heap → Option (Option ℕ) → Option (Option GatewayConfig)
seen h = Option.map (Option.map (cell h))

-- A pointer that leads to one of the first cells of the heap, and one that does not.
abbrev pub IsBelow : ℕ → Option (Option ℕ) → Type 0
IsBelow n none = Unit
IsBelow n (some none) = Unit
IsBelow n (some (some p)) = p < n

abbrev pub IsFrom : ℕ → Option (Option ℕ) → Type 0
IsFrom n none = Unit
IsFrom n (some none) = Unit
IsFrom n (some (some p)) = n ≤ p

-- The cells that are there stay as they are when the heap grows.
pub cell-append : (h more : Heap) (p : ℕ) → p < length h → cell (h ++ more) p ≡ cell h p
unfolding cell
cell-append [] more p small = absurd (omega (arith, small))
cell-append (v ∷ h) more zero small = refl
cell-append (v ∷ h) more (suc p) small = cell-append h more p (omega (arith, small))

pub cell-append_new : (h : Heap) (v : GatewayConfig) → cell (h ++ v ∷ []) (length h) ≡ v
unfolding cell
cell-append_new [] v = refl
cell-append_new (w ∷ h) v = cell-append_new h v

-- A write through one pointer is not seen through another.
cell-set : (h : Heap) (p q : ℕ) (v : GatewayConfig) → q ≢ p → cell (set h p v) q ≡ cell h q
unfolding cell
cell-set [] p q v other = refl
cell-set (w ∷ h) zero zero v other = absurd (other refl)
cell-set (w ∷ h) zero (suc q) v other = refl
cell-set (w ∷ h) (suc p) zero v other = refl
cell-set (w ∷ h) (suc p) (suc q) v other = cell-set h p q v (λ e. other (ap suc e))

pub seen_grown :
    (h more : Heap) (o : Option (Option ℕ)) → IsBelow (length h) o → seen (h ++ more) o ≡ seen h o
seen_grown h more none b = refl
seen_grown h more (some none) b = refl
seen_grown h more (some (some p)) b = ap (λ v. some (some v)) (cell-append h more p b)

-- Entries whose pointers lead to cells that are there.
abbrev pub AllBelow : ℕ → Pointers → Type 0
AllBelow n = All (λ e. IsBelow n (some e.1))

pub AllBelow-grow :
    (h more : Heap) (m : Pointers) → AllBelow (length h) m → AllBelow (length (h ++ more)) m
AllBelow-grow h more m b = All-map (λ e q. one_more e.1 q) m b
  where
    one_more : (o : Option ℕ) → IsBelow (length h) (some o) → IsBelow (length (h ++ more)) (some o)
    one_more none q = tt
    one_more (some p) q = omega (arith, length-append h more, q)

pub AllBelow-lookup : (n : ℕ) (k : String) (m : Pointers) → AllBelow n m → IsBelow n (lookup k m)
unfolding lookup
AllBelow-lookup n k [] b = tt
AllBelow-lookup n k ((j, o) ∷ m) b = elim (Bool-cases (j == k)) [
  | inl same ↦ rw same b.0
  | inr other ↦ rw other (AllBelow-lookup n k m b.1)
]

-- Writes through pointers of one side are not seen on the other.
pub seen-set :
    (h : Heap) (p : ℕ) (v : GatewayConfig) (o : Option (Option ℕ))
    → ((q : ℕ) → o ≡ some (some q) → q ≢ p)
    → seen (set h p v) o ≡ seen h o
seen-set h p v none apart = refl
seen-set h p v (some none) apart = refl
seen-set h p v (some (some q)) apart = ap (λ w. some (some w)) (cell-set h p q v (apart q refl))

pub IsBelow-apart :
    (n p : ℕ) (o : Option (Option ℕ)) → IsBelow n o → n ≤ p → (q : ℕ) → o ≡ some (some q) → q ≢ p
IsBelow-apart n p none b small q e f = cc
IsBelow-apart n p (some none) b small q e f = cc
IsBelow-apart n p (some (some r)) b small q e f =
    let same : r ≡ q = cc in omega (arith, b, small, same, f)

pub IsFrom-apart :
    (n p : ℕ) (o : Option (Option ℕ)) → IsFrom n o → p < n → (q : ℕ) → o ≡ some (some q) → q ≢ p
IsFrom-apart n p none b small q e f = cc
IsFrom-apart n p (some none) b small q e f = cc
IsFrom-apart n p (some (some r)) b small q e f =
    let same : r ≡ q = cc in omega (arith, b, small, same, f)

pub IsFrom-pointer : (n p : ℕ) (o : Option (Option ℕ)) → IsFrom n o → o ≡ some (some p) → n ≤ p
IsFrom-pointer n p none b e = cc
IsFrom-pointer n p (some none) b e = cc
IsFrom-pointer n p (some (some q)) b e = let same : q ≡ p = cc in omega (arith, b, same)
