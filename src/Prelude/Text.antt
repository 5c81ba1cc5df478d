-- ===== src/Prelude/Text.antt =====
-- Go's order on strings, byte by byte. On UTF-8 it is the order by code points, `compare`.
use Prim.Native.Nat.{ℕ, Ordering, compare as compare_ℕ}
use Prim.Native.Char.{code}
use Prim.Native.String.compare
use Prim.Native.String.{String, [], ◌∷◌, compare, then}
use mathlib.Core.Path.{◌≡◌, refl, ◌∙◌}
use mathlib.Core.Logic.{◌⊎◌, inl, inr}
use mathlib.Core.Bool.{Bool, true, false}
use native.Mathlib.Omega.{arith}
use text.Mathlib.TextEquality.{path_by_compare}
use text.Mathlib.TextPositions.{compare_refl}

abbrev not_gt : Ordering → Bool
not_gt Ordering.gt = false
not_gt _ = true

-- s <= t
abbrev pub str_leb : String → String → Bool
str_leb s t = not_gt (compare s t)

pub str_leb_refl : (s : String) → str_leb s s ≡ true
str_leb_refl s = rw compare_refl

-- One character more, for each law. The orders of the rests are variables.
total_step :
    (a b : ℕ) (x y : Ordering)
    → (not_gt x ≡ true) ⊎ (not_gt y ≡ true)
    → (not_gt (then (compare_ℕ a b) x) ≡ true) ⊎ (not_gt (then (compare_ℕ b a) y) ≡ true)
total_step a b x y h = ground arith

antisym_step :
    (a b : ℕ) (x y : Ordering)
    → (not_gt x ≡ true → not_gt y ≡ true → x ≡ Ordering.eq)
    → not_gt (then (compare_ℕ a b) x) ≡ true
    → not_gt (then (compare_ℕ b a) y) ≡ true
    → then (compare_ℕ a b) x ≡ Ordering.eq
antisym_step a b x y ih h k = ground arith

trans_step :
    (a b c : ℕ) (x y z : Ordering)
    → (not_gt x ≡ true → not_gt y ≡ true → not_gt z ≡ true)
    → not_gt (then (compare_ℕ a b) x) ≡ true
    → not_gt (then (compare_ℕ b c) y) ≡ true
    → not_gt (then (compare_ℕ a c) z) ≡ true
trans_step a b c x y z ih h k = ground arith

pub str_leb_total : (s t : String) → (str_leb s t ≡ true) ⊎ (str_leb t s ≡ true)
str_leb_total [] [] = inl refl
str_leb_total [] (d ∷ t) = inl (rw compare.nil-cons)
str_leb_total (c ∷ s) [] = inr (rw compare.nil-cons)
str_leb_total (c ∷ s) (d ∷ t) =
    simp compare.cons-cons (total_step (code c) (code d) _ _ (str_leb_total s t))

compare-eq_of_both :
    (s t : String) → str_leb s t ≡ true → str_leb t s ≡ true → compare s t ≡ Ordering.eq
compare-eq_of_both [] [] h k = compare.nil-nil
compare-eq_of_both [] (d ∷ t) h k = cc (compare.cons-nil d t)
compare-eq_of_both (c ∷ s) [] h k = cc (compare.cons-nil c s)
compare-eq_of_both (c ∷ s) (d ∷ t) h k =
    compare.cons-cons c d s t
    ∙ antisym_step (code c) (code d) _ _ (compare-eq_of_both s t) (rw compare.cons-cons at h)
        (rw compare.cons-cons at k)

pub str_leb_antisym : (s t : String) → str_leb s t ≡ true → str_leb t s ≡ true → s ≡ t
str_leb_antisym s t h k = path_by_compare s t (compare-eq_of_both s t h k)

pub str_leb_trans : (s t u : String) → str_leb s t ≡ true → str_leb t u ≡ true → str_leb s u ≡ true
str_leb_trans [] t [] h k = refl
str_leb_trans [] t (e ∷ u) h k = rw compare.nil-cons
str_leb_trans (c ∷ s) [] u h k = cc (compare.cons-nil c s)
str_leb_trans (c ∷ s) (d ∷ t) [] h k = cc (compare.cons-nil d t)
str_leb_trans (c ∷ s) (d ∷ t) (e ∷ u) h k = rw compare.cons-cons (
    trans_step (code c) (code d) (code e) _ _ _ (str_leb_trans s t u) (rw compare.cons-cons at h)
      (rw compare.cons-cons at k))
