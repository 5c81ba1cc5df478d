-- ===== src/Hosts.antt =====
-- Go's `sort.Strings`: insertion sort stands for it. Equal strings cannot be told apart, so the order
-- in which a sort places them does not matter.
use mathlib.Core.List.{Perm, Permᴰ}
use mathlib.Core.Path.{ap₂}
use mathlib.Core.Logic.{∥∥₁_elim}
use mathlib.Core.HLevel.{hedberg}
use mathlib.Core.List.Perm
use net_gateway_api_obsolete.Prelude.{
  ◌==◌, eq_iff, false≢true, String, ◌≡◌, refl, ◌∙◌, sym, inl, inr, true, false, List, [], ◌∷◌, All,
  arith, str_leb, str_leb_total, str_leb_antisym, str_leb_trans, if◌then◌else◌, Bool-cases,
}

unfoldable pub insert_string : String → List String → List String
insert_string x [] = x ∷ []
insert_string x (y ∷ ys) = if str_leb x y then x ∷ y ∷ ys else y ∷ insert_string x ys

unfoldable pub sort_strings : List String → List String
unfolding insert_string
sort_strings [] = []
sort_strings (x ∷ xs) = insert_string x (sort_strings xs)

-- No string of the list is below `x`.
abbrev pub LeAll : String → List String → Type 0
LeAll x = All (λ y. str_leb x y ≡ true)

abbrev pub IsSorted : List String → Type 0
IsSorted [] = Unit
IsSorted (x ∷ xs) = LeAll x xs × IsSorted xs

LeAll-trans : (x y : String) (ys : List String) → str_leb x y ≡ true → LeAll y ys → LeAll x ys
LeAll-trans x y [] h a = tt
LeAll-trans x y (z ∷ zs) h a = (str_leb_trans x y z h a.0, LeAll-trans x y zs h a.1)

LeAll-insert_string :
    (x y : String) (ys : List String)
    → str_leb x y ≡ true
    → LeAll x ys
    → LeAll x (insert_string y ys)
unfolding insert_string
LeAll-insert_string x y [] h a = (h, tt)
LeAll-insert_string x y (z ∷ zs) h a = elim (Bool-cases (str_leb y z)) [
  | inl p ↦ rw p (h, a)
  | inr q ↦ rw q (a.0, LeAll-insert_string x y zs h a.1)
]

flip : (x y : String) → str_leb x y ≡ false → str_leb y x ≡ true
flip x y h = ground (arith, str_leb_total x y)

insert_string-IsSorted :
    (x : String) (ys : List String) → IsSorted ys → IsSorted (insert_string x ys)
unfolding insert_string
insert_string-IsSorted x [] s = (tt, tt)
insert_string-IsSorted x (y ∷ ys) s = elim (Bool-cases (str_leb x y)) [
  | inl p ↦ rw p ((p, LeAll-trans x y ys p s.0), s)
  | inr q ↦ rw q (LeAll-insert_string y x ys (flip x y q) s.0, insert_string-IsSorted x ys s.1)
]

pub sort_strings-IsSorted : (xs : List String) → IsSorted (sort_strings xs)
unfolding sort_strings
sort_strings-IsSorted [] = tt
sort_strings-IsSorted (x ∷ xs) =
    insert_string-IsSorted x (sort_strings xs) (sort_strings-IsSorted xs)

insert_string-perm : (x : String) (ys : List String) → Perm (insert_string x ys) (x ∷ ys)
unfolding insert_string
insert_string-perm x [] = Perm.refl _
insert_string-perm x (y ∷ ys) = elim (Bool-cases (str_leb x y)) [
  | inl p ↦ rw p (Perm.refl _)
  | inr q ↦ rw q (Perm.trans (Perm.cons y (insert_string-perm x ys)) (Perm.swap x y ys))
]

pub sort_strings-perm : (xs : List String) → Perm (sort_strings xs) xs
unfolding sort_strings
sort_strings-perm [] = Perm.refl _
sort_strings-perm (x ∷ xs) =
    Perm.trans (insert_string-perm x (sort_strings xs)) (Perm.cons x (sort_strings-perm xs))

insert_string-of_LeAll : (x : String) (ys : List String) → LeAll x ys → insert_string x ys ≡ x ∷ ys
unfolding insert_string
insert_string-of_LeAll x [] a = refl
insert_string-of_LeAll x (y ∷ ys) a = rw a.0

-- A sorted list is left as it is.
sort_strings-of_IsSorted : (xs : List String) → IsSorted xs → sort_strings xs ≡ xs
unfolding sort_strings
sort_strings-of_IsSorted [] s = refl
sort_strings-of_IsSorted (x ∷ xs) s =
    rw (sort_strings-of_IsSorted xs s.1) (insert_string-of_LeAll x xs s.0)

pub sort_strings_idem : (xs : List String) → sort_strings (sort_strings xs) ≡ sort_strings xs
sort_strings_idem xs = sort_strings-of_IsSorted (sort_strings xs) (sort_strings-IsSorted xs)

-- Two insertions can be made in either order.
insert_string_comm :
    (x y : String) (zs : List String)
    → insert_string x (insert_string y zs) ≡ insert_string y (insert_string x zs)
unfolding insert_string
insert_string_comm x y [] = ground (arith, str_leb_total x y, str_leb_antisym x y)
insert_string_comm x y (z ∷ zs) = ground (
  arith,
  str_leb_total x y,
  str_leb_antisym x y,
  str_leb_trans x y z,
  str_leb_trans y x z,
  insert_string_comm x y zs,
)

sort_strings-of_Permᴰ : {xs ys : List String} → Permᴰ xs ys → sort_strings xs ≡ sort_strings ys
unfolding sort_strings
sort_strings-of_Permᴰ Permᴰ.nil = refl
sort_strings-of_Permᴰ (Permᴰ.cons e p) = ap₂ insert_string e (sort_strings-of_Permᴰ p)
sort_strings-of_Permᴰ (Permᴰ.swap {a} {b} {l = l} p q) =
    rw (← p, ← q) (insert_string_comm a b (sort_strings l))
sort_strings-of_Permᴰ (Permᴰ.trans p q) = sort_strings-of_Permᴰ p ∙ sort_strings-of_Permᴰ q

String-set : IsSet String
String-set = hedberg λ s t. elim (Bool-cases (s == t)) [
  | inl e ↦ yes ((eq_iff s t).0 e)
  | inr n ↦ no (λ p. false≢true (sym n ∙ (eq_iff s t).1 p))
]

strings_set : IsSet (List String)
strings_set = hlevel String-set

-- The sorted list depends on which strings there are, and not on their order.
pub sort_strings-of_perm : {xs ys : List String} → Perm xs ys → sort_strings xs ≡ sort_strings ys
sort_strings-of_perm {xs} {ys} p = ∥∥₁_elim p (strings_set _ _) sort_strings-of_Permᴰ

insert_string-cons :
    (x : String) (l : List String)
    → (y : String) × (ys : List String) × (insert_string x l ≡ y ∷ ys)
unfolding insert_string
insert_string-cons x [] = (x, [], refl)
insert_string-cons x (z ∷ zs) = elim (Bool-cases (str_leb x z)) [
  | inl p ↦ (x, z ∷ zs, rw p)
  | inr q ↦ (z, insert_string x zs, rw q)
]

pub sort_strings-cons :
    (x : String) (xs : List String)
    → (y : String) × (ys : List String) × (sort_strings (x ∷ xs) ≡ y ∷ ys)
unfolding sort_strings
sort_strings-cons x xs = insert_string-cons x (sort_strings xs)
