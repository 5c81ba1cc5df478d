-- ===== src/GoMap.antt =====
-- Go's `map[string]V`. A map is the list of its entries in the order in which one `range` over it
-- visits them: Go leaves that order open, so what holds of every such list holds of every order.
use net_gateway_api_obsolete.Prelude.{
  String, ◌≡◌, refl, List, [], ◌∷◌, Option, none, some, arith, ◌==◌, eq_iff, eq_refl, All, All-map,
  if◌then◌else◌, Bool-cases, inl, inr, subst,
}

abbrev pub Map : Type 0 → Type 0
Map V = List (String × V)

module _ {V : Type 0} where
  -- m[key], with `none` where the key is missing
  unfoldable pub lookup : (key : String) → Map V → Option V
  lookup key [] = none
  lookup key ((k, value) ∷ entries) = if k == key then some value else lookup key entries

  -- m[key] = value
  unfoldable pub insert : (key : String) → V → Map V → Map V
  insert key value [] = (key, value) ∷ []
  insert key value ((k, old) ∷ entries) =
      if k == key then (key, value) ∷ entries else (k, old) ∷ insert key value entries

  -- A key stands in a map once.
  abbrev pub IsMap : Map V → Type 0
  IsMap [] = Unit
  IsMap ((k, v) ∷ m) = (lookup k m ≡ none) × IsMap m

  -- What a write leaves: its value at its own key, and the old one elsewhere.
  pub lookup-insert :
      (written read : String) (value : V) (m : Map V)
      → lookup read (insert written value m)
        ≡ (if written == read then some value else lookup read m)
  unfolding lookup insert
  lookup-insert written read value [] = refl
  lookup-insert written read value ((k, old) ∷ entries) =
      let rest = lookup-insert written read value entries in
      ground (arith, rest, eq_iff k read, eq_iff k written, eq_iff written read)

  -- `for k, v := range src { dst[k] = v }`
  unfoldable pub insert_all : Map V → Map V → Map V
  insert_all [] dst = dst
  insert_all ((k, v) ∷ src) dst = insert_all src (insert k v dst)

  abbrev pub or_else : Option V → Option V → Option V
  or_else none o = o
  or_else (some v) o = some v

  -- What the loop leaves at a key: the source's value, or the one that was there.
  pub lookup-insert_all :
      (j : String) (src dst : Map V)
      → IsMap src
      → lookup j (insert_all src dst) ≡ or_else (lookup j src) (lookup j dst)
  unfolding lookup insert_all
  lookup-insert_all j [] dst h = refl
  lookup-insert_all j ((k, v) ∷ src) dst h =
      ground
        (arith, eq_iff k j, lookup-insert k j v dst, lookup-insert_all j src (insert k v dst) h.1)

  -- Each entry of a map is what a lookup of its key finds.
  pub lookup_entries : (m : Map V) → IsMap m → All (λ e. lookup e.0 m ≡ some e.1) m
  unfolding lookup
  lookup_entries [] u = tt
  lookup_entries ((k, v) ∷ m) u =
      (rw eq_refl refl, All-map (λ e h. later e.0 e.1 h) m (lookup_entries m u.1))
    where
      later : (j : String) (w : V) → lookup j m ≡ some w → lookup j ((k, v) ∷ m) ≡ some w
      later j w h = ground (arith, eq_iff k j, u.0)

  -- A write keeps each key once.
  pub IsMap-insert : (k : String) (v : V) (m : Map V) → IsMap m → IsMap (insert k v m)
  unfolding lookup insert
  IsMap-insert k v [] u = (refl, tt)
  IsMap-insert k v ((j, w) ∷ m) u = elim (Bool-cases (j == k)) [
    | inl same ↦ rw same (subst (λ i. lookup i m ≡ none) ((eq_iff j k).0 same) u.0, u.1)
    | inr other ↦ rw other (
      rw lookup-insert (ground (arith, other, eq_iff j k, eq_iff k j, u.0)),
      IsMap-insert k v m u.1,
    )
  ]
