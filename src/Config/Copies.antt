-- ===== src/Config/Copies.antt =====
-- A copy of a configuration has cells of its own.

use mathlib.Core.List.{append-nil, append_assoc}
use net_gateway_api_obsolete.Prelude.{
  ℕ, ◌<◌, ◌≤◌, String, ◌≡◌, refl, sym, ap, ◌∙◌, Option, none, some, [], ◌∷◌, ◌++◌, length,
  length-append, set, subst, arith, ◌==◌, eq_iff, Bool-cases, inl, inr,
}
use net_gateway_api_obsolete.GoMap.{lookup, insert, lookup-insert, or_else, IsMap}
use net_gateway_api_obsolete.Config.{GatewayConfig}
use net_gateway_api_obsolete.Config.Heap.{
  HeapGateway, deep_copy_map, deep_copy_into, deep_copy, Heap, cell, Pointers, deep_copy_cell,
  deep_copy_pointer, deep_copy_pointers,
}
use net_gateway_api_obsolete.Config.Seen.{
  seen-set, IsBelow-apart, IsFrom-apart, IsFrom-pointer, seen, IsBelow, IsFrom, cell-append_new,
  seen_grown, AllBelow, AllBelow-grow, AllBelow-lookup,
}

or_else-none : (o : Option (Option GatewayConfig)) → or_else o none ≡ o
or_else-none none = refl
or_else-none (some v) = refl

-- The copy of one value: the heap only grows, the value that is seen is the same, and its cell is new.
record Copied (o : Option ℕ) (h : Heap) (p : Option ℕ × Heap) : Type 0 where
  more : Heap
  grown : p.1 ≡ h ++ more
  same : seen p.1 (some p.0) ≡ seen h (some o)
  fresh : IsFrom (length h) (some p.0)
  within : IsBelow (length p.1) (some p.0)

deep_copy_pointer-Copied : (o : Option ℕ) (h : Heap) → Copied o h (deep_copy_pointer o h)
unfolding deep_copy_pointer deep_copy_cell
deep_copy_pointer-Copied none h = record {
  more = [];
  grown = sym (append-nil h);
  same = refl;
  fresh = tt;
  within = tt;
}
deep_copy_pointer-Copied (some p) h = record {
  more = cell h p ∷ [];
  grown = refl;
  same = ap (λ v. some (some v)) (cell-append_new h (cell h p));
  fresh = omega arith;
  within = omega (arith, length-append h (cell h p ∷ []));
}

-- One round: what is seen at a key of what is left and what was copied.
joined :
    (key k : String) (es out : Pointers) (new old : Option ℕ) (h h' : Heap)
    → lookup key es ≡ none
    → seen h' (lookup k es) ≡ seen h (lookup k es)
    → seen h' (lookup k out) ≡ seen h (lookup k out)
    → seen h' (some new) ≡ seen h (some old)
    → or_else (seen h' (lookup k es)) (seen h' (lookup k (insert key new out)))
      ≡ or_else (seen h (lookup k ((key, old) ∷ es))) (seen h (lookup k out))
unfolding lookup
joined key k es out new old h h' once left kept made = elim (Bool-cases (key == k)) [
  | inl same ↦
      let gone : lookup k es ≡ none =
        subst (λ j. lookup j es ≡ none) ((eq_iff key k).0 same) once in
      rw lookup-insert (rw same (rw gone made))
  | inr other ↦ rw lookup-insert (rw other (rw left (rw kept refl)))
]

-- The loop keeps the pointers that are out already within the heap.
IsBelow-insert :
    (key k : String) (out : Pointers) (new : Option ℕ) (h h' : Heap)
    → length h ≤ length h'
    → IsBelow (length h') (some new)
    → IsBelow (length h) (lookup k out)
    → IsBelow (length h') (lookup k (insert key new out))
IsBelow-insert key k out new h h' longer made kept = elim (Bool-cases (key == k)) [
  | inl same ↦ rw lookup-insert (rw same made)
  | inr other ↦ rw lookup-insert (rw other (later (lookup k out) kept))
]
  where
    later : (o : Option (Option ℕ)) → IsBelow (length h) o → IsBelow (length h') o
    later none q = tt
    later (some none) q = tt
    later (some (some p)) q = omega (arith, longer, q)

IsFrom-insert :
    (n : ℕ) (key k : String) (out : Pointers) (new : Option ℕ)
    → IsFrom n (some new)
    → IsFrom n (lookup k out)
    → IsFrom n (lookup k (insert key new out))
IsFrom-insert n key k out new made kept = elim (Bool-cases (key == k)) [
  | inl same ↦ rw lookup-insert (rw same made)
  | inr other ↦ rw lookup-insert (rw other kept)
]

IsFrom-later : (n m : ℕ) (o : Option (Option ℕ)) → n ≤ m → IsFrom m o → IsFrom n o
IsFrom-later n m none small q = tt
IsFrom-later n m (some none) small q = tt
IsFrom-later n m (some (some p)) small q = omega (arith, small, q)

-- What the loop leaves: a heap that has grown, the entries seen as they were, in cells of their own.
record CopiedAll (es out : Pointers) (h : Heap) (p : Pointers × Heap) : Type 0 where
  more : Heap
  grown : p.1 ≡ h ++ more
  same :
      (k : String)
      → seen p.1 (lookup k p.0) ≡ or_else (seen h (lookup k es)) (seen h (lookup k out))
  fresh :
      (n : ℕ)
      → n ≤ length h
      → ((k : String) → IsFrom n (lookup k out))
      → (k : String) → IsFrom n (lookup k p.0)

deep_copy_pointers-CopiedAll :
    (es out : Pointers) (h : Heap)
    → IsMap es
    → AllBelow (length h) es
    → ((k : String) → IsBelow (length h) (lookup k out))
    → CopiedAll es out h (deep_copy_pointers es out h)
unfolding deep_copy_pointers lookup
deep_copy_pointers-CopiedAll [] out h u b d = record {
  more = [];
  grown = sym (append-nil h);
  same = λ k. refl;
  fresh = λ n small from k. from k;
}
deep_copy_pointers-CopiedAll ((key, val) ∷ es) out h u b d =
    let one = deep_copy_pointer-Copied val h in
    let new = (deep_copy_pointer val h).0 in
    let h' = (deep_copy_pointer val h).1 in
    let longer : length h ≤ length h' = rw one.grown (omega (arith, length-append h one.more)) in
    let all =
      deep_copy_pointers-CopiedAll es (insert key new out) h' u.1
        (subst (λ (x : Heap). AllBelow (length x) es) (sym one.grown)
          (AllBelow-grow h one.more es b.1))
        (λ k. IsBelow-insert key k out new h h' longer one.within (d k)) in
    record {
      more = one.more ++ all.more;
      grown =
          all.grown ∙ ap (λ (x : Heap). x ++ all.more) one.grown ∙ append_assoc h one.more all.more;
      same = λ k.
          all.same k
          ∙ joined key k es out new val h h' u.0
              (rw one.grown
                (seen_grown h one.more (lookup k es) (AllBelow-lookup (length h) k es b.1)))
              (rw one.grown (seen_grown h one.more (lookup k out) (d k))) one.same;
      fresh = λ n small from k.
          all.fresh n (omega (arith, small, longer))
            (λ j.
              IsFrom-insert n key j out new (IsFrom-later n (length h) (some new) small one.fresh)
                (from j))
            k;
    }

-- The copy of a gateway configuration, whose map has each key once and whose pointers lead to cells,
-- is seen to hold the same under each visibility. A write through a pointer that was there before
-- the copy is not seen in the copy, and one through a pointer of the copy is not seen in the original.
pub deep_copy-seen :
    (m out : Pointers) (h h' : Heap)
    → IsMap m
    → AllBelow (length h) m
    → deep_copy (some (record { gateways = some m })) h
      ≡ (some (record { gateways = some out }), h')
    → (k key : String) (v : GatewayConfig) (p q : ℕ) → p < length h
    → lookup key out ≡ some (some q)
    → (seen h' (lookup k out) ≡ seen h (lookup k m))
      × (seen (set h' p v) (lookup k out) ≡ seen h (lookup k m))
      × (seen (set h' q v) (lookup k m) ≡ seen h (lookup k m))
unfolding deep_copy deep_copy_into deep_copy_map lookup
deep_copy-seen m out h h' u b made k key v p q old held =
    let all = deep_copy_pointers-CopiedAll m [] h u b (λ j. tt) in
    let run = deep_copy_pointers m [] h in
    let out_eq : run.0 ≡ out = cc in
    let h_eq : run.1 ≡ h' = ap (λ (r : Option HeapGateway × Heap). r.1) made in
    let from : (j : String) → IsFrom (length h) (lookup j out) =
      subst (λ (o : Pointers). (j : String) → IsFrom (length h) (lookup j o)) out_eq
        (all.fresh (length h) (omega arith) (λ j. tt)) in
    let grown : h' ≡ h ++ all.more = sym h_eq ∙ all.grown in
    let below = AllBelow-lookup (length h) k m b in
    let still : seen h' (lookup k m) ≡ seen h (lookup k m) =
      ap (λ (x : Heap). seen x (lookup k m)) grown ∙ seen_grown h all.more (lookup k m) below in
    let same : seen h' (lookup k out) ≡ seen h (lookup k m) =
      ap (λ (x : Pointers). seen h' (lookup k x)) (sym out_eq)
      ∙ ap (λ (x : Heap). seen x (lookup k run.0)) (sym h_eq)
      ∙ all.same k
      ∙ or_else-none (seen h (lookup k m)) in
    (
      same,
      seen-set h' p v (lookup k out) (IsFrom-apart (length h) p (lookup k out) (from k) old) ∙ same,
      seen-set h' q v (lookup k m) (
            IsBelow-apart (length h) q (lookup k m) below
              (IsFrom-pointer (length h) q (lookup key out) (from key) held))
          ∙ still,
    )
