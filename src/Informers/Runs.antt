-- ===== src/Informers/Runs.antt =====
-- The factory under any sequence of calls: which informers it holds, and which of them were run. Each
-- call is a step, since it holds the lock.
use net_gateway_api_obsolete.Prelude.{
  ℕ, ◌+◌, String, ◌≡◌, refl, sym, ◌∙◌, true, some, List, [], ◌∷◌, All, All-map, arith, ◌==◌, eq_iff,
  if◌then◌else◌, Bool-cases, inl, inr,
}
use net_gateway_api_obsolete.GoMap.{Map, lookup, lookup-insert, lookup_entries, IsMap}
use net_gateway_api_obsolete.Informers.{
  SharedIndexInformer, SharedInformerFactory, is_set, informer_for, start_informer, start,
}

module _ {Object : Type 0} where
  -- How often an informer of a type was run.
  abbrev pub run_count : String → List (String × SharedIndexInformer Object) → ℕ
  run_count k [] = 0
  run_count k ((j, informer) ∷ gs) = (if j == k then 1 else 0) + run_count k gs

  -- A range over a map visits its entries in some order.
  pub record IsRangeOf (range m : Map (SharedIndexInformer Object)) : Type 0 where
    pub unique : IsMap range
    pub same : (k : String) → lookup k range ≡ lookup k m

  -- One call of a factory.
  pub data Step (f g : SharedInformerFactory Object) : Type 0 where
    requests :
        (object_type : String) (new_func : ℕ → SharedIndexInformer Object)
        → g ≡ (informer_for object_type new_func f).1
        → Step f g
    starts :
        (range : Map (SharedIndexInformer Object))
        → IsRangeOf range f.informers
        → g ≡ start range f
        → Step f g

  -- Some calls, one after the other.
  pub data Reach (f : SharedInformerFactory Object) : SharedInformerFactory Object → Type 0 where
    here : Reach f f
    next : {g h : SharedInformerFactory Object} → Reach f g → Step g h → Reach f h

  -- An informer was run once if it is marked as started, and else not at all; only informers that the
  -- factory holds were run, and it holds one for a type.
  pub record IsConsistent (f : SharedInformerFactory Object) : Type 0 where
    pub counted :
        (k : String)
        → run_count k f.goroutines ≡ (if is_set (lookup k f.started_informers) then 1 else 0)
    pub held : All (λ g. lookup g.0 f.informers ≡ some g.1) f.goroutines
    pub unique : IsMap f.informers

  start_informer-IsConsistent :
      (k : String) (informer : SharedIndexInformer Object) (f : SharedInformerFactory Object)
      → lookup k f.informers ≡ some informer
      → IsConsistent f
      → IsConsistent (start_informer k informer f)
  unfolding start_informer
  start_informer-IsConsistent k informer f found c =
      elim (Bool-cases (is_set (lookup k f.started_informers))) [
        | inl old ↦ rw old c
        | inr new ↦ rw new (record {
          counted = λ j.
              ground
                (arith, new, eq_iff k j, lookup-insert k j true f.started_informers, c.counted j);
          held = (found, c.held);
          unique = c.unique;
        })
      ]

  start_informer-informers :
      (k : String) (informer : SharedIndexInformer Object) (f : SharedInformerFactory Object)
      → (start_informer k informer f).informers ≡ f.informers
  unfolding start_informer
  start_informer-informers k informer f = ground arith

  -- Every entry of a range is one of the factory's.
  abbrev pub IsKnown : Map (SharedIndexInformer Object) → SharedInformerFactory Object → Type 0
  IsKnown range f = All (λ e. lookup e.0 f.informers ≡ some e.1) range

  pub IsRangeOf-IsKnown :
      (range : Map (SharedIndexInformer Object)) (f : SharedInformerFactory Object)
      → IsRangeOf range f.informers
      → IsKnown range f
  IsRangeOf-IsKnown range f r =
      All-map (λ e h. sym (r.same e.0) ∙ h) range (lookup_entries range r.unique)

  IsKnown-start_informer :
      (range : Map (SharedIndexInformer Object)) (k : String)
      (informer : SharedIndexInformer Object) (f : SharedInformerFactory Object)
      → IsKnown range f
      → IsKnown range (start_informer k informer f)
  IsKnown-start_informer range k informer f h = rw (start_informer-informers k informer f) h

  pub start-IsConsistent :
      (range : Map (SharedIndexInformer Object)) (f : SharedInformerFactory Object)
      → IsKnown range f
      → IsConsistent f
      → IsConsistent (start range f)
  unfolding start
  start-IsConsistent [] f known c = c
  start-IsConsistent ((k, informer) ∷ range) f known c =
      start-IsConsistent range (start_informer k informer f)
        (IsKnown-start_informer range k informer f known.1)
        (start_informer-IsConsistent k informer f known.0 c)

  pub start-informers :
      (range : Map (SharedIndexInformer Object)) (f : SharedInformerFactory Object)
      → (start range f).informers ≡ f.informers
  unfolding start
  start-informers [] f = refl
  start-informers ((k, informer) ∷ range) f =
      start-informers range (start_informer k informer f) ∙ start_informer-informers k informer f

  marks-start_informer :
      (k : String) (informer : SharedIndexInformer Object) (f : SharedInformerFactory Object)
      (j : String)
      → is_set (lookup j f.started_informers) ≡ true
      → is_set (lookup j (start_informer k informer f).started_informers) ≡ true
  unfolding start_informer
  marks-start_informer k informer f j h =
      ground (arith, eq_iff k j, lookup-insert k j true f.started_informers)

  pub marks-start :
      (range : Map (SharedIndexInformer Object)) (f : SharedInformerFactory Object) (j : String)
      → is_set (lookup j f.started_informers) ≡ true
      → is_set (lookup j (start range f).started_informers) ≡ true
  unfolding start
  marks-start [] f j h = h
  marks-start ((k, informer) ∷ range) f j h =
      marks-start range (start_informer k informer f) j (marks-start_informer k informer f j h)

  marked-start_informer :
      (k : String) (informer : SharedIndexInformer Object) (f : SharedInformerFactory Object)
      → is_set (lookup k (start_informer k informer f).started_informers) ≡ true
  unfolding start_informer
  marked-start_informer k informer f =
      ground (arith, eq_iff k k, lookup-insert k k true f.started_informers)

  -- The loop marks every type of its range.
  pub marked-start :
      (range : Map (SharedIndexInformer Object)) (f : SharedInformerFactory Object) (j : String)
      (v : SharedIndexInformer Object)
      → lookup j range ≡ some v
      → is_set (lookup j (start range f).started_informers) ≡ true
  unfolding start lookup
  marked-start [] f j v h = cc
  marked-start ((k, informer) ∷ range) f j v h = elim (Bool-cases (k == j)) [
    | inl e ↦
        marks-start range (start_informer k informer f) j
          (rw (sym ((eq_iff k j).0 e)) (marked-start_informer k informer f))
    | inr n ↦ marked-start range (start_informer k informer f) j v (rw n at h)
  ]
