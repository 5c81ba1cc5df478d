-- ===== src/Informers/Shared.antt =====
-- What the users of one factory rely on, whoever calls it in between: the informer of a type is shared,
-- and it is run once.
use net_gateway_api_obsolete.Prelude.{
  ℕ, ◌≤◌, String, ◌≡◌, refl, ap, ◌∙◌, Bool, true, none, some, List, All, All-map, arith, eq_iff,
  eq_refl, if◌then◌else◌, inl, inr, Option-cases,
}
use net_gateway_api_obsolete.GoMap.{Map, lookup, insert, lookup-insert, IsMap-insert}
use net_gateway_api_obsolete.Informers.{
  SharedIndexInformer, SharedInformerFactory, SharedInformerOption, is_set, informer_for, start,
  wait_for_cache_sync, new_shared_informer_factory_with_options,
}
use net_gateway_api_obsolete.Informers.Fresh.{IsOption, new-IsConsistent}
use net_gateway_api_obsolete.Informers.Synced.{lookup-wait_for_cache_sync}
use net_gateway_api_obsolete.Informers.Runs.{
  run_count, IsRangeOf, Step, requests, starts, Reach, here, next, IsConsistent, IsRangeOf-IsKnown,
  start-IsConsistent, start-informers, marks-start, marked-start,
}

module _ {Object : Type 0} where
  inserted-lookup :
      (object_type : String) (informer : SharedIndexInformer Object)
      (m : Map (SharedIndexInformer Object)) (k : String) (v : SharedIndexInformer Object)
      → lookup object_type m ≡ none
      → lookup k m ≡ some v
      → lookup k (insert object_type informer m) ≡ some v
  inserted-lookup object_type informer m k v missing h =
      ground (arith, eq_iff object_type k, lookup-insert object_type k informer m)

  -- `InformerFor` registers under a type that has no informer, and changes nothing else.
  informer_for-lookup :
      (object_type : String) (new_func : ℕ → SharedIndexInformer Object)
      (f : SharedInformerFactory Object) (k : String) (v : SharedIndexInformer Object)
      → lookup k f.informers ≡ some v
      → lookup k (informer_for object_type new_func f).1.informers ≡ some v
  unfolding informer_for
  informer_for-lookup object_type new_func f k v h =
      elim (Option-cases (lookup object_type f.informers)) [
        | inl missing ↦ rw missing (inserted-lookup object_type _ f.informers k v missing h)
        | inr found ↦ rw found.1 h
      ]

  informer_for-IsConsistent :
      (object_type : String) (new_func : ℕ → SharedIndexInformer Object)
      (f : SharedInformerFactory Object)
      → IsConsistent f
      → IsConsistent (informer_for object_type new_func f).1
  unfolding informer_for
  informer_for-IsConsistent object_type new_func f c =
      elim (Option-cases (lookup object_type f.informers)) [
        | inl missing ↦ rw missing (record {
          counted = c.counted;
          held =
              All-map (λ e h. inserted-lookup object_type _ f.informers e.0 e.1 missing h)
                f.goroutines c.held;
          unique = IsMap-insert object_type _ f.informers c.unique;
        })
        | inr found ↦ rw found.1 c
      ]

  Step-IsConsistent :
      {f g : SharedInformerFactory Object} → Step f g → IsConsistent f → IsConsistent g
  Step-IsConsistent {f} (requests object_type new_func e) c =
      rw e (informer_for-IsConsistent object_type new_func f c)
  Step-IsConsistent {f} (starts range r e) c =
      rw e (start-IsConsistent range f (IsRangeOf-IsKnown range f r) c)

  Reach-IsConsistent :
      {f g : SharedInformerFactory Object} → IsConsistent f → Reach f g → IsConsistent g
  Reach-IsConsistent c here = c
  Reach-IsConsistent c (next r s) = Step-IsConsistent s (Reach-IsConsistent c r)

  Step-lookup :
      {f g : SharedInformerFactory Object} (k : String) (v : SharedIndexInformer Object)
      → Step f g
      → lookup k f.informers ≡ some v
      → lookup k g.informers ≡ some v
  Step-lookup {f} k v (requests object_type new_func e) h =
      rw e (informer_for-lookup object_type new_func f k v h)
  Step-lookup {f} k v (starts range r e) h = rw e (rw start-informers h)

  Reach-lookup :
      {f g : SharedInformerFactory Object} (k : String) (v : SharedIndexInformer Object)
      → Reach f g
      → lookup k f.informers ≡ some v
      → lookup k g.informers ≡ some v
  Reach-lookup k v here h = h
  Reach-lookup k v (next r s) h = Step-lookup k v s (Reach-lookup k v r h)

  informer_for-marks :
      (object_type : String) (new_func : ℕ → SharedIndexInformer Object)
      (f : SharedInformerFactory Object)
      → (informer_for object_type new_func f).1.started_informers ≡ f.started_informers
  unfolding informer_for
  informer_for-marks object_type new_func f = elim (Option-cases (lookup object_type f.informers)) [
    | inl missing ↦ rw missing refl
    | inr found ↦ rw found.1 refl
  ]

  abbrev IsMarked : String → SharedInformerFactory Object → Type 0
  IsMarked k f = is_set (lookup k f.started_informers) ≡ true

  Step-marks :
      {f g : SharedInformerFactory Object} (k : String) → Step f g → IsMarked k f → IsMarked k g
  Step-marks {f} k (requests object_type new_func e) h = rw e (rw informer_for-marks h)
  Step-marks {f} k (starts range r e) h = rw e (marks-start range f k h)

  Reach-marks :
      {f g : SharedInformerFactory Object} (k : String) → Reach f g → IsMarked k f → IsMarked k g
  Reach-marks k here h = h
  Reach-marks k (next r s) h = Step-marks k s (Reach-marks k r h)

  pub registered-lookup :
      (object_type : String) (new_func : ℕ → SharedIndexInformer Object)
      (f : SharedInformerFactory Object)
      → lookup object_type (informer_for object_type new_func f).1.informers
        ≡ some (informer_for object_type new_func f).0
  unfolding informer_for
  registered-lookup object_type new_func f = elim (Option-cases (lookup object_type f.informers)) [
    | inl missing ↦ rw missing (rw lookup-insert (rw eq_refl refl))
    | inr found ↦ rw found.1 found.1
  ]

  found_registered :
      (object_type : String) (new_func : ℕ → SharedIndexInformer Object)
      (f : SharedInformerFactory Object) {v : SharedIndexInformer Object}
      → lookup object_type f.informers ≡ some v
      → informer_for object_type new_func f ≡ (v, f)
  unfolding informer_for
  found_registered object_type new_func f h = rw h refl

  -- The informer that was returned for a type is returned for it again, whatever was requested and
  -- started in between, and whatever constructor the caller brings; and the factory is then unchanged.
  pub informer_for-Reach :
      (object_type : String) (new_func other_func : ℕ → SharedIndexInformer Object)
      (f g : SharedInformerFactory Object)
      → Reach (informer_for object_type new_func f).1 g
      → informer_for object_type other_func g ≡ ((informer_for object_type new_func f).0, g)
  informer_for-Reach object_type new_func other_func f g r =
      found_registered object_type other_func g
        (Reach-lookup object_type _ r (registered-lookup object_type new_func f))

  module _ (default_resync : ℕ) (options : List (SharedInformerOption Object))
      (known : All IsOption options) where
    -- Whatever is requested and started on a new factory, in whatever order, an informer is run at most
    -- once for each type, and it is the one that the factory holds for that type. The options are
    -- those that the package offers.
    pub Reach-run_count :
        (g : SharedInformerFactory Object) (k : String)
        → Reach (new_shared_informer_factory_with_options default_resync options) g
        → (run_count k g.goroutines ≤ 1) × All (λ e. lookup e.0 g.informers ≡ some e.1) g.goroutines
    Reach-run_count g k r =
        let c = Reach-IsConsistent (new-IsConsistent default_resync options known) r in
        (ground (arith, c.counted k), c.held)

    -- On a new factory, every informer that was requested before a call of `Start` has been run exactly
    -- once after it, and whatever is called later; and then WaitForCacheSync reports for its type what
    -- the waiting for that informer answers. The options are those that the package offers.
    pub start-run_count :
        (f g : SharedInformerFactory Object) (range : Map (SharedIndexInformer Object)) (k : String)
        (v : SharedIndexInformer Object) (wait : SharedIndexInformer Object → Bool)
        → Reach (new_shared_informer_factory_with_options default_resync options) f
        → IsRangeOf range f.informers
        → lookup k f.informers ≡ some v
        → Reach (start range f) g
        → (run_count k g.goroutines ≡ 1) × (lookup k (wait_for_cache_sync wait g) ≡ some (wait v))
    start-run_count f g range k v wait before r h later =
        let c = Reach-IsConsistent (new-IsConsistent default_resync options known) before in
        let c' =
          Reach-IsConsistent (start-IsConsistent range f (IsRangeOf-IsKnown range f r) c) later in
        let marked = Reach-marks k later (marked-start range f k v (r.same k ∙ h)) in
        let kept : lookup k (start range f).informers ≡ some v = rw start-informers h in
        (
          c'.counted k ∙ ap (λ (b : Bool). if b then 1 else 0) marked,
          lookup-wait_for_cache_sync k wait g v marked c'.unique (Reach-lookup k v later kept),
        )
