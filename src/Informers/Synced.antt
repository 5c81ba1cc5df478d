-- ===== src/Informers/Synced.antt =====
-- What `WaitForCacheSync` waits for.
use mathlib.Core.Option
use net_gateway_api_obsolete.Prelude.{
  String, ◌≡◌, refl, ap, ◌∙◌, Bool, true, none, some, [], ◌∷◌, arith, eq_iff, if◌then◌else◌,
  Bool-cases, inl, inr,
}
use net_gateway_api_obsolete.GoMap.{
  Map, lookup, insert, lookup-insert, IsMap, IsMap-insert, or_else,
}
use net_gateway_api_obsolete.Informers.{
  SharedIndexInformer, SharedInformerFactory, is_set, started, sync_results, wait_for_cache_sync,
}

module _ {Object : Type 0} where
  started-IsMap :
      (range : Map (SharedIndexInformer Object)) (f : SharedInformerFactory Object)
      (snapshot : Map (SharedIndexInformer Object))
      → IsMap snapshot
      → IsMap (started range f snapshot)
  unfolding started
  started-IsMap [] f snapshot u = u
  started-IsMap ((j, informer) ∷ range) f snapshot u =
      elim (Bool-cases (is_set (lookup j f.started_informers))) [
        | inl marked ↦ rw marked (started-IsMap range f _ (IsMap-insert j informer snapshot u))
        | inr unmarked ↦ rw unmarked (started-IsMap range f snapshot u)
      ]

  -- A marked type keeps its informer.
  lookup-started :
      (k : String) (range : Map (SharedIndexInformer Object)) (f : SharedInformerFactory Object)
      (snapshot : Map (SharedIndexInformer Object))
      → is_set (lookup k f.started_informers) ≡ true
      → IsMap range
      → lookup k (started range f snapshot) ≡ or_else (lookup k range) (lookup k snapshot)
  unfolding started lookup
  lookup-started k [] f snapshot marked u = refl
  lookup-started k ((j, informer) ∷ range) f snapshot marked u =
      let next =
        if is_set (lookup j f.started_informers) then insert j informer snapshot else snapshot in
      ground (
        arith,
        eq_iff j k,
        lookup-insert j k informer snapshot,
        marked,
        u.0,
        lookup-started k range f next marked u.1,
      )

  lookup-sync_results :
      (k : String) (wait : SharedIndexInformer Object → Bool)
      (snapshot : Map (SharedIndexInformer Object)) (res : Map Bool)
      → IsMap snapshot
      → lookup k (sync_results wait snapshot res)
        ≡ or_else (Option.map wait (lookup k snapshot)) (lookup k res)
  unfolding sync_results lookup
  lookup-sync_results k wait [] res u = refl
  lookup-sync_results k wait ((j, informer) ∷ snapshot) res u = ground (
    arith,
    eq_iff j k,
    lookup-insert j k (wait informer) res,
    u.0,
    lookup-sync_results k wait snapshot (insert j (wait informer) res) u.1,
  )

  -- The result of a marked type is what the waiting for its informer answers.
  pub lookup-wait_for_cache_sync :
      (k : String) (wait : SharedIndexInformer Object → Bool) (f : SharedInformerFactory Object)
      (v : SharedIndexInformer Object)
      → is_set (lookup k f.started_informers) ≡ true
      → IsMap f.informers
      → lookup k f.informers ≡ some v
      → lookup k (wait_for_cache_sync wait f) ≡ some (wait v)
  unfolding wait_for_cache_sync lookup
  lookup-wait_for_cache_sync k wait f v marked u found =
      let taken : lookup k (started f.informers f []) ≡ some v =
        lookup-started k f.informers f [] marked u ∙ ap (λ o. or_else o none) found in
      lookup-sync_results k wait (started f.informers f []) [] (started-IsMap f.informers f [] tt)
      ∙ ap (λ o. or_else (Option.map wait o) none) taken
