-- ===== src/Informers/Uses.antt =====
-- A factory under the calls of its users, by the typed accessors and by `ForResource`.
use net_gateway_api_obsolete.Prelude.{
  ℕ, String, ◌≢◌, ◌≡◌, refl, Option, some, [], ◌∷◌, Bool-cases, inl, inr, Option-cases,
}
use net_gateway_api_obsolete.Objects.{ObjectMeta}
use net_gateway_api_obsolete.GoMap.{Map, lookup}
use net_gateway_api_obsolete.Informers.{
  TweakListOptions, SharedIndexInformer, SharedInformerFactory, start, start_informer, is_set,
  new_filtered_shared_informer_factory,
}
use net_gateway_api_obsolete.Informers.Runs.{IsRangeOf}
use net_gateway_api_obsolete.Informers.Resources.{Accessor, informer_of}
use net_gateway_api_obsolete.Informers.Generic.{GroupVersionResource, accessor_for, for_resource}
use net_gateway_api_obsolete.Informers.Scopes.{
  type_of, Serves, IsScoped, informer_of-informer_for, informer_of-IsScoped,
}
use net_gateway_api_obsolete.Informers.Shared.{registered-lookup}

module _ {Object : Type 0} (meta : Object → ObjectMeta) where
  -- One call of a factory by its users: for a resource, or to start.
  pub data Use (f g : SharedInformerFactory Object) : Type 0 where
    asks : (a : Accessor) → g ≡ (informer_of meta a f).1 → Use f g
    asks_for : (gvr : GroupVersionResource) → g ≡ (for_resource meta gvr f).1 → Use f g
    starts :
        (range : Map (SharedIndexInformer Object))
        → IsRangeOf range f.informers
        → g ≡ start range f
        → Use f g

  pub data Used (f : SharedInformerFactory Object) : SharedInformerFactory Object → Type 0 where
    unused : Used f f
    then_used : {g h : SharedInformerFactory Object} → Used f g → Use g h → Used f h

  for_resource-IsScoped :
      (gvr : GroupVersionResource) (ns : String) (tweak : Option TweakListOptions)
      (f : SharedInformerFactory Object)
      → IsScoped meta ns tweak f
      → IsScoped meta ns tweak (for_resource meta gvr f).1
  unfolding for_resource
  for_resource-IsScoped gvr ns tweak f h = elim (Option-cases (accessor_for gvr)) [
    | inl missing ↦ rw missing h
    | inr found ↦ rw found.1 (informer_of-IsScoped meta found.0 ns tweak f h)
  ]

  start_informer-IsScoped :
      (k : String) (informer : SharedIndexInformer Object) (ns : String)
      (tweak : Option TweakListOptions) (f : SharedInformerFactory Object)
      → IsScoped meta ns tweak f
      → IsScoped meta ns tweak (start_informer k informer f)
  unfolding start_informer
  start_informer-IsScoped k informer ns tweak f h =
      elim (Bool-cases (is_set (lookup k f.started_informers))) [
        | inl old ↦ rw old h
        | inr new ↦ rw new (record {
          namespace = h.namespace;
          tweak_list_options = h.tweak_list_options;
          informers = h.informers;
        })
      ]

  start-IsScoped :
      (range : Map (SharedIndexInformer Object)) (ns : String) (tweak : Option TweakListOptions)
      (f : SharedInformerFactory Object)
      → IsScoped meta ns tweak f
      → IsScoped meta ns tweak (start range f)
  unfolding start
  start-IsScoped [] ns tweak f h = h
  start-IsScoped ((k, informer) ∷ range) ns tweak f h =
      start-IsScoped range ns tweak (start_informer k informer f)
        (start_informer-IsScoped k informer ns tweak f h)

  Used-IsScoped :
      {f g : SharedInformerFactory Object} (ns : String) (tweak : Option TweakListOptions)
      → IsScoped meta ns tweak f
      → Used f g
      → IsScoped meta ns tweak g
  Used-IsScoped ns tweak h unused = h
  Used-IsScoped ns tweak h (then_used {g} u (asks a e)) =
      rw e (informer_of-IsScoped meta a ns tweak g (Used-IsScoped ns tweak h u))
  Used-IsScoped ns tweak h (then_used {g} u (asks_for gvr e)) =
      rw e (for_resource-IsScoped gvr ns tweak g (Used-IsScoped ns tweak h u))
  Used-IsScoped ns tweak h (then_used {g} u (starts range r e)) =
      rw e (start-IsScoped range ns tweak g (Used-IsScoped ns tweak h u))

  new-IsScoped :
      (default_resync : ℕ) (ns : String) (tweak : TweakListOptions)
      → IsScoped meta ns (some tweak) (new_filtered_shared_informer_factory default_resync ns tweak)
  unfolding new_filtered_shared_informer_factory lookup
  new-IsScoped default_resync ns tweak = record {
    namespace = refl;
    tweak_list_options = refl;
    informers = λ a v found. cc;
  }

  pub held_informer :
      (f : SharedInformerFactory Object) (a : Accessor)
      → lookup (type_of a) (informer_of meta a f).1.informers ≡ some (informer_of meta a f).0
  held_informer f a = rw informer_of-informer_for (registered-lookup (type_of a) _ f)

  -- The first informer that a factory makes.
  pub fresh-Serves :
      (f : SharedInformerFactory Object)
      → f.informers ≡ []
      → (a : Accessor) → Serves meta a f.namespace f.tweak_list_options (informer_of meta a f).0
  unfolding lookup
  fresh-Serves f none_yet a =
      let before : IsScoped meta f.namespace f.tweak_list_options f = record {
        namespace = refl;
        tweak_list_options = refl;
        informers = λ b v found. absurd (none_found b v (rw none_yet at found));
      } in
      (informer_of-IsScoped meta a f.namespace f.tweak_list_options f before).informers a _
        (held_informer f a)
    where
      none_found : (b : Accessor) (v : SharedIndexInformer Object) → lookup (type_of b) [] ≢ some v
      none_found b v h = cc

  -- Whatever the users of a factory for one namespace and one tweak have asked for and started: the
  -- informer that any accessor then returns lists and watches the accessor's resource in that namespace
  -- (gateway classes in the cluster) with the options that the tweak leaves, and the factory holds it.
  pub informer_of-Serves :
      (default_resync : ℕ) (ns : String) (tweak : TweakListOptions)
      (f : SharedInformerFactory Object) (a : Accessor)
      → Used (new_filtered_shared_informer_factory default_resync ns tweak) f
      → Serves meta a ns (some tweak) (informer_of meta a f).0
        × (lookup (type_of a) (informer_of meta a f).1.informers ≡ some (informer_of meta a f).0)
  informer_of-Serves default_resync ns tweak f a used =
      let before = Used-IsScoped ns (some tweak) (new-IsScoped default_resync ns tweak) used in
      let after = informer_of-IsScoped meta a ns (some tweak) f before in
      (after.informers a _ (held_informer f a), held_informer f a)
