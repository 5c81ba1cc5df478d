-- ===== src/Informers/Fresh.antt =====
-- A factory that was just made: nothing was requested, and nothing was run.
use net_gateway_api_obsolete.Prelude.{ℕ, String, ◌≡◌, refl, List, [], ◌∷◌, All}
use net_gateway_api_obsolete.GoMap.{Map, lookup}
use net_gateway_api_obsolete.Informers.{
  SharedInformerFactory, SharedInformerOption, TweakListOptions, empty_factory, apply_options,
  new_shared_informer_factory_with_options, with_namespace, with_tweak_list_options,
  with_custom_resync_config,
}
use net_gateway_api_obsolete.Informers.Runs.{IsConsistent}

module _ {Object : Type 0} where
  -- The three options that the package offers.
  pub data IsOption (o : SharedInformerOption Object) : Type 0 where
    namespaced : (namespace : String) → o ≡ with_namespace namespace → IsOption o
    tweaked : (tweak : TweakListOptions) → o ≡ with_tweak_list_options tweak → IsOption o
    resynced : (config : Map ℕ) → o ≡ with_custom_resync_config config → IsOption o

  -- Nothing was requested, and nothing was run.
  record IsFresh (f : SharedInformerFactory Object) : Type 0 where
    informers : f.informers ≡ []
    marks : f.started_informers ≡ []
    goroutines : f.goroutines ≡ []

  IsOption-IsFresh :
      (o : SharedInformerOption Object) (f : SharedInformerFactory Object)
      → IsOption o
      → IsFresh f
      → IsFresh (o f)
  unfolding with_namespace with_tweak_list_options with_custom_resync_config
  IsOption-IsFresh o f (namespaced namespace e) h =
      rw e (record { informers = h.informers; marks = h.marks; goroutines = h.goroutines })
  IsOption-IsFresh o f (tweaked tweak e) h =
      rw e (record { informers = h.informers; marks = h.marks; goroutines = h.goroutines })
  IsOption-IsFresh o f (resynced config e) h =
      rw e (record { informers = h.informers; marks = h.marks; goroutines = h.goroutines })

  apply_options-IsFresh :
      (opts : List (SharedInformerOption Object)) (f : SharedInformerFactory Object)
      → All IsOption opts
      → IsFresh f
      → IsFresh (apply_options opts f)
  apply_options-IsFresh [] f a h = h
  apply_options-IsFresh (o ∷ opts) f a h =
      apply_options-IsFresh opts (o f) a.1 (IsOption-IsFresh o f a.0 h)

  IsFresh-IsConsistent : (f : SharedInformerFactory Object) → IsFresh f → IsConsistent f
  unfolding lookup
  IsFresh-IsConsistent f h = record {
    counted = λ k. rw (h.goroutines, h.marks) refl;
    held = rw h.goroutines tt;
    unique = rw h.informers tt;
  }

  pub new-IsConsistent :
      (default_resync : ℕ) (options : List (SharedInformerOption Object))
      → All IsOption options
      → IsConsistent (new_shared_informer_factory_with_options default_resync options)
  unfolding new_shared_informer_factory_with_options
  new-IsConsistent default_resync options known = IsFresh-IsConsistent _ (
      apply_options-IsFresh options (empty_factory default_resync) known
        (record { informers = refl; marks = refl; goroutines = refl }))
