-- ===== src/Informers.antt =====
-- The shared informer factory, pkg/client/gatewayapi/informers/externalversions/factory.go. client-go's
-- informers are the values that they are made from; what they do when they run is not modelled.
pub mod Resources
pub mod Access
pub mod Synced
pub mod Runs
pub mod Fresh
pub mod Shared
pub mod Scopes
pub mod Uses
pub mod Generic
mod Tests
use net_gateway_api_obsolete.Prelude.{
  ℕ, String, Bool, true, false, Option, none, some, List, [], ◌∷◌, if◌then◌else◌,
}
use net_gateway_api_obsolete.GoMap.{Map, lookup, insert, insert_all}
use net_gateway_api_obsolete.Clients.{ListOptions, RestRequest}

-- `TweakListOptionsFunc`
abbrev pub TweakListOptions : Type 0
TweakListOptions = ListOptions → ListOptions

-- `cache.ListWatch`: the requests that the two functions send.
pub record ListWatch (Object : Type 0) : Type 0 where
  pub list_func : ListOptions → RestRequest Object
  pub watch_func : ListOptions → RestRequest Object

-- What `cache.NewSharedIndexInformer` is given; `indexers` are the names of the index functions.
pub record SharedIndexInformer (Object : Type 0) : Type 0 where
  pub list_watch : ListWatch Object
  pub object_type : String
  pub resync_period : ℕ
  pub indexers : List String

-- `sharedInformerFactory`. The keys of its maps are the types of the objects. `goroutines` is no field
-- of the source: it records the calls of `go informer.Run`, the latest first. The client is left out: the
-- factory only hands it to the constructors of informers, whose functions are the requests that they
-- make of it.
pub record SharedInformerFactory (Object : Type 0) : Type 0 where
  pub namespace : String
  pub tweak_list_options : Option TweakListOptions
  pub default_resync : ℕ
  pub custom_resync : Map ℕ
  pub informers : Map (SharedIndexInformer Object)
  pub started_informers : Map Bool
  pub goroutines : List (String × SharedIndexInformer Object)

-- `v1.NamespaceAll`
abbrev pub namespace_all : String
namespace_all = ""

-- m[k] of a map of truth values, false for a missing key
abbrev pub is_set : Option Bool → Bool
is_set none = false
is_set (some b) = b

abbrev pub SharedInformerOption : Type 0 → Type 0
SharedInformerOption Object = SharedInformerFactory Object → SharedInformerFactory Object

-- a value of a map, or the default
abbrev pub or_default : ℕ → Option ℕ → ℕ
or_default d none = d
or_default d (some n) = n

module _ {Object : Type 0} where
  -- `WithCustomResyncConfig`, over the types of the configuration's keys
  unfoldable pub with_custom_resync_config : Map ℕ → SharedInformerOption Object
  with_custom_resync_config resync_config factory = record factory {
    custom_resync = insert_all resync_config factory.custom_resync;
  }

  -- `WithTweakListOptions`
  unfoldable pub with_tweak_list_options : TweakListOptions → SharedInformerOption Object
  with_tweak_list_options tweak factory = record factory { tweak_list_options = some tweak }

  -- `WithNamespace`
  unfoldable pub with_namespace : String → SharedInformerOption Object
  with_namespace namespace factory = record factory { namespace = namespace }

  abbrev pub apply_options :
      List (SharedInformerOption Object)
      → SharedInformerFactory Object
      → SharedInformerFactory Object
  apply_options [] factory = factory
  apply_options (opt ∷ opts) factory = apply_options opts (opt factory)

  abbrev pub empty_factory : ℕ → SharedInformerFactory Object
  empty_factory default_resync = record {
    namespace = namespace_all;
    tweak_list_options = none;
    default_resync = default_resync;
    custom_resync = [];
    informers = [];
    started_informers = [];
    goroutines = [];
  }

  -- `NewSharedInformerFactoryWithOptions`
  unfoldable pub new_shared_informer_factory_with_options :
      ℕ → List (SharedInformerOption Object) → SharedInformerFactory Object
  new_shared_informer_factory_with_options default_resync options =
      apply_options options (empty_factory default_resync)

  -- `NewSharedInformerFactory`
  unfoldable pub new_shared_informer_factory : ℕ → SharedInformerFactory Object
  unfolding new_shared_informer_factory_with_options
  new_shared_informer_factory default_resync =
      new_shared_informer_factory_with_options default_resync []

  -- `NewFilteredSharedInformerFactory`
  unfoldable pub new_filtered_shared_informer_factory :
      ℕ → String → TweakListOptions → SharedInformerFactory Object
  unfolding new_shared_informer_factory_with_options with_namespace with_tweak_list_options
  new_filtered_shared_informer_factory default_resync namespace tweak =
      new_shared_informer_factory_with_options default_resync
        (with_namespace namespace ∷ with_tweak_list_options tweak ∷ [])

  abbrev pub registered :
      Option (SharedIndexInformer Object)
      → String
      → (ℕ → SharedIndexInformer Object)
      → SharedInformerFactory Object
      → SharedIndexInformer Object × SharedInformerFactory Object
  registered (some informer) object_type new_func f = (informer, f)
  registered none object_type new_func f =
      let informer = new_func (or_default f.default_resync (lookup object_type f.custom_resync)) in
      (informer, record f { informers = insert object_type informer f.informers })

  -- `InformerFor`, under the lock
  unfoldable pub informer_for :
      String
      → (ℕ → SharedIndexInformer Object)
      → SharedInformerFactory Object
      → SharedIndexInformer Object × SharedInformerFactory Object
  informer_for object_type new_func f =
      registered (lookup object_type f.informers) object_type new_func f

  -- one round of the loop of `Start`
  unfoldable pub start_informer :
      String
      → SharedIndexInformer Object
      → SharedInformerFactory Object
      → SharedInformerFactory Object
  start_informer informer_type informer f =
      if is_set (lookup informer_type f.started_informers) then f else record f {
        goroutines = (informer_type, informer) ∷ f.goroutines;
        started_informers = insert informer_type true f.started_informers;
      }

  -- `Start`, under the lock; the first argument is the range over `f.informers` in the order that this
  -- call visits.
  unfoldable pub start :
      Map (SharedIndexInformer Object) → SharedInformerFactory Object → SharedInformerFactory Object
  unfolding start_informer
  start [] f = f
  start ((informer_type, informer) ∷ range) f =
      start range (start_informer informer_type informer f)

  -- The snapshot of the informers that were started.
  unfoldable pub started :
      Map (SharedIndexInformer Object)
      → SharedInformerFactory Object
      → Map (SharedIndexInformer Object)
      → Map (SharedIndexInformer Object)
  started [] f snapshot = snapshot
  started ((informer_type, informer) ∷ range) f snapshot = started range f (
      if is_set (lookup informer_type f.started_informers)
      then insert informer_type informer snapshot
      else snapshot)

  -- The results of the waiting.
  unfoldable pub sync_results :
      (SharedIndexInformer Object → Bool) → Map (SharedIndexInformer Object) → Map Bool → Map Bool
  sync_results wait [] res = res
  sync_results wait ((informer_type, informer) ∷ snapshot) res =
      sync_results wait snapshot (insert informer_type (wait informer) res)

  -- `WaitForCacheSync`; `wait` is what client-go's `cache.WaitForCacheSync` answers for an informer. The
  -- snapshot is taken under the lock, and the waiting is not.
  unfoldable pub wait_for_cache_sync :
      (SharedIndexInformer Object → Bool) → SharedInformerFactory Object → Map Bool
  unfolding started sync_results
  wait_for_cache_sync wait f = sync_results wait (started f.informers f []) []
