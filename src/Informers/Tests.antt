-- ===== src/Informers/Tests.antt =====
-- The theorems on the informers, at a factory for one namespace.
use net_gateway_api_obsolete.Prelude.{ℕ, ◌≤◌, ◌≡◌, true, ◌≢◌, ◌⊎◌, refl, some, [], ◌∷◌, All}
use net_gateway_api_obsolete.Prelude.Outcome.{errorf, ok, err}
use net_gateway_api_obsolete.Objects.{ObjectMeta}
use net_gateway_api_obsolete.GoMap.{Map, lookup, insert}
use net_gateway_api_obsolete.Informers.{
  SharedIndexInformer, SharedInformerFactory, TweakListOptions, with_namespace, informer_for, start,
  wait_for_cache_sync, new_shared_informer_factory_with_options,
  new_filtered_shared_informer_factory,
}
use net_gateway_api_obsolete.Informers.Runs.{
  run_count, IsRangeOf, Reach, here, next, requests, starts,
}
use net_gateway_api_obsolete.Informers.Fresh.{IsOption, namespaced}
use net_gateway_api_obsolete.Informers.Shared.{informer_for-Reach, Reach-run_count, start-run_count}
use net_gateway_api_obsolete.Informers.Generic.{
  GroupVersionResource, for_resource, gvr_of, for_resource-informer_of,
}
use net_gateway_api_obsolete.Informers.Resources.{http_routes, gateways, Accessor, informer_of}
use net_gateway_api_obsolete.Informers.Scopes.{Serves}
use net_gateway_api_obsolete.Informers.Uses.{unused, then_used, asks, informer_of-Serves}

-- Objects that are their metadata.
abbrev identity : ObjectMeta → ObjectMeta
identity m = m

abbrev tweak : TweakListOptions
tweak opts = record opts { label_selector = "app=web" }

abbrev new_func : ℕ → SharedIndexInformer ObjectMeta
new_func resync_period = record {
  list_watch =
      (informer_of identity http_routes
        (new_filtered_shared_informer_factory 30 "ns" tweak)).0.list_watch;
  object_type = "HTTPRoute";
  resync_period = resync_period;
  indexers = [];
}

abbrev empty : SharedInformerFactory ObjectMeta
empty = new_shared_informer_factory_with_options 30 (with_namespace "ns" ∷ [])

-- A factory that was asked for HTTPRoutes.
abbrev asked : SharedInformerFactory ObjectMeta
asked = (informer_for "HTTPRoute" new_func empty).1

known : All IsOption (with_namespace {Object = ObjectMeta} "ns" ∷ [])
known = (namespaced "ns" refl, tt)

abbrev range : Map (SharedIndexInformer ObjectMeta)
range = ("HTTPRoute", new_func 30) ∷ []

range-IsRangeOf : IsRangeOf range asked.informers
unfolding new_shared_informer_factory_with_options with_namespace informer_for lookup insert
range-IsRangeOf = record { unique = (refl, tt); same = λ k. refl }

reached : Reach empty asked
reached = next here (requests "HTTPRoute" new_func refl)

informer_for-Reach_example :
    informer_for "HTTPRoute" (λ resync_period. new_func 0) asked
    ≡ ((informer_for "HTTPRoute" new_func empty).0, asked)
informer_for-Reach_example =
    informer_for-Reach "HTTPRoute" new_func (λ resync_period. new_func 0) empty asked here

Reach-run_count_example :
    (run_count "HTTPRoute" (start range asked).goroutines ≤ 1)
    × All (λ e. lookup e.0 (start range asked).informers ≡ some e.1) (start range asked).goroutines
Reach-run_count_example =
    Reach-run_count 30 (with_namespace "ns" ∷ []) known (start range asked) "HTTPRoute"
      (next reached (starts range range-IsRangeOf refl))

found : lookup "HTTPRoute" asked.informers ≡ some (new_func 30)
unfolding new_shared_informer_factory_with_options with_namespace informer_for lookup insert
found = refl

start-run_count_example :
    (run_count "HTTPRoute" (start range asked).goroutines ≡ 1)
    × (lookup "HTTPRoute" (wait_for_cache_sync (λ v. true) (start range asked)) ≡ some true)
start-run_count_example =
    start-run_count 30 (with_namespace "ns" ∷ []) known asked (start range asked) range "HTTPRoute"
      (new_func 30) (λ v. true) reached range-IsRangeOf found here

abbrev filtered : SharedInformerFactory ObjectMeta
filtered = new_filtered_shared_informer_factory 30 "ns" tweak

abbrev filtered_asked : SharedInformerFactory ObjectMeta
filtered_asked = (informer_of identity gateways filtered).1

informer_of-Serves_example :
    Serves identity http_routes "ns"
      (some tweak)
      (informer_of identity http_routes filtered_asked).0
    × (lookup "HTTPRoute" (informer_of identity http_routes filtered_asked).1.informers
        ≡ some (informer_of identity http_routes filtered_asked).0)
informer_of-Serves_example =
    informer_of-Serves identity 30 "ns" tweak filtered_asked http_routes
      (then_used unused (asks gateways refl))

abbrev gvr : GroupVersionResource
gvr = record { group = "networking.x-k8s.io"; version = "v1alpha1"; resource = "httproutes" }

for_resource-informer_of_example :
    ((a : Accessor) × (gvr ≡ gvr_of a)
      × (for_resource identity gvr filtered ≡ (
        ok (record {
          informer = (informer_of identity a filtered).0;
          resource = record { group = gvr.group; resource = gvr.resource };
        }),
        (informer_of identity a filtered).1,
      )))
    ⊎ (((a : Accessor) → gvr ≢ gvr_of a)
        × (for_resource identity gvr filtered ≡ (
          err (errorf "no informer found for %v" (gvr.group ∷ gvr.version ∷ gvr.resource ∷ [])),
          filtered,
        )))
for_resource-informer_of_example = for_resource-informer_of identity gvr filtered
