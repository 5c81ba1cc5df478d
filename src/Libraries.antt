-- ===== src/Libraries.antt =====
-- What the code calls of the libraries that it vendors, as parameters, and what it relies on.
use net_gateway_api_obsolete.Prelude.{ℕ, String, ◌≡◌, Bool, Option, none, if◌then◌else◌}
use net_gateway_api_obsolete.Prelude.Outcome.{Error}
use net_gateway_api_obsolete.GoMap.{Map, lookup, IsMap, or_else}
use net_gateway_api_obsolete.Objects.{ObjectMeta, OwnerReference}
use net_gateway_api_obsolete.Objects.Ingress.{IntOrString}

-- The three results of `cache.SplitMetaNamespaceKey`; callers may read the first two beside an error.
pub record MetaNamespaceKey : Type 0 where
  pub namespace : String
  pub name : String
  pub error : Option Error

-- knative.dev/pkg/kmeta and network, k8s.io/client-go/tools/cache, k8s.io/apimachinery intstr
pub record Libraries : Type 0 where
  pub union_maps : Map String → Map String → Map String
  pub filter_map : Map String → (String → Bool) → Map String
  pub new_controller_ref : ObjectMeta → OwnerReference
  pub split_meta_namespace_key : String → MetaNamespaceKey
  pub int_value : IntOrString → ℕ
  pub get_service_hostname : String → String → String

-- "UnionMaps returns a map constructed from the union of input maps, where values from latter maps
-- win." "FilterMap creates a copy of the provided map, filtering out the elements that match."
pub record KmetaLaws (lib : Libraries) : Type 0 where
  pub lookup-union_maps :
      (k : String) (a b : Map String)
      → IsMap a
      → IsMap b
      → lookup k (lib.union_maps a b) ≡ or_else (lookup k b) (lookup k a)
  pub lookup-filter_map :
      (k : String) (m : Map String) (f : String → Bool)
      → IsMap m
      → lookup k (lib.filter_map m f) ≡ (if f k then none else lookup k m)
