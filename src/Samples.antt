-- ===== src/Samples.antt =====
-- A concrete instance of every parameter, and one ingress: what the tests of the other modules run on.
pub mod Cluster
pub mod Routes
pub mod Tracker
use Prim.Native.Nat.{compare, Ordering}
use Prim.Native.Char.{Char, code}
use Prim.Native.String.{[], ◌∷◌}
use mathlib.Core.List.{[], ◌∷◌}
use net_gateway_api_obsolete.Prelude.{
  ℕ, String, ◌≡◌, Bool, true, false, none, some, List, if◌then◌else◌, arith, eq_iff, ap,
}
use net_gateway_api_obsolete.Prelude.Outcome.{errorf}
use net_gateway_api_obsolete.GoMap.{Map, lookup, insert_all, lookup-insert_all, IsMap}
use net_gateway_api_obsolete.Libraries.{Libraries, KmetaLaws, MetaNamespaceKey}
use net_gateway_api_obsolete.Objects.{ObjectMeta}
use net_gateway_api_obsolete.Objects.Ingress.{
  IngressSpec, IngressRule, IntOrString, int_val, str_val, HttpIngressPath, HttpIngressRuleValue,
  IngressBackendSplit, visibility_external_ip,
}
use net_gateway_api_obsolete.Config.{default_gateway}
use net_gateway_api_obsolete.Config.Context.{Context}

abbrev is_slash : Char → Bool
is_slash c = elim (compare (code c) 47) [ Ordering.eq ↦ true | _ ↦ false ]

-- The part of a text before its first slash, and the parts after the slashes.
abbrev prepend : Char → List String → List String
prepend c [] = (c ∷ "") ∷ []
prepend c (s ∷ parts) = (c ∷ s) ∷ parts

abbrev split_slashes : String → List String
split_slashes [] = "" ∷ []
split_slashes (c ∷ s) =
    let parts = split_slashes s in if is_slash c then "" ∷ parts else prepend c parts

abbrev key_of : String → List String → MetaNamespaceKey
key_of key (name ∷ []) = record { namespace = ""; name = name; error = none }
key_of key (namespace ∷ name ∷ []) = record { namespace = namespace; name = name; error = none }
key_of key _ = record {
  namespace = "";
  name = "";
  error = some (errorf "unexpected key format: %q" (key ∷ []));
}

abbrev filter_map : Map String → (String → Bool) → Map String
filter_map [] f = []
filter_map ((k, v) ∷ m) f = let rest = filter_map m f in if f k then rest else (k, v) ∷ rest

abbrev int_value : IntOrString → ℕ
int_value (int_val n) = n
int_value (str_val s) = 0

abbrev pub lib : Libraries
lib = record {
  union_maps = λ a b. insert_all b a;
  filter_map = filter_map;
  new_controller_ref = λ meta. record {
    api_version = "networking.internal.knative.dev/v1alpha1";
    kind = "Ingress";
    name = meta.name;
    uid = meta.uid;
    controller = true;
    block_owner_deletion = true;
  };
  split_meta_namespace_key = λ key. key_of key (split_slashes key);
  int_value = int_value;
  get_service_hostname = λ name namespace. name;
}

lookup-filter_map :
    (k : String) (m : Map String) (f : String → Bool)
    → IsMap m
    → lookup k (filter_map m f) ≡ (if f k then none else lookup k m)
unfolding lookup
lookup-filter_map k [] f u = ground arith
lookup-filter_map k ((j, v) ∷ m) f u = ground (arith, eq_iff j k, ap f, lookup-filter_map k m f u.1)

pub lib_laws : KmetaLaws lib
lib_laws = record {
  lookup-union_maps = λ k a b u v. lookup-insert_all k b a v;
  lookup-filter_map = lookup-filter_map;
}

abbrev pub ctx : Context (Unit {0})
ctx = record { value = some (some (record { network = some tt; gateway = some default_gateway })) }

abbrev pub split_of : String → ℕ → IngressBackendSplit
split_of service percent = record {
  backend = record { service_namespace = "ns"; service_name = service; service_port = int_val 80 };
  percent = percent;
  append_headers = ("K-Revision", service) ∷ [];
}

abbrev pub path : HttpIngressPath
path = record {
  path = "";
  rewrite_host = "inner.example";
  headers = none;
  splits = split_of "old" 90 ∷ split_of "new" 10 ∷ [];
  append_headers = some (("K-Path", "1") ∷ []);
}

abbrev pub http : HttpIngressRuleValue
http = record { paths = path ∷ [] }

abbrev pub rule : IngressRule
rule = record {
  hosts = "b.example" ∷ "a.example" ∷ [];
  visibility = visibility_external_ip;
  http = some http;
}

abbrev pub meta : ObjectMeta
meta = record {
  name = "hello";
  namespace = "ns";
  uid = "1";
  labels = ("app", "hello") ∷ [];
  annotations = ("kubectl.kubernetes.io/last-applied-configuration", "{}") ∷ ("note", "kept") ∷ [];
  owner_references = [];
}

abbrev pub spec : IngressSpec
spec = record { rules = rule ∷ []; http_option = "Enabled" }
