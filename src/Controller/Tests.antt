-- ===== src/Controller/Tests.antt =====
-- The theorem on the controller's events, at the sample ingress and a route of one of its rules.
use net_gateway_api_obsolete.Prelude.{
  String, Bool, true, ◌||◌, Option, none, some, List, [], ◌∷◌, ◌==◌, if◌then◌else◌,
}
use net_gateway_api_obsolete.Prelude.Outcome.{ok}
use net_gateway_api_obsolete.GoMap.{lookup}
use net_gateway_api_obsolete.Objects.{ObjectMeta, OwnerReference}
use net_gateway_api_obsolete.Objects.Ingress.{IngressRule, visibility_external_ip}
use net_gateway_api_obsolete.Objects.HttpRoute.{HttpRoute, gateway_allow_from_list}
use net_gateway_api_obsolete.Samples.{lib}
use net_gateway_api_obsolete.Samples
use net_gateway_api_obsolete.Resources.{make_meta}
use net_gateway_api_obsolete.Injection.{InjectionContext}
use net_gateway_api_obsolete.Controller.{
  NamespacedName, EnqueueFunc, enqueue, enqueue_controller_of, Handler, handle_all,
  on_deleted_observer, Registration, InformerEvent, added, updated, deleted, EventLibrary,
  gateway_api_ingress_class_name,
}

abbrev has_annotation : Option String → String → Bool → Bool
has_annotation none value allow = allow
has_annotation (some v) value allow = v == value

abbrev controller_keys : String → List OwnerReference → List NamespacedName
controller_keys ns [] = []
controller_keys ns (o ∷ os) = record { namespace = ns; name = o.name } ∷ []

abbrev keys : EnqueueFunc → ObjectMeta → List NamespacedName
keys enqueue m = record { namespace = m.namespace; name = m.name } ∷ []
keys enqueue_controller_of m = controller_keys m.namespace m.owner_references

abbrev passes : Option (ObjectMeta → Bool) → ObjectMeta → Bool
passes none m = true
passes (some f) m = f m

abbrev on_change : Handler → ObjectMeta → List NamespacedName
on_change (handle_all g) m = keys g m
on_change on_deleted_observer m = []

-- An update of which one object passes is an addition or a deletion.
abbrev deliver : Registration → InformerEvent → List NamespacedName
deliver r (added new) = if passes r.filter_func new then on_change r.handler new else []
deliver r (updated old new) =
    if passes r.filter_func old || passes r.filter_func new then on_change r.handler new else []
deliver r (deleted old) = if passes r.filter_func old then on_change r.handler old else []

abbrev ev : EventLibrary
ev = record {
  annotation_filter_func =
      λ key value allow m. has_annotation (lookup key m.annotations) value allow;
  keys = keys;
  deliver = deliver;
  ingress_informer_get = ok tt;
  endpoints_informer_get = ok tt;
}

-- Objects that are their metadata.
abbrev identity : ObjectMeta → ObjectMeta
identity m = m

abbrev ctx : InjectionContext String String ObjectMeta
ctx = record {
  config = some "config";
  namespace_scope = none;
  resync_period = 30;
  client = some "client";
  factory = none;
  informers = [];
  label_selectors = none;
  filtered_factories = [];
  filtered_informers = [];
}

abbrev rule : IngressRule
rule = record {
  hosts = "a.example" ∷ [];
  visibility = visibility_external_ip;
  http = some (record { paths = [] });
}

abbrev ing : ObjectMeta
ing = record Samples.meta {
  annotations = ("networking.knative.dev/ingress.class", gateway_api_ingress_class_name) ∷ [];
}

-- An ingress of another class.
abbrev other : ObjectMeta
other = record ing { annotations = ("networking.knative.dev/ingress.class", "istio") ∷ [] }

abbrev made : HttpRoute × IngressRule
made = (
  record {
    meta = make_meta lib ing visibility_external_ip "a.example";
    spec = record {
      hostnames = "a.example" ∷ [];
      rules = [];
      gateways = some (record {
        allow = some gateway_allow_from_list;
        gateway_refs = record { namespace = "istio-system"; name = "knative-gateway" } ∷ [];
      });
    };
    status = record { gateways = none };
  },
  rule,
)
