-- ===== src/Fakes/Tests.antt =====
-- The theorem on the fake clients, at the update of a status.
use net_gateway_api_obsolete.Prelude.{ap, ◌≢◌, List, refl, ◌≡◌, true, some, none, [], ◌∷◌, All, map}
use net_gateway_api_obsolete.Objects.{ObjectMeta}
use net_gateway_api_obsolete.Clients.{Call, get, create, update_status}
use net_gateway_api_obsolete.Clients.Scopes.{seven, distinct, resources, namespaces}
use net_gateway_api_obsolete.Samples.Tracker.{identity, tracker_lib, tracker_laws, Entry, Chain}
use net_gateway_api_obsolete.Prelude.Outcome.{ok}
use net_gateway_api_obsolete.Informers.Resources.{http_routes, gateways}
use net_gateway_api_obsolete.Informers.Scopes.{type_of}
use net_gateway_api_obsolete.Fakes.{an_object, fake_call, fake_action}
use net_gateway_api_obsolete.Fakes.Resources.{fake_http_routes}
use net_gateway_api_obsolete.Fakes.Simple.{
  FakeClient, add_objects, simple_clientset, new_simple_clientset, client_call, simple_networking,
  http_routes_fake,
}
use net_gateway_api_obsolete.Fakes.Served.{fake_client, stored_namespace}
use net_gateway_api_obsolete.Fakes.Tracked.{new_simple_clientset-get, client_call_created}
use net_gateway_api_obsolete.Fakes.Actions.{
  action_request, without_options, kinds, described, described_call, fake_seven, InGroup,
  fake_seven-seven,
}

abbrev object : ObjectMeta
object = record {
  name = "web";
  namespace = "ns";
  uid = "1";
  labels = [];
  annotations = [];
  owner_references = [];
}

abbrev call : Call ObjectMeta
call = update_status object ""

fake_seven-seven_example :
    (map (action_request identity) (fake_seven identity "ns" call)
      ≡ map (without_options identity) (seven identity "ns" call))
    × All (InGroup identity) (fake_seven identity "ns" call)
    × (map (described identity) (fake_seven identity "ns" call)
        ≡ map (described_call identity call) kinds)
    × (distinct (resources identity (seven identity "ns" call)) ≡ true)
    × (namespaces identity (seven identity "ns" call)
        ≡ some "ns" ∷ some "ns" ∷ some "ns" ∷ some "ns" ∷ some "ns" ∷ some "ns" ∷ none ∷ [])
fake_seven-seven_example = fake_seven-seven identity "ns" call

abbrev blank : ObjectMeta
blank = record object { name = ""; namespace = "" }

abbrev two : List ObjectMeta
two = object ∷ record object { name = "api" } ∷ []

abbrev filled : List Entry
filled = (new_simple_clientset tracker_lib two []).1

filled_run :
    new_simple_clientset tracker_lib two [] ≡ (ok (simple_clientset tracker_lib tt), filled)
unfolding new_simple_clientset add_objects
filled_run = refl

abbrev routes_client : FakeClient Chain
routes_client = fake_client http_routes (simple_networking (simple_clientset tracker_lib tt)) "ns"

in_scope :
    (tracker_laws.kind_of object ≡ type_of http_routes)
    × (stored_namespace routes_client.scope.namespace ≡ "ns")
unfolding simple_networking http_routes_fake fake_http_routes tracker_laws
in_scope = (refl, refl)

not_gateways : http_routes ≢ gateways
not_gateways h = apart (ap type_of h)
  where
    apart : type_of http_routes ≢ type_of gateways
    apart e = cc

new_simple_clientset-get_example :
    (client_call tracker_lib identity blank routes_client (get "web" "") filled).0
    ≡ ok (an_object (some object) none)
new_simple_clientset-get_example =
    new_simple_clientset-get tracker_lib identity tracker_laws blank [] object
      (record object { name = "api" } ∷ []) [] filled http_routes "ns" "" not_gateways in_scope.0
      filled_run in_scope.1

created_run : client_call tracker_lib identity blank routes_client (create object "") [] ≡ (
  ok (an_object (some object) none),
  (client_call tracker_lib identity blank routes_client (create object "") []).1,
)
unfolding client_call fake_call fake_action simple_clientset simple_networking http_routes_fake
    fake_http_routes
created_run = refl

client_call_created_example :
    (client_call tracker_lib identity blank routes_client
      (get "web" "")
      (client_call tracker_lib identity blank routes_client (create object "") []).1).0
    ≡ ok (an_object (some object) none)
client_call_created_example =
    client_call_created tracker_lib identity tracker_laws blank tt http_routes "ns" object object []
      _ "" "" created_run
