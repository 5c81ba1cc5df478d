-- ===== src/Clients/Tests.antt =====
-- The theorems on the generated clients, at an empty indexer and a server that returns what it is sent.
use net_gateway_api_obsolete.Prelude.{String, ◌≡◌, refl, Bool, true, none, some, [], arith}
use net_gateway_api_obsolete.Prelude.Outcome.{Error, external, Outcome, ok, err}
use net_gateway_api_obsolete.Prelude.Action.{Action}
use net_gateway_api_obsolete.Objects.{ObjectMeta}
use net_gateway_api_obsolete.Objects.HttpRoute.{HttpRoute}
use net_gateway_api_obsolete.Reconcile.{State}
use net_gateway_api_obsolete.Samples.{lib, ctx}
use net_gateway_api_obsolete.Samples.Cluster.{Status, ingress, methods}
use net_gateway_api_obsolete.Sync.{IngressMethods, reconcile_kind}
use net_gateway_api_obsolete.Sync.Frame.{IsQuiet}
use net_gateway_api_obsolete.Clients.{
  RestRequest, Body, object_body, delete_collection, list, watch_all, ListOptions, Scope, request,
}
use net_gateway_api_obsolete.Clients.Listers.{Indexer, object_key}
use net_gateway_api_obsolete.Clients.Routes.{
  Wire, Comparisons, generated_client, Sent, reconcile_kind-Sent,
}
use net_gateway_api_obsolete.Clients.Scopes.{request_timeout}

abbrev indexer : Indexer (Unit {0}) String HttpRoute
indexer = record {
  get_by_key = λ w key. ok none;
  list_all = λ w selector. ([], none);
  list_all_by_namespace = λ w namespace selector. ([], none);
  new_not_found = λ resource name. external "NotFound";
}

abbrev echo : Body HttpRoute → Outcome HttpRoute
echo (object_body route) = ok route
echo _ = err (external "BadRequest")

abbrev send : RestRequest HttpRoute → Action (Unit {0}) HttpRoute
send r w = (echo r.body, w)

abbrev is_not_found : Error → Bool
is_not_found e = true

abbrev comparisons : Comparisons
comparisons = record {
  is_not_found = is_not_found;
  deep_equal_spec = λ a b. true;
  deep_equal_map = λ a b. true;
}

abbrev start : State Status (Wire (Unit {0}))
start = record { ingress = ingress; world = record { world = tt; sent = [] }; events = [] }

indexed :
    (w : Unit {0}) (namespace name : String) (route : HttpRoute)
    → indexer.get_by_key w (object_key namespace name) ≡ ok (some route)
    → route.namespace ≡ namespace
indexed w namespace name route h = cc

-- The sample ingress's methods, over the wire.
abbrev knative : IngressMethods Status (Wire (Unit {0}))
knative = record {
  set_defaults = λ ing. ok ing;
  insert_probe = λ ing. (ok "hash", ing);
  is_ready = λ ing w. (ok true, w);
}

quiet : IsQuiet (Sent indexer send comparisons "ns") knative
quiet = record { set_defaults = λ a b h. cc; insert_probe = λ a. refl; is_ready = λ a w h. h }

reconcile_kind-Sent_example :
    Sent indexer send comparisons "ns"
      (reconcile_kind lib
        (generated_client indexer send comparisons)
        methods
        knative
        ctx
        start).1.world
reconcile_kind-Sent_example =
    reconcile_kind-Sent indexer send comparisons lib indexed methods knative ctx start quiet tt

abbrev route_meta : HttpRoute → ObjectMeta
route_meta route = route.meta

abbrev scope : Scope
scope = record { namespace = some "ns"; resource = "httproutes" }

abbrev opts : ListOptions
opts = record { timeout_seconds = some 30; watch = true; label_selector = ""; rest = "" }

request_timeout_example :
    ((request route_meta scope (list opts)).timeout ≡ some 30000000000)
    × ((request route_meta scope (watch_all opts)).timeout ≡ some 30000000000)
    × ((request route_meta scope (delete_collection "" opts)).timeout ≡ some 30000000000)
request_timeout_example = request_timeout route_meta scope opts 30 "" refl (omega arith)
