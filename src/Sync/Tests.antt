-- ===== src/Sync/Tests.antt =====
-- The theorems on a whole reconciliation, at the sample ingress and the sample cluster.
use net_gateway_api_obsolete.Prelude.{
  ap, sym, String, Bool, List, ◌∷◌, ◌⊎◌, ◌==◌, All, true, Bool-cases, inl, inr, ◌≡◌, ◌≢◌, refl,
  false, ◌&&◌, ◌||◌, [],
}
use net_gateway_api_obsolete.Prelude.Outcome.{Outcome, ok_injective, Error, ok, err}
use net_gateway_api_obsolete.Hosts.{sort_strings, insert_string}
use net_gateway_api_obsolete.Config.Context.{from_context}
use net_gateway_api_obsolete.Resources.{
  longest_host, make_meta, gateway_config, make_http_route, make_http_route_spec,
  make_http_route_rule,
}
use net_gateway_api_obsolete.Readiness.{is_http_route_ready}
use net_gateway_api_obsolete.Reconcile.{
  created, State, RouteClient, with_desired, create_route, reconcile_http_route,
}
use net_gateway_api_obsolete.Samples.{rule, lib, ctx, http}
use net_gateway_api_obsolete.Samples.Routes.{sorted, desired, made}
use net_gateway_api_obsolete.Samples.Cluster.{
  client_laws, find, not_found, put, Cluster, Status, client, methods, conditions, knative, start,
  broken,
}
use net_gateway_api_obsolete.Reconcile.Cases.{reconcile_http_route-Ends, accepted}
use net_gateway_api_obsolete.Reconcile.Frame.{IsKept}
use net_gateway_api_obsolete.Objects.HttpRoute.{HttpRoute}
use net_gateway_api_obsolete.Sync.Returns.{Responds, IsServable, reconcile_kind_returns}
use net_gateway_api_obsolete.Config.{default_gateway}
use net_gateway_api_obsolete.Objects.Ingress.{
  Ingress, visibility_external_ip, visibility_cluster_local,
}
use net_gateway_api_obsolete.Sync.Frame.{IsQuiet, reconcile_kind_frame}
use net_gateway_api_obsolete.Sync.Converges.{reconcile_kind-converges}
use net_gateway_api_obsolete.Sync.{
  load_balancers, reconcile_rules, mark_load_balancer, reconcile_probed, reconcile_ingress,
  reconcile_kind,
}
use net_gateway_api_obsolete.Sync.Rules.{marked, IsSynced, reconcile_rules-IsSynced}
use net_gateway_api_obsolete.Sync.Outcomes.{failed, Reconciled, reconcile_kind-Reconciled}
use net_gateway_api_obsolete.Sync.Failures.{FailsIn, reconcile_kind-FailsIn}
use net_gateway_api_obsolete.Sync.Ready.{any_ready, reconcile_kind_ready}

abbrev done : State Status Cluster
done = (reconcile_kind lib client methods knative ctx start).1

run : reconcile_kind lib client methods knative ctx start ≡ (ok tt, done)
unfolding reconcile_kind reconcile_ingress reconcile_probed reconcile_rules reconcile_http_route
    mark_load_balancer create_route make_http_route longest_host sort_strings insert_string
    make_http_route_spec make_http_route_rule gateway_config from_context make_meta
    is_http_route_ready
run = refl

reconcile_kind-Reconciled_example : Reconciled lib client methods knative ctx start done
reconcile_kind-Reconciled_example =
    reconcile_kind-Reconciled lib client methods knative ctx start done run

reconcile_kind_ready_example :
    (r : Reconciled lib client methods knative ctx start done) × ((r.answer
        && done.ingress.status.ready)
      ≡ (r.answer && (r.probed.status.configured || any_ready r.routes)))
reconcile_kind_ready_example =
    reconcile_kind_ready lib client methods conditions knative ctx start done run

abbrev unlisted : State Status Cluster
unlisted = record start { world = record start.world { listed = false } }

abbrev stopped : State Status Cluster
stopped = (reconcile_kind lib client methods knative ctx unlisted).1

failed_run : reconcile_kind lib client methods knative ctx unlisted ≡ (err broken, stopped)
unfolding reconcile_kind reconcile_ingress reconcile_probed reconcile_rules reconcile_http_route
    longest_host sort_strings insert_string
failed_run = refl

no_error : (a : Ingress Status) (c : Error) → knative.set_defaults a ≢ err c
no_error a c h = cc

reconcile_kind-FailsIn_example :
    (u : State Status Cluster) × FailsIn lib client methods knative ctx unlisted broken u
    × (failed lib client methods knative ctx u ≡ stopped)
    × (stopped.ingress.status.ready ≡ false)
reconcile_kind-FailsIn_example =
    reconcile_kind-FailsIn lib client methods knative ctx conditions unlisted stopped broken
      no_error failed_run

abbrev synced : State Status Cluster
synced = (reconcile_rules lib client methods ctx 0 start.ingress.spec.rules start).1

rules_run :
    reconcile_rules lib client methods ctx 0 start.ingress.spec.rules start ≡ (ok tt, synced)
unfolding reconcile_rules reconcile_http_route create_route make_http_route longest_host
    sort_strings insert_string make_http_route_spec make_http_route_rule gateway_config from_context
    make_meta is_http_route_ready
rules_run = refl

reconcile_rules-IsSynced_example : IsSynced [] start.ingress.spec.rules start.ingress synced.ingress
reconcile_rules-IsSynced_example = reconcile_rules-IsSynced lib client methods ctx start rules_run

-- The lister works.
abbrev IsListed : Cluster → Type 0
IsListed w = w.listed ≡ true

put-IsListed : (route : HttpRoute) (w : Cluster) → IsListed w → IsListed (put route w).1
put-IsListed route w h = elim (Bool-cases w.accepts) [ inl e ↦ rw e h | inr n ↦ rw n h ]

kept : IsKept lib client IsListed start.ingress.meta
kept = record {
  create = λ w route owned h. put-IsListed route w h;
  update = λ w name cached to found owned h. put-IsListed (with_desired cached to) w h;
}

quiet : IsQuiet IsListed knative
quiet = record { set_defaults = λ a b h. cc; insert_probe = λ a. refl; is_ready = λ a w h. h }

reconcile_kind_frame_example :
    IsListed (reconcile_kind lib client methods knative ctx start).1.world
reconcile_kind_frame_example =
    reconcile_kind_frame lib client IsListed start.ingress.meta kept methods ctx knative quiet start
      refl refl

-- The sample cluster's client, whose lister works and whose server accepts all that it is sent.
abbrev open_client : RouteClient Cluster
open_client = record client {
  lister_get = λ w namespace name. find namespace name w.routes;
  create = λ namespace route w. put route (record w { accepts = true });
  update = λ namespace route w. put route (record w { accepts = true });
}

found_or_missing :
    (namespace name : String) (routes : List HttpRoute)
    → ((r : HttpRoute) × (find namespace name routes ≡ ok r))
      ⊎ ((e : Error) × (find namespace name routes ≡ err e) × (open_client.is_not_found e ≡ true))
found_or_missing namespace name [] = inr (not_found, refl, refl)
found_or_missing namespace name (q ∷ routes) =
    elim (Bool-cases ((q.namespace == namespace) && (q.name == name))) [
      | inl e ↦ inl (q, rw e refl)
      | inr n ↦ rw n (found_or_missing namespace name routes)
    ]

responds : Responds open_client
responds = record {
  lister_get = λ w namespace name. found_or_missing namespace name w.routes;
  create = λ namespace route w. (route, _, refl);
  update = λ namespace route w. (route, _, refl);
}

configured : gateway_config lib ctx ≡ ok default_gateway
unfolding gateway_config from_context
configured = refl

servable : All IsServable start.ingress.spec.rules
servable = (record { http = http; block = refl; host = λ h. cc }, tt)

answers :
    (a : Ingress Status) (w : Cluster)
    → (b : Bool) × (w' : Cluster) × (knative.is_ready a w ≡ (ok b, w'))
answers a w = (true, w, refl)

reconcile_kind_returns_example :
    (t : State Status Cluster) × (reconcile_kind lib open_client methods knative ctx start
      ≡ (ok tt, t))
reconcile_kind_returns_example =
    reconcile_kind_returns lib open_client responds ctx configured methods knative answers start
      refl refl servable

-- The state after the sample rule, before its marks.
abbrev routed : State Status Cluster
routed = record start {
  ingress = record start.ingress { spec = record start.ingress.spec { rules = sorted ∷ [] } };
  world = record start.world { routes = desired ∷ [] };
  events = created "a.example" ∷ [];
}

routed_run : reconcile_http_route lib client ctx 0 rule start ≡ (ok desired, routed)
routed_run = reconcile_http_route-Ends lib client ctx 0 rule start made (accepted refl refl refl)

not_ready : is_http_route_ready desired ≡ ok false
unfolding is_http_route_ready
not_ready = refl

abbrev marked_end : State Status Cluster
marked_end = marked methods false routed

-- what `done` is
full_run : reconcile_kind lib client methods knative ctx start ≡ (
  ok tt,
  record marked_end {
    ingress = record marked_end.ingress {
      status =
          methods.mark_load_balancer_ready
            (load_balancers lib default_gateway visibility_external_ip)
            (load_balancers lib default_gateway visibility_cluster_local)
            marked_end.ingress.status;
    };
  },
)
unfolding reconcile_kind reconcile_ingress reconcile_probed reconcile_rules mark_load_balancer
full_run = rw routed_run (rw not_ready (rw configured refl))

asked : knative.is_ready start.ingress marked_end.world ≡ (ok true, done.world)
asked = ap (λ (o : Outcome (Unit {0}) × State Status Cluster). (ok true, o.1.world)) (sym full_run)

marked_done :
    record marked_end.ingress {
      status =
          methods.mark_load_balancer_ready
            (load_balancers lib default_gateway visibility_external_ip)
            (load_balancers lib default_gateway visibility_cluster_local)
            marked_end.ingress.status;
    }
    ≡ done.ingress
marked_done = ap (λ (o : Outcome (Unit {0}) × State Status Cluster). o.1.ingress) (sym full_run)

shown :
    (name : String) (hosts : List String)
    → longest_host rule.hosts ≡ ok (name, hosts)
    → client.lister_get marked_end.world "ns" name ≡ ok desired
unfolding longest_host sort_strings insert_string
shown name hosts h =
    let same : "a.example" ≡ name = ap (λ (p : String × List String). p.0) (ok_injective h) in
    rw (← same) refl

abbrev ran : Reconciled lib client methods knative ctx start done
ran = record {
  before = start.ingress;
  defaulted = refl;
  hash = "hash";
  probed = start.ingress;
  inserted = refl;
  routes = desired ∷ [];
  end = marked_end;
  run = (routed, false, routed_run, not_ready, refl);
  answer = true;
  asked = asked;
  marked_by = (default_gateway, configured, marked_done);
}

-- The same ingress once more, the cluster as the first reconciliation left it.
abbrev again : State Status Cluster
again = record start { world = marked_end.world }

reconcile_kind-converges_example :
    ((reconcile_kind lib client methods knative ctx again).1.world ≡ again.world)
    × ((reconcile_kind lib client methods knative ctx again).1.events ≡ [])
reconcile_kind-converges_example =
    reconcile_kind-converges lib client methods ctx knative client_laws start done ran again refl
      refl refl refl (shown, tt)
