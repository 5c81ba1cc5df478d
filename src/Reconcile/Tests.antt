-- ===== src/Reconcile/Tests.antt =====
-- The theorems on the reconciliation of one rule, at the sample rule and the sample cluster.
use net_gateway_api_obsolete.Prelude.{
  String, ◌≡◌, ◌↔◌, refl, Bool, true, false, ◌&&◌, sym, ap, ◌∙◌, Bool-cases, inl, inr, List, [],
  ◌∷◌, arith, ◌==◌, eq_iff, if◌then◌else◌,
}
use net_gateway_api_obsolete.Prelude.Outcome.{wrap, Outcome, ok, err}
use net_gateway_api_obsolete.Objects.HttpRoute.{HttpRoute}
use net_gateway_api_obsolete.Reconcile.{
  State, created, creation_failed, with_desired, reconcile_http_route,
}
use net_gateway_api_obsolete.Reconcile.Cases.{
  Ends, kept, updated, accepted, create_refused, unlisted, reconcile_http_route_iff,
  reconcile_http_route-Ends,
}
use net_gateway_api_obsolete.Reconcile.Frame.{IsKept, reconcile_http_route_frame}
use net_gateway_api_obsolete.Reconcile.SortedHosts.{with_rule}
use net_gateway_api_obsolete.Samples.{lib, ctx, rule, meta}
use net_gateway_api_obsolete.Samples.Routes.{sorted, desired, made}
use net_gateway_api_obsolete.Samples.Cluster.{
  Cluster, Status, client, start, find, put, refused, broken,
}

-- a state whose cluster has these routes
abbrev holding : List HttpRoute → State Status Cluster
holding routes = record start { world = record start.world { routes = routes } }

abbrev settled : State Status Cluster → State Status Cluster
settled s = record s { ingress = with_rule 0 sorted s.ingress }

abbrev refusing : State Status Cluster
refusing = record start { world = record start.world { accepts = false } }

abbrev unlisted_start : State Status Cluster
unlisted_start = record start { world = record start.world { listed = false } }

abbrev run : State Status Cluster → Outcome HttpRoute × State Status Cluster
run s = reconcile_http_route lib client ctx 0 rule s

abbrev done : State Status Cluster
done = record (holding (desired ∷ [])) {
  ingress = (settled start).ingress;
  events = created "a.example" ∷ [];
}

-- What the API server refuses is recorded and comes back wrapped.
reconcile_http_route_iff_example :
    (run refusing ≡ (
      err (wrap "failed to create HTTPRoute: %w" refused),
      record (settled refusing) { events = creation_failed refused ∷ [] },
    ))
    ↔ Ends lib client ctx 0 rule refusing made
        (err (wrap "failed to create HTTPRoute: %w" refused))
        (record (settled refusing) { events = creation_failed refused ∷ [] })
reconcile_http_route_iff_example = reconcile_http_route_iff lib client ctx 0 rule refusing made

refused_run : run refusing ≡ (
  err (wrap "failed to create HTTPRoute: %w" refused),
  record (settled refusing) { events = creation_failed refused ∷ [] },
)
refused_run =
    reconcile_http_route-Ends lib client ctx 0 rule refusing made (create_refused refl refl refl)

unlisted_run : run unlisted_start ≡ (err broken, settled unlisted_start)
unlisted_run =
    reconcile_http_route-Ends lib client ctx 0 rule unlisted_start made (unlisted refl refl)

kept_run : run (holding (desired ∷ [])) ≡ (ok desired, settled (holding (desired ∷ [])))
kept_run =
    reconcile_http_route-Ends lib client ctx 0 rule (holding (desired ∷ [])) made (kept refl refl)

-- the desired route without its labels
abbrev unlabelled : HttpRoute
unlabelled = record desired { meta = record desired.meta { labels = [] } }

updated_run :
    run (holding (unlabelled ∷ [])) ≡ (ok desired, settled (holding (desired ∷ unlabelled ∷ [])))
updated_run =
    reconcile_http_route-Ends lib client ctx 0 rule (holding (unlabelled ∷ [])) made
      (updated refl refl refl)

first_run : run start ≡ (ok desired, done)
first_run = reconcile_http_route-Ends lib client ctx 0 rule start made (accepted refl refl refl)

-- The cluster shows this route under the namespace "other".
abbrev Shows : HttpRoute → Cluster → Type 0
Shows r w = find "other" "x" w.routes ≡ ok r

find-namespace :
    (namespace name : String) (routes : List HttpRoute) {r : HttpRoute}
    → find namespace name routes ≡ ok r
    → r.namespace ≡ namespace
find-namespace namespace name [] h = cc
find-namespace namespace name (q ∷ routes) {r} h =
    elim (Bool-cases ((q.namespace == namespace) && (q.name == name))) [
      | inl e ↦
          let same : q ≡ r = cc (rw e at h) in
          ap (λ (x : HttpRoute). x.namespace) (sym same)
          ∙ (eq_iff q.namespace namespace).0 (ground (arith, e))
      | inr n ↦ find-namespace namespace name routes (rw n at h)
    ]

abbrev foreign : HttpRoute
foreign = record desired { meta = record desired.meta { name = "x"; namespace = "other" } }

put-Shows :
    (route r : HttpRoute) (w : Cluster)
    → route.namespace ≡ "ns"
    → Shows r w
    → Shows r (put route w).1
put-Shows route r w own h = elim (Bool-cases w.accepts) [ inl e ↦ rw e (rw own h) | inr n ↦ rw n h ]

listed-namespace :
    (b : Bool) (name : String) (routes : List HttpRoute) {r : HttpRoute}
    → (if b then find "ns" name routes else err broken) ≡ ok r
    → r.namespace ≡ "ns"
listed-namespace true name routes h = find-namespace "ns" name routes h
listed-namespace false name routes h = cc

is_kept : IsKept lib client (Shows foreign) meta
is_kept = record {
  create = λ w route owned h. put-Shows route foreign w owned.namespace h;
  update = λ w name cached to found owned h.
      put-Shows (with_desired cached to) foreign w (listed-namespace w.listed name w.routes found)
        h;
}

-- The route "x" of another namespace outlives the reconciliation.
reconcile_http_route_frame_example : Shows foreign (run (holding (foreign ∷ []))).1.world
reconcile_http_route_frame_example =
    reconcile_http_route_frame lib client (Shows foreign) meta ctx is_kept 0
      (holding (foreign ∷ [])) rule refl refl
