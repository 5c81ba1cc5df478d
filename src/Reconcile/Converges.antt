-- ===== src/Reconcile/Converges.antt =====
-- The route that `reconcileHTTPRoute`, pkg/reconciler/ingress/reconcile_resources.go, returns is as desired.
use net_gateway_api_obsolete.Prelude.{ℕ, String, ◌≡◌, refl, true, false, List, [], ◌∷◌, ◌++◌}
use net_gateway_api_obsolete.Prelude.Outcome.{ok_injective, Outcome, ok}
use net_gateway_api_obsolete.GoMap.{Map}
use net_gateway_api_obsolete.Objects.Ingress.{IngressRule}
use net_gateway_api_obsolete.Objects.HttpRoute.{HttpRoute, HttpRouteSpec}
use net_gateway_api_obsolete.Libraries.{Libraries}
use net_gateway_api_obsolete.Config.Context.{Context}
use net_gateway_api_obsolete.Resources.{make_http_route}
use net_gateway_api_obsolete.Reconcile.{
  Event, State, RouteClient, created, differs, with_desired, reconcile_http_route,
}
use net_gateway_api_obsolete.Reconcile.Branches.{sorted_state}
use net_gateway_api_obsolete.Reconcile.Cases.{
  Ends, kept, updated, update_refused, update_panicked, accepted, create_refused, create_panicked,
  unlisted, lister_panicked, reconcile_http_route_iff,
}

-- The parts of a route that are sent: the API server returns them as it was given them.
pub record SameDesired (a b : HttpRoute) : Type 0 where
  pub spec : a.spec ≡ b.spec
  pub annotations : a.annotations ≡ b.annotations
  pub labels : a.labels ≡ b.labels

pub record ServerLaws {World : Type 0} (client : RouteClient World) : Type 0 where
  pub create_keeps :
      (namespace : String) (route r : HttpRoute) (w w' : World)
      → client.create namespace route w ≡ (ok r, w')
      → SameDesired r route
  pub update_keeps :
      (namespace : String) (route r : HttpRoute) (w w' : World)
      → client.update namespace route w ≡ (ok r, w')
      → SameDesired r route
  pub deep_equal_spec_refl : (a : HttpRouteSpec) → client.deep_equal_spec a a ≡ true
  pub deep_equal_map_refl : (m : Map String) → client.deep_equal_map m m ≡ true

module _ {World : Type 0} (client : RouteClient World) (laws : ServerLaws client) where
  not-differs : (r desired : HttpRoute) → SameDesired r desired → differs client r desired ≡ false
  not-differs r desired h =
      simp (h.spec, h.annotations, h.labels, laws.deep_equal_spec_refl, laws.deep_equal_map_refl)

module _ {Status World Network : Type 0} (lib : Libraries) (client : RouteClient World)
    (laws : ServerLaws client) (ctx : Context Network) (i : ℕ) (rule : IngressRule)
    (s : State Status World) {desired : HttpRoute} {sorted : IngressRule}
    (made : make_http_route lib ctx s.ingress.meta rule ≡ ok (desired, sorted)) where
  abbrev start : State Status World
  start = sorted_state lib client ctx i rule s made

  -- What is left of a call that returned a route: the ingress with the hosts sorted, and a route
  -- that is as desired.
  record IsSettled (r : HttpRoute) (t : State Status World) : Type 0 where
    world : World
    events : List Event
    state : t ≡ record start { world = world; events = events }
    as_desired : differs client r desired ≡ false

  sent_back :
      (cached r : HttpRoute) → SameDesired r (with_desired cached desired) → SameDesired r desired
  sent_back cached r k = record { spec = k.spec; annotations = k.annotations; labels = k.labels }

  settled :
      {o : Outcome HttpRoute} {t : State Status World}
      → Ends lib client ctx i rule s made o t
      → {r : HttpRoute} → o ≡ ok r
      → IsSettled r t
  settled (kept {cached} f d) {r} e = record {
    world = s.world;
    events = s.events;
    state = refl;
    as_desired = rw (← ok_injective e) d;
  }
  settled (updated {cached} {r = q} {w} f d a) {r} e = record {
    world = w;
    events = s.events;
    state = refl;
    as_desired = rw (← ok_injective e) (
        not-differs client laws q desired (
          sent_back cached q
            (laws.update_keeps cached.namespace (with_desired cached desired) q s.world w a)));
  }
  settled (update_refused f d a) e = cc
  settled (update_panicked f d a) e = cc
  settled (accepted {missing} {r = q} {w} f n a) {r} e = record {
    world = w;
    events = s.events ++ created q.name ∷ [];
    state = refl;
    as_desired = rw (← ok_injective e) (
        not-differs client laws q desired
          (laws.create_keeps desired.namespace desired q s.world w a));
  }
  settled (create_refused f n a) e = cc
  settled (create_panicked f n a) e = cc
  settled (unlisted f n) e = cc
  settled (lister_panicked f) e = cc

  settled_run :
      {r : HttpRoute} {t : State Status World}
      → reconcile_http_route lib client ctx i rule s ≡ (ok r, t)
      → IsSettled r t
  settled_run {r} h =
      let returned : ok r ≡ ok r = refl in
      settled ((reconcile_http_route_iff lib client ctx i rule s made).0 h) returned

  -- A route that a call returned is as desired.
  pub reconcile_http_route_as_desired :
      {r : HttpRoute} {t : State Status World}
      → reconcile_http_route lib client ctx i rule s ≡ (ok r, t)
      → differs client r desired ≡ false
  reconcile_http_route_as_desired h = (settled_run h).as_desired
