-- ===== src/Reconcile.antt =====
-- `reconcileHTTPRoute`, pkg/reconciler/ingress/reconcile_resources.go. The lister, the client and the
-- semantic comparison are parameters.
pub mod Branches
pub mod Cases
pub mod Converges
pub mod Frame
pub mod SortedHosts
mod Tests
use net_gateway_api_obsolete.Prelude.{
  ℕ, String, Bool, not, ◌||◌, List, [], ◌∷◌, ◌++◌, set, if◌then◌else◌,
}
use net_gateway_api_obsolete.Prelude.Outcome.{Error, wrap, Outcome, ok, err, panic}
use net_gateway_api_obsolete.Prelude.Action.{
  Action, pure, raise, lift, gets, modify, or_else_do, ◌>>=◌, ◌>>◌,
}
use net_gateway_api_obsolete.GoMap.{Map}
use net_gateway_api_obsolete.Objects.{ObjectMeta}
use net_gateway_api_obsolete.Objects.Ingress.{Ingress, IngressRule}
use net_gateway_api_obsolete.Objects.HttpRoute.{HttpRoute, HttpRouteSpec}
use net_gateway_api_obsolete.Libraries.{Libraries}
use net_gateway_api_obsolete.Config.Context.{Context}
use net_gateway_api_obsolete.Resources.{longest_host, make_http_route}

-- An argument of `Eventf`.
pub data EventArg : Type 0 where
  text : String → EventArg
  error : Error → EventArg

-- What `Eventf` of the event recorder is given.
pub record Event : Type 0 where
  pub event_type : String
  pub reason : String
  pub message : String
  pub args : List EventArg

abbrev pub creation_failed : Error → Event
creation_failed e = record {
  event_type = "Warning";
  reason = "CreationFailed";
  message = "Failed to create HTTPRoute: %v";
  args = error e ∷ [];
}

abbrev pub created : String → Event
created name = record {
  event_type = "Normal";
  reason = "Created";
  message = "Created HTTPRoute %q";
  args = text name ∷ [];
}

-- The lister and the client of the HTTPRoutes over a world, which is the API server and the cache of
-- the informer. The namespace comes first in each call.
pub record RouteClient (World : Type 0) : Type 0 where
  pub lister_get : World → String → String → Outcome HttpRoute
  pub create : String → HttpRoute → Action World HttpRoute
  pub update : String → HttpRoute → Action World HttpRoute
  pub is_not_found : Error → Bool
  pub deep_equal_spec : HttpRouteSpec → HttpRouteSpec → Bool
  pub deep_equal_map : Map String → Map String → Bool

-- What a reconciliation reads and writes: the ingress that it was given, the world, the events.
pub record State (Status World : Type 0) : Type 0 where
  pub ingress : Ingress Status
  pub world : World
  pub events : List Event

module _ {Status World : Type 0} where
  -- A call that changes the world alone.
  abbrev pub on_world : {A : Type 0} → Action World A → Action (State Status World) A
  on_world m s = let (r, w) = m s.world in (r, record s { world = w })

  abbrev pub record_event : Event → Action (State Status World) (Unit {0})
  record_event e = modify (λ s. record s { events = s.events ++ e ∷ [] })

  -- The rule at a place of the ingress, whose hosts share their array with the rule in hand.
  abbrev pub write_rule : ℕ → IngressRule → Action (State Status World) (Unit {0})
  write_rule i rule = modify (λ s. record s {
    ingress = record s.ingress {
      spec = record s.ingress.spec { rules = set s.ingress.spec.rules i rule };
    };
  })

-- some part of the route is not as desired
abbrev pub differs : {World : Type 0} → RouteClient World → HttpRoute → HttpRoute → Bool
differs client httproute desired =
    not (client.deep_equal_spec httproute.spec desired.spec)
    || not (client.deep_equal_map httproute.annotations desired.annotations)
    || not (client.deep_equal_map httproute.labels desired.labels)

-- the copy of the cached route that is sent
abbrev pub with_desired : HttpRoute → HttpRoute → HttpRoute
with_desired httproute desired = record httproute {
  meta = record httproute.meta { annotations = desired.annotations; labels = desired.labels };
  spec = desired.spec;
}

module _ {Status World Network : Type 0} (lib : Libraries) (client : RouteClient World)
    (ctx : Context Network) where
  -- `MakeHTTPRoute`, whose sorting of the hosts the ingress shares
  abbrev make_desired : ℕ → IngressRule → Action (State Status World) HttpRoute
  make_desired i rule = do
    ing ← gets (λ s. s.ingress.meta)
    made ← lift (make_http_route lib ctx ing rule)
    write_rule i made.1
    pure made.0

  -- the branch for a route that the lister does not have
  unfoldable pub create_route : ℕ → IngressRule → Action (State Status World) HttpRoute
  create_route i rule = do
    desired ← make_desired i rule
    or_else_do (on_world (client.create desired.namespace desired))
        (λ e. do record_event (creation_failed e); raise (wrap "failed to create HTTPRoute: %w" e))
        (λ httproute. do record_event (created httproute.name); pure httproute)

  unfoldable pub send_update : HttpRoute → Action (State Status World) HttpRoute
  send_update origin =
      or_else_do (on_world (client.update origin.namespace origin))
        (λ e. raise (wrap "failed to update HTTPRoute: %w" e)) (λ updated. pure updated)

  -- the branch for a route that the lister has
  unfoldable pub update_route : HttpRoute → ℕ → IngressRule → Action (State Status World) HttpRoute
  update_route httproute i rule = do
    desired ← make_desired i rule
    if differs client httproute desired
        then send_update (with_desired httproute desired)
        else pure httproute

  -- the three branches on what the lister returned
  abbrev on_found : Outcome HttpRoute → ℕ → IngressRule → Action (State Status World) HttpRoute
  on_found (ok httproute) i rule = update_route httproute i rule
  on_found (err e) i rule = if client.is_not_found e then create_route i rule else raise e
  on_found panic i rule = lift panic

  -- `reconcileHTTPRoute` for the rule at place `i` of the ingress. The name under which the lister is
  -- asked is computed first, which sorts the rule's hosts.
  unfoldable pub reconcile_http_route : ℕ → IngressRule → Action (State Status World) HttpRoute
  reconcile_http_route i rule = do
    named ← lift (longest_host rule.hosts)
    let sorted = record rule { hosts = named.1 }
    write_rule i sorted
    found ← gets (λ s. client.lister_get s.world s.ingress.meta.namespace named.0)
    on_found found i sorted
