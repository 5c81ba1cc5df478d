-- ===== src/Reconcile/Branches.antt =====
-- One call of `reconcileHTTPRoute`: the state in which the lister's answer is acted on.
use mathlib.Core.Path.{ap₂}
use net_gateway_api_obsolete.Prelude.{
  Bool-cases, inl, inr, ℕ, zero, suc, String, ◌≡◌, refl, sym, ap, ◌∙◌, List, [], ◌∷◌, set,
}
use net_gateway_api_obsolete.Prelude.Outcome.{err, panic, Outcome, ok, bind-eq-ok}
use net_gateway_api_obsolete.Prelude.Action.{Action, ◌>>=◌, continue-eq-ok, lifted-eq-ok}
use net_gateway_api_obsolete.Objects.{ObjectMeta}
use net_gateway_api_obsolete.Objects.Ingress.{Ingress, IngressRule}
use net_gateway_api_obsolete.Objects.HttpRoute.{HttpRoute}
use net_gateway_api_obsolete.Libraries.{Libraries}
use net_gateway_api_obsolete.Config.Context.{Context}
use net_gateway_api_obsolete.Resources.{
  longest_host, make_http_route, make_http_route_spec, make_meta,
}
use net_gateway_api_obsolete.Resources.Names.{longest_host_again}
use net_gateway_api_obsolete.Reconcile.{
  State, on_found, make_desired, create_route, update_route, RouteClient, reconcile_http_route,
}

pub set-set : {A : Type 0} (xs : List A) (i : ℕ) (v w : A) → set (set xs i v) i w ≡ set xs i w
set-set [] i v w = refl
set-set (x ∷ xs) zero v w = refl
set-set (x ∷ xs) (suc i) v w = ap (λ (ys : List _). x ∷ ys) (set-set xs i v w)

module _ (lib : Libraries) {Network : Type 0} (ctx : Context Network) where
  -- `MakeHTTPRoute` names the route by the first host and gives back the rule as it was called with
  -- sorted hosts.
  make_http_route-sorted :
      (ing : ObjectMeta) (rule : IngressRule) {name : String} {sorted : List String}
      → longest_host rule.hosts ≡ ok (name, sorted)
      → make_http_route lib ctx ing (record rule { hosts = sorted })
        ≡ make_http_route lib ctx ing rule
  unfolding make_http_route
  make_http_route-sorted ing rule e = rw (e, longest_host_again rule.hosts e)

module _ {Status World Network : Type 0} (lib : Libraries) (client : RouteClient World)
    (ctx : Context Network) (i : ℕ) (rule : IngressRule) (s : State Status World)
    {desired : HttpRoute} {sorted : IngressRule}
    (made : make_http_route lib ctx s.ingress.meta rule ≡ ok (desired, sorted)) where
  abbrev run : Outcome HttpRoute × State Status World
  run = reconcile_http_route lib client ctx i rule s

  -- The ingress with the rule's hosts sorted.
  abbrev pub sorted_ingress : Ingress Status
  sorted_ingress = record s.ingress {
    spec = record s.ingress.spec { rules = set s.ingress.spec.rules i sorted };
  }

  -- The state in which the lister's answer is acted on.
  abbrev pub sorted_state : State Status World
  sorted_state = record s { ingress = sorted_ingress }

  pub named_first :
      (longest_host rule.hosts ≡ ok (desired.name, sorted.hosts))
      × (record rule { hosts = sorted.hosts } ≡ sorted)
  unfolding make_http_route make_meta
  named_first =
      let (named, e, rest) = bind-eq-ok (longest_host rule.hosts) _ made in
      let (spec, q, fin) =
        bind-eq-ok (make_http_route_spec lib ctx (record rule { hosts = named.1 })) _ rest in
      let named_eq : named.0 ≡ desired.name = cc in
      let sorted_eq : record rule { hosts = named.1 } ≡ sorted = cc in
      let hosts_eq : named.1 ≡ sorted.hosts = ap (λ (r : IngressRule). r.hosts) sorted_eq in
      (
        e ∙ ap₂ (λ (n : String) (h : List String). ok (n, h)) named_eq hosts_eq,
        ap (λ (h : List String). record rule { hosts = h }) (sym hosts_eq) ∙ sorted_eq,
      )

  pub dispatch :
      run
      ≡ on_found lib client ctx
          (client.lister_get s.world s.ingress.meta.namespace desired.name)
          i
          sorted
          sorted_state
  unfolding reconcile_http_route
  dispatch = rw named_first.0 (rw named_first.1 refl)

  pub made_sorted : make_http_route lib ctx s.ingress.meta sorted ≡ ok (desired, sorted)
  made_sorted =
      ap (make_http_route lib ctx s.ingress.meta) (sym named_first.1)
      ∙ make_http_route-sorted lib ctx s.ingress.meta rule named_first.0
      ∙ made

  pub make_again : make_desired lib client ctx i sorted sorted_state ≡ (ok desired, sorted_state)
  make_again = rw made_sorted (rw set-set refl)

module _ {Status World Network : Type 0} (lib : Libraries) (client : RouteClient World)
    (ctx : Context Network) (i : ℕ) where
  desired_of :
      (rule : IngressRule) (s : State Status World) {r : HttpRoute} {t : State Status World}
      (f : HttpRoute → Action (State Status World) HttpRoute)
      → (make_desired lib client ctx i rule >>= f) s ≡ (ok r, t)
      → (d : HttpRoute) × (q : IngressRule) × (make_http_route lib ctx s.ingress.meta rule
          ≡ ok (d, q))
  desired_of rule s f h =
      let (d, u, p, rest) = continue-eq-ok f (make_desired lib client ctx i rule s) h in
      let (made, e, end) = lifted-eq-ok _ (make_http_route lib ctx s.ingress.meta rule) s p in
      (made.0, made.1, e)

  found_made :
      (found : Outcome HttpRoute) (rule : IngressRule) (s : State Status World) {r : HttpRoute}
      {t : State Status World}
      → on_found lib client ctx found i rule s ≡ (ok r, t)
      → (d : HttpRoute) × (q : IngressRule) × (make_http_route lib ctx s.ingress.meta rule
          ≡ ok (d, q))
  unfolding create_route update_route
  found_made (ok cached) rule s h = desired_of rule s _ h
  found_made (err e) rule s h = elim (Bool-cases (client.is_not_found e)) [
    | inl missing ↦ desired_of rule s _ (rw missing at h)
    | inr other ↦ cc (rw other at h)
  ]
  found_made panic rule s h = cc

  -- A call that returned a route has made one.
  pub reconcile_http_route_made :
      (rule : IngressRule) (s : State Status World) {r : HttpRoute} {t : State Status World}
      → reconcile_http_route lib client ctx i rule s ≡ (ok r, t)
      → (d : HttpRoute) × (q : IngressRule) × (make_http_route lib ctx s.ingress.meta rule
          ≡ ok (d, q))
  unfolding reconcile_http_route
  reconcile_http_route_made rule s h =
      let (named, e, rest) = lifted-eq-ok _ (longest_host rule.hosts) s h in
      let (d, q, made) = found_made _ _ _ rest in
      (d, q, sym (make_http_route-sorted lib ctx s.ingress.meta rule e) ∙ made)
