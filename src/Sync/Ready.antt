-- ===== src/Sync/Ready.antt =====
-- When a reconciled ingress is marked Ready, over what the status's methods document.
use net_gateway_api_obsolete.Prelude.{
  ℕ, zero, suc, String, ◌≡◌, refl, sym, ap, ◌∙◌, Bool, true, false, ◌||◌, ◌&&◌, List, [], ◌∷◌,
}
use net_gateway_api_obsolete.Prelude.Outcome.{Outcome, ok, err, panic}
use net_gateway_api_obsolete.Objects.Ingress.{Ingress, IngressRule, LoadBalancerIngressStatus}
use net_gateway_api_obsolete.Objects.HttpRoute.{HttpRoute}
use net_gateway_api_obsolete.Libraries.{Libraries}
use net_gateway_api_obsolete.Config.Context.{Context}
use net_gateway_api_obsolete.Readiness.{is_http_route_ready}
use net_gateway_api_obsolete.Reconcile.{State, RouteClient}
use net_gateway_api_obsolete.Reconcile.SortedHosts.{ingress-reconcile_http_route}
use net_gateway_api_obsolete.Sync.{StatusMethods, IngressMethods, mark_rule, reconcile_kind}
use net_gateway_api_obsolete.Sync.Outcomes.{MarkedBy, Reconciled, reconcile_kind-Reconciled}
use net_gateway_api_obsolete.Sync.Rules.{marked, Runs}

-- The conditions of an ingress: "MarkTrue sets the status of t to true, and then marks the happy
-- condition to true if all dependents are true." The dependents are NetworkConfigured and
-- LoadBalancerReady. MarkIngressNotReady sets the happy condition alone.
pub record Conditions {Status : Type 0} (methods : StatusMethods Status) : Type 0 where
  pub configured : Status → Bool
  pub ready : Status → Bool
  pub configured-mark_network_configured :
      (s : Status) → configured (methods.mark_network_configured s) ≡ true
  pub configured-mark_ingress_not_ready :
      (reason message : String) (s : Status)
      → configured (methods.mark_ingress_not_ready reason message s) ≡ configured s
  pub ready-mark_ingress_not_ready :
      (reason message : String) (s : Status)
      → ready (methods.mark_ingress_not_ready reason message s) ≡ false
  pub ready-mark_load_balancer_ready :
      (public private : List LoadBalancerIngressStatus) (s : Status)
      → ready (methods.mark_load_balancer_ready public private s) ≡ configured s

abbrev is_true : Outcome Bool → Bool
is_true (ok b) = b
is_true (err e) = false
is_true panic = false

-- Some route of the list is ready.
abbrev pub any_ready : List HttpRoute → Bool
any_ready [] = false
any_ready (r ∷ routes) = is_true (is_http_route_ready r) || any_ready routes

or_assoc : (a b c : Bool) → (a || b) || c ≡ a || (b || c)
or_assoc true b c = refl
or_assoc false b c = refl

or_true : (b : Bool) → true ≡ (b || true)
or_true true = refl
or_true false = refl

or_false : (b : Bool) → b ≡ (b || false)
or_false true = refl
or_false false = refl

module _ {Status World Network : Type 0} (lib : Libraries) (client : RouteClient World)
    (methods : StatusMethods Status) (conditions : Conditions methods) (ctx : Context Network) where
  open conditions use {configured, ready}

  configured-mark_rule :
      (b : Bool) (s : Status) → configured (mark_rule methods b s) ≡ (configured s || b)
  configured-mark_rule true s =
      conditions.configured-mark_network_configured s ∙ or_true (configured s)
  configured-mark_rule false s =
      conditions.configured-mark_ingress_not_ready _ _ s ∙ or_false (configured s)

  -- The loop leaves the network configured if it was, or if the route of some rule is ready.
  configured-Runs :
      (i : ℕ) (rules : List IngressRule) (s t : State Status World) (routes : List HttpRoute)
      → Runs lib client methods ctx i rules s routes t
      → configured t.ingress.status ≡ (configured s.ingress.status || any_ready routes)
  configured-Runs i [] s t [] run = rw (← run) (or_false (configured s.ingress.status))
  configured-Runs i [] s t (r ∷ routes) run = absurd run
  configured-Runs i (rule ∷ rules) s t [] run = absurd run
  configured-Runs i (rule ∷ rules) s t (r ∷ routes) (u, b, p, known, run) =
      let same : configured s.ingress.status ≡ configured u.ingress.status =
        ap (λ (x : Ingress Status). configured x.status)
          (ingress-reconcile_http_route lib client ctx i rule s p) in
      configured-Runs (suc i) rules (marked methods b u) t routes run
      ∙ ap (λ (c : Bool). c || any_ready routes) (configured-mark_rule b u.ingress.status)
      ∙ or_assoc (configured u.ingress.status) b (any_ready routes)
      ∙ ap (λ (c : Bool). c || (b || any_ready routes)) (sym same)
      ∙ ap (λ (o : Outcome Bool). configured s.ingress.status || (is_true o || any_ready routes))
          (sym known)

module _ {Status World Network : Type 0} (lib : Libraries) (client : RouteClient World)
    (methods : StatusMethods Status) (conditions : Conditions methods)
    (knative : IngressMethods Status World) (ctx : Context Network) where
  open conditions use {configured, ready}

  ready-MarkedBy :
      (answer : Bool) (u t : Ingress Status)
      → MarkedBy lib client methods knative ctx answer u t
      → (answer && ready t.status) ≡ (answer && configured u.status)
  ready-MarkedBy true u t (gateway, known, e) =
      ap (λ (x : Ingress Status). ready x.status) (sym e)
      ∙ conditions.ready-mark_load_balancer_ready _ _ u.status
  ready-MarkedBy false u t e = refl

  -- Where the prober answers that the ingress is ready, a reconciliation that returns leaves the
  -- ingress marked Ready exactly when the network was configured before the loop over the rules or
  -- the route of some rule is ready. The methods of the status do what they document.
  pub reconcile_kind_ready :
      (s t : State Status World)
      → reconcile_kind lib client methods knative ctx s ≡ (ok tt, t)
      → (r : Reconciled lib client methods knative ctx s t) × ((r.answer && ready t.ingress.status)
          ≡ (r.answer && (configured r.probed.status || any_ready r.routes)))
  reconcile_kind_ready s t h =
      let r = reconcile_kind-Reconciled lib client methods knative ctx s t h in
      (
        r,
        ready-MarkedBy r.answer r.end.ingress t.ingress r.marked_by
            ∙ ap (λ (c : Bool). r.answer && c)
                (configured-Runs lib client methods conditions ctx zero r.probed.spec.rules
                  (record s { ingress = r.probed }) r.end r.routes r.run),
      )
