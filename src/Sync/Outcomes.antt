-- ===== src/Sync/Outcomes.antt =====
-- What a reconciliation that succeeds has gone through, and what one that fails leaves.
use net_gateway_api_obsolete.Prelude.{
  zero, String, ◌≡◌, refl, sym, ap, ◌∙◌, Bool, true, false, List, subst,
}
use net_gateway_api_obsolete.Prelude.Outcome.{Error, wrap, Outcome, ok, err, panic}
use net_gateway_api_obsolete.Prelude.Action.{
  continue-eq-ok, lifted-eq-ok, Action, pure, raise, handle, ◌>>◌,
}
use net_gateway_api_obsolete.Objects.Ingress.{
  Ingress, visibility_external_ip, visibility_cluster_local,
}
use net_gateway_api_obsolete.Objects.HttpRoute.{HttpRoute}
use net_gateway_api_obsolete.Libraries.{Libraries}
use net_gateway_api_obsolete.Config.{Gateway}
use net_gateway_api_obsolete.Config.Context.{Context}
use net_gateway_api_obsolete.Resources.{gateway_config}
use net_gateway_api_obsolete.Reconcile.{State, RouteClient, on_world}
use net_gateway_api_obsolete.Sync.{
  StatusMethods, IngressMethods, reconcile_rules, load_balancers, reconcile_probed,
  reconcile_ingress, reconcile_kind, mark_load_balancer, not_reconciled_reason,
  not_reconciled_message, update_status, on_ingress,
}
use net_gateway_api_obsolete.Sync.Rules.{Runs, reconcile_rules-Runs}

-- Inversion of a step whose error is wrapped, where the code returned.
wrapped-eq-ok :
    {S A B : Type 0} (message : String) (f : A → Action S B) (p : Outcome A × S) {b : B} {t : S}
    → handle (λ e. raise (wrap message e)) f p ≡ (ok b, t)
    → (a : A) × (u : S) × (p ≡ (ok a, u)) × (f a u ≡ (ok b, t))
wrapped-eq-ok message f (ok a, u) h = (a, u, refl, h)
wrapped-eq-ok message f (err e, u) h = cc
wrapped-eq-ok message f (panic, u) h = cc

module _ {Status World Network : Type 0} (lib : Libraries) (client : RouteClient World)
    (methods : StatusMethods Status) (knative : IngressMethods Status World)
    (ctx : Context Network) where
  -- What the prober's answer makes of the ingress.
  abbrev pub MarkedBy : Bool → Ingress Status → Ingress Status → Type 0
  MarkedBy true u t =
      (gateway : Gateway) × (gateway_config lib ctx ≡ ok gateway)
      × (record u {
        status =
            methods.mark_load_balancer_ready (load_balancers lib gateway visibility_external_ip)
              (load_balancers lib gateway visibility_cluster_local) u.status;
      }
          ≡ t)
  MarkedBy false u t = record u { status = methods.mark_load_balancer_not_ready u.status } ≡ t

  -- A reconciliation that returned: the ingress with its defaults, the probe that was inserted, the
  -- run over all of the rules, and the prober's answer for the ingress with its defaults alone.
  pub record Reconciled (s t : State Status World) : Type 0 where
    pub before : Ingress Status
    pub defaulted : knative.set_defaults s.ingress ≡ ok before
    pub hash : String
    pub probed : Ingress Status
    pub inserted :
        knative.insert_probe
          (record before { status = methods.initialize_conditions before.status })
        ≡ (ok hash, probed)
    pub routes : List HttpRoute
    pub end : State Status World
    pub run :
        Runs lib client methods ctx zero probed.spec.rules
          (record s { ingress = probed })
          routes
          end
    pub answer : Bool
    pub asked : knative.is_ready before end.world ≡ (ok answer, t.world)
    pub marked_by : MarkedBy answer end.ingress t.ingress

  marked_load_balancer :
      (answer : Bool) (u t : State Status World)
      → mark_load_balancer lib client methods knative ctx answer u ≡ (ok tt, t)
      → (u.world ≡ t.world) × MarkedBy answer u.ingress t.ingress
  unfolding mark_load_balancer
  marked_load_balancer true u t h =
      let (gateway, known, rest) = lifted-eq-ok _ (gateway_config lib ctx) u h in
      let end = ap (λ (x : Outcome (Unit {0}) × State Status World). x.1) rest in
      (
        ap (λ (x : State Status World). x.world) end,
        (gateway, known, ap (λ (x : State Status World). x.ingress) end),
      )
  marked_load_balancer false u t h =
      let end = ap (λ (x : Outcome (Unit {0}) × State Status World). x.1) h in
      (ap (λ (x : State Status World). x.world) end, ap (λ (x : State Status World). x.ingress) end)

  failed_kind-eq-ok :
      (p : Outcome (Unit {0}) × State Status World) {t : State Status World}
      → handle
          (λ e. do
            update_status
                (methods.mark_ingress_not_ready not_reconciled_reason not_reconciled_message)
            raise e)
          pure
          p
        ≡ (ok tt, t)
      → p ≡ (ok tt, t)
  failed_kind-eq-ok (ok done, u) h = h
  failed_kind-eq-ok (err e, u) h = cc
  failed_kind-eq-ok (panic, u) h = cc

  -- What follows the probe's insertion, where it returned.
  reconcile_probed-eq-ok :
      (before : Ingress Status) (s t : State Status World)
      → reconcile_probed lib client methods knative ctx before s ≡ (ok tt, t)
      → (routes : List HttpRoute) × (end : State Status World) × Runs lib client methods ctx zero
          s.ingress.spec.rules s routes end
        × (answer : Bool) × (knative.is_ready before end.world ≡ (ok answer, t.world))
        × MarkedBy answer end.ingress t.ingress
  unfolding reconcile_probed
  reconcile_probed-eq-ok before s t h =
      let (done, end, p, rest) =
        continue-eq-ok _ (reconcile_rules lib client methods ctx zero s.ingress.spec.rules s) h in
      let (routes, run) =
        reconcile_rules-Runs lib client methods ctx zero s.ingress.spec.rules s p in
      let (answer, u, q, last) =
        wrapped-eq-ok "failed to probe Ingress: %w"
          (mark_load_balancer lib client methods knative ctx)
          (on_world (knative.is_ready before) end) rest in
      let (world, by) = marked_load_balancer answer u t last in
      (
        routes,
        end,
        run,
        answer,
        ap (λ (x : Outcome Bool × State Status World). (x.0, x.1.world)) q
            ∙ ap (λ (w : World). (ok answer, w)) world,
        subst (λ (x : Ingress Status). MarkedBy answer x t.ingress)
            (sym (ap (λ (x : Outcome Bool × State Status World). x.1.ingress) q)) by,
      )

  -- A reconciliation that returns has set the defaults, inserted the probe, reconciled the route of
  -- every rule in order, asked the prober about the ingress as it was after its defaults, and marked
  -- the load balancer by the prober's answer.
  pub reconcile_kind-Reconciled :
      (s t : State Status World)
      → reconcile_kind lib client methods knative ctx s ≡ (ok tt, t)
      → Reconciled s t
  unfolding reconcile_kind reconcile_ingress
  reconcile_kind-Reconciled s t h =
      let h1 = failed_kind-eq-ok (reconcile_ingress lib client methods knative ctx s) h in
      let (before, defaulted, h2) = lifted-eq-ok _ (knative.set_defaults s.ingress) s h1 in
      let given = record before { status = methods.initialize_conditions before.status } in
      let (hash, u, inserted, h3) =
        wrapped-eq-ok "failed to add knative probe header: %w"
          (λ hash. reconcile_probed lib client methods knative ctx before)
          (on_ingress knative.insert_probe (record s { ingress = given })) h2 in
      let (routes, end, run, answer, asked, by) = reconcile_probed-eq-ok before u t h3 in
      let same =
        sym (
          ap (λ (x : Outcome String × State Status World). record s { ingress = x.1.ingress })
            inserted)
        ∙ ap (λ (x : Outcome String × State Status World). x.1) inserted in
      record {
        before = before;
        defaulted = defaulted;
        hash = hash;
        probed = u.ingress;
        inserted = ap (λ (x : Outcome String × State Status World). (x.0, x.1.ingress)) inserted;
        routes = routes;
        end = end;
        run =
            subst
              (λ (x : State Status World).
                Runs lib client methods ctx zero u.ingress.spec.rules x routes end)
              (sym same) run;
        answer = answer;
        asked = asked;
        marked_by = by;
      }

  -- The state in which a reconciliation that failed in `u` ends.
  abbrev pub failed : State Status World → State Status World
  failed u = record u {
    ingress = record u.ingress {
      status =
          methods.mark_ingress_not_ready not_reconciled_reason not_reconciled_message
            u.ingress.status;
    };
  }

  failed_kind-eq-err :
      (p : Outcome (Unit {0}) × State Status World) {e : Error} {t : State Status World}
      → handle
          (λ e. do
            update_status
                (methods.mark_ingress_not_ready not_reconciled_reason not_reconciled_message)
            raise e)
          pure
          p
        ≡ (err e, t)
      → (u : State Status World) × (p ≡ (err e, u)) × (failed u ≡ t)
  failed_kind-eq-err (ok done, u) h = cc
  failed_kind-eq-err (err e, u) h = (
    u,
    ap (λ (o : Outcome (Unit {0}) × State Status World). (o.0, u)) h,
    ap (λ (o : Outcome (Unit {0}) × State Status World). o.1) h,
  )
  failed_kind-eq-err (panic, u) h = cc

  -- An error is the one that `reconcileIngress` returned, and the status is marked not ready with
  -- the failure as its reason.
  pub reconcile_kind-eq-err :
      (s t : State Status World) (e : Error)
      → reconcile_kind lib client methods knative ctx s ≡ (err e, t)
      → (u : State Status World) × (reconcile_ingress lib client methods knative ctx s ≡ (err e, u))
        × (failed u ≡ t)
  unfolding reconcile_kind
  reconcile_kind-eq-err s t e h =
      failed_kind-eq-err (reconcile_ingress lib client methods knative ctx s) h
