-- ===== src/Sync/Failures.antt =====
-- Where a reconciliation that returns an error has stopped, and what it had done by then.
use net_gateway_api_obsolete.Prelude.{
  ℕ, zero, suc, String, ◌≡◌, ◌≢◌, refl, sym, ap, ◌∙◌, Bool, true, false, List, [], ◌∷◌, ◌++◌,
  length, inl, inr, subst, arith, ◌+◌,
}
use net_gateway_api_obsolete.Prelude.Outcome.{Error, wrap, Outcome, ok, err, panic}
use net_gateway_api_obsolete.Prelude.Action.{
  Action, lift, continue, continue-eq-err, wrapped-eq-err,
}
use net_gateway_api_obsolete.Objects.Ingress.{Ingress, IngressRule}
use net_gateway_api_obsolete.Objects.HttpRoute.{HttpRoute}
use net_gateway_api_obsolete.Libraries.{Libraries}
use net_gateway_api_obsolete.Config.Context.{Context, from_context}
use net_gateway_api_obsolete.Resources.{gateway_config}
use net_gateway_api_obsolete.Readiness.{is_http_route_ready_iff}
use net_gateway_api_obsolete.Reconcile.{State, RouteClient, on_world, reconcile_http_route}
use net_gateway_api_obsolete.Sync.{
  StatusMethods, IngressMethods, reconcile_rules, mark_load_balancer, reconcile_probed,
  reconcile_ingress, reconcile_kind, on_ingress,
}
use net_gateway_api_obsolete.Sync.Outcomes.{failed, reconcile_kind-eq-err}
use net_gateway_api_obsolete.Sync.Ready.{Conditions}
use net_gateway_api_obsolete.Sync.Rules.{marked, Runs, reconcile_rules-Runs}

module _ {Status World Network : Type 0} (lib : Libraries) (client : RouteClient World)
    (methods : StatusMethods Status) (ctx : Context Network) where
  -- A run of the loop that stopped at a rule: the rules before it were reconciled, in order, and the
  -- ones after it were not begun.
  pub record Stopped (i : ℕ) (rules : List IngressRule) (s : State Status World) (e : Error)
      (t : State Status World) : Type 0 where
    pub done : List IngressRule
    pub rule : IngressRule
    pub left : List IngressRule
    pub split : rules ≡ done ++ rule ∷ left
    pub routes : List HttpRoute
    pub reached : State Status World
    pub run : Runs lib client methods ctx i done s routes reached
    pub refused : reconcile_http_route lib client ctx (i + length done) rule reached ≡ (err e, t)

  at_rule :
      (i n : ℕ) (rule : IngressRule) (s : State Status World)
      {a : Outcome HttpRoute × State Status World}
      → i ≡ n
      → reconcile_http_route lib client ctx i rule s ≡ a
      → reconcile_http_route lib client ctx n rule s ≡ a
  at_rule i n rule s same h = ap (λ k. reconcile_http_route lib client ctx k rule s) (sym same) ∙ h

  reconcile_rules-Stopped :
      (i : ℕ) (rules : List IngressRule) (s t : State Status World) (e : Error)
      → reconcile_rules lib client methods ctx i rules s ≡ (err e, t)
      → Stopped i rules s e t
  unfolding reconcile_rules
  reconcile_rules-Stopped i [] s t e h = cc
  reconcile_rules-Stopped i (rule ∷ rules) s t e h =
      elim (continue-eq-err _ (reconcile_http_route lib client ctx i rule s) h) [
        | inl first ↦ record {
          done = [];
          rule = rule;
          left = rules;
          split = refl;
          routes = [];
          reached = s;
          run = refl;
          refused = at_rule i (i + 0) rule s (omega arith) first;
        }
        | inr (r, u, p, rest) ↦
            let (b, q) = (is_http_route_ready_iff r).1 in
            let later =
              reconcile_rules-Stopped (suc i) rules (marked methods b u) t e (rw q at rest) in
            record {
              done = rule ∷ later.done;
              rule = later.rule;
              left = later.left;
              split = ap (λ (l : List IngressRule). rule ∷ l) later.split;
              routes = r ∷ later.routes;
              reached = later.reached;
              run = (u, b, p, q, later.run);
              refused =
                  at_rule (suc i + length later.done) (i + suc (length later.done)) later.rule
                    later.reached (omega arith) later.refused;
            }
      ]

module _ {Status World Network : Type 0} (lib : Libraries) (client : RouteClient World)
    (methods : StatusMethods Status) (knative : IngressMethods Status World)
    (ctx : Context Network) where
  -- the ingress that the probe is inserted into
  abbrev initialized : Ingress Status → Ingress Status
  initialized before = record before { status = methods.initialize_conditions before.status }

  -- The steps of a reconciliation that can fail, each with the error that comes back and the state in
  -- which it was met.
  pub data FailsIn (s : State Status World) : Error → State Status World → Type 0 where
    in_probe :
        {before ing : Ingress Status} {c : Error}
        → knative.set_defaults s.ingress ≡ ok before
        → knative.insert_probe (initialized before) ≡ (err c, ing)
        → FailsIn s (wrap "failed to add knative probe header: %w" c) (record s { ingress = ing })
    in_rule :
        {before probed : Ingress Status} {hash : String} {e : Error} {u : State Status World}
        → knative.set_defaults s.ingress ≡ ok before
        → knative.insert_probe (initialized before) ≡ (ok hash, probed)
        → Stopped lib client methods ctx zero probed.spec.rules (record s { ingress = probed }) e u
        → FailsIn s e u
    in_prober :
        {before probed : Ingress Status} {hash : String} {c : Error} {w : World}
        {end : State Status World} (routes : List HttpRoute)
        → knative.set_defaults s.ingress ≡ ok before
        → knative.insert_probe (initialized before) ≡ (ok hash, probed)
        → Runs lib client methods ctx zero probed.spec.rules
            (record s { ingress = probed })
            routes
            end
        → knative.is_ready before end.world ≡ (err c, w)
        → FailsIn s (wrap "failed to probe Ingress: %w" c) (record end { world = w })

  gateway_config-no_error : (e : Error) → gateway_config lib ctx ≢ err e
  unfolding gateway_config from_context
  gateway_config-no_error e h = ground arith

  mark_load_balancer-no_error :
      (answer : Bool) (s t : State Status World) (e : Error)
      → mark_load_balancer lib client methods knative ctx answer s ≢ (err e, t)
  unfolding mark_load_balancer
  mark_load_balancer-no_error true s t e h =
      elim (continue-eq-err _ (lift (gateway_config lib ctx) s) h) [
        | inl first ↦ gateway_config-no_error e (ap (λ r. r.0) first)
        | inr (gateway, u, p, rest) ↦ cc
      ]
  mark_load_balancer-no_error false s t e h = cc

  probed-FailsIn :
      (s : State Status World) {before probed : Ingress Status} {hash : String}
      (u : State Status World) (e : Error)
      → knative.set_defaults s.ingress ≡ ok before
      → knative.insert_probe (initialized before) ≡ (ok hash, probed)
      → reconcile_probed lib client methods knative ctx before (record s { ingress = probed })
        ≡ (err e, u)
      → FailsIn s e u
  unfolding reconcile_probed
  probed-FailsIn s {before} {probed} u e defaulted inserted h =
      let start : State Status World = record s { ingress = probed } in
      elim (continue-eq-err _ (reconcile_rules lib client methods ctx zero probed.spec.rules start)
        h) [
          | inl stopped ↦ in_rule defaulted inserted (
              reconcile_rules-Stopped lib client methods ctx zero probed.spec.rules start u e
                stopped)
          | inr (done, end, p, rest) ↦
              let (routes, run) =
                reconcile_rules-Runs lib client methods ctx zero probed.spec.rules start p in
              let asked = on_world (knative.is_ready before) end in
              elim (wrapped-eq-err "failed to probe Ingress: %w"
                (mark_load_balancer lib client methods knative ctx) asked rest) [
                  | inl (c, q, same) ↦
                      let w = (knative.is_ready before end.world).1 in
                      let answered : knative.is_ready before end.world ≡ (err c, w) =
                        ap (λ (o : Outcome Bool). (o, w)) (ap (λ r. r.0) q) in
                      subst (λ (v : State Status World). FailsIn s e v) (ap (λ r. r.1) q)
                        (subst (λ (x : Error). FailsIn s x (record end { world = w })) (sym same)
                          (in_prober routes defaulted inserted run answered))
                  | inr (answer, v, q, last) ↦
                      absurd (mark_load_balancer-no_error answer v u e last)
                ]
        ]

  lifted_on :
      {A : Type 0} (f : A → Action (State Status World) (Unit {0})) (r : Outcome A)
      (s : State Status World) {e : Error} {u : State Status World}
      → ((c : Error) → r ≢ err c)
      → continue f (lift r s) ≡ (err e, u)
      → (a : A) × (r ≡ ok a) × (f a s ≡ (err e, u))
  lifted_on f (ok a) s fine h = (a, refl, h)
  lifted_on f (err c) s fine h = absurd (fine c refl)
  lifted_on f panic s fine h = cc

  -- A reconciliation that returns an error has failed in one of three steps: in inserting the probe,
  -- whose error comes back wrapped; in the route of a rule, the rules before it having been reconciled
  -- in order and the ones after it not begun; or in asking the prober, whose error comes back wrapped,
  -- all rules having been reconciled. The ingress is marked not reconciled in the state of that step,
  -- and is not ready, over what the methods of the status document. The defaults are set without an
  -- error.
  pub reconcile_kind-FailsIn :
      (conditions : Conditions methods) (s t : State Status World) (e : Error)
      → ((a : Ingress Status) (c : Error) → knative.set_defaults a ≢ err c)
      → reconcile_kind lib client methods knative ctx s ≡ (err e, t)
      → (u : State Status World) × FailsIn s e u
        × (failed lib client methods knative ctx u ≡ t)
        × (conditions.ready t.ingress.status ≡ false)
  unfolding reconcile_ingress
  reconcile_kind-FailsIn conditions s t e fine h =
      let (u, p, same) = reconcile_kind-eq-err lib client methods knative ctx s t e h in
      let not_ready : conditions.ready t.ingress.status ≡ false =
        ap (λ (x : State Status World). conditions.ready x.ingress.status) (sym same)
        ∙ conditions.ready-mark_ingress_not_ready _ _ u.ingress.status in
      let (before, defaulted, rest) =
        lifted_on _ (knative.set_defaults s.ingress) s (fine s.ingress) p in
      let ing = (knative.insert_probe (initialized before)).1 in
      let probed : State Status World = record s { ingress = ing } in
      elim (wrapped-eq-err "failed to add knative probe header: %w"
        (λ hash. reconcile_probed lib client methods knative ctx before)
        (on_ingress knative.insert_probe (record s { ingress = initialized before })) rest) [
          | inl (c, q, wrapped) ↦ (
            u,
            subst (λ (x : State Status World). FailsIn s e x) (ap (λ r. r.1) q)
                (subst (λ (x : Error). FailsIn s x probed) (sym wrapped)
                  (in_probe defaulted (ap (λ (o : Outcome String). (o, ing)) (ap (λ r. r.0) q)))),
            same,
            not_ready,
          )
          | inr (hash, v, q, last) ↦ (
            u,
            probed-FailsIn s u e defaulted (ap (λ (o : Outcome String). (o, ing)) (ap (λ r. r.0) q))
                (ap (reconcile_probed lib client methods knative ctx before) (ap (λ r. r.1) q)
                  ∙ last),
            same,
            not_ready,
          )
        ]
