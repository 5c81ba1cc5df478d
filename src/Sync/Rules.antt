-- ===== src/Sync/Rules.antt =====
-- The loop over the rules: what it leaves of the ingress, and the marks that it makes.
use net_gateway_api_obsolete.Prelude.{
  ℕ, zero, suc, ◌≡◌, refl, sym, ap, ◌∙◌, Bool, List, [], ◌∷◌, ◌++◌, set, length, length-append,
  set-append, map, arith, subst,
}
use mathlib.Core.List.{append_assoc}
use net_gateway_api_obsolete.Prelude.Outcome.{ok}
use net_gateway_api_obsolete.Prelude.Action.{continue-eq-ok, lifted-eq-ok}
use net_gateway_api_obsolete.Objects.Ingress.{Ingress, IngressRule}
use net_gateway_api_obsolete.Objects.HttpRoute.{HttpRoute}
use net_gateway_api_obsolete.Libraries.{Libraries}
use net_gateway_api_obsolete.Config.Context.{Context}
use net_gateway_api_obsolete.Readiness.{is_http_route_ready}
use net_gateway_api_obsolete.Reconcile.{State, RouteClient, reconcile_http_route}
use net_gateway_api_obsolete.Reconcile.SortedHosts.{sort_rule, ingress-reconcile_http_route}
use net_gateway_api_obsolete.Sync.{StatusMethods, mark_rule, reconcile_rules}

-- The ingress after the loop, against the one before: the hosts of the rules from a place on are
-- sorted, and what is no status is otherwise the same.
pub record IsSynced {Status : Type 0} (before after : List IngressRule) (s t : Ingress Status)
    : Type 0 where
  pub rules : t.spec.rules ≡ before ++ map sort_rule after
  pub meta : t.meta ≡ s.meta
  pub http_option : t.spec.http_option ≡ s.spec.http_option

-- The state after the mark of one rule.
abbrev pub marked :
    {Status World : Type 0} → StatusMethods Status → Bool → State Status World → State Status World
marked methods b s = record s {
  ingress = record s.ingress { status = mark_rule methods b s.ingress.status };
}

module _ {Status World Network : Type 0} (lib : Libraries) (client : RouteClient World)
    (methods : StatusMethods Status) (ctx : Context Network) where
  -- A run of the loop that came to its end, with the route that was returned for each rule, in order.
  abbrev pub Runs :
      ℕ → List IngressRule → State Status World → List HttpRoute → State Status World → Type 0
  Runs i [] s [] t = s ≡ t
  Runs i [] s (r ∷ routes) t = ⊥
  Runs i (rule ∷ rules) s [] t = ⊥
  Runs i (rule ∷ rules) s (r ∷ routes) t =
      (u : State Status World) × (b : Bool) × (reconcile_http_route lib client ctx i rule s
        ≡ (ok r, u))
      × (is_http_route_ready r ≡ ok b)
      × Runs (suc i) rules (marked methods b u) routes t

  pub reconcile_rules-Runs :
      (i : ℕ) (rules : List IngressRule) (s : State Status World) {t : State Status World}
      → reconcile_rules lib client methods ctx i rules s ≡ (ok tt, t)
      → (routes : List HttpRoute) × Runs i rules s routes t
  unfolding reconcile_rules
  reconcile_rules-Runs i [] s h = ([], cc)
  reconcile_rules-Runs i (rule ∷ rules) s {t} h =
      let (r, u, p, rest) = continue-eq-ok _ (reconcile_http_route lib client ctx i rule s) h in
      let (b, ready, next) = lifted-eq-ok _ (is_http_route_ready r) u rest in
      let (routes, run) = reconcile_rules-Runs (suc i) rules (marked methods b u) next in
      (r ∷ routes, (u, b, p, ready, run))

  rules-Runs :
      (before rules : List IngressRule) (s t : State Status World) (routes : List HttpRoute)
      → s.ingress.spec.rules ≡ before ++ rules
      → Runs (length before) rules s routes t
      → IsSynced before rules s.ingress t.ingress
  rules-Runs before [] s t [] e run =
      rw (← run) (record { rules = e; meta = refl; http_option = refl })
  rules-Runs before [] s t (r ∷ routes) e run = absurd run
  rules-Runs before (rule ∷ rules) s t [] e run = absurd run
  rules-Runs before (rule ∷ rules) s t (r ∷ routes) e (u, b, p, ready, run) =
      let sorted = sort_rule rule in
      let after = ingress-reconcile_http_route lib client ctx (length before) rule s p in
      let v = marked methods b u in
      let rules_eq : v.ingress.spec.rules ≡ (before ++ sorted ∷ []) ++ rules =
        ap (λ (x : Ingress Status). x.spec.rules) (sym after)
        ∙ ap (λ (l : List IngressRule). set l (length before) sorted) e
        ∙ set-append before rule sorted rules
        ∙ sym (append_assoc before (sorted ∷ []) rules) in
      let count : suc (length before) ≡ length (before ++ sorted ∷ []) =
        omega (arith, length-append before (sorted ∷ [])) in
      let ih =
        rules-Runs (before ++ sorted ∷ []) rules v t routes rules_eq
          (subst (λ (n : ℕ). Runs n rules v routes t) count run) in
      record {
        rules = ih.rules ∙ append_assoc before (sorted ∷ []) (map sort_rule rules);
        meta = ih.meta ∙ ap (λ (x : Ingress Status). x.meta) (sym after);
        http_option = ih.http_option ∙ ap (λ (x : Ingress Status). x.spec.http_option) (sym after);
      }

  -- A loop that returns has sorted the hosts of every rule, and has changed nothing else of the
  -- ingress but its status.
  pub reconcile_rules-IsSynced :
      (s : State Status World) {t : State Status World}
      → reconcile_rules lib client methods ctx zero s.ingress.spec.rules s ≡ (ok tt, t)
      → IsSynced [] s.ingress.spec.rules s.ingress t.ingress
  reconcile_rules-IsSynced s {t} h =
      let (routes, run) = reconcile_rules-Runs zero s.ingress.spec.rules s h in
      rules-Runs [] s.ingress.spec.rules s t routes refl run
