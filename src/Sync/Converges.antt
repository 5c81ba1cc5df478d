-- ===== src/Sync/Converges.antt =====
-- A second reconciliation, once the cache shows the routes that the first one returned.
use net_gateway_api_obsolete.Prelude.{
  Bool, ℕ, zero, suc, String, ◌≡◌, refl, sym, ap, ◌∙◌, true, false, List, [], ◌∷◌, All, subst,
}
use net_gateway_api_obsolete.Prelude.Outcome.{ok}
use net_gateway_api_obsolete.Prelude.Action.{pure, lift, keep_continue, keep_handle}
use net_gateway_api_obsolete.Objects.{ObjectMeta}
use net_gateway_api_obsolete.Objects.Ingress.{Ingress, IngressRule}
use net_gateway_api_obsolete.Objects.HttpRoute.{HttpRoute}
use net_gateway_api_obsolete.Libraries.{Libraries}
use net_gateway_api_obsolete.Config.Context.{Context}
use net_gateway_api_obsolete.Resources.{longest_host, make_http_route, gateway_config}
use net_gateway_api_obsolete.Readiness.{is_http_route_ready_iff}
use net_gateway_api_obsolete.Reconcile.{Event, State, RouteClient, differs, on_world}
use net_gateway_api_obsolete.Reconcile.Branches.{
  named_first, sorted_state, reconcile_http_route_made,
}
use net_gateway_api_obsolete.Reconcile.Cases.{kept, reconcile_http_route-Ends}
use net_gateway_api_obsolete.Reconcile.Converges.{ServerLaws, reconcile_http_route_as_desired}
use net_gateway_api_obsolete.Reconcile.SortedHosts.{ingress-reconcile_http_route}
use net_gateway_api_obsolete.Sync.{
  StatusMethods, IngressMethods, reconcile_rules, mark_load_balancer, reconcile_probed,
  reconcile_ingress, reconcile_kind,
}
use net_gateway_api_obsolete.Sync.Outcomes.{Reconciled}
use net_gateway_api_obsolete.Sync.Rules.{marked, Runs}

module _ {World Network : Type 0} (lib : Libraries) (client : RouteClient World)
    (ctx : Context Network) (w : World) (ing : ObjectMeta) where
  -- The cache holds the route of a rule as it is to be.
  pub record IsInPlace (rule : IngressRule) : Type 0 where
    pub desired : HttpRoute
    pub sorted : IngressRule
    pub made : make_http_route lib ctx ing rule ≡ ok (desired, sorted)
    pub cached : HttpRoute
    pub found : client.lister_get w ing.namespace desired.name ≡ ok cached
    pub same : differs client cached desired ≡ false

  -- The lister finds each route under the name that its rule's hosts give.
  abbrev pub IsShown : List IngressRule → List HttpRoute → Type 0
  IsShown [] [] = Unit
  IsShown [] (r ∷ routes) = ⊥
  IsShown (rule ∷ rules) [] = ⊥
  IsShown (rule ∷ rules) (r ∷ routes) =
      ((name : String) (hosts : List String)
        → longest_host rule.hosts ≡ ok (name, hosts)
        → client.lister_get w ing.namespace name ≡ ok r)
      × IsShown rules routes

module _ {Status World Network : Type 0} (lib : Libraries) (client : RouteClient World)
    (methods : StatusMethods Status) (ctx : Context Network) where
  -- A run of the loop that returned has put a route in place for each rule.
  Runs-IsInPlace :
      (laws : ServerLaws client) (w : World) (i : ℕ) (rules : List IngressRule)
      (s t : State Status World) (routes : List HttpRoute)
      → Runs lib client methods ctx i rules s routes t
      → IsShown lib client ctx w s.ingress.meta rules routes
      → All (IsInPlace lib client ctx w s.ingress.meta) rules
  Runs-IsInPlace laws w i [] s t [] run shown = tt
  Runs-IsInPlace laws w i [] s t (r ∷ routes) run shown = tt
  Runs-IsInPlace laws w i (rule ∷ rules) s t [] run shown = absurd run
  Runs-IsInPlace laws w i (rule ∷ rules) s t (r ∷ routes) (u, b, p, known, run) shown =
      let (desired, sorted, made) = reconcile_http_route_made lib client ctx i rule s p in
      let same : u.ingress.meta ≡ s.ingress.meta =
        ap (λ (x : Ingress Status). x.meta)
          (sym (ingress-reconcile_http_route lib client ctx i rule s p)) in
      (
        record {
          desired = desired;
          sorted = sorted;
          made = made;
          cached = r;
          found = shown.0 desired.name sorted.hosts (named_first lib client ctx i rule s made).0;
          same = reconcile_http_route_as_desired lib client laws ctx i rule s made p;
        },
        subst (λ (m : ObjectMeta). All (IsInPlace lib client ctx w m) rules) same
            (Runs-IsInPlace laws w (suc i) rules (marked methods b u) t routes run (
              subst (λ (m : ObjectMeta). IsShown lib client ctx w m rules routes) (sym same)
                shown.1)),
      )

  reconcile_rules_in_place :
      (i : ℕ) (rules : List IngressRule) (s : State Status World)
      → All (IsInPlace lib client ctx s.world s.ingress.meta) rules
      → (t : State Status World) × (reconcile_rules lib client methods ctx i rules s ≡ (ok tt, t))
        × (t.world ≡ s.world)
        × (t.events ≡ s.events)
  unfolding reconcile_rules
  reconcile_rules_in_place i [] s a = (s, refl, refl, refl)
  reconcile_rules_in_place i (rule ∷ rules) s (a, rest) =
      let p = reconcile_http_route-Ends lib client ctx i rule s a.made (kept a.found a.same) in
      let (b, q) = (is_http_route_ready_iff a.cached).1 in
      let u = sorted_state lib client ctx i rule s a.made in
      let (t, h, world, events) =
        reconcile_rules_in_place (suc i) rules (marked methods b u) rest in
      (t, rw p (rw q h), world, events)

  module _ (knative : IngressMethods Status World) where
    -- The world is the one given, and the events are.
    abbrev Shows : World → List Event → State Status World → Type 0
    Shows w events s = (s.world ≡ w) × (s.events ≡ events)

    mark_load_balancer-Shows :
        (answer : Bool) (s : State Status World)
        → Shows s.world s.events (mark_load_balancer lib client methods knative ctx answer s).1
    unfolding mark_load_balancer
    mark_load_balancer-Shows true s =
        keep_continue (Shows s.world s.events) _ (lift (gateway_config lib ctx) s) (refl, refl)
          (λ gateway e. (refl, refl))
    mark_load_balancer-Shows false s = (refl, refl)

    reconcile_probed-Shows :
        (before : Ingress Status) (s : State Status World)
        → All (IsInPlace lib client ctx s.world s.ingress.meta) s.ingress.spec.rules
        → Shows
            (knative.is_ready before s.world).1
            s.events
            (reconcile_probed lib client methods knative ctx before s).1
    unfolding reconcile_probed
    reconcile_probed-Shows before s a =
        let (u, p, world, events) = reconcile_rules_in_place zero s.ingress.spec.rules s a in
        let asked = on_world (knative.is_ready before) u in
        let told : Shows (knative.is_ready before s.world).1 s.events asked.1 =
          (ap (λ (w : World). (knative.is_ready before w).1) world, events) in
        rw p (
          keep_handle (Shows (knative.is_ready before s.world).1 s.events) _
            (mark_load_balancer lib client methods knative ctx) asked told (λ e. told)
            (λ answer e.
              let last = mark_load_balancer-Shows answer asked.1 in
              (last.0 ∙ told.0, last.1 ∙ told.1)))

    -- Where the cache holds every rule's route as it is to be, a reconciliation asks the prober, once,
    -- and neither sends nor records anything.
    pub reconcile_kind_in_place :
        (s : State Status World) {before probed : Ingress Status} {hash : String}
        → knative.set_defaults s.ingress ≡ ok before
        → knative.insert_probe
            (record before { status = methods.initialize_conditions before.status })
          ≡ (ok hash, probed)
        → All (IsInPlace lib client ctx s.world probed.meta) probed.spec.rules
        → ((reconcile_kind lib client methods knative ctx s).1.world
            ≡ (knative.is_ready before s.world).1)
          × ((reconcile_kind lib client methods knative ctx s).1.events ≡ s.events)
    unfolding reconcile_kind reconcile_ingress
    reconcile_kind_in_place s {before} {probed} defaulted inserted a =
        let run =
          reconcile_probed lib client methods knative ctx before (record s { ingress = probed }) in
        let told = reconcile_probed-Shows before (record s { ingress = probed }) a in
        rw defaulted (
          rw inserted (
            keep_handle (Shows (knative.is_ready before s.world).1 s.events) _ pure run told
              (λ e. told) (λ done e. told)))

    -- After a reconciliation that returned, another one of the ingress with the same rules and
    -- metadata, the lister finding the routes that the first one returned, sends nothing to the API
    -- server and records no event: it asks the prober once. The API server returns the spec, the
    -- annotations and the labels that it was given, and the semantic comparison finds a value equal
    -- to itself.
    pub reconcile_kind-converges :
        (laws : ServerLaws client) (s t : State Status World)
        (ran : Reconciled lib client methods knative ctx s t) (s' : State Status World)
        {before probed : Ingress Status} {hash : String}
        → knative.set_defaults s'.ingress ≡ ok before
        → knative.insert_probe
            (record before { status = methods.initialize_conditions before.status })
          ≡ (ok hash, probed)
        → probed.meta ≡ ran.probed.meta
        → probed.spec.rules ≡ ran.probed.spec.rules
        → IsShown lib client ctx s'.world ran.probed.meta ran.probed.spec.rules ran.routes
        → ((reconcile_kind lib client methods knative ctx s').1.world
            ≡ (knative.is_ready before s'.world).1)
          × ((reconcile_kind lib client methods knative ctx s').1.events ≡ s'.events)
    reconcile_kind-converges laws s t ran s' {before} {probed} defaulted inserted meta rules shown =
        let ready =
          Runs-IsInPlace laws s'.world zero ran.probed.spec.rules
            (record s { ingress = ran.probed }) ran.end ran.routes ran.run shown in
        reconcile_kind_in_place s' defaulted inserted (
          subst (λ (m : ObjectMeta). All (IsInPlace lib client ctx s'.world m) probed.spec.rules)
            (sym meta)
            (subst
              (λ (l : List IngressRule). All (IsInPlace lib client ctx s'.world ran.probed.meta) l)
              (sym rules) ready))
