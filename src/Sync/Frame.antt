-- ===== src/Sync/Frame.antt =====
-- What a whole reconciliation may write, whatever happens on the way.
use net_gateway_api_obsolete.Prelude.{
  ℕ, zero, suc, ◌≡◌, sym, ap, ◌∙◌, Bool, true, false, List, [], ◌∷◌,
}
use net_gateway_api_obsolete.Prelude.Outcome.{Outcome, ok}
use net_gateway_api_obsolete.Prelude.Action.{keep_continue, keep_handle, pure, lift}
use net_gateway_api_obsolete.Objects.{ObjectMeta}
use net_gateway_api_obsolete.Objects.Ingress.{Ingress, IngressRule}
use net_gateway_api_obsolete.Objects.HttpRoute.{HttpRoute}
use net_gateway_api_obsolete.Libraries.{Libraries}
use net_gateway_api_obsolete.Config.Context.{Context}
use net_gateway_api_obsolete.Resources.{gateway_config}
use net_gateway_api_obsolete.Readiness.{is_http_route_ready}
use net_gateway_api_obsolete.Reconcile.{State, RouteClient, on_world, reconcile_http_route}
use net_gateway_api_obsolete.Reconcile.Frame.{IsKept, reconcile_http_route_frame}
use net_gateway_api_obsolete.Reconcile.SortedHosts.{ingress-reconcile_http_route}
use net_gateway_api_obsolete.Sync.{
  StatusMethods, IngressMethods, reconcile_rules, mark_load_balancer, reconcile_probed,
  reconcile_ingress, reconcile_kind, on_ingress,
}
use net_gateway_api_obsolete.Sync.Rules.{marked}

module _ {Status World : Type 0} (P : World → Type 0) where
  abbrev Framed : State Status World → Type 0
  Framed s = P s.world

  -- Neither the defaults nor the probe touch the ingress's metadata, and the prober keeps `P`.
  pub record IsQuiet (knative : IngressMethods Status World) : Type 0 where
    pub set_defaults : (a b : Ingress Status) → knative.set_defaults a ≡ ok b → b.meta ≡ a.meta
    pub insert_probe : (a : Ingress Status) → (knative.insert_probe a).1.meta ≡ a.meta
    pub is_ready : (a : Ingress Status) (w : World) → P w → P (knative.is_ready a w).1

module _ {Status World Network : Type 0} (lib : Libraries) (client : RouteClient World)
    (P : World → Type 0) (ing : ObjectMeta) (kept : IsKept lib client P ing)
    (methods : StatusMethods Status) (ctx : Context Network) where
  reconcile_rules_frame :
      (i : ℕ) (rules : List IngressRule) (s : State Status World)
      → s.ingress.meta ≡ ing
      → P s.world
      → P (reconcile_rules lib client methods ctx i rules s).1.world
  unfolding reconcile_rules
  reconcile_rules_frame i [] s m p = p
  reconcile_rules_frame i (rule ∷ rules) s m p =
      let run = reconcile_http_route lib client ctx i rule s in
      let u = run.1 in
      let framed = reconcile_http_route_frame lib client P ing ctx kept i s rule m p in
      keep_continue (Framed P) _ run framed (λ r e.
        let after =
          ingress-reconcile_http_route lib client ctx i rule s
            (ap (λ (o : Outcome HttpRoute). (o, u)) e) in
        keep_continue (Framed P) _ (lift (is_http_route_ready r) u) framed (λ b e'.
          reconcile_rules_frame (suc i) rules (marked methods b u)
            (ap (λ (x : Ingress Status). x.meta) (sym after) ∙ m) framed))

  module _ (knative : IngressMethods Status World) (quiet : IsQuiet P knative) where
    mark_load_balancer_frame :
        (answer : Bool) (s : State Status World)
        → P s.world
        → P (mark_load_balancer lib client methods knative ctx answer s).1.world
    unfolding mark_load_balancer
    mark_load_balancer_frame true s p =
        keep_continue (Framed P) _ (lift (gateway_config lib ctx) s) p (λ gateway e. p)
    mark_load_balancer_frame false s p = p

    reconcile_probed_frame :
        (before : Ingress Status) (s : State Status World)
        → s.ingress.meta ≡ ing
        → P s.world
        → P (reconcile_probed lib client methods knative ctx before s).1.world
    unfolding reconcile_probed
    reconcile_probed_frame before s m p =
        let run = reconcile_rules lib client methods ctx zero s.ingress.spec.rules s in
        keep_continue (Framed P) _ run (reconcile_rules_frame zero s.ingress.spec.rules s m p)
          (λ done e.
            let asked =
              quiet.is_ready before run.1.world
                (reconcile_rules_frame zero s.ingress.spec.rules s m p) in
            keep_handle (Framed P) _ (mark_load_balancer lib client methods knative ctx)
              (on_world (knative.is_ready before) run.1) asked (λ x. asked)
              (λ answer e'.
                mark_load_balancer_frame answer (on_world (knative.is_ready before) run.1).1 asked))

    reconcile_ingress_frame :
        (s : State Status World)
        → s.ingress.meta ≡ ing
        → P s.world
        → P (reconcile_ingress lib client methods knative ctx s).1.world
    unfolding reconcile_ingress
    reconcile_ingress_frame s m p =
        keep_continue (Framed P) _ (lift (knative.set_defaults s.ingress) s) p (λ before e.
          let given = record before { status = methods.initialize_conditions before.status } in
          let u = record s { ingress = given } in
          keep_handle (Framed P) _ (λ hash. reconcile_probed lib client methods knative ctx before)
            (on_ingress knative.insert_probe u) p (λ x. p)
            (λ hash e'.
              reconcile_probed_frame before (on_ingress knative.insert_probe u).1
                (quiet.insert_probe given ∙ quiet.set_defaults s.ingress before e ∙ m) p))

    -- Whatever the libraries, the lister, the API server and the prober answer, a property of the world
    -- holds after a reconciliation if it held before, and if it outlives the prober and two calls of
    -- the client: the creation of a route that the ingress owns, in the ingress's namespace, and the
    -- update of a route that the lister returned for that namespace to the desired spec, annotations
    -- and labels. The defaults and the probe leave the ingress's metadata as it is.
    pub reconcile_kind_frame :
        (s : State Status World)
        → s.ingress.meta ≡ ing
        → P s.world
        → P (reconcile_kind lib client methods knative ctx s).1.world
    unfolding reconcile_kind
    reconcile_kind_frame s m p =
        let framed = reconcile_ingress_frame s m p in
        keep_handle (Framed P) _ pure (reconcile_ingress lib client methods knative ctx s) framed
          (λ e. framed) (λ done e. framed)
