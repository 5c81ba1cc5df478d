-- ===== src/Sync.antt =====
-- `ReconcileKind` and `reconcileIngress`, pkg/reconciler/ingress/ingress.go. What knative's packages do
-- with the ingress and its status, and the prober, are parameters.
pub mod Rules
pub mod Outcomes
pub mod Ready
pub mod Converges
pub mod Failures
pub mod Frame
pub mod Returns
mod Tests
use net_gateway_api_obsolete.Prelude.{ℕ, zero, suc, String, Bool, true, false, List, [], ◌∷◌}
use net_gateway_api_obsolete.Prelude.Outcome.{Error, wrap, Outcome, ok, err, panic}
use net_gateway_api_obsolete.Prelude.Action.{
  Action, pure, raise, lift, gets, modify, or_else_do, ◌>>=◌, ◌>>◌,
}
use net_gateway_api_obsolete.Objects.Ingress.{
  Ingress, IngressRule, LoadBalancerIngressStatus, visibility_external_ip, visibility_cluster_local,
  IngressVisibility,
}
use net_gateway_api_obsolete.Libraries.{Libraries}
use net_gateway_api_obsolete.Config.{Gateway, lookup_service}
use net_gateway_api_obsolete.Config.Context.{Context}
use net_gateway_api_obsolete.Resources.{gateway_config}
use net_gateway_api_obsolete.Readiness.{is_http_route_ready}
use net_gateway_api_obsolete.Reconcile.{State, RouteClient, on_world, reconcile_http_route}

abbrev pub not_reconciled_reason : String
not_reconciled_reason = "ReconcileIngressFailed"

abbrev pub not_reconciled_message : String
not_reconciled_message = "Ingress reconciliation failed"

-- The methods of an ingress's status that the code calls.
pub record StatusMethods (Status : Type 0) : Type 0 where
  pub initialize_conditions : Status → Status
  pub mark_network_configured : Status → Status
  pub mark_ingress_not_ready : String → String → Status → Status
  pub mark_load_balancer_ready :
      List LoadBalancerIngressStatus → List LoadBalancerIngressStatus → Status → Status
  pub mark_load_balancer_not_ready : Status → Status

-- `Ingress.SetDefaults`, `ingress.InsertProbe`, which changes the rules also where it fails, and the
-- prober's `IsReady`.
pub record IngressMethods (Status World : Type 0) : Type 0 where
  pub set_defaults : Ingress Status → Outcome (Ingress Status)
  pub insert_probe : Action (Ingress Status) String
  pub is_ready : Ingress Status → Action World Bool

-- the marks of one rule
abbrev pub mark_rule : {Status : Type 0} → StatusMethods Status → Bool → Status → Status
mark_rule methods true = methods.mark_network_configured
mark_rule methods false =
    methods.mark_ingress_not_ready "HTTPRouteNotReady" "Waiting for HTTPRoute becomes Ready."

module _ {Status World : Type 0} where
  abbrev pub update_status : (Status → Status) → Action (State Status World) (Unit {0})
  update_status f =
      modify (λ s. record s { ingress = record s.ingress { status = f s.ingress.status } })

  -- A call that changes the ingress alone.
  abbrev pub on_ingress : {A : Type 0} → Action (Ingress Status) A → Action (State Status World) A
  on_ingress m s = let (r, ing) = m s.ingress in (r, record s { ingress = ing })

-- the address of the service of a visibility
unfoldable pub load_balancers :
    Libraries → Gateway → IngressVisibility → List LoadBalancerIngressStatus
load_balancers lib gateway visibility =
    let key = lib.split_meta_namespace_key (lookup_service gateway visibility) in
    (record { domain_internal = lib.get_service_hostname key.name key.namespace }) ∷ []

module _ {Status World Network : Type 0} (lib : Libraries) (client : RouteClient World)
    (methods : StatusMethods Status) (ctx : Context Network) where
  -- `for _, rule := range ing.Spec.Rules`, from the rule at place `i` on
  unfoldable pub reconcile_rules : ℕ → List IngressRule → Action (State Status World) (Unit {0})
  reconcile_rules i [] = pure tt
  reconcile_rules i (rule ∷ rules) = do
    httproute ← reconcile_http_route lib client ctx i rule
    ready ← lift (is_http_route_ready httproute)
    update_status (mark_rule methods ready)
    reconcile_rules (suc i) rules

module _ {Status World Network : Type 0} (lib : Libraries) (client : RouteClient World)
    (methods : StatusMethods Status) (knative : IngressMethods Status World)
    (ctx : Context Network) where
  -- what follows the prober's answer
  unfoldable pub mark_load_balancer : Bool → Action (State Status World) (Unit {0})
  mark_load_balancer true = do
    gateway ← lift (gateway_config lib ctx)
    update_status (
        methods.mark_load_balancer_ready (load_balancers lib gateway visibility_external_ip)
          (load_balancers lib gateway visibility_cluster_local))
  mark_load_balancer false = update_status methods.mark_load_balancer_not_ready

  -- `reconcileIngress` from the loop on; `before` is the copy that the prober is given
  unfoldable pub reconcile_probed : Ingress Status → Action (State Status World) (Unit {0})
  reconcile_probed before = do
    rules ← gets (λ s. s.ingress.spec.rules)
    reconcile_rules lib client methods ctx zero rules
    or_else_do (on_world (knative.is_ready before))
        (λ e. raise (wrap "failed to probe Ingress: %w" e)) (λ ready. mark_load_balancer ready)

  -- `reconcileIngress`
  unfoldable pub reconcile_ingress : Action (State Status World) (Unit {0})
  reconcile_ingress = do
    given ← gets (λ s. s.ingress)
    before ← lift (knative.set_defaults given)
    modify (λ s. record s { ingress = before })
    update_status methods.initialize_conditions
    or_else_do (on_ingress knative.insert_probe)
        (λ e. raise (wrap "failed to add knative probe header: %w" e))
        (λ hash. reconcile_probed before)

  -- `ReconcileKind`
  unfoldable pub reconcile_kind : Action (State Status World) (Unit {0})
  reconcile_kind =
      or_else_do reconcile_ingress
        (λ e. do
          update_status
              (methods.mark_ingress_not_ready not_reconciled_reason not_reconciled_message)
          raise e)
        pure
