-- ===== src/Sync/Returns.antt =====
-- When a reconciliation comes to its end without an error and without a panic.
use net_gateway_api_obsolete.Prelude.{
  ℕ, zero, suc, String, ◌≡◌, ◌≢◌, ◌⊎◌, inl, inr, refl, Bool, true, false, none, some, List, [], ◌∷◌,
  All, Bool-cases,
}
use net_gateway_api_obsolete.Prelude.Outcome.{Error, ok, err}
use net_gateway_api_obsolete.Objects.{ObjectMeta}
use net_gateway_api_obsolete.Objects.Ingress.{
  Ingress, IngressRule, HttpIngressRuleValue, visibility_external_ip, visibility_cluster_local,
}
use net_gateway_api_obsolete.Objects.HttpRoute.{HttpRoute, gateway_allow_from_list}
use net_gateway_api_obsolete.Libraries.{Libraries}
use net_gateway_api_obsolete.Config.{Gateway, lookup_gateway}
use net_gateway_api_obsolete.Config.Context.{Context}
use net_gateway_api_obsolete.Resources.{
  make_meta, make_path_rules, make_http_route, make_http_route_spec, make_http_route_rule,
  gateway_config,
}
use net_gateway_api_obsolete.Resources.Names.{longest_host_total}
use net_gateway_api_obsolete.Readiness.{is_http_route_ready_iff}
use net_gateway_api_obsolete.Reconcile.{
  State, RouteClient, differs, with_desired, reconcile_http_route,
}
use net_gateway_api_obsolete.Reconcile.Cases.{reconcile_http_route-Ends, accepted, kept, updated}
use net_gateway_api_obsolete.Sync.{
  load_balancers, StatusMethods, IngressMethods, reconcile_rules, mark_load_balancer,
  reconcile_probed, reconcile_ingress, reconcile_kind,
}
use net_gateway_api_obsolete.Sync.Rules.{marked}

-- The lister finds the route or does not have it, and the API server accepts what it is sent.
pub record Responds {World : Type 0} (client : RouteClient World) : Type 0 where
  pub lister_get :
      (w : World) (namespace name : String)
      → ((r : HttpRoute) × (client.lister_get w namespace name ≡ ok r))
        ⊎ ((e : Error) × (client.lister_get w namespace name ≡ err e)
            × (client.is_not_found e ≡ true))
  pub create :
      (namespace : String) (route : HttpRoute) (w : World)
      → (r : HttpRoute) × (w' : World) × (client.create namespace route w ≡ (ok r, w'))
  pub update :
      (namespace : String) (route : HttpRoute) (w : World)
      → (r : HttpRoute) × (w' : World) × (client.update namespace route w ≡ (ok r, w'))

-- A rule with an HTTP block and a host.
pub record IsServable (rule : IngressRule) : Type 0 where
  pub http : HttpIngressRuleValue
  pub block : rule.http ≡ some http
  pub host : rule.hosts ≢ []

module _ {Network : Type 0} (lib : Libraries) (ctx : Context Network) {gateway : Gateway}
    (configured : gateway_config lib ctx ≡ ok gateway) where
  make_http_route_total :
      (ing : ObjectMeta) (rule : IngressRule)
      → IsServable rule
      → (d : HttpRoute) × (r : IngressRule) × (make_http_route lib ctx ing rule ≡ ok (d, r))
  unfolding make_http_route make_http_route_spec make_http_route_rule
  make_http_route_total ing rule a =
      let (name, sorted, e) = longest_host_total rule.hosts a.host in
      let key = lib.split_meta_namespace_key (lookup_gateway gateway rule.visibility) in
      (
        record {
          meta = make_meta lib ing rule.visibility name;
          spec = record {
            hostnames = sorted;
            rules = make_path_rules lib a.http.paths;
            gateways = some (record {
              allow = some gateway_allow_from_list;
              gateway_refs = (record { namespace = key.namespace; name = key.name }) ∷ [];
            });
          };
          status = record { gateways = none };
        },
        record rule { hosts = sorted },
        rw e (rw a.block (rw configured refl)),
      )

module _ {Status World Network : Type 0} (lib : Libraries) (client : RouteClient World)
    (responds : Responds client) (ctx : Context Network) {gateway : Gateway}
    (configured : gateway_config lib ctx ≡ ok gateway) where
  reconcile_http_route_returns :
      (i : ℕ) (rule : IngressRule) (s : State Status World)
      → IsServable rule
      → (r : HttpRoute) × (t : State Status World) × (reconcile_http_route lib client ctx i rule s
          ≡ (ok r, t))
  reconcile_http_route_returns i rule s a =
      let (desired, sorted, made) =
        make_http_route_total lib ctx configured s.ingress.meta rule a in
      elim (responds.lister_get s.world s.ingress.meta.namespace desired.name) [
        | inl found ↦ elim (Bool-cases (differs client found.0 desired)) [
          | inl other ↦
              let (r, w, sent) =
                responds.update found.0.namespace (with_desired found.0 desired) s.world in
              (
                _,
                _,
                reconcile_http_route-Ends lib client ctx i rule s made (updated found.1 other sent),
              )
          | inr same ↦
              (_, _, reconcile_http_route-Ends lib client ctx i rule s made (kept found.1 same))
        ]
        | inr missing ↦
            let (r, w, sent) = responds.create desired.namespace desired s.world in
            (
              _,
              _,
              reconcile_http_route-Ends lib client ctx i rule s made
                  (accepted missing.1 missing.2 sent),
            )
      ]

  module _ (methods : StatusMethods Status) where
    reconcile_rules_returns :
        (i : ℕ) (rules : List IngressRule) (s : State Status World)
        → All IsServable rules
        → (t : State Status World) × (reconcile_rules lib client methods ctx i rules s ≡ (ok tt, t))
    unfolding reconcile_rules
    reconcile_rules_returns i [] s a = (s, refl)
    reconcile_rules_returns i (rule ∷ rules) s a =
        let (r, u, p) = reconcile_http_route_returns i rule s a.0 in
        let (b, q) = (is_http_route_ready_iff r).1 in
        let (t, h) = reconcile_rules_returns (suc i) rules (marked methods b u) a.1 in
        (t, rw p (rw q h))

    module _ (knative : IngressMethods Status World)
        (answers : (a : Ingress Status) (w : World)
          → (b : Bool) × (w' : World) × (knative.is_ready a w ≡ (ok b, w'))) where
      mark_load_balancer_returns :
          (answer : Bool) (s : State Status World)
          → (t : State Status World) × (mark_load_balancer lib client methods knative ctx answer s
              ≡ (ok tt, t))
      unfolding mark_load_balancer
      mark_load_balancer_returns true s = (
        record s {
          ingress = record s.ingress {
            status =
                methods.mark_load_balancer_ready (load_balancers lib gateway visibility_external_ip)
                  (load_balancers lib gateway visibility_cluster_local) s.ingress.status;
          };
        },
        rw configured refl,
      )
      mark_load_balancer_returns false s = (_, refl)

      reconcile_probed_returns :
          (before : Ingress Status) (s : State Status World)
          → All IsServable s.ingress.spec.rules
          → (t : State Status World) × (reconcile_probed lib client methods knative ctx before s
              ≡ (ok tt, t))
      unfolding reconcile_probed
      reconcile_probed_returns before s a =
          let (u, p) = reconcile_rules_returns zero s.ingress.spec.rules s a in
          let (b, w, q) = answers before u.world in
          let (t, h) = mark_load_balancer_returns b (record u { world = w }) in (t, rw p (rw q h))

      -- Where the configuration is there, the defaults and the probe succeed, every rule of the probed
      -- ingress has an HTTP block and a host, the lister finds a route or says that there is none, the
      -- API server accepts what it is sent, and the prober answers: a reconciliation returns, with
      -- neither an error nor a panic.
      pub reconcile_kind_returns :
          (s : State Status World) {before probed : Ingress Status} {hash : String}
          → knative.set_defaults s.ingress ≡ ok before
          → knative.insert_probe
              (record before { status = methods.initialize_conditions before.status })
            ≡ (ok hash, probed)
          → All IsServable probed.spec.rules
          → (t : State Status World) × (reconcile_kind lib client methods knative ctx s
              ≡ (ok tt, t))
      unfolding reconcile_kind reconcile_ingress
      reconcile_kind_returns s {before} {probed} defaulted inserted a =
          let (t, h) = reconcile_probed_returns before (record s { ingress = probed }) a in
          (t, rw defaulted (rw inserted (rw h refl)))
