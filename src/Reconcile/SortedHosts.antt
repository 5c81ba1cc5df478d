-- ===== src/Reconcile/SortedHosts.antt =====
-- What `reconcileHTTPRoute` does to the ingress that it was given.
use net_gateway_api_obsolete.Prelude.{
  ℕ, String, ◌≡◌, refl, sym, ap, ◌∙◌, List, set, Bool-cases, inl, inr,
}
use net_gateway_api_obsolete.Prelude.Outcome.{wrap, Outcome, ok, err, panic, bind-eq-ok}
use net_gateway_api_obsolete.Prelude.Action.{pure, raise, handle, ◌>>◌}
use net_gateway_api_obsolete.Hosts.{sort_strings, sort_strings_idem}
use net_gateway_api_obsolete.Objects.{ObjectMeta}
use net_gateway_api_obsolete.Objects.Ingress.{Ingress, IngressRule}
use net_gateway_api_obsolete.Objects.HttpRoute.{HttpRoute}
use net_gateway_api_obsolete.Libraries.{Libraries}
use net_gateway_api_obsolete.Config.Context.{Context}
use net_gateway_api_obsolete.Resources.{longest_host, make_http_route, make_http_route_spec}
use net_gateway_api_obsolete.Resources.Names.{longest_host-sorted}
use net_gateway_api_obsolete.Reconcile.{
  State, RouteClient, write_rule, record_event, creation_failed, created, create_route, send_update,
  update_route, differs, with_desired, on_found, reconcile_http_route,
}
use net_gateway_api_obsolete.Reconcile.Branches.{set-set}

abbrev pub sort_rule : IngressRule → IngressRule
sort_rule rule = record rule { hosts = sort_strings rule.hosts }

-- The ingress with another rule at a place.
abbrev pub with_rule : {Status : Type 0} → ℕ → IngressRule → Ingress Status → Ingress Status
with_rule i rule ing = record ing { spec = record ing.spec { rules = set ing.spec.rules i rule } }

with_rule_again :
    {Status : Type 0} (i : ℕ) (rule : IngressRule) (ing : Ingress Status)
    → with_rule i rule (with_rule i rule ing) ≡ with_rule i rule ing
with_rule_again i rule ing = rw set-set

module _ (lib : Libraries) {Network : Type 0} (ctx : Context Network) (rule : IngressRule) where
  made_rule :
      (ing : ObjectMeta) {d : HttpRoute} {r : IngressRule}
      → make_http_route lib ctx ing (sort_rule rule) ≡ ok (d, r)
      → sort_rule rule ≡ r
  unfolding make_http_route
  made_rule ing {d} {r} h =
      let (named, e, rest) = bind-eq-ok (longest_host (sort_strings rule.hosts)) _ h in
      let (spec, q, fin) =
        bind-eq-ok (make_http_route_spec lib ctx (record rule { hosts = named.1 })) _ rest in
      let same : record rule { hosts = named.1 } ≡ r = cc in
      let hosts = longest_host-sorted (sort_strings rule.hosts) e ∙ sort_strings_idem rule.hosts in
      ap (λ (x : List String). record rule { hosts = x }) (sym hosts) ∙ same

module _ {Status World Network : Type 0} (lib : Libraries) (client : RouteClient World)
    (ctx : Context Network) (i : ℕ) (rule : IngressRule) where
  -- The ingress of a state has the rule sorted.
  abbrev Holds : Ingress Status → State Status World → Type 0
  Holds ing u = with_rule i (sort_rule rule) ing ≡ u.ingress

  Holds-written :
      (ing : Ingress Status) (u : State Status World) (r : IngressRule)
      → Holds ing u
      → (sort_rule rule) ≡ r
      → Holds ing (write_rule i r u).1
  Holds-written ing u r h e =
      sym (with_rule_again i (sort_rule rule) ing)
      ∙ ap (with_rule i (sort_rule rule)) h
      ∙ ap (λ (x : IngressRule). with_rule i x u.ingress) e

  sent_create :
      (u : State Status World) (o : Outcome HttpRoute) (w : World)
      → u.ingress
        ≡ (handle
            (λ e. do
              record_event (creation_failed e)
              raise (wrap "failed to create HTTPRoute: %w" e))
            (λ x. do record_event (created x.name); pure x)
            (o, record u { world = w })).1.ingress
  sent_create u (ok a) w = refl
  sent_create u (err e) w = refl
  sent_create u panic w = refl

  sent_update :
      (u : State Status World) (o : Outcome HttpRoute) (w : World)
      → u.ingress
        ≡ (handle
            (λ e. raise (wrap "failed to update HTTPRoute: %w" e))
            (λ x. pure x)
            (o, record u { world = w })).1.ingress
  sent_update u (ok a) w = refl
  sent_update u (err e) w = refl
  sent_update u panic w = refl

  Holds-create :
      (ing : Ingress Status) (u : State Status World) (o : Outcome (HttpRoute × IngressRule))
      → make_http_route lib ctx u.ingress.meta (sort_rule rule) ≡ o
      → Holds ing u
      → Holds ing (create_route lib client ctx i (sort_rule rule) u).1
  unfolding create_route
  Holds-create ing u (ok (d, r)) e h =
      let answer = client.create d.namespace d u.world in
      rw e (
        Holds-written ing u r h (made_rule lib ctx rule _ e)
        ∙ sent_create (write_rule i r u).1 answer.0 answer.1)
  Holds-create ing u (err x) e h = rw e h
  Holds-create ing u panic e h = rw e h

  Holds-update :
      (ing : Ingress Status) (u : State Status World) (cached : HttpRoute)
      (o : Outcome (HttpRoute × IngressRule))
      → make_http_route lib ctx u.ingress.meta (sort_rule rule) ≡ o
      → Holds ing u
      → Holds ing (update_route lib client ctx cached i (sort_rule rule) u).1
  unfolding update_route send_update
  Holds-update ing u cached (ok (d, r)) e h =
      let written = Holds-written ing u r h (made_rule lib ctx rule _ e) in
      elim (Bool-cases (differs client cached d)) [
        | inl other ↦
            let answer = client.update cached.namespace (with_desired cached d) u.world in
            rw e (rw other (written ∙ sent_update (write_rule i r u).1 answer.0 answer.1))
        | inr same ↦ rw e (rw same written)
      ]
  Holds-update ing u cached (err x) e h = rw e h
  Holds-update ing u cached panic e h = rw e h

  Holds-found :
      (ing : Ingress Status) (u : State Status World) (found : Outcome HttpRoute)
      → Holds ing u
      → Holds ing (on_found lib client ctx found i (sort_rule rule) u).1
  Holds-found ing u (ok cached) h = Holds-update ing u cached _ refl h
  Holds-found ing u (err x) h = elim (Bool-cases (client.is_not_found x)) [
    | inl missing ↦ rw missing (Holds-create ing u _ refl h)
    | inr other ↦ rw other h
  ]
  Holds-found ing u panic h = h

  Holds-named :
      (s : State Status World) (o : Outcome (String × List String)) {r : HttpRoute}
      {t : State Status World}
      → longest_host rule.hosts ≡ o
      → reconcile_http_route lib client ctx i rule s ≡ (ok r, t)
      → with_rule i (sort_rule rule) s.ingress ≡ t.ingress
  unfolding reconcile_http_route
  Holds-named s (ok (name, hosts)) {t = t} e h =
      let found = client.lister_get s.world s.ingress.meta.namespace name in
      let after = λ (x : List String).
        (on_found lib client ctx found i (record rule { hosts = x })
          (write_rule i (record rule { hosts = x }) s).1).1.ingress in
      let run = rw e at h in
      Holds-found s.ingress (write_rule i (sort_rule rule) s).1 found refl
      ∙ ap after (sym (longest_host-sorted rule.hosts e))
      ∙ ap (λ (p : Outcome HttpRoute × State Status World). p.1.ingress) run
  Holds-named s (err x) e h = cc (rw e at h)
  Holds-named s panic e h = cc (rw e at h)

  -- A call that returns a route leaves the ingress as it was, but for the hosts of its rule, which are
  -- in alphabetical order.
  pub ingress-reconcile_http_route :
      (s : State Status World) {r : HttpRoute} {t : State Status World}
      → reconcile_http_route lib client ctx i rule s ≡ (ok r, t)
      → with_rule i (sort_rule rule) s.ingress ≡ t.ingress
  ingress-reconcile_http_route s h = Holds-named s _ refl h
