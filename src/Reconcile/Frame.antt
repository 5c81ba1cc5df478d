-- ===== src/Reconcile/Frame.antt =====
-- What `reconcileHTTPRoute` may write to the API server, whatever happens on the way.
use net_gateway_api_obsolete.Prelude.{
  ℕ, String, ◌≡◌, refl, sym, ap, ◌∙◌, List, [], ◌∷◌, subst, Bool-cases, inl, inr,
}
use net_gateway_api_obsolete.Prelude.Outcome.{wrap, Outcome, ok, err, panic, bind-eq-ok}
use net_gateway_api_obsolete.Prelude.Action.{pure, raise, handle, ◌>>◌}
use net_gateway_api_obsolete.Objects.{ObjectMeta}
use net_gateway_api_obsolete.Objects.Ingress.{IngressRule}
use net_gateway_api_obsolete.Objects.HttpRoute.{HttpRoute}
use net_gateway_api_obsolete.Libraries.{Libraries}
use net_gateway_api_obsolete.Config.Context.{Context}
use net_gateway_api_obsolete.Resources.{
  longest_host, make_http_route, make_http_route_spec, make_meta,
}
use net_gateway_api_obsolete.Reconcile.{
  State, RouteClient, write_rule, record_event, creation_failed, created, create_route, send_update,
  update_route, differs, with_desired, on_found, reconcile_http_route,
}

-- A route that is made is in the ingress's namespace, and the ingress controls it.
pub record IsOwned (lib : Libraries) (ing : ObjectMeta) (route : HttpRoute) : Type 0 where
  pub namespace : route.namespace ≡ ing.namespace
  pub owner : route.owner_references ≡ lib.new_controller_ref ing ∷ []

module _ (lib : Libraries) {Network : Type 0} (ctx : Context Network) where
  make_http_route-IsOwned :
      (ing : ObjectMeta) (rule : IngressRule) {d : HttpRoute} {r : IngressRule}
      → make_http_route lib ctx ing rule ≡ ok (d, r)
      → IsOwned lib ing d
  unfolding make_http_route make_meta
  make_http_route-IsOwned ing rule {d} {r} h =
      let (named, e, rest) = bind-eq-ok (longest_host rule.hosts) _ h in
      let (spec, q, fin) =
        bind-eq-ok (make_http_route_spec lib ctx (record rule { hosts = named.1 })) _ rest in
      let m : make_meta lib ing rule.visibility named.0 ≡ d.meta = cc in
      record {
        namespace = sym (ap (λ (x : ObjectMeta). x.namespace) m);
        owner = sym (ap (λ (x : ObjectMeta). x.owner_references) m);
      }

module _ {World : Type 0} (lib : Libraries) (client : RouteClient World) (P : World → Type 0)
    (ing : ObjectMeta) where
  -- Both calls of the client keep `P`, as this code makes them.
  pub record IsKept : Type 0 where
    pub create :
        (w : World) (route : HttpRoute)
        → IsOwned lib ing route
        → P w
        → P (client.create ing.namespace route w).1
    pub update :
        (w : World) (name : String) (cached desired : HttpRoute)
        → client.lister_get w ing.namespace name ≡ ok cached
        → IsOwned lib ing desired
        → P w
        → P (client.update cached.namespace (with_desired cached desired) w).1

  module _ {Status Network : Type 0} (ctx : Context Network) (kept : IsKept) (i : ℕ) where
    keep_create :
        (s : State Status World) (o : Outcome HttpRoute) (w : World)
        → P w
        → P
            (handle
              (λ e. do
                record_event (creation_failed e)
                raise (wrap "failed to create HTTPRoute: %w" e))
              (λ u. do record_event (created u.name); pure u)
              (o, record s { world = w })).1.world
    keep_create s (ok a) w p = p
    keep_create s (err e) w p = p
    keep_create s panic w p = p

    frame_create :
        (s : State Status World) (rule : IngressRule) (o : Outcome (HttpRoute × IngressRule))
        → make_http_route lib ctx s.ingress.meta rule ≡ o
        → s.ingress.meta ≡ ing
        → P s.world
        → P (create_route lib client ctx i rule s).1.world
    unfolding create_route
    frame_create s rule (ok (d, r)) e m p =
        let owned =
          make_http_route-IsOwned lib ctx ing rule
            (ap (λ (x : ObjectMeta). make_http_route lib ctx x rule) (sym m) ∙ e) in
        let answer = client.create d.namespace d s.world in
        rw e (
          keep_create (write_rule i r s).1 answer.0 answer.1 (
            subst (λ (n : String). P (client.create n d s.world).1) (sym owned.namespace)
              (kept.create s.world d owned p)))
    frame_create s rule (err x) e m p = rw e p
    frame_create s rule panic e m p = rw e p

    keep_update :
        (s : State Status World) (o : Outcome HttpRoute) (w : World)
        → P w
        → P
            (handle
              (λ e. raise (wrap "failed to update HTTPRoute: %w" e))
              (λ u. pure u)
              (o, record s { world = w })).1.world
    keep_update s (ok a) w p = p
    keep_update s (err e) w p = p
    keep_update s panic w p = p

    frame_update :
        (s : State Status World) (rule : IngressRule) (name : String) (cached : HttpRoute)
        (o : Outcome (HttpRoute × IngressRule))
        → make_http_route lib ctx s.ingress.meta rule ≡ o
        → s.ingress.meta ≡ ing
        → client.lister_get s.world ing.namespace name ≡ ok cached
        → P s.world
        → P (update_route lib client ctx cached i rule s).1.world
    unfolding update_route send_update
    frame_update s rule name cached (ok (d, r)) e m found p =
        let owned =
          make_http_route-IsOwned lib ctx ing rule
            (ap (λ (x : ObjectMeta). make_http_route lib ctx x rule) (sym m) ∙ e) in
        elim (Bool-cases (differs client cached d)) [
          | inl other ↦
              let answer = client.update cached.namespace (with_desired cached d) s.world in
              rw e (
                rw other (
                  keep_update (write_rule i r s).1 answer.0 answer.1
                    (kept.update s.world name cached d found owned p)))
          | inr same ↦ rw e (rw same p)
        ]
    frame_update s rule name cached (err x) e m found p = rw e p
    frame_update s rule name cached panic e m found p = rw e p

    frame_found :
        (s : State Status World) (rule : IngressRule) (name : String) (found : Outcome HttpRoute)
        → client.lister_get s.world ing.namespace name ≡ found
        → s.ingress.meta ≡ ing
        → P s.world
        → P (on_found lib client ctx found i rule s).1.world
    frame_found s rule name (ok cached) e m p = frame_update s rule name cached _ refl m e p
    frame_found s rule name (err x) e m p = elim (Bool-cases (client.is_not_found x)) [
      | inl missing ↦ rw missing (frame_create s rule _ refl m p)
      | inr other ↦ rw other p
    ]
    frame_found s rule name panic e m p = p

    frame_named :
        (s : State Status World) (rule : IngressRule) (o : Outcome (String × List String))
        → longest_host rule.hosts ≡ o
        → s.ingress.meta ≡ ing
        → P s.world
        → P (reconcile_http_route lib client ctx i rule s).1.world
    unfolding reconcile_http_route
    frame_named s rule (ok (name, sorted)) e m p = rw e (
        frame_found _ _ name _
          (ap (λ (x : ObjectMeta). client.lister_get s.world x.namespace name) (sym m)) m p)
    frame_named s rule (err x) e m p = rw e p
    frame_named s rule panic e m p = rw e p

    -- Whatever the lister, the API server and the configuration answer, a property of the world holds
    -- after the call if it held before, and if it outlives two calls: the creation of a route that the
    -- ingress owns, in the ingress's namespace, and the update of a route that the lister returned for
    -- that namespace to the desired spec, annotations and labels. Nothing else is written.
    pub reconcile_http_route_frame :
        (s : State Status World) (rule : IngressRule)
        → s.ingress.meta ≡ ing
        → P s.world
        → P (reconcile_http_route lib client ctx i rule s).1.world
    reconcile_http_route_frame s rule m p = frame_named s rule _ refl m p
