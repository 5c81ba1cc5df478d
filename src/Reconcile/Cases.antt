-- ===== src/Reconcile/Cases.antt =====
-- All the ends of one call of `reconcileHTTPRoute`, pkg/reconciler/ingress/reconcile_resources.go, by what
-- the lister and the API server answer.
use net_gateway_api_obsolete.Prelude.{
  ℕ, ◌≡◌, ◌↔◌, refl, sym, ◌∙◌, true, false, [], ◌∷◌, ◌++◌, subst, Bool-cases, inl, inr,
}
use net_gateway_api_obsolete.Prelude.Outcome.{Error, wrap, Outcome, ok, err, panic}
use net_gateway_api_obsolete.Objects.Ingress.{IngressRule}
use net_gateway_api_obsolete.Objects.HttpRoute.{HttpRoute}
use net_gateway_api_obsolete.Libraries.{Libraries}
use net_gateway_api_obsolete.Config.Context.{Context}
use net_gateway_api_obsolete.Resources.{make_http_route}
use net_gateway_api_obsolete.Reconcile.{
  State, RouteClient, creation_failed, created, create_route, send_update, update_route, differs,
  with_desired, reconcile_http_route, on_found,
}
use net_gateway_api_obsolete.Reconcile.Branches.{dispatch, make_again, sorted_state}

module _ {Status World Network : Type 0} (lib : Libraries) (client : RouteClient World)
    (ctx : Context Network) (i : ℕ) (rule : IngressRule) (s : State Status World)
    {desired : HttpRoute} {sorted : IngressRule}
    (made : make_http_route lib ctx s.ingress.meta rule ≡ ok (desired, sorted)) where
  abbrev run : Outcome HttpRoute × State Status World
  run = reconcile_http_route lib client ctx i rule s

  abbrev start : State Status World
  start = sorted_state lib client ctx i rule s made

  abbrev found : Outcome HttpRoute
  found = client.lister_get s.world s.ingress.meta.namespace desired.name

  abbrev sent : HttpRoute → Outcome HttpRoute × World
  sent cached = client.update cached.namespace (with_desired cached desired) s.world

  abbrev posted : Outcome HttpRoute × World
  posted = client.create desired.namespace desired s.world

  -- The result and the state that the call ends with, for a rule that a route can be made for. In
  -- each of them the hosts of the rule are sorted.
  pub data Ends : Outcome HttpRoute → State Status World → Type 0 where
    kept :
        {cached : HttpRoute}
        → found ≡ ok cached
        → differs client cached desired ≡ false
        → Ends (ok cached) start
    updated :
        {cached r : HttpRoute} {w : World}
        → found ≡ ok cached
        → differs client cached desired ≡ true
        → sent cached ≡ (ok r, w)
        → Ends (ok r) (record start { world = w })
    update_refused :
        {cached : HttpRoute} {e : Error} {w : World}
        → found ≡ ok cached
        → differs client cached desired ≡ true
        → sent cached ≡ (err e, w)
        → Ends (err (wrap "failed to update HTTPRoute: %w" e)) (record start { world = w })
    update_panicked :
        {cached : HttpRoute} {w : World}
        → found ≡ ok cached
        → differs client cached desired ≡ true
        → sent cached ≡ (panic, w)
        → Ends panic (record start { world = w })
    accepted :
        {missing : Error} {r : HttpRoute} {w : World}
        → found ≡ err missing
        → client.is_not_found missing ≡ true
        → posted ≡ (ok r, w)
        → Ends (ok r) (record start { world = w; events = s.events ++ created r.name ∷ [] })
    create_refused :
        {missing e : Error} {w : World}
        → found ≡ err missing
        → client.is_not_found missing ≡ true
        → posted ≡ (err e, w)
        → Ends
            (err (wrap "failed to create HTTPRoute: %w" e))
            (record start { world = w; events = s.events ++ creation_failed e ∷ [] })
    create_panicked :
        {missing : Error} {w : World}
        → found ≡ err missing
        → client.is_not_found missing ≡ true
        → posted ≡ (panic, w)
        → Ends panic (record start { world = w })
    unlisted : {e : Error} → found ≡ err e → client.is_not_found e ≡ false → Ends (err e) start
    lister_panicked : found ≡ panic → Ends panic start

  route : run ≡ on_found lib client ctx found i sorted start
  route = dispatch lib client ctx i rule s made

  pub reconcile_http_route-Ends :
      {o : Outcome HttpRoute} {t : State Status World} → Ends o t → run ≡ (o, t)
  unfolding create_route update_route send_update
  reconcile_http_route-Ends (kept f d) =
      route ∙ rw f (rw (make_again lib client ctx i rule s made) (rw d refl))
  reconcile_http_route-Ends (updated f d a) =
      route ∙ rw f (rw (make_again lib client ctx i rule s made) (rw d (rw a refl)))
  reconcile_http_route-Ends (update_refused f d a) =
      route ∙ rw f (rw (make_again lib client ctx i rule s made) (rw d (rw a refl)))
  reconcile_http_route-Ends (update_panicked f d a) =
      route ∙ rw f (rw (make_again lib client ctx i rule s made) (rw d (rw a refl)))
  reconcile_http_route-Ends (accepted f n a) =
      route ∙ rw f (rw n (rw (make_again lib client ctx i rule s made) (rw a refl)))
  reconcile_http_route-Ends (create_refused f n a) =
      route ∙ rw f (rw n (rw (make_again lib client ctx i rule s made) (rw a refl)))
  reconcile_http_route-Ends (create_panicked f n a) =
      route ∙ rw f (rw n (rw (make_again lib client ctx i rule s made) (rw a refl)))
  reconcile_http_route-Ends (unlisted f n) = route ∙ rw f (rw n refl)
  reconcile_http_route-Ends (lister_panicked f) = route ∙ rw f refl

  abbrev End : Type 0
  End = (o : Outcome HttpRoute) × (t : State Status World) × Ends o t

  sent_end :
      {cached : HttpRoute} (o : Outcome HttpRoute) (w : World)
      → found ≡ ok cached
      → differs client cached desired ≡ true
      → sent cached ≡ (o, w)
      → End
  sent_end (ok r) w f d a = (_, _, updated f d a)
  sent_end (err e) w f d a = (_, _, update_refused f d a)
  sent_end panic w f d a = (_, _, update_panicked f d a)

  posted_end :
      {missing : Error} (o : Outcome HttpRoute) (w : World)
      → found ≡ err missing
      → client.is_not_found missing ≡ true
      → posted ≡ (o, w)
      → End
  posted_end (ok r) w f n a = (_, _, accepted f n a)
  posted_end (err e) w f n a = (_, _, create_refused f n a)
  posted_end panic w f n a = (_, _, create_panicked f n a)

  -- Some end is always reached.
  found_end : (o : Outcome HttpRoute) → found ≡ o → End
  found_end (ok cached) f = elim (Bool-cases (differs client cached desired)) [
    | inl d ↦ sent_end (sent cached).0 (sent cached).1 f d refl
    | inr d ↦ (_, _, kept f d)
  ]
  found_end (err e) f = elim (Bool-cases (client.is_not_found e)) [
    | inl n ↦ posted_end posted.0 posted.1 f n refl
    | inr n ↦ (_, _, unlisted f n)
  ]
  found_end panic f = (_, _, lister_panicked f)

  -- For a rule that a route can be made for, a call gives a result and a state just if they are one of
  -- the nine ends: the cached route is as desired and is returned, with nothing sent; it is not, and
  -- the API server accepts, refuses or panics at the update, which replaces the spec, the annotations
  -- and the labels; none is cached, and the API server accepts, refuses or panics at the creation, of
  -- which an event tells, the server's errors being wrapped; or the lister fails in another way or
  -- panics, and that is the result. In each the hosts of the rule are sorted.
  pub reconcile_http_route_iff :
      {o : Outcome HttpRoute} {t : State Status World} → (run ≡ (o, t)) ↔ Ends o t
  reconcile_http_route_iff {o} {t} = (
    λ h.
        let (p, u, end) = found_end found refl in
        subst (λ (x : Outcome HttpRoute × State Status World). Ends x.0 x.1)
          (sym (reconcile_http_route-Ends end) ∙ h) end,
    reconcile_http_route-Ends,
  )
