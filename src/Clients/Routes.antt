-- ===== src/Clients/Routes.antt =====
-- The reconciler on the generated lister and the generated client of HTTPRoutes, and the requests that it
-- sends.
use net_gateway_api_obsolete.Prelude.{
  String, ◌≡◌, ◌⊎◌, inl, inr, refl, ap, ◌∙◌, Bool, Option, none, some, List, [], ◌∷◌, ◌++◌, All,
  subst,
}
use net_gateway_api_obsolete.Prelude.Outcome.{Error, ok, bind-eq-ok}
use net_gateway_api_obsolete.Prelude.Action.{Action}
use net_gateway_api_obsolete.GoMap.{Map}
use net_gateway_api_obsolete.Objects.{ObjectMeta}
use net_gateway_api_obsolete.Objects.HttpRoute.{HttpRoute, HttpRouteSpec}
use net_gateway_api_obsolete.Libraries.{Libraries}
use net_gateway_api_obsolete.Config.Context.{Context}
use net_gateway_api_obsolete.Reconcile.{State, RouteClient, with_desired}
use net_gateway_api_obsolete.Reconcile.Frame.{IsKept}
use net_gateway_api_obsolete.Sync.{StatusMethods, IngressMethods, reconcile_kind}
use net_gateway_api_obsolete.Sync.Frame.{IsQuiet, reconcile_kind_frame}
use net_gateway_api_obsolete.Clients.{
  RestRequest, http_post, http_put, create, update, http_route_request,
}
use net_gateway_api_obsolete.Clients.Listers.{
  Indexer, object_key, found_or, lister_get, http_route_lister, http_route_namespace_lister,
}

-- The API server and the indexer, and the requests that were sent, in order.
pub record Wire (World : Type 0) : Type 0 where
  pub world : World
  pub sent : List (RestRequest HttpRoute)

abbrev meta_of : HttpRoute → ObjectMeta
meta_of route = route.meta

-- What the semantic comparison and the test of an error answer.
pub record Comparisons : Type 0 where
  pub is_not_found : Error → Bool
  pub deep_equal_spec : HttpRouteSpec → HttpRouteSpec → Bool
  pub deep_equal_map : Map String → Map String → Bool

module _ {World Selector : Type 0} (indexer : Indexer World Selector HttpRoute)
    (send : RestRequest HttpRoute → Action World HttpRoute) (comparisons : Comparisons) where
  -- `Do(ctx).Into(result)`
  abbrev pub do_into : RestRequest HttpRoute → Action (Wire World) HttpRoute
  do_into r s =
      let (answer, w) = send r s.world in (answer, record { world = w; sent = s.sent ++ r ∷ [] })

  -- The lister and the client that the reconciler holds; the options of its calls are empty.
  unfoldable pub generated_client : RouteClient (Wire World)
  unfolding http_route_lister
  generated_client = record {
    lister_get =
        λ s namespace name. ((http_route_lister indexer).in_namespace namespace).get s.world name;
    create = λ namespace route. do_into (http_route_request meta_of namespace (create route ""));
    update = λ namespace route. do_into (http_route_request meta_of namespace (update route ""));
    is_not_found = comparisons.is_not_found;
    deep_equal_spec = comparisons.deep_equal_spec;
    deep_equal_map = comparisons.deep_equal_map;
  }

  -- The creation or the replacement of an HTTPRoute in a namespace, and not of its status.
  pub record IsRouteWrite (namespace : String) (r : RestRequest HttpRoute) : Type 0 where
    pub verb : (r.verb ≡ http_post) ⊎ (r.verb ≡ http_put)
    pub scope : r.namespace ≡ some namespace
    pub resource : r.resource ≡ "httproutes"
    pub whole : r.subresources ≡ []

  abbrev pub Sent : String → Wire World → Type 0
  Sent namespace s = All (IsRouteWrite namespace) s.sent

  All-append_one :
      (namespace : String) (rs : List (RestRequest HttpRoute)) (r : RestRequest HttpRoute)
      → All (IsRouteWrite namespace) rs
      → IsRouteWrite namespace r
      → All (IsRouteWrite namespace) (rs ++ r ∷ [])
  All-append_one namespace [] r a b = (b, tt)
  All-append_one namespace (q ∷ rs) r a b = (a.0, All-append_one namespace rs r a.1 b)

  create-IsRouteWrite :
      (namespace : String) (route : HttpRoute)
      → IsRouteWrite namespace (http_route_request meta_of namespace (create route ""))
  unfolding http_route_request
  create-IsRouteWrite namespace route = record {
    verb = inl refl;
    scope = refl;
    resource = refl;
    whole = refl;
  }

  update-IsRouteWrite :
      (namespace : String) (route : HttpRoute)
      → IsRouteWrite namespace (http_route_request meta_of namespace (update route ""))
  unfolding http_route_request
  update-IsRouteWrite namespace route = record {
    verb = inr refl;
    scope = refl;
    resource = refl;
    whole = refl;
  }

  found_some :
      (name : String) (obj : Option HttpRoute) {route : HttpRoute}
      → found_or indexer "httproute" name obj ≡ ok route
      → obj ≡ some route
  found_some name none h = cc
  found_some name (some found) h = cc

  found-eq-ok :
      (w : World) (namespace name : String) {route : HttpRoute}
      → (http_route_namespace_lister indexer namespace).get w name ≡ ok route
      → indexer.get_by_key w (object_key namespace name) ≡ ok (some route)
  unfolding lister_get http_route_namespace_lister
  found-eq-ok w namespace name h =
      let (obj, p, q) = bind-eq-ok (indexer.get_by_key w (object_key namespace name)) _ h in
      p ∙ ap (λ (o : Option HttpRoute). ok o) (found_some name obj q)

  module _ (lib : Libraries)
      (indexed : (w : World) (namespace name : String) (route : HttpRoute)
        → indexer.get_by_key w (object_key namespace name) ≡ ok (some route)
        → route.namespace ≡ namespace) where
    Sent-IsKept : (ing : ObjectMeta) → IsKept lib generated_client (Sent ing.namespace) ing
    unfolding generated_client
    Sent-IsKept ing = record {
      create = λ s route owned h.
          All-append_one ing.namespace s.sent _ h (create-IsRouteWrite ing.namespace route);
      update = λ s name cached desired found owned h.
          let same =
            indexed s.world ing.namespace name cached
              (found-eq-ok s.world ing.namespace name found) in
          All-append_one ing.namespace s.sent _ h (
            subst
              (λ (n : String). IsRouteWrite n (
                http_route_request meta_of cached.namespace
                  (update (with_desired cached desired) "")))
              same (update-IsRouteWrite cached.namespace (with_desired cached desired)));
    }

    -- Whatever the indexer, the API server and the prober answer: where every request that was sent
    -- before a reconciliation creates or replaces an HTTPRoute in the namespace of the ingress, so does
    -- every request that was sent after it. The indexer keeps an object under its own namespace, the
    -- defaults and the probe leave the ingress's metadata as it is, and the prober sends no other
    -- request by this client.
    pub reconcile_kind-Sent :
        {Status Network : Type 0} (methods : StatusMethods Status)
        (knative : IngressMethods Status (Wire World)) (ctx : Context Network)
        (s : State Status (Wire World))
        → IsQuiet (Sent s.ingress.meta.namespace) knative
        → Sent s.ingress.meta.namespace s.world
        → Sent s.ingress.meta.namespace
            (reconcile_kind lib generated_client methods knative ctx s).1.world
    reconcile_kind-Sent methods knative ctx s quiet h =
        reconcile_kind_frame lib generated_client (Sent s.ingress.meta.namespace) s.ingress.meta
          (Sent-IsKept s.ingress.meta) methods ctx knative quiet s refl h
