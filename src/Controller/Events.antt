-- ===== src/Controller/Events.antt =====
-- Which ingress a change is reconciled for.
use net_gateway_api_obsolete.Prelude.{
  ◌⊎◌, ◌≢◌, none, String, ◌≡◌, Bool, true, false, some, List, [], ◌∷◌, ◌++◌, if◌then◌else◌,
}
use net_gateway_api_obsolete.GoMap.{lookup}
use net_gateway_api_obsolete.Objects.{ObjectMeta}
use net_gateway_api_obsolete.Objects.HttpRoute.{HttpRoute}
use net_gateway_api_obsolete.Libraries.{Libraries}
use net_gateway_api_obsolete.Config.Context.{Context}
use net_gateway_api_obsolete.Controller.{
  NamespacedName, Watched, watched_ingresses, watched_httproutes, watched_gateways, Registration,
  InformerEvent, EventLibrary,
}

-- The handlers of one informer.
abbrev is_watched : Watched → Watched → Bool
is_watched watched_ingresses watched_ingresses = true
is_watched watched_httproutes watched_httproutes = true
is_watched watched_gateways watched_gateways = true
is_watched _ _ = false

-- The keys that the handlers of an informer add to the work queue for an event.
abbrev pub queued : EventLibrary → List Registration → Watched → InformerEvent → List NamespacedName
queued ev [] w e = []
queued ev (r ∷ rs) w e =
    let rest = queued ev rs w e in if is_watched r.watched w then ev.deliver r e ++ rest else rest

-- The metadata of an object that the controller reads: a change of anything else keeps it.
pub record SameOwner (new made : ObjectMeta) : Type 0 where
  pub namespace : new.namespace ≡ made.namespace
  pub annotations : new.annotations ≡ made.annotations
  pub owner_references : new.owner_references ≡ made.owner_references

-- An object of the controller's class: its annotation names the class, or it has none.
abbrev pub IsOfClass : ObjectMeta → Type 0
IsOfClass m =
    (lookup "networking.knative.dev/ingress.class" m.annotations ≡ none)
    ⊎ (lookup "networking.knative.dev/ingress.class" m.annotations
        ≡ some "gateway-api.ingress.networking.knative.dev")

-- An object of another class.
abbrev pub IsOfAnother : ObjectMeta → Type 0
IsOfAnother m =
    (class : String) × (lookup "networking.knative.dev/ingress.class" m.annotations ≡ some class)
    × (class ≢ "gateway-api.ingress.networking.knative.dev")
