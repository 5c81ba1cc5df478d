-- ===== src/Controller.antt =====
-- The wiring of the controller, pkg/reconciler/ingress/controller.go: which handlers it adds to which
-- informers, and with which filters. client-go's delivery of events and knative's work queue are
-- parameters, and so are the informers of knative's packages.
pub mod Injected
pub mod Events
mod Tests
use net_gateway_api_obsolete.Prelude.{
  String, ◌≡◌, Bool, true, false, Option, none, some, List, [], ◌∷◌, ◌++◌, ◌==◌,
}
use net_gateway_api_obsolete.Prelude.Outcome.{Outcome, ok, ◌>>=◌}
use net_gateway_api_obsolete.GoMap.{lookup}
use net_gateway_api_obsolete.Objects.{ObjectMeta}
use net_gateway_api_obsolete.Libraries.{Libraries}
use net_gateway_api_obsolete.Informers.Resources.{http_routes, gateways}
use net_gateway_api_obsolete.Injection.{InjectionContext, client_get}
use net_gateway_api_obsolete.Injection.Resources.{injected}

-- `types.NamespacedName`
pub record NamespacedName : Type 0 where
  pub namespace : String
  pub name : String

-- The informers that handlers are added to.
pub data Watched : Type 0 where
  watched_ingresses : Watched
  watched_httproutes : Watched
  watched_gateways : Watched

-- `impl.Enqueue` and `impl.EnqueueControllerOf`
pub data EnqueueFunc : Type 0 where
  enqueue : EnqueueFunc
  enqueue_controller_of : EnqueueFunc

-- `controller.HandleAll(f)`, and the handler of deletions that the tracker needs
pub data Handler : Type 0 where
  handle_all : EnqueueFunc → Handler
  on_deleted_observer : Handler

-- One call of `AddEventHandler`, with the `FilterFunc` of a filtering handler.
pub record Registration : Type 0 where
  pub watched : Watched
  pub filter_func : Option (ObjectMeta → Bool)
  pub handler : Handler

-- What an informer tells its handlers.
pub data InformerEvent : Type 0 where
  added : ObjectMeta → InformerEvent
  updated : ObjectMeta → ObjectMeta → InformerEvent
  deleted : ObjectMeta → InformerEvent

-- `&network.Config{}` and `&config.Gateway{}`
pub data ConfigType : Type 0 where
  network_config_type : ConfigType
  gateway_config_type : ConfigType

-- knative's and client-go's functions: `AnnotationFilterFunc`; the keys that a handler adds to the work
-- queue, for an object and for an event; and whether the other informers are in the context.
pub record EventLibrary : Type 0 where
  pub annotation_filter_func : String → String → (allow_unset : Bool) → ObjectMeta → Bool
  pub keys : EnqueueFunc → ObjectMeta → List NamespacedName
  pub deliver : Registration → InformerEvent → List NamespacedName
  pub ingress_informer_get : Outcome (Unit {0})
  pub endpoints_informer_get : Outcome (Unit {0})

-- The object that an event passes on: the new one of an update.
abbrev pub object_of : InformerEvent → ObjectMeta
object_of (added m) = m
object_of (updated old new) = new
object_of (deleted m) = m

-- What holds of every object of an event.
abbrev pub About : (ObjectMeta → Type 0) → InformerEvent → Type 0
About P (added m) = P m
About P (updated old new) = P old × P new
About P (deleted m) = P m

-- "AnnotationFilterFunc creates a FilterFunc only accepting objects with given annotation key and
-- value", or with neither where that is allowed. An event whose objects a filter accepts is handled, one
-- whose objects it does not accept is not. "HandleAll wraps the provided handler function into a
-- cache.ResourceEventHandler that sends all events to the given handler. For Update events, only the new
-- object is forwarded." The tracker's handler of deletions queues nothing. "EnqueueControllerOf takes a
-- resource, identifies its controller resource, converts it into a namespace/name string, and passes that
-- to EnqueueKey."
pub record EventLaws (ev : EventLibrary) (lib : Libraries) : Type 0 where
  pub annotation_set :
      (key value : String) (allow : Bool) (m : ObjectMeta) (v : String)
      → lookup key m.annotations ≡ some v
      → ev.annotation_filter_func key value allow m ≡ (v == value)
  pub annotation_unset :
      (key value : String) (allow : Bool) (m : ObjectMeta)
      → lookup key m.annotations ≡ none
      → ev.annotation_filter_func key value allow m ≡ allow
  pub accepted :
      (w : Watched) (f : ObjectMeta → Bool) (g : EnqueueFunc) (e : InformerEvent)
      → About (λ m. f m ≡ true) e
      → ev.deliver (record { watched = w; filter_func = some f; handler = handle_all g }) e
        ≡ ev.keys g (object_of e)
  pub refused :
      (w : Watched) (f : ObjectMeta → Bool) (h : Handler) (e : InformerEvent)
      → About (λ m. f m ≡ false) e
      → ev.deliver (record { watched = w; filter_func = some f; handler = h }) e ≡ []
  pub observes :
      (w : Watched) (e : InformerEvent)
      → ev.deliver (record { watched = w; filter_func = none; handler = on_deleted_observer }) e
        ≡ []
  pub enqueues :
      (m : ObjectMeta) → ev.keys enqueue m ≡ record { namespace = m.namespace; name = m.name } ∷ []
  pub enqueues_controller :
      (m owner : ObjectMeta)
      → m.owner_references ≡ lib.new_controller_ref owner ∷ []
      → ev.keys enqueue_controller_of m ≡ record { namespace = m.namespace; name = owner.name } ∷ []

-- `networking.IngressClassAnnotationKey`
abbrev pub ingress_class_annotation_key : String
ingress_class_annotation_key = "networking.knative.dev/ingress.class"

-- `GatewayAPIIngressClassName`
abbrev pub gateway_api_ingress_class_name : String
gateway_api_ingress_class_name = "gateway-api.ingress.networking.knative.dev"

-- The callback of the prober, whose argument is a copy of the ingress.
abbrev pub on_ready : ObjectMeta → NamespacedName
on_ready ing = record { namespace = ing.namespace; name = ing.name }

-- What `NewController` sets up: the reconciler's client, the class and the filter that `NewImpl` is
-- given, the configurations whose change resyncs all ingresses, the handlers in the order of their
-- registration, and the prober's callback.
pub record ControllerSetup (Client : Type 0) : Type 0 where
  pub gwapiclient : Client
  pub class_value : String
  pub promote_filter_func : ObjectMeta → Bool
  pub configs_to_resync : List ConfigType
  pub registrations : List Registration
  pub ready_callback : ObjectMeta → NamespacedName

module _ (ev : EventLibrary) where
  -- `filterFunc`
  unfoldable pub filter_func : ObjectMeta → Bool
  filter_func =
      ev.annotation_filter_func ingress_class_annotation_key gateway_api_ingress_class_name true

  -- the calls of `AddEventHandler`
  abbrev pub add_event_handlers : List Registration
  add_event_handlers =
      record {
        watched = watched_ingresses;
        filter_func = some filter_func;
        handler = handle_all enqueue;
      }
      ∷ record {
        watched = watched_httproutes;
        filter_func = some filter_func;
        handler = handle_all enqueue_controller_of;
      }
      ∷ record {
        watched = watched_gateways;
        filter_func = some filter_func;
        handler = handle_all enqueue_controller_of;
      }
      ∷ record { watched = watched_ingresses; filter_func = none; handler = on_deleted_observer }
      ∷ []

  module _ {Config Client Object : Type 0} where
    -- `NewController`; its `Get`s panic where the context lacks what they look for
    unfoldable pub new_controller :
        InjectionContext Config Client Object → Outcome (ControllerSetup Client)
    unfolding client_get injected filter_func
    new_controller ctx = do
      ingresses ← ev.ingress_informer_get
      httproutes ← injected http_routes ctx
      gateway ← injected gateways ctx
      endpoints ← ev.endpoints_informer_get
      client ← client_get ctx
      ok (record {
        gwapiclient = client;
        class_value = gateway_api_ingress_class_name;
        promote_filter_func = filter_func;
        configs_to_resync = network_config_type ∷ gateway_config_type ∷ [];
        registrations = add_event_handlers;
        ready_callback = on_ready;
      })
