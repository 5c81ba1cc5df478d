-- ===== src/Fakes/Served.antt =====
-- A get of a fake clientset's client, over client-go's object tracker and its reaction.
use net_gateway_api_obsolete.Prelude.{
  ◌≢◌, String, ◌≡◌, refl, sym, ap, ◌∙◌, true, Option, none, some,
}
use net_gateway_api_obsolete.Prelude.Outcome.{Error, ok}
use net_gateway_api_obsolete.Objects.{ObjectMeta}
use net_gateway_api_obsolete.Clients.{get}
use net_gateway_api_obsolete.Informers.Generic.{GroupVersionResource}
use net_gateway_api_obsolete.Informers.Resources.{
  Accessor, backend_policies, gateways, gateway_classes, http_routes, tcp_routes, tls_routes,
  udp_routes,
}
use net_gateway_api_obsolete.Informers.Scopes.{type_of}
use net_gateway_api_obsolete.Fakes.Resources.{
  fake_backend_policies, fake_gateway_classes, fake_http_routes, fake_tcp_routes, fake_tls_routes,
  fake_udp_routes,
}
use net_gateway_api_obsolete.Fakes.{
  FakeScope, RuntimeObject, one, an_object, new_get_action, new_create_action, fake_call,
  fake_action,
}
use net_gateway_api_obsolete.Fakes.Simple.{
  Reaction, FakeLibrary, SimpleClientset, OverFake, FakeClient, simple_clientset, client_call,
  simple_networking, backend_policies_fake, gateways_fake, gateway_classes_fake, http_routes_fake,
  tcp_routes_fake, tls_routes_fake, udp_routes_fake,
}

-- The namespace that a tracker stores under, empty for the cluster.
abbrev pub stored_namespace : Option String → String
stored_namespace none = ""
stored_namespace (some namespace) = namespace

-- The resource that the tracker guesses for the kind of an accessor, by the rules of English plurals: a
-- `y` at the end becomes `ies`, also that of "Gateway".
abbrev guessed : Accessor → String
guessed backend_policies = "backendpolicies"
guessed gateways = "gatewaies"
guessed gateway_classes = "gatewayclasses"
guessed http_routes = "httproutes"
guessed tcp_routes = "tcproutes"
guessed tls_routes = "tlsroutes"
guessed udp_routes = "udproutes"

abbrev pub guessed_resource : Accessor → GroupVersionResource
guessed_resource a = record {
  group = "networking.x-k8s.io";
  version = "v1alpha1";
  resource = guessed a;
}

-- The fake client of an accessor.
abbrev pub fake_client : {Fake : Type 0} → Accessor → OverFake Fake → String → FakeClient Fake
fake_client backend_policies c namespace = backend_policies_fake c namespace
fake_client gateways c namespace = gateways_fake c namespace
fake_client gateway_classes c namespace = gateway_classes_fake c
fake_client http_routes c namespace = http_routes_fake c namespace
fake_client tcp_routes c namespace = tcp_routes_fake c namespace
fake_client tls_routes c namespace = tls_routes_fake c namespace
fake_client udp_routes c namespace = udp_routes_fake c namespace

module _ {World Fake Tracker TestAction Object Watch Selector : Type 0}
    (lib : FakeLibrary World Fake Tracker TestAction Object Watch Selector)
    (meta : Object → ObjectMeta) where
  -- client-go's tracker, its reaction, and a `Fake` with one reactor for all verbs and resources. "Add
  -- adds an object to the tracker": one that is there already is an error. It stores an object of a kind
  -- under the resource that it guesses. "ObjectReaction returns a ReactionFunc that applies core.Action to
  -- the given tracker", and handles every get and create. "Invokes records the provided Action and then
  -- invokes the ReactionFunc that handles the action if one exists." A reactor for "*" handles every verb
  -- or resource, and watch reactors are not asked. `kind_of` is the kind that the scheme has for an object;
  -- a list has none of the seven.
  pub record TrackerLaws : Type 0 where
    pub kind_of : Object → String
    pub stored : Tracker → World → GroupVersionResource → String → String → Option Object
    pub recorded : Fake → TestAction → World → World
    pub add_stores :
        (o : Tracker) (a : Accessor) (obj : Object) (w w' : World)
        → kind_of obj ≡ type_of a
        → lib.add o obj w ≡ (none, w')
        → stored o w' (guessed_resource a) (meta obj).namespace (meta obj).name ≡ some obj
    pub add_keeps :
        (o : Tracker) (obj : Object) (w w' : World)
        → lib.add o obj w ≡ (none, w')
        → (gvr : GroupVersionResource) (namespace name : String) {old : Object}
        → stored o w gvr namespace name ≡ some old
        → stored o w' gvr namespace name ≡ some old
    pub recorded_keeps :
        (fake : Fake) (action : TestAction) (o : Tracker) (w : World) (gvr : GroupVersionResource)
        (namespace name : String)
        → stored o (recorded fake action w) gvr namespace name ≡ stored o w gvr namespace name
    pub new_get :
        (fake : Fake) (gvr : GroupVersionResource) (namespace : Option String) (name : String)
        → (action : TestAction) × ((lib.testing fake).new_action (new_get_action gvr namespace name)
            ≡ ok action)
          × ((o : Tracker) (w : World) (obj : Object)
              → stored o w gvr (stored_namespace namespace) name ≡ some obj
              → lib.object_reaction o action w ≡ ((true, some (one obj), none), w))
    pub new_create :
        (fake : Fake) (gvr : GroupVersionResource) (namespace : Option String) (obj : Object)
        → (action : TestAction) × ((lib.testing fake).new_action
              (new_create_action gvr namespace obj)
            ≡ ok action)
          × ((o : Tracker) (w : World)
              → (made : Option (RuntimeObject Object)) × (e : Option Error) × (w' : World)
                × (lib.object_reaction o action w ≡ ((true, made, e), w'))
                × ((r : Object)
                    → made ≡ some (one r)
                    → e ≡ none
                    → stored o w' gvr (stored_namespace namespace) (meta obj).name ≡ some r))
    pub handled :
        (r : Reaction World TestAction (RuntimeObject Object)) (action : TestAction)
        (default : RuntimeObject Object) (w w' : World) (obj : Option (RuntimeObject Object))
        (e : Option Error)
        → r action (recorded (lib.add_reactor "*" "*" r lib.empty_fake) action w)
          ≡ ((true, obj, e), w')
        → (lib.testing (lib.add_reactor "*" "*" r lib.empty_fake)).invokes action default w
          ≡ ((obj, e), w')
    pub watches_apart :
        (resource : String) (r : Reaction World TestAction Watch) (fake : Fake)
        (action : TestAction) (default : RuntimeObject Object) (w : World)
        → (lib.testing (lib.add_watch_reactor resource r fake)).invokes action default w
          ≡ (lib.testing fake).invokes action default w

  module _ (laws : TrackerLaws) (empty : Object) where
    open laws use {stored, recorded}

    -- The `Fake` with the tracker's reactor, before the watch reactor.
    abbrev pub reacting : Tracker → Fake
    reacting o = lib.add_reactor "*" "*" (lib.object_reaction o) lib.empty_fake

    -- What the tracker's reaction answers, the clientset's `Fake` answers.
    pub invokes-reaction :
        (o : Tracker) (action : TestAction) (default : RuntimeObject Object) (w w' : World)
        (obj : Option (RuntimeObject Object)) (e : Option Error)
        → lib.object_reaction o action (recorded (reacting o) action w) ≡ ((true, obj, e), w')
        → (lib.testing (simple_clientset lib o).fake).invokes action default w ≡ ((obj, e), w')
    unfolding simple_clientset
    invokes-reaction o action default w w' obj e h =
        laws.watches_apart _ _ (reacting o) action default w
        ∙ laws.handled (lib.object_reaction o) action default w w' obj e h

    -- A get of a fake client of the clientset over a tracker finds what the tracker stores.
    get-stored :
        (o : Tracker) (scope : FakeScope) (w : World) (name opts : String) (obj : Object)
        → stored o w scope.resource (stored_namespace scope.namespace) name ≡ some obj
        → (client_call lib meta empty
            (record { fake = (simple_clientset lib o).fake; scope = scope })
            (get name opts)
            w).0
          ≡ ok (an_object (some obj) none)
    unfolding client_call fake_call fake_action
    get-stored o scope w name opts obj h =
        let fake = (simple_clientset lib o).fake in
        let (action, made, reacts) = laws.new_get fake scope.resource scope.namespace name in
        let found = reacts o (recorded (reacting o) action w) obj (
          laws.recorded_keeps (reacting o) action o w scope.resource
            (stored_namespace scope.namespace) name
          ∙ h) in
        rw made (rw (invokes-reaction o action (one empty) w _ (some (one obj)) none found) refl)

    -- The clients of a clientset are over its `Fake`.
    pub fake_client-fake :
        (a : Accessor) (cs : SimpleClientset Fake Tracker) (namespace : String)
        → record { fake = cs.fake; scope = (fake_client a (simple_networking cs) namespace).scope }
          ≡ fake_client a (simple_networking cs) namespace
    unfolding simple_networking backend_policies_fake gateways_fake gateway_classes_fake
        http_routes_fake tcp_routes_fake tls_routes_fake udp_routes_fake
    fake_client-fake backend_policies cs namespace = refl
    fake_client-fake gateways cs namespace = refl
    fake_client-fake gateway_classes cs namespace = refl
    fake_client-fake http_routes cs namespace = refl
    fake_client-fake tcp_routes cs namespace = refl
    fake_client-fake tls_routes cs namespace = refl
    fake_client-fake udp_routes cs namespace = refl

    pub get-client :
        (a : Accessor) (o : Tracker) (namespace : String) (w : World) (name opts : String)
        (obj : Object)
        → stored o w
            (fake_client a (simple_networking (simple_clientset lib o)) namespace).scope.resource
            (stored_namespace
              (fake_client a
                (simple_networking (simple_clientset lib o))
                namespace).scope.namespace)
            name
          ≡ some obj
        → (client_call lib meta empty
            (fake_client a (simple_networking (simple_clientset lib o)) namespace)
            (get name opts)
            w).0
          ≡ ok (an_object (some obj) none)
    get-client a o namespace w name opts obj h =
        let cs = simple_clientset lib o in
        ap (λ (c : FakeClient Fake). (client_call lib meta empty c (get name opts) w).0)
          (sym (fake_client-fake a cs namespace))
        ∙ get-stored o (fake_client a (simple_networking cs) namespace).scope w name opts obj h

-- The fake clients ask for the resources that the tracker guesses, but for the Gateways' client.
pub scope-guessed_resource :
    {Fake Tracker : Type 0} (a : Accessor) (cs : SimpleClientset Fake Tracker) (namespace : String)
    → a ≢ gateways
    → (fake_client a (simple_networking cs) namespace).scope.resource ≡ guessed_resource a
unfolding simple_networking backend_policies_fake gateway_classes_fake http_routes_fake
    tcp_routes_fake tls_routes_fake udp_routes_fake fake_backend_policies fake_gateway_classes
    fake_http_routes fake_tcp_routes fake_tls_routes fake_udp_routes
scope-guessed_resource backend_policies cs namespace other = refl
scope-guessed_resource gateways cs namespace other = absurd (other refl)
scope-guessed_resource gateway_classes cs namespace other = refl
scope-guessed_resource http_routes cs namespace other = refl
scope-guessed_resource tcp_routes cs namespace other = refl
scope-guessed_resource tls_routes cs namespace other = refl
scope-guessed_resource udp_routes cs namespace other = refl
