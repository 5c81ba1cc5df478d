-- ===== src/Fakes/Simple.antt =====
-- The fake clientset, pkg/client/gatewayapi/clientset/versioned/fake/clientset_generated.go, and its group's
-- client, typed/apis/v1alpha1/fake/fake_apis_client.go. client-go's object tracker and chains of reactors are
-- parameters.
use net_gateway_api_obsolete.Prelude.{String, Bool, true, false, Option, none, some, List, [], ◌∷◌}
use net_gateway_api_obsolete.Prelude.Outcome.{Error, Outcome, ok, panic}
use net_gateway_api_obsolete.Prelude.Action.{Action, pure, ◌>>◌}
use net_gateway_api_obsolete.Objects.{ObjectMeta}
use net_gateway_api_obsolete.Clients.{Call}
use net_gateway_api_obsolete.Informers.Generic.{GroupVersionResource}
use net_gateway_api_obsolete.Fakes.{FakeScope, RuntimeObject, Answer, Testing, fake_call}
use net_gateway_api_obsolete.Fakes.Resources.{
  fake_backend_policies, fake_gateways, fake_gateway_classes, fake_http_routes, fake_tcp_routes,
  fake_tls_routes, fake_udp_routes,
}

-- `testing.ReactionFunc` and `testing.WatchReactionFunc`: whether the action is handled, and the results.
abbrev pub Reaction : Type 0 → Type 0 → Type 0 → Type 0
Reaction World TestAction R = TestAction → World → (Bool × Option R × Option Error) × World

-- client-go's `Fake`, whose methods `testing` holds, and its object tracker. The world holds what the
-- trackers store and the actions that the fakes record.
pub record FakeLibrary (World Fake Tracker TestAction Object Watch Selector : Type 0) : Type 0 where
  pub testing : Fake → Testing World TestAction Object Watch Selector
  pub empty_fake : Fake
  pub add_reactor : String → String → Reaction World TestAction (RuntimeObject Object) → Fake → Fake
  pub add_watch_reactor : String → Reaction World TestAction Watch → Fake → Fake
  pub object_reaction : Tracker → Reaction World TestAction (RuntimeObject Object)
  pub get_resource : TestAction → GroupVersionResource
  pub get_namespace : TestAction → String
  pub new_object_tracker : World → Tracker × World
  pub add : Tracker → Object → World → Option Error × World
  pub watch :
      Tracker → GroupVersionResource → String → World → (Option Watch × Option Error) × World

-- `Clientset`. Its `discovery` is left out, since it is always the fake discovery over the clientset's own
-- `Fake`.
pub record SimpleClientset (Fake Tracker : Type 0) : Type 0 where
  pub fake : Fake
  pub tracker : Tracker

-- `FakeDiscovery` and `FakeNetworkingV1alpha1`, which have a pointer to a `Fake` alone
pub record OverFake (Fake : Type 0) : Type 0 where
  pub fake : Fake

-- `FakeHTTPRoutes` and its like: the `Fake` of the group's client, and the scope
pub record FakeClient (Fake : Type 0) : Type 0 where
  pub fake : Fake
  pub scope : FakeScope

-- `if err != nil { panic(err) }`
abbrev pub or_panic : Option Error → Outcome (Unit {0})
or_panic none = ok tt
or_panic (some e) = panic

-- what the watch reactor makes of the tracker's results
abbrev watch_results :
    {Watch : Type 0} → Option Watch × Option Error → Bool × Option Watch × Option Error
watch_results (watch, some e) = (false, none, none)
watch_results (watch, none) = (true, watch, none)

module _ {World Fake Tracker TestAction Object Watch Selector : Type 0}
    (lib : FakeLibrary World Fake Tracker TestAction Object Watch Selector) where
  -- The watch reactor of `NewSimpleClientset`.
  unfoldable pub watch_reactor : Tracker → Reaction World TestAction Watch
  watch_reactor o action w =
      let (results, w') = lib.watch o (lib.get_resource action) (lib.get_namespace action) w in
      (watch_results results, w')

  abbrev add_object : Tracker → Object → Action World (Unit {0})
  add_object o obj w = let (e, w') = lib.add o obj w in (or_panic e, w')

  -- `for _, obj := range objects`
  unfoldable pub add_objects : Tracker → List Object → Action World (Unit {0})
  add_objects o [] = pure tt
  add_objects o (obj ∷ objects) = do add_object o obj; add_objects o objects

  -- the clientset over a tracker, with its two reactors
  unfoldable pub simple_clientset : Tracker → SimpleClientset Fake Tracker
  unfolding watch_reactor
  simple_clientset o = record {
    fake =
        lib.add_watch_reactor "*" (watch_reactor o)
          (lib.add_reactor "*" "*" (lib.object_reaction o) lib.empty_fake);
    tracker = o;
  }

  -- `NewSimpleClientset`
  unfoldable pub new_simple_clientset : List Object → Action World (SimpleClientset Fake Tracker)
  unfolding add_objects simple_clientset
  new_simple_clientset objects w =
      let (o, w') = lib.new_object_tracker w in
      (do add_objects o objects; pure (simple_clientset o)) w'

  -- A method of a fake client, over its `Fake`.
  unfoldable pub client_call :
      (Object → ObjectMeta)
      → Object
      → FakeClient Fake
      → Call Object
      → Action World (Answer Object Watch)
  unfolding fake_call
  client_call meta empty c call = fake_call (lib.testing c.fake) meta empty c.scope call

module _ {Fake Tracker : Type 0} where
  -- `Discovery`
  unfoldable pub simple_discovery : SimpleClientset Fake Tracker → OverFake Fake
  simple_discovery c = record { fake = c.fake }

  -- `Tracker`
  unfoldable pub tracker_of : SimpleClientset Fake Tracker → Tracker
  tracker_of c = c.tracker

  -- `NetworkingV1alpha1`
  unfoldable pub simple_networking : SimpleClientset Fake Tracker → OverFake Fake
  simple_networking c = record { fake = c.fake }

module _ {Fake : Type 0} where
  -- `BackendPolicies`
  unfoldable pub backend_policies_fake : OverFake Fake → String → FakeClient Fake
  unfolding fake_backend_policies
  backend_policies_fake c namespace = record {
    fake = c.fake;
    scope = fake_backend_policies namespace;
  }

  -- `Gateways`
  unfoldable pub gateways_fake : OverFake Fake → String → FakeClient Fake
  unfolding fake_gateways
  gateways_fake c namespace = record { fake = c.fake; scope = fake_gateways namespace }

  -- `HTTPRoutes`
  unfoldable pub http_routes_fake : OverFake Fake → String → FakeClient Fake
  unfolding fake_http_routes
  http_routes_fake c namespace = record { fake = c.fake; scope = fake_http_routes namespace }

  -- `TCPRoutes`
  unfoldable pub tcp_routes_fake : OverFake Fake → String → FakeClient Fake
  unfolding fake_tcp_routes
  tcp_routes_fake c namespace = record { fake = c.fake; scope = fake_tcp_routes namespace }

  -- `TLSRoutes`
  unfoldable pub tls_routes_fake : OverFake Fake → String → FakeClient Fake
  unfolding fake_tls_routes
  tls_routes_fake c namespace = record { fake = c.fake; scope = fake_tls_routes namespace }

  -- `UDPRoutes`
  unfoldable pub udp_routes_fake : OverFake Fake → String → FakeClient Fake
  unfolding fake_udp_routes
  udp_routes_fake c namespace = record { fake = c.fake; scope = fake_udp_routes namespace }

  -- `GatewayClasses`
  unfoldable pub gateway_classes_fake : OverFake Fake → FakeClient Fake
  unfolding fake_gateway_classes
  gateway_classes_fake c = record { fake = c.fake; scope = fake_gateway_classes }

  -- `RESTClient`: the nil pointer
  unfoldable pub fake_rest_client : {RestClient : Type 0} → OverFake Fake → Option RestClient
  fake_rest_client c = none
