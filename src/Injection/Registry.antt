-- ===== src/Injection/Registry.antt =====
-- The `init` functions of the client and of the factories, and of their fakes.
use net_gateway_api_obsolete.Prelude.Outcome.{Outcome}
use net_gateway_api_obsolete.Prelude.Action.{lift}
use net_gateway_api_obsolete.Informers.{SharedIndexInformer}
use net_gateway_api_obsolete.Fakes.Simple.{FakeLibrary, SimpleClientset}
use net_gateway_api_obsolete.Injection.{
  InjectionContext, with_client, client_get, with_informer_factory, with_filtered_factories,
}
use net_gateway_api_obsolete.Injection.Callbacks.{
  ClientCallbacks, Callbacks, register_client, register_informer_factory,
}
use net_gateway_api_obsolete.Injection.Fakes.{
  FakeContext, fake_with_client, fake_get, fake_with_informer_factory, fake_with_filtered_factories,
}

module _ {World Config Client Object : Type 0} where
  -- `init` of the client
  unfoldable pub client_init :
      (Config → Outcome Client)
      → ClientCallbacks World (InjectionContext Config Client Object) Config Client
      → ClientCallbacks World (InjectionContext Config Client Object) Config Client
  unfolding with_client client_get
  client_init new_for_config_or_die =
      register_client (λ ctx cfg. lift (with_client new_for_config_or_die ctx cfg)) client_get

module _ {Config Client Object : Type 0} where
  -- `init` of the factory
  unfoldable pub factory_init :
      Callbacks (InjectionContext Config Client Object) (SharedIndexInformer Object)
      → Callbacks (InjectionContext Config Client Object) (SharedIndexInformer Object)
  unfolding with_informer_factory
  factory_init = register_informer_factory with_informer_factory

  -- `init` of the filtered factories
  unfoldable pub filtered_factory_init :
      Callbacks (InjectionContext Config Client Object) (SharedIndexInformer Object)
      → Callbacks (InjectionContext Config Client Object) (SharedIndexInformer Object)
  unfolding with_filtered_factories
  filtered_factory_init = register_informer_factory with_filtered_factories

module _ {World Fake Tracker TestAction Object Watch Selector Config Real : Type 0}
    (lib : FakeLibrary World Fake Tracker TestAction Object Watch Selector) where
  -- `init` of the fake client
  unfoldable pub fake_client_init :
      ClientCallbacks World
        (FakeContext Config Real (SimpleClientset Fake Tracker) Object)
        Config
        (SimpleClientset Fake Tracker)
      → ClientCallbacks World
          (FakeContext Config Real (SimpleClientset Fake Tracker) Object)
          Config
          (SimpleClientset Fake Tracker)
  unfolding fake_with_client fake_get
  fake_client_init = register_client (fake_with_client lib) fake_get

module _ {Config Real Simple Object : Type 0} where
  -- `init` of the fake factory
  unfoldable pub fake_factory_init :
      Callbacks (FakeContext Config Real Simple Object) (SharedIndexInformer Object)
      → Callbacks (FakeContext Config Real Simple Object) (SharedIndexInformer Object)
  unfolding fake_with_informer_factory
  fake_factory_init = register_informer_factory fake_with_informer_factory

  -- `init` of the fake filtered factories
  unfoldable pub fake_filtered_factory_init :
      Callbacks (FakeContext Config Real Simple Object) (SharedIndexInformer Object)
      → Callbacks (FakeContext Config Real Simple Object) (SharedIndexInformer Object)
  unfolding fake_with_filtered_factories
  fake_filtered_factory_init = register_informer_factory fake_with_filtered_factories
