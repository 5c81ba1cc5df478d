-- ===== src/Injection/Fakes.antt =====
-- The fakes of the injection: pkg/client/gatewayapi/injection/client/fake, informers/factory/fake,
-- informers/factory/filtered/fake, and the `fake` packages below informers/apis/v1alpha1.
use net_gateway_api_obsolete.Prelude.{String, some, List, [], ◌∷◌}
use net_gateway_api_obsolete.Prelude.Outcome.{Outcome, ok, panic, ◌>>=◌}
use net_gateway_api_obsolete.Prelude.Action.{Action, pure, continue}
use net_gateway_api_obsolete.GoMap.{insert}
use net_gateway_api_obsolete.Objects.{ObjectMeta}
use net_gateway_api_obsolete.Informers.{
  SharedIndexInformer, new_shared_informer_factory_with_options,
}
use net_gateway_api_obsolete.Informers.Resources.{Accessor, networking, informer_of}
use net_gateway_api_obsolete.Injection.{
  InjectionContext, package_of, present, scope_options, settled, constant, factory_get,
  filtered_get, filtered_loop,
}
use net_gateway_api_obsolete.Injection.Resources.{filtered_round}
use net_gateway_api_obsolete.Fakes.Simple.{FakeLibrary, SimpleClientset, new_simple_clientset}

-- The clientset that a context holds: the one of clientset.go, or the fake one.
pub data AnyClient (Real Simple : Type 0) : Type 0 where
  real : Real → AnyClient Real Simple
  simple : Simple → AnyClient Real Simple

-- `untyped.(*fake.Clientset)`
abbrev pub as_simple : {Real Simple : Type 0} → AnyClient Real Simple → Outcome Simple
as_simple (real c) = panic
as_simple (simple c) = ok c

-- A context of the fakes.
abbrev pub FakeContext : Type 0 → Type 0 → Type 0 → Type 0 → Type 0
FakeContext Config Real Simple Object = InjectionContext Config (AnyClient Real Simple) Object

module _ {World Fake Tracker TestAction Object Watch Selector Config Real : Type 0}
    (lib : FakeLibrary World Fake Tracker TestAction Object Watch Selector) where
  -- `With`
  unfoldable pub fake_with :
      FakeContext Config Real (SimpleClientset Fake Tracker) Object
      → List Object
      → Action World (
          FakeContext Config Real (SimpleClientset Fake Tracker) Object
          × SimpleClientset Fake Tracker)
  unfolding new_simple_clientset
  fake_with ctx objects w =
      continue (λ cs. pure (record ctx { client = some (simple cs) }, cs))
        (new_simple_clientset lib objects w)

  -- `withClient`, which drops the configuration
  unfoldable pub fake_with_client :
      FakeContext Config Real (SimpleClientset Fake Tracker) Object
      → Config
      → Action World (FakeContext Config Real (SimpleClientset Fake Tracker) Object)
  unfolding fake_with
  fake_with_client ctx cfg w = continue (λ made. pure made.0) (fake_with ctx [] w)

module _ {Config Real Simple Object : Type 0} where
  -- `Get` of the fake client
  unfoldable pub fake_get : FakeContext Config Real Simple Object → Outcome Simple
  fake_get ctx = present ctx.client >>= as_simple

  -- `withInformerFactory` of the fake factory
  unfoldable pub fake_with_informer_factory :
      FakeContext Config Real Simple Object → Outcome (FakeContext Config Real Simple Object)
  unfolding fake_get
  fake_with_informer_factory ctx = do
    c ← fake_get ctx
    ok (record ctx {
      factory = some (
          new_shared_informer_factory_with_options ctx.resync_period
            (scope_options ctx.namespace_scope));
    })

  -- `withInformerFactory` of the fake filtered factories
  unfoldable pub fake_with_filtered_factories :
      FakeContext Config Real Simple Object → Outcome (FakeContext Config Real Simple Object)
  unfolding fake_get filtered_loop
  fake_with_filtered_factories ctx = do
    c ← fake_get ctx
    selectors ← present ctx.label_selectors
    let (variable, made) = filtered_loop ctx selectors "" (constant ctx.filtered_factories) in
        ok (record ctx { filtered_factories = settled variable made })

module _ {Config Client Object : Type 0} (meta : Object → ObjectMeta) where
  -- `withInformer` of a fake package
  unfoldable pub fake_with_informer :
      Accessor
      → InjectionContext Config Client Object
      → Outcome (InjectionContext Config Client Object × SharedIndexInformer Object)
  unfolding factory_get networking informer_of
  fake_with_informer a ctx = do
    f ← factory_get ctx
    let (informer, g) = informer_of meta a f in
        ok (
          record ctx {
            informers = insert (package_of a) (networking meta f) ctx.informers;
            factory = some g;
          },
          informer,
        )

  -- The loop of `withInformer` of a fake filtered package.
  unfoldable pub fake_filtered_loop :
      Accessor
      → List String
      → InjectionContext Config Client Object
      → Outcome (InjectionContext Config Client Object × List (SharedIndexInformer Object))
  unfolding filtered_get filtered_round
  fake_filtered_loop a [] ctx = ok (ctx, [])
  fake_filtered_loop a (selector ∷ selectors) ctx = do
    f ← filtered_get ctx selector
    let next = filtered_round meta a selector f ctx
    rest ← fake_filtered_loop a selectors next.0
    ok (rest.0, next.1 ∷ rest.1)

  -- `withInformer` of a fake filtered package
  unfoldable pub fake_with_filtered_informer :
      Accessor
      → InjectionContext Config Client Object
      → Outcome (InjectionContext Config Client Object × List (SharedIndexInformer Object))
  unfolding fake_filtered_loop
  fake_with_filtered_informer a ctx =
      present ctx.label_selectors >>= λ selectors. fake_filtered_loop a selectors ctx
