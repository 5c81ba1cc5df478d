-- ===== src/Injection.antt =====
-- The generated injection, pkg/client/gatewayapi/injection: the client, the informer factories and the
-- informers that a context carries. knative's accessors of a context (the configuration, the scope, the
-- resync period) are fields of it.
pub mod Callbacks
pub mod Resources
pub mod Filtered
pub mod Fakes
pub mod FakePackages
pub mod Registry
pub mod Setup
pub mod Imports
mod Tests
use net_gateway_api_obsolete.Prelude.{ℕ, String, Option, none, some, List, [], ◌∷◌, ◌++◌}
use net_gateway_api_obsolete.Prelude.Outcome.{Outcome, ok, panic, ◌>>=◌}
use net_gateway_api_obsolete.GoMap.{Map, lookup, insert}
use net_gateway_api_obsolete.Objects.{ObjectMeta}
use net_gateway_api_obsolete.Clients.{ListOptions}
use net_gateway_api_obsolete.Informers.{
  SharedIndexInformer, SharedInformerFactory, SharedInformerOption, TweakListOptions,
  with_namespace, with_tweak_list_options, new_shared_informer_factory_with_options,
}
use net_gateway_api_obsolete.Informers.Resources.{
  Version, Accessor, backend_policies, gateways, gateway_classes, http_routes, tcp_routes,
  tls_routes, udp_routes, networking, informer_of,
}

-- The values of a context, by the keys of the packages; a factory is the one that the context's pointer
-- leads to. The keys of `informers` are the packages, those of the filtered maps are the selectors.
pub record InjectionContext (Config Client Object : Type 0) : Type 0 where
  pub config : Option Config
  pub namespace_scope : Option String
  pub resync_period : ℕ
  pub client : Option Client
  pub factory : Option (SharedInformerFactory Object)
  pub informers : Map Version
  pub label_selectors : Option (List String)
  pub filtered_factories : Map (SharedInformerFactory Object)
  pub filtered_informers : Map (Map Version)

-- The package of an accessor's informer.
abbrev pub package_of : Accessor → String
package_of backend_policies = "backendpolicy"
package_of gateways = "gateway"
package_of gateway_classes = "gatewayclass"
package_of http_routes = "httproute"
package_of tcp_routes = "tcproute"
package_of tls_routes = "tlsroute"
package_of udp_routes = "udproute"

-- `ctx.Value(key)`, and the panic where it is nil
abbrev pub present : {A : Type 0} → Option A → Outcome A
present none = panic
present (some a) = ok a

-- `func(l *v1.ListOptions) { l.LabelSelector = selector }`, with what the variable holds at the call
abbrev pub labelled : String → TweakListOptions
labelled selector l = record l { label_selector = selector }

module _ {Object : Type 0} where
  -- `if injection.HasNamespaceScope(ctx) { … }`
  abbrev pub scope_options : Option String → List (SharedInformerOption Object)
  scope_options none = []
  scope_options (some namespace) = with_namespace namespace ∷ []

  -- What the entries are once the variable has its last value.
  abbrev pub settled :
      String → Map (String → SharedInformerFactory Object) → Map (SharedInformerFactory Object)
  settled variable [] = []
  settled variable ((k, f) ∷ made) = (k, f variable) ∷ settled variable made

  -- Entries that do not read the variable.
  abbrev pub constant :
      Map (SharedInformerFactory Object) → Map (String → SharedInformerFactory Object)
  constant [] = []
  constant ((k, f) ∷ made) = (k, λ variable. f) ∷ constant made

module _ {Config Client Object : Type 0} where
  -- `withClient`, given the clientset's `NewForConfigOrDie`
  unfoldable pub with_client :
      (Config → Outcome Client)
      → InjectionContext Config Client Object
      → Config
      → Outcome (InjectionContext Config Client Object)
  with_client new_for_config_or_die ctx cfg =
      new_for_config_or_die cfg >>= λ c. ok (record ctx { client = some c })

  -- `client.Get`: both messages are panics
  unfoldable pub client_get : InjectionContext Config Client Object → Outcome Client
  client_get ctx = present ctx.client

  -- `withInformerFactory` of the plain factory
  unfoldable pub with_informer_factory :
      InjectionContext Config Client Object → Outcome (InjectionContext Config Client Object)
  unfolding client_get
  with_informer_factory ctx = do
    c ← client_get ctx
    ok (record ctx {
      factory = some (
          new_shared_informer_factory_with_options ctx.resync_period
            (scope_options ctx.namespace_scope));
    })

  -- `factory.Get`
  unfoldable pub factory_get :
      InjectionContext Config Client Object → Outcome (SharedInformerFactory Object)
  factory_get ctx = present ctx.factory

  -- `WithSelectors`
  unfoldable pub with_selectors :
      InjectionContext Config Client Object → List String → InjectionContext Config Client Object
  with_selectors ctx selectors = record ctx { label_selectors = some selectors }

  -- One factory of the loop, once the variable that its closure has captured holds `content`.
  abbrev pub filtered_factory :
      InjectionContext Config Client Object → (content : String) → SharedInformerFactory Object
  filtered_factory ctx content =
      new_shared_informer_factory_with_options ctx.resync_period
        (scope_options ctx.namespace_scope ++ with_tweak_list_options (labelled content) ∷ [])

  -- The loop of the filtered `withInformerFactory`. The closures share one variable, `selector` (the
  -- module's language version is below 1.22), so a factory is a function of what the variable holds; the
  -- loop returns what it holds at the end.
  unfoldable pub filtered_loop :
      InjectionContext Config Client Object
      → List String
      → (variable : String) → Map (String → SharedInformerFactory Object)
      → String × Map (String → SharedInformerFactory Object)
  filtered_loop ctx [] variable made = (variable, made)
  filtered_loop ctx (selector ∷ selectors) variable made =
      filtered_loop ctx selectors selector (insert selector (filtered_factory ctx) made)

  -- `withInformerFactory` of the filtered factories
  unfoldable pub with_filtered_factories :
      InjectionContext Config Client Object → Outcome (InjectionContext Config Client Object)
  unfolding client_get filtered_loop
  with_filtered_factories ctx = do
    c ← client_get ctx
    selectors ← present ctx.label_selectors
    let (variable, made) = filtered_loop ctx selectors "" (constant ctx.filtered_factories) in
        ok (record ctx { filtered_factories = settled variable made })

  -- `Get` of the filtered factories
  unfoldable pub filtered_get :
      InjectionContext Config Client Object → String → Outcome (SharedInformerFactory Object)
  filtered_get ctx selector = present (lookup selector ctx.filtered_factories)
