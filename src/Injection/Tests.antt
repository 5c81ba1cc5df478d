-- ===== src/Injection/Tests.antt =====
-- The theorems on the injection, at two selectors and two imported packages.
use net_gateway_api_obsolete.Prelude.{String, ◌≡◌, refl, none, some, [], ◌∷◌, All, List}
use net_gateway_api_obsolete.Prelude.Outcome.{ok, Outcome}
use net_gateway_api_obsolete.Objects.{ObjectMeta}
use net_gateway_api_obsolete.Injection.{InjectionContext, with_filtered_factories}
use net_gateway_api_obsolete.Samples.Tracker.{identity}
use net_gateway_api_obsolete.Informers.Resources.{http_routes, Accessor, gateways}
use net_gateway_api_obsolete.Injection.Filtered.{Lists, with_filtered_factories-last}
use net_gateway_api_obsolete.Informers.{SharedIndexInformer, namespace_all}
use net_gateway_api_obsolete.Informers.Scopes.{Serves}
use net_gateway_api_obsolete.Resources.Forwards.{Pairs}
use net_gateway_api_obsolete.Injection.Registry.{client_init, factory_init}
use net_gateway_api_obsolete.Injection.Setup.{set_up}
use net_gateway_api_obsolete.Injection.Imports.{
  no_clients, no_callbacks, inits, Imported, setup_informers-Imported,
}

abbrev ctx : InjectionContext String String ObjectMeta
ctx = record {
  config = some "config";
  namespace_scope = none;
  resync_period = 30;
  client = some "client";
  factory = none;
  informers = [];
  label_selectors = some ("app=a" ∷ "app=b" ∷ []);
  filtered_factories = [];
  filtered_informers = [];
}

with_filtered_factories-last_example :
    (made : InjectionContext String String ObjectMeta) × (with_filtered_factories ctx ≡ ok made)
    × All (Lists identity made "app=b") ("app=a" ∷ "app=b" ∷ [])
with_filtered_factories-last_example =
    with_filtered_factories-last identity ctx "client" "app=a" ("app=b" ∷ []) refl refl

abbrev imported : List Accessor
imported = gateways ∷ http_routes ∷ []

abbrev new_client : String → Outcome String
new_client cfg = ok "client"

setup_informers-Imported_example :
    (next : InjectionContext String String ObjectMeta) × (informers : List
      (SharedIndexInformer ObjectMeta))
    × (set_up
          (client_init new_client no_clients)
          (inits identity imported (factory_init no_callbacks))
          ctx
          "config"
          tt
        ≡ (ok (next, informers), tt))
    × Imported identity "client" namespace_all imported next
    × Pairs (λ a v. Serves identity a namespace_all none v) imported informers
setup_informers-Imported_example =
    setup_informers-Imported identity {World = Unit {0}} set_up (λ clients r given cfg w. refl)
      new_client imported ctx "config" tt refl
