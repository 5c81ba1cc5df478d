-- ===== src/Config/Store.antt =====
-- The store of configurations, pkg/reconciler/ingress/config/store.go, and the generated copies of
-- zz_generated.deepcopy.go. knative's `UntypedStore` is the parameter `untyped_load`.
use mathlib.Core.Option
use net_gateway_api_obsolete.Prelude.{
  String, ◌≡◌, refl, ◌∙◌, Option, none, some, [], ◌∷◌, arith, eq_iff,
}
use net_gateway_api_obsolete.Prelude.Outcome.{Outcome, ok, panic, ◌>>=◌}
use net_gateway_api_obsolete.GoMap.{Map, lookup, insert, lookup-insert, IsMap, or_else}
use net_gateway_api_obsolete.Objects.Ingress.{IngressVisibility}
use net_gateway_api_obsolete.Config.{
  Gateway, GatewayConfig, gateway_config_name, lookup_gateway, lookup_gateway_class, lookup_service,
}
use net_gateway_api_obsolete.Config.Context.{Config, Context, from_context, to_context}

-- `network.ConfigName`
abbrev pub network_config_name : String
network_config_name = "config-network"

-- `(*GatewayConfig).DeepCopyInto`: the fields are strings.
deep_copy_gateway_config : GatewayConfig → GatewayConfig
deep_copy_gateway_config value = record {
  gateway_class = value.gateway_class;
  gateway = value.gateway;
  service = value.service;
}

-- The loop of `(*Gateway).DeepCopyInto` over the map, a nil pointer copied as nil.
deep_copy_entries :
    Map (Option GatewayConfig) → Map (Option GatewayConfig) → Map (Option GatewayConfig)
unfolding deep_copy_gateway_config
deep_copy_entries [] out = out
deep_copy_entries ((key, val) ∷ entries) out =
    deep_copy_entries entries (insert key (Option.map deep_copy_gateway_config val) out)

-- `(*Gateway).DeepCopyInto`
deep_copy_gateway : Gateway → Gateway
unfolding deep_copy_entries
deep_copy_gateway c = record { gateways = deep_copy_entries c.gateways [] }

-- The values that the two constructors of the store return.
pub data StoredConfig (Network : Type 0) : Type 0 where
  gateway_value : Option Gateway → StoredConfig Network
  network_value : Option Network → StoredConfig Network

module _ {Network : Type 0} where
  -- `.(*Gateway)` and `.(*network.Config)`, on nil and on a value of another type
  abbrev as_gateway : Option (StoredConfig Network) → Outcome (Option Gateway)
  as_gateway (some (gateway_value g)) = ok g
  as_gateway (some (network_value n)) = panic
  as_gateway none = panic

  abbrev as_network : Option (StoredConfig Network) → Outcome (Option Network)
  as_network (some (network_value n)) = ok n
  as_network (some (gateway_value g)) = panic
  as_network none = panic

  module _ (network_deep_copy : Network → Network)
      (untyped_load : String → Option (StoredConfig Network)) where
    -- `Load`
    unfoldable pub load : Outcome (Config Network)
    unfolding deep_copy_gateway
    load = do
      gateway ← as_gateway (untyped_load gateway_config_name)
      network ← as_network (untyped_load network_config_name)
      ok (record {
        gateway = Option.map deep_copy_gateway gateway;
        network = Option.map network_deep_copy network;
      })

    -- `(*Store).ToContext`
    unfoldable pub store_to_context : Context Network → Outcome (Context Network)
    unfolding load
    store_to_context ctx = do config ← load; ok (to_context ctx (some config))

copy-eq : (v : GatewayConfig) → deep_copy_gateway_config v ≡ v
unfolding deep_copy_gateway_config
copy-eq v = refl

lookup-deep_copy_entries :
    (k : String) (m out : Map (Option GatewayConfig))
    → IsMap m
    → lookup k (deep_copy_entries m out) ≡ or_else (lookup k m) (lookup k out)
unfolding deep_copy_entries lookup
lookup-deep_copy_entries k [] out u = refl
lookup-deep_copy_entries k ((j, v) ∷ m) out u =
    ground (
      arith,
      eq_iff j k,
      lookup-insert j k v out,
      lookup-deep_copy_entries k m (insert j v out) u.1,
    )

or_else-none : (o : Option (Option GatewayConfig)) → or_else o none ≡ o
or_else-none none = refl
or_else-none (some v) = refl

lookup-deep_copy_gateway :
    (k : String) (g : Gateway)
    → IsMap g.gateways
    → lookup k (deep_copy_gateway g).gateways ≡ lookup k g.gateways
unfolding deep_copy_gateway lookup
lookup-deep_copy_gateway k g u =
    lookup-deep_copy_entries k g.gateways [] u ∙ or_else-none (lookup k g.gateways)

-- Two configurations under which every client reads the same.
pub record SameLookups (a b : Gateway) : Type 0 where
  pub gateway : (vis : IngressVisibility) → lookup_gateway a vis ≡ lookup_gateway b vis
  pub class : (vis : IngressVisibility) → lookup_gateway_class a vis ≡ lookup_gateway_class b vis
  pub service : (vis : IngressVisibility) → lookup_service a vis ≡ lookup_service b vis

SameLookups-deep_copy_gateway :
    (g : Gateway) → IsMap g.gateways → SameLookups (deep_copy_gateway g) g
unfolding lookup_gateway lookup_gateway_class lookup_service
SameLookups-deep_copy_gateway g u = record {
  gateway = λ vis. rw (lookup-deep_copy_gateway vis g u);
  class = λ vis. rw (lookup-deep_copy_gateway vis g u);
  service = λ vis. rw (lookup-deep_copy_gateway vis g u);
}

module _ {Network : Type 0} (network_deep_copy : Network → Network)
    (untyped_load : String → Option (StoredConfig Network)) where
  -- Where the store holds both configurations, and the gateway one is a map with each key once: what a
  -- request reads back from its context is a copy of the stored gateway configuration, on which every
  -- lookup answers as it does on the stored one.
  pub from_context-store_to_context :
      (ctx : Context Network) {g : Gateway} {n : Option Network}
      → untyped_load gateway_config_name ≡ some (gateway_value (some g))
      → untyped_load network_config_name ≡ some (network_value n)
      → IsMap g.gateways
      → (ctx' : Context Network) × (cfg : Config Network) × (copy : Gateway) × (store_to_context
            network_deep_copy untyped_load ctx
          ≡ ok ctx')
        × (from_context ctx' ≡ ok (some cfg))
        × (cfg.gateway ≡ some copy)
        × SameLookups copy g
  unfolding store_to_context from_context to_context
  from_context-store_to_context ctx {g} {n} p q u =
      let cfg : Config Network = record {
        network = Option.map network_deep_copy n;
        gateway = some (deep_copy_gateway g);
      } in
      (
        record { value = some (some cfg) },
        cfg,
        deep_copy_gateway g,
        rw p (rw q refl),
        refl,
        refl,
        SameLookups-deep_copy_gateway g u,
      )
