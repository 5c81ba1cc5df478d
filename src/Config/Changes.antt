-- ===== src/Config/Changes.antt =====
-- The changes of the two config maps that the store of pkg/reconciler/ingress/config/store.go is told of,
-- and what it should hold after them. knative's `configmap.UntypedStore` is a parameter.
use mathlib.Core.Option
use net_gateway_api_obsolete.Prelude.{String, ◌≡◌, ◌≢◌, Option, none, some, List, [], ◌∷◌}
use net_gateway_api_obsolete.Prelude.Outcome.{Error, Outcome, ok, err, panic, ◌>>=◌}
use net_gateway_api_obsolete.GoMap.{Map, lookup}
use net_gateway_api_obsolete.Libraries.{Libraries}
use net_gateway_api_obsolete.Config.{
  Gateway, GatewayConfig, gateway_config_name, new_gateway_from_config_map,
}
use net_gateway_api_obsolete.Config.Store.{
  StoredConfig, gateway_value, network_value, network_config_name,
}

-- A constructor of a configuration, over a config map's `Data`.
abbrev pub Constructor : Type 0 → Type 0
Constructor Network = Map String → Outcome (StoredConfig Network)

-- `configmap.UntypedStore`: `NewUntypedStore` with its constructors, `OnConfigChanged` with the name and
-- the data of a config map, and `UntypedLoad`. `registered` is its constructors. `OnConfigChanged` is
-- `none` where it logs a fatal error, which ends the process.
pub record UntypedStore (State Network : Type 0) : Type 0 where
  pub new_untyped_store : String → Map (Constructor Network) → State
  pub registered : State → Map (Constructor Network)
  pub on_config_changed : State → String → Map String → Option State
  pub untyped_load : State → String → Option (StoredConfig Network)

-- "OnConfigChanged will invoke the mapped constructor against a Kubernetes ConfigMap. If successful it
-- will be stored. If construction fails during the first appearance the store will log a fatal error. If
-- construction fails while updating the store will log an error message."
pub record StoreLaws {State Network : Type 0} (untyped : UntypedStore State Network) : Type 0 where
  pub registers :
      (name : String) (constructors : Map (Constructor Network))
      → untyped.registered (untyped.new_untyped_store name constructors) ≡ constructors
  pub keeps_constructors :
      (s s' : State) (name : String) (config_map : Map String)
      → untyped.on_config_changed s name config_map ≡ some s'
      → untyped.registered s' ≡ untyped.registered s
  pub starts_empty :
      (name config_name : String) (constructors : Map (Constructor Network))
      → untyped.untyped_load (untyped.new_untyped_store name constructors) config_name ≡ none
  pub stores :
      (s : State) (name : String) (config_map : Map String) (f : Constructor Network)
      (v : StoredConfig Network)
      → lookup name (untyped.registered s) ≡ some f
      → f config_map ≡ ok v
      → (s' : State) × (untyped.on_config_changed s name config_map ≡ some s')
        × (untyped.untyped_load s' name ≡ some v)
  pub fails_first :
      (s : State) (name : String) (config_map : Map String) (f : Constructor Network) (e : Error)
      → lookup name (untyped.registered s) ≡ some f
      → f config_map ≡ err e
      → untyped.untyped_load s name ≡ none
      → untyped.on_config_changed s name config_map ≡ none
  pub fails_later :
      (s : State) (name : String) (config_map : Map String) (f : Constructor Network) (e : Error)
      (v : StoredConfig Network)
      → lookup name (untyped.registered s) ≡ some f
      → f config_map ≡ err e
      → untyped.untyped_load s name ≡ some v
      → (s' : State) × (untyped.on_config_changed s name config_map ≡ some s')
        × (untyped.untyped_load s' name ≡ some v)
  pub separate :
      (s s' : State) (name other : String) (config_map : Map String)
      → untyped.on_config_changed s name config_map ≡ some s'
      → name ≢ other
      → untyped.untyped_load s' other ≡ untyped.untyped_load s other

-- A change of one of the two config maps that the store watches, with the data.
pub data ConfigChange : Type 0 where
  gateway_changed : Map String → ConfigChange
  network_changed : Map String → ConfigChange

-- What the store should hold.
pub record Held (Network : Type 0) : Type 0 where
  pub gateway : Option Gateway
  pub network : Option Network

abbrev pub and_then : {A B : Type 0} → (A → Option B) → Option A → Option B
and_then f none = none
and_then f (some a) = f a

-- What is held of a configuration after a construction; a failure at the first appearance is fatal.
abbrev pub after : {A : Type 0} → Option A → Outcome A → Option (Option A)
after old (ok a) = some (some a)
after none (err e) = none
after (some old) (err e) = some (some old)
after old panic = none

abbrev pub told :
    {State Network : Type 0} → UntypedStore State Network → State → ConfigChange → Option State
told untyped s (gateway_changed config_map) =
    untyped.on_config_changed s gateway_config_name config_map
told untyped s (network_changed config_map) =
    untyped.on_config_changed s network_config_name config_map

abbrev pub nothing : {Network : Type 0} → Held Network
nothing = record { gateway = none; network = none }

module _ {Network : Type 0} (lib : Libraries) (unmarshal : String → Outcome (Map GatewayConfig))
    (new_network : Map String → Outcome Network) where
  -- `NewGatewayFromConfigMap` and `network.NewConfigFromConfigMap`, as the store calls them
  abbrev pub gateway_constructor : Constructor Network
  gateway_constructor config_map =
      new_gateway_from_config_map lib unmarshal config_map >>= λ g. ok (gateway_value (some g))

  abbrev pub network_constructor : Constructor Network
  network_constructor config_map = new_network config_map >>= λ n. ok (network_value (some n))

  -- `NewStore`
  unfoldable pub new_store : {State : Type 0} → UntypedStore State Network → State
  new_store untyped =
      untyped.new_untyped_store "gateway-api" (
        (gateway_config_name, gateway_constructor)
        ∷ (network_config_name, network_constructor)
        ∷ [])

  -- The store after some changes of config maps, where the process goes on.
  abbrev pub delivered :
      {State : Type 0} → UntypedStore State Network → State → List ConfigChange → Option State
  delivered untyped s [] = some s
  delivered untyped s (change ∷ changes) =
      and_then (λ s'. delivered untyped s' changes) (told untyped s change)

  abbrev pub held_after : Held Network → ConfigChange → Option (Held Network)
  held_after h (gateway_changed config_map) =
      Option.map (λ g. record h { gateway = g })
        (after h.gateway (new_gateway_from_config_map lib unmarshal config_map))
  held_after h (network_changed config_map) =
      Option.map (λ n. record h { network = n }) (after h.network (new_network config_map))

  -- What should be held after some changes: of each configuration the last one that its constructor
  -- accepts, where no first one is refused.
  abbrev pub last_held : Held Network → List ConfigChange → Option (Held Network)
  last_held h [] = some h
  last_held h (change ∷ changes) = and_then (λ h'. last_held h' changes) (held_after h change)
