-- ===== src/Config/Updates.antt =====
-- What requests read while the config maps change, against what the store of
-- pkg/reconciler/ingress/config/store.go should hold.
use mathlib.Core.Option
use net_gateway_api_obsolete.Prelude.{
  some_injective, sym, true, String, ◌≡◌, ◌≢◌, refl, ap, ◌∙◌, Option, none, some, List, [], ◌∷◌,
  ◌==◌, eq_iff,
}
use net_gateway_api_obsolete.Prelude.Outcome.{Outcome, ok, err, panic, ◌>>=◌}
use net_gateway_api_obsolete.GoMap.{Map, lookup, IsMap}
use net_gateway_api_obsolete.Libraries.{Libraries}
use net_gateway_api_obsolete.Config.{
  Gateway, GatewayConfig, gateway_config_name, new_gateway_from_config_map,
}
use net_gateway_api_obsolete.Config.Returns.{
  new_gateway_from_config_map_returns, new_gateway_from_config_map-IsMap,
}
use net_gateway_api_obsolete.Config.Context.{Config, Context, from_context}
use net_gateway_api_obsolete.Config.Changes.{
  Constructor, UntypedStore, StoreLaws, ConfigChange, gateway_changed, network_changed, Held,
  and_then, after, gateway_constructor, network_constructor, new_store, told, delivered, held_after,
  last_held, nothing,
}
use net_gateway_api_obsolete.Config.Store.{
  StoredConfig, gateway_value, network_value, network_config_name, store_to_context, SameLookups,
  from_context-store_to_context,
}

module _ {Network : Type 0} (lib : Libraries) (unmarshal : String → Outcome (Map GatewayConfig))
    (new_network : Map String → Outcome Network) where
  module _ {State : Type 0} (untyped : UntypedStore State Network) (laws : StoreLaws untyped) where
    abbrev stored :
        {A : Type 0} → (A → StoredConfig Network) → Option A → Option (StoredConfig Network)
    stored wrap none = none
    stored wrap (some a) = some (wrap a)

    -- The store has both constructors and holds what it should.
    record Holds (s : State) (h : Held Network) : Type 0 where
      gateways :
          lookup gateway_config_name (untyped.registered s)
          ≡ some (gateway_constructor lib unmarshal new_network)
      networks :
          lookup network_config_name (untyped.registered s)
          ≡ some (network_constructor lib unmarshal new_network)
      gateway :
          untyped.untyped_load s gateway_config_name
          ≡ stored (λ g. gateway_value (some g)) h.gateway
      network :
          untyped.untyped_load s network_config_name
          ≡ stored (λ n. network_value (some n)) h.network
      unique : (g : Gateway) → h.gateway ≡ some g → IsMap g.gateways

    -- The process goes on exactly where something should be held, and then that is held.
    abbrev Follows : Option State → Option (Held Network) → Type 0
    Follows none none = Unit
    Follows (some s) (some h) = Holds s h
    Follows _ _ = ⊥

    -- The store after one change: of the configuration that changed, and of what is held of it.
    abbrev Renewed :
        {A : Type 0}
        → (A → StoredConfig Network)
        → String
        → Option State
        → Option (Option A)
        → Type 0
    Renewed wrap name none none = Unit
    Renewed wrap name (some s') (some a) = untyped.untyped_load s' name ≡ stored wrap a
    Renewed wrap name _ _ = ⊥

    on_config_changed-Renewed :
        {A : Type 0} (wrap : A → StoredConfig Network) (name : String) (s : State)
        (config_map : Map String) (f : Constructor Network) (old : Option A) (o : Outcome A)
        → o ≢ panic
        → lookup name (untyped.registered s) ≡ some f
        → f config_map ≡ (o >>= λ a. ok (wrap a))
        → untyped.untyped_load s name ≡ stored wrap old
        → Renewed wrap name (untyped.on_config_changed s name config_map) (after old o)
    on_config_changed-Renewed wrap name s config_map f old (ok a) fine found made held =
        let (s', e, loads) = laws.stores s name config_map f (wrap a) found made in rw e loads
    on_config_changed-Renewed wrap name s config_map f none (err e) fine found made held =
        rw (laws.fails_first s name config_map f e found made held) tt
    on_config_changed-Renewed wrap name s config_map f (some old) (err e) fine found made held =
        let (s', p, loads) = laws.fails_later s name config_map f e (wrap old) found made held in
        rw p loads
    on_config_changed-Renewed wrap name s config_map f old panic fine found made held =
        absurd (fine refl)

    after-IsMap :
        (old : Option Gateway) (config_map : Map String) (o : Outcome Gateway)
        → new_gateway_from_config_map lib unmarshal config_map ≡ o
        → ((g : Gateway) → old ≡ some g → IsMap g.gateways)
        → (now : Option Gateway) (g : Gateway) → after old o ≡ some now
        → now ≡ some g
        → IsMap g.gateways
    after-IsMap old config_map (ok made) e h now g p q =
        new_gateway_from_config_map-IsMap lib unmarshal config_map
          (e ∙ ap ok (some_injective (some_injective p ∙ q)))
    after-IsMap none config_map (err error) e h now g p q = cc
    after-IsMap (some held) config_map (err error) e h now g p q = h g (some_injective p ∙ q)
    after-IsMap old config_map panic e h now g p q = cc

    names_apart : gateway_config_name ≢ network_config_name
    names_apart h = apart ((eq_iff gateway_config_name network_config_name).1 h)
      where
        apart : (gateway_config_name == network_config_name) ≢ true
        apart e = cc

    gateway_changed-Follows :
        (s : State) (h : Held Network) (config_map : Map String) (r : Option State)
        (now : Option (Option Gateway))
        → untyped.on_config_changed s gateway_config_name config_map ≡ r
        → ((a : Option Gateway) (g : Gateway) → now ≡ some a → a ≡ some g → IsMap g.gateways)
        → Renewed (λ g. gateway_value (some g)) gateway_config_name r now
        → Holds s h
        → Follows r (Option.map (λ g. record h { gateway = g }) now)
    gateway_changed-Follows s h config_map none none e unique changed held = tt
    gateway_changed-Follows s h config_map none (some a) e unique changed held = changed
    gateway_changed-Follows s h config_map (some s') none e unique changed held = changed
    gateway_changed-Follows s h config_map (some s') (some a) e unique changed held =
        let kept = laws.keeps_constructors s s' gateway_config_name config_map e in
        record {
          gateways = ap (lookup gateway_config_name) kept ∙ held.gateways;
          networks = ap (lookup network_config_name) kept ∙ held.networks;
          gateway = changed;
          network =
              laws.separate s s' gateway_config_name network_config_name config_map e names_apart
              ∙ held.network;
          unique = λ g p. unique a g refl p;
        }

    network_changed-Follows :
        (s : State) (h : Held Network) (config_map : Map String) (r : Option State)
        (now : Option (Option Network))
        → untyped.on_config_changed s network_config_name config_map ≡ r
        → Renewed (λ n. network_value (some n)) network_config_name r now
        → Holds s h
        → Follows r (Option.map (λ n. record h { network = n }) now)
    network_changed-Follows s h config_map none none e changed held = tt
    network_changed-Follows s h config_map none (some a) e changed held = changed
    network_changed-Follows s h config_map (some s') none e changed held = changed
    network_changed-Follows s h config_map (some s') (some a) e changed held =
        let kept = laws.keeps_constructors s s' network_config_name config_map e in
        record {
          gateways = ap (lookup gateway_config_name) kept ∙ held.gateways;
          networks = ap (lookup network_config_name) kept ∙ held.networks;
          gateway =
              laws.separate s s' network_config_name gateway_config_name config_map e
                (λ p. names_apart (sym p))
              ∙ held.gateway;
          network = changed;
          unique = held.unique;
        }

    module _ (decodes : (text : String) → unmarshal text ≢ panic)
        (constructs : (config_map : Map String) → new_network config_map ≢ panic) where
      told-Follows :
          (s : State) (h : Held Network) (change : ConfigChange)
          → Holds s h
          → Follows (told untyped s change) (held_after lib unmarshal new_network h change)
      told-Follows s h (gateway_changed config_map) held =
          gateway_changed-Follows s h config_map _ _ refl
            (after-IsMap h.gateway config_map _ refl held.unique)
            (on_config_changed-Renewed (λ g. gateway_value (some g)) gateway_config_name s
              config_map (gateway_constructor lib unmarshal new_network) h.gateway _
              (new_gateway_from_config_map_returns lib unmarshal decodes config_map) held.gateways
              refl held.gateway)
            held
      told-Follows s h (network_changed config_map) held =
          network_changed-Follows s h config_map _ _ refl
            (on_config_changed-Renewed (λ n. network_value (some n)) network_config_name s
              config_map (network_constructor lib unmarshal new_network) h.network _
              (constructs config_map) held.networks refl held.network)
            held

      and_then-Follows :
          (changes : List ConfigChange)
          → ((s' : State) (h' : Held Network)
              → Holds s' h'
              → Follows
                  (delivered lib unmarshal new_network untyped s' changes)
                  (last_held lib unmarshal new_network h' changes))
          → (r : Option State) (now : Option (Held Network)) → Follows r now
          → Follows
              (and_then (λ s'. delivered lib unmarshal new_network untyped s' changes) r)
              (and_then (λ h'. last_held lib unmarshal new_network h' changes) now)
      and_then-Follows changes rest none none f = tt
      and_then-Follows changes rest none (some h') f = absurd f
      and_then-Follows changes rest (some s') none f = absurd f
      and_then-Follows changes rest (some s') (some h') f = rest s' h' f

      delivered-Follows :
          (s : State) (h : Held Network) (changes : List ConfigChange)
          → Holds s h
          → Follows
              (delivered lib unmarshal new_network untyped s changes)
              (last_held lib unmarshal new_network h changes)
      delivered-Follows s h [] held = held
      delivered-Follows s h (change ∷ changes) held =
          and_then-Follows changes (λ s' h'. delivered-Follows s' h' changes)
            (told untyped s change) (held_after lib unmarshal new_network h change)
            (told-Follows s h change held)

      new_store-Holds : Holds (new_store lib unmarshal new_network untyped) nothing
      unfolding new_store lookup
      new_store-Holds = record {
        gateways = ap (lookup gateway_config_name) (laws.registers "gateway-api" _);
        networks = ap (lookup network_config_name) (laws.registers "gateway-api" _);
        gateway = laws.starts_empty "gateway-api" gateway_config_name _;
        network = laws.starts_empty "gateway-api" network_config_name _;
        unique = λ g e. cc;
      }

      followed :
          (r : Option State) {h : Held Network}
          → Follows r (some h)
          → (s : State) × (r ≡ some s) × Holds s h
      followed none f = absurd f
      followed (some s) f = (s, refl, f)

      -- Whatever changes of the two config maps a new store is told of, in whatever order, also ones that
      -- do not parse: where no first appearance is refused, which is fatal, and both configurations have
      -- appeared, the process goes on, and the context that the store prepares for a request holds a
      -- copy of the last gateway configuration that was accepted, on which every lookup answers as on
      -- it. The store of knative does what it documents, and neither the YAML decoder nor the
      -- constructor of the network configuration panics.
      pub delivered-from_context :
          (network_deep_copy : Network → Network) (changes : List ConfigChange)
          (ctx : Context Network) {h : Held Network} {g : Gateway} {n : Network}
          → last_held lib unmarshal new_network nothing changes ≡ some h
          → h.gateway ≡ some g
          → h.network ≡ some n
          → (s : State) × (delivered lib unmarshal new_network untyped
                (new_store lib unmarshal new_network untyped)
                changes
              ≡ some s)
            × (ctx' : Context Network) × (cfg : Config Network) × (copy : Gateway)
            × (store_to_context network_deep_copy (untyped.untyped_load s) ctx ≡ ok ctx')
            × (from_context ctx' ≡ ok (some cfg))
            × (cfg.gateway ≡ some copy)
            × SameLookups copy g
      delivered-from_context network_deep_copy changes ctx {h} {g} {n} held has_gateway
            has_network =
          let (s, runs, holds) =
            followed
              (delivered lib unmarshal new_network untyped
                (new_store lib unmarshal new_network untyped) changes)
              (rw held at (
                delivered-Follows (new_store lib unmarshal new_network untyped) nothing changes
                  new_store-Holds)) in
          let (ctx', cfg, copy, p, q, r, same) =
            from_context-store_to_context network_deep_copy (untyped.untyped_load s) ctx
              (holds.gateway ∙ ap (stored (λ x. gateway_value (some x))) has_gateway)
              (holds.network ∙ ap (stored (λ x. network_value (some x))) has_network)
              (holds.unique g has_gateway) in
          (s, runs, ctx', cfg, copy, p, q, r, same)

      -- A first configuration that is refused ends the process.
      delivered_refused :
          (changes : List ConfigChange)
          → last_held lib unmarshal new_network nothing changes ≡ none
          → delivered lib unmarshal new_network untyped
              (new_store lib unmarshal new_network untyped)
              changes
            ≡ none
      delivered_refused changes refused =
          ended
            (delivered lib unmarshal new_network untyped
              (new_store lib unmarshal new_network untyped) changes)
            (rw refused at (
              delivered-Follows (new_store lib unmarshal new_network untyped) nothing changes
                new_store-Holds))
        where
          ended : (r : Option State) → Follows r none → r ≡ none
          ended none f = refl
          ended (some s) f = absurd f
