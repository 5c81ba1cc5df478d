-- ===== src/Config/Tests.antt =====
-- The theorems on the configuration, at a config map with one entry for each visibility.
use mathlib.Core.Option
use net_gateway_api_obsolete.Prelude.{
  ap, sym, ◌∙◌, some_injective, set, List, ◌≢◌, eq_refl, String, ◌≡◌, ◌↔◌, refl, inl, inr, Option,
  none, some, [], ◌∷◌, arith, ◌==◌, eq_iff, if◌then◌else◌,
}
use net_gateway_api_obsolete.Prelude.Outcome.{external, Outcome, ok, err, panic}
use net_gateway_api_obsolete.GoMap.{Map, lookup, insert, lookup-insert, IsMap}
use net_gateway_api_obsolete.Objects.Ingress.{visibility_external_ip, visibility_cluster_local}
use net_gateway_api_obsolete.Samples.{lib}
use net_gateway_api_obsolete.Config.{
  Gateway, GatewayConfig, check_entry, collect_entries, require_keys, new_gateway_from_config_map,
  visibility_config_key,
}
use net_gateway_api_obsolete.Config.Heap.{
  Heap, Pointers, cell, deep_copy_cell, deep_copy_pointer, deep_copy_pointers, deep_copy_map,
  deep_copy_into, deep_copy,
}
use net_gateway_api_obsolete.Config.Seen.{seen}
use net_gateway_api_obsolete.Config.Copies.{deep_copy-seen}
use net_gateway_api_obsolete.Config.Accepted.{
  IsAccepted, AllValid, AllValid-lookup, new_gateway_from_config_map_iff,
}
use net_gateway_api_obsolete.Config.Reordered.{shown, new_gateway_from_config_map_reordered}
use net_gateway_api_obsolete.Config.Usable.{
  DefaultsSplit, IsUsable, new_gateway_from_config_map-IsUsable,
}
use net_gateway_api_obsolete.Config.Context.{
  Config, Context, from_context, from_context_or_defaults, from_context_or_defaults_panics,
}
use net_gateway_api_obsolete.Config.Store.{StoredConfig, store_to_context, SameLookups}
use net_gateway_api_obsolete.Config.Changes.{
  Constructor, UntypedStore, StoreLaws, ConfigChange, gateway_changed, network_changed, Held,
  new_store, delivered, last_held, nothing,
}
use net_gateway_api_obsolete.Config.Updates.{delivered-from_context}

abbrev value_of : String → GatewayConfig
value_of name = record { gateway_class = "istio"; gateway = name; service = name }

abbrev entry : Map GatewayConfig
entry =
    (visibility_external_ip, value_of "ns/outer")
    ∷ (visibility_cluster_local, value_of "ns/inner")
    ∷ []

abbrev unmarshal : String → Outcome (Map GatewayConfig)
unmarshal text = if text == "both" then ok entry else err (external "yaml")

abbrev config_map : Map String
config_map = (visibility_config_key, "both") ∷ []

abbrev accepted_gateway : Gateway
accepted_gateway = record {
  gateways =
      (visibility_external_ip, some (value_of "ns/outer"))
      ∷ (visibility_cluster_local, some (value_of "ns/inner"))
      ∷ [];
}

given : lookup visibility_config_key config_map ≡ some "both"
unfolding lookup
given = refl

unique : IsMap entry
unfolding lookup
unique = (refl, (refl, tt))

accepted : new_gateway_from_config_map lib unmarshal config_map ≡ ok accepted_gateway
unfolding new_gateway_from_config_map lookup insert collect_entries check_entry require_keys
accepted = refl

maps : (t : String) (m : Map GatewayConfig) → unmarshal t ≡ ok m → IsMap m
maps t m h = ground (arith, unique)

defaults_split : DefaultsSplit lib
defaults_split = record {
  service = refl;
  gateway = refl;
  local_service = refl;
  local_gateway = refl;
}

new_gateway_from_config_map-IsUsable_example :
    IsUsable lib accepted_gateway visibility_cluster_local
new_gateway_from_config_map-IsUsable_example =
    new_gateway_from_config_map-IsUsable lib unmarshal config_map visibility_cluster_local
      defaults_split maps accepted (inl refl)

valid_entry : AllValid lib entry
valid_entry = (
  record {
    visibility = inr refl;
    service = refl;
    gateway = refl;
    class = λ h. ground (arith, eq_iff "istio" "");
  },
  (
    record {
      visibility = inl refl;
      service = refl;
      gateway = refl;
      class = λ h. ground (arith, eq_iff "istio" "");
    },
    tt,
  ),
)

is_accepted : IsAccepted lib entry
unfolding lookup
is_accepted = record {
  local = λ h. cc;
  external = λ h. cc;
  entries = λ k v. AllValid-lookup lib entry k v valid_entry;
}

new_gateway_from_config_map_iff_example : IsAccepted lib entry ↔ (
    (g : Gateway) × (new_gateway_from_config_map lib unmarshal config_map ≡ ok g)
    × ((k : String) → lookup k g.gateways ≡ Option.map some (lookup k entry)))
new_gateway_from_config_map_iff_example =
    new_gateway_from_config_map_iff lib unmarshal config_map given refl unique

accepted_entry :
    (g : Gateway) × (new_gateway_from_config_map lib unmarshal config_map ≡ ok g)
    × ((k : String) → lookup k g.gateways ≡ Option.map some (lookup k entry))
accepted_entry = new_gateway_from_config_map_iff_example.0 is_accepted

-- The same map, ranged over the other way round.
abbrev turned : Map GatewayConfig
turned =
    (visibility_cluster_local, value_of "ns/inner")
    ∷ (visibility_external_ip, value_of "ns/outer")
    ∷ []

abbrev unmarshal_turned : String → Outcome (Map GatewayConfig)
unmarshal_turned text = if text == "both" then ok turned else err (external "yaml")

turned_unique : IsMap turned
unfolding lookup
turned_unique = (refl, (refl, tt))

turned_same : (k : String) → lookup k entry ≡ lookup k turned
unfolding lookup
turned_same k = ground (
  arith,
  eq_iff visibility_external_ip k,
  eq_iff visibility_cluster_local k,
  eq_iff visibility_external_ip visibility_cluster_local,
)

new_gateway_from_config_map_reordered_example :
    shown (new_gateway_from_config_map lib unmarshal config_map)
    ≡ shown (new_gateway_from_config_map lib unmarshal_turned config_map)
new_gateway_from_config_map_reordered_example =
    new_gateway_from_config_map_reordered lib config_map given unmarshal unmarshal_turned refl refl
      unique turned_unique turned_same

abbrev empty_context : Context (Unit {0})
empty_context = record { value = none }

from_context_or_defaults_panics_example :
    (from_context_or_defaults empty_context ≡ panic) ↔ (empty_context.value ≡ none)
from_context_or_defaults_panics_example = from_context_or_defaults_panics empty_context

abbrev copy_unit : Unit {0} → Unit {0}
copy_unit u = u

-- A store that is its constructors and its values.
abbrev Stored : Type 0
Stored = Map (Constructor (Unit {0})) × Map (StoredConfig (Unit {0}))

-- A failure ends the process where nothing is stored under the name.
abbrev failed : Stored → Option (StoredConfig (Unit {0})) → Option Stored
failed s none = none
failed s (some v) = some s

abbrev store_result : Stored → String → Outcome (StoredConfig (Unit {0})) → Option Stored
store_result s name (ok v) = some (s.0, insert name v s.1)
store_result s name (err e) = failed s (lookup name s.1)
store_result s name panic = none

abbrev construct : Option (Constructor (Unit {0})) → Map String → Outcome (StoredConfig (Unit {0}))
construct none contents = panic
construct (some f) contents = f contents

abbrev untyped : UntypedStore Stored (Unit {0})
untyped = record {
  new_untyped_store = λ name constructors. (constructors, []);
  registered = λ s. s.0;
  on_config_changed = λ s name contents. store_result s name (construct (lookup name s.0) contents);
  untyped_load = λ s name. lookup name s.1;
}

failed-eq : (s s' : Stored) (o : Option (StoredConfig (Unit {0}))) → failed s o ≡ some s' → s ≡ s'
failed-eq s s' none h = cc
failed-eq s s' (some v) h = cc

kept :
    (s s' : Stored) (name : String) (o : Outcome (StoredConfig (Unit {0})))
    → store_result s name o ≡ some s'
    → s'.0 ≡ s.0
kept s s' name (ok v) h = ap (λ (x : Stored). x.0) (sym (some_injective h))
kept s s' name (err e) h = ap (λ (x : Stored). x.0) (sym (failed-eq s s' _ h))
kept s s' name panic h = cc

apart :
    (s s' : Stored) (name other : String) (o : Outcome (StoredConfig (Unit {0})))
    → store_result s name o ≡ some s'
    → name ≢ other
    → lookup other s'.1 ≡ lookup other s.1
apart s s' name other (ok v) h n =
    ap (λ (x : Stored). lookup other x.1) (sym (some_injective h))
    ∙ ground (arith, n, eq_iff name other, lookup-insert name other v s.1)
apart s s' name other (err e) h n = ap (λ (x : Stored). lookup other x.1) (sym (failed-eq s s' _ h))
apart s s' name other panic h n = cc

laws : StoreLaws untyped
unfolding lookup
laws = record {
  registers = λ name constructors. refl;
  keeps_constructors = λ s s' name contents h. kept s s' name _ h;
  starts_empty = λ name config_name constructors. refl;
  stores = λ s name contents f v h e.
      ((s.0, insert name v s.1), rw h (rw e refl), rw lookup-insert (rw eq_refl refl));
  fails_first = λ s name contents f error h e first. rw h (rw e (rw first refl));
  fails_later = λ s name contents f error v h e held. (s, rw h (rw e (rw held refl)), held);
  separate = λ s s' name other contents h n. apart s s' name other _ h n;
}

abbrev new_network : Map String → Outcome (Unit {0})
new_network contents = ok tt

decodes : (text : String) → unmarshal text ≢ panic
decodes text h = ground arith

constructs : (contents : Map String) → new_network contents ≢ panic
constructs contents h = cc

-- A good gateway configuration, a network one, and a gateway one that does not parse.
abbrev changes : List ConfigChange
changes =
    gateway_changed config_map
    ∷ network_changed []
    ∷ gateway_changed ((visibility_config_key, "broken") ∷ [])
    ∷ []

abbrev last : Held (Unit {0})
last = record { gateway = some accepted_gateway; network = some tt }

last_one : last_held lib unmarshal new_network nothing changes ≡ some last
unfolding new_gateway_from_config_map lookup insert collect_entries check_entry require_keys
last_one = refl

delivered-from_context_example :
    (s : Stored) × (delivered lib unmarshal new_network untyped
        (new_store lib unmarshal new_network untyped)
        changes
      ≡ some s)
    × (ctx' : Context (Unit {0})) × (cfg : Config (Unit {0})) × (copy : Gateway) × (store_to_context
          copy_unit
          (untyped.untyped_load s)
          empty_context
        ≡ ok ctx')
    × (from_context ctx' ≡ ok (some cfg))
    × (cfg.gateway ≡ some copy)
    × SameLookups copy accepted_gateway
delivered-from_context_example =
    delivered-from_context lib unmarshal new_network untyped laws decodes constructs copy_unit
      changes empty_context last_one refl refl

-- Two visibilities that share one pointer.
abbrev shared : Pointers
shared = (visibility_external_ip, some 0) ∷ (visibility_cluster_local, some 0) ∷ []

abbrev heap : Heap
heap = value_of "ns/outer" ∷ []

abbrev copied : Pointers
copied = (visibility_external_ip, some 1) ∷ (visibility_cluster_local, some 2) ∷ []

abbrev grown : Heap
grown = value_of "ns/outer" ∷ value_of "ns/outer" ∷ value_of "ns/outer" ∷ []

shared_unique : IsMap shared
unfolding lookup
shared_unique = (refl, (refl, tt))

copied_run :
    deep_copy (some (record { gateways = some shared })) heap
    ≡ (some (record { gateways = some copied }), grown)
unfolding deep_copy deep_copy_into deep_copy_map deep_copy_pointers deep_copy_pointer deep_copy_cell
    cell insert
copied_run = refl

held : lookup visibility_cluster_local copied ≡ some (some 2)
unfolding lookup
held = refl

deep_copy-seen_example :
    (seen grown (lookup visibility_external_ip copied)
      ≡ seen heap (lookup visibility_external_ip shared))
    × (seen (set grown 0 (value_of "")) (lookup visibility_external_ip copied)
        ≡ seen heap (lookup visibility_external_ip shared))
    × (seen (set grown 2 (value_of "")) (lookup visibility_external_ip shared)
        ≡ seen heap (lookup visibility_external_ip shared))
deep_copy-seen_example =
    deep_copy-seen shared copied heap grown shared_unique (omega arith, (omega arith, tt))
      copied_run visibility_external_ip visibility_cluster_local (value_of "") 0 2 (omega arith)
      held
