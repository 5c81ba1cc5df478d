-- ===== src/Config/Heap.antt =====
-- The generated copies of pkg/reconciler/ingress/config/zz_generated.deepcopy.go, with their pointers: a
-- gateway configuration stands at an address of the heap, and a map holds the address.
use net_gateway_api_obsolete.Prelude.{ℕ, zero, suc, Option, none, some, List, [], ◌∷◌, ◌++◌, length}
use net_gateway_api_obsolete.GoMap.{Map, insert}
use net_gateway_api_obsolete.Config.{GatewayConfig}

-- The cells that were allocated; a pointer is the place of its cell.
abbrev pub Heap : Type 0
Heap = List GatewayConfig

-- `GatewayConfig{}`
abbrev pub zero_config : GatewayConfig
zero_config = record { gateway_class = ""; gateway = ""; service = "" }

-- `*p`. A pointer of the program leads to a cell; the zero value stands for what none leads to.
unfoldable pub cell : Heap → ℕ → GatewayConfig
cell [] p = zero_config
cell (v ∷ h) zero = v
cell (v ∷ h) (suc p) = cell h p

-- `map[v1alpha1.IngressVisibility]*GatewayConfig`
abbrev pub Pointers : Type 0
Pointers = Map (Option ℕ)

-- `Gateway` and `Config`, with the pointers that they hold. What `network` leads to is its value.
pub record HeapGateway : Type 0 where
  pub gateways : Option Pointers

pub record HeapConfig (Network : Type 0) : Type 0 where
  pub network : Option Network
  pub gateway : Option HeapGateway

-- `(*GatewayConfig).DeepCopy` of a pointer that is not nil: `new`, and `*out = *in`.
unfoldable pub deep_copy_cell : ℕ → Heap → ℕ × Heap
deep_copy_cell p h = (length h, h ++ cell h p ∷ [])

-- `(*GatewayConfig).DeepCopy`, and the copy of one value of the map
unfoldable pub deep_copy_pointer : Option ℕ → Heap → Option ℕ × Heap
unfolding deep_copy_cell
deep_copy_pointer none h = (none, h)
deep_copy_pointer (some p) h = let (q, h') = deep_copy_cell p h in (some q, h')

-- the loop of `(*Gateway).DeepCopyInto`
unfoldable pub deep_copy_pointers : Pointers → Pointers → Heap → Pointers × Heap
unfolding deep_copy_pointer
deep_copy_pointers [] out h = (out, h)
deep_copy_pointers ((key, val) ∷ entries) out h =
    let (out_val, h') = deep_copy_pointer val h in
    deep_copy_pointers entries (insert key out_val out) h'

-- the map of `(*Gateway).DeepCopyInto`; a nil map stays nil
unfoldable pub deep_copy_map : Option Pointers → Heap → Option Pointers × Heap
unfolding deep_copy_pointers
deep_copy_map none h = (none, h)
deep_copy_map (some m) h = let (out, h') = deep_copy_pointers m [] h in (some out, h')

-- `(*Gateway).DeepCopyInto`
unfoldable pub deep_copy_into : HeapGateway → Heap → HeapGateway × Heap
unfolding deep_copy_map
deep_copy_into c h = let (out, h') = deep_copy_map c.gateways h in (record { gateways = out }, h')

-- `(*Gateway).DeepCopy`
unfoldable pub deep_copy : Option HeapGateway → Heap → Option HeapGateway × Heap
unfolding deep_copy_into
deep_copy none h = (none, h)
deep_copy (some c) h = let (out, h') = deep_copy_into c h in (some out, h')

-- `(*Config).DeepCopyInto`
unfoldable pub deep_copy_config_into :
    {Network : Type 0} → HeapConfig Network → Heap → HeapConfig Network × Heap
unfolding deep_copy
deep_copy_config_into c h =
    let (out, h') = deep_copy c.gateway h in (record c { gateway = out }, h')

-- `(*Config).DeepCopy`
unfoldable pub deep_copy_config :
    {Network : Type 0} → Option (HeapConfig Network) → Heap → Option (HeapConfig Network) × Heap
unfolding deep_copy_config_into
deep_copy_config none h = (none, h)
deep_copy_config (some c) h = let (out, h') = deep_copy_config_into c h in (some out, h')
