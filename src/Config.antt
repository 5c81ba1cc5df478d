-- ===== src/Config.antt =====
-- The gateway configuration, pkg/reconciler/ingress/config/gateway.go. Its YAML decoder is the
-- parameter `unmarshal`.
pub mod Accepted
pub mod Usable
pub mod Context
pub mod Store
pub mod Returns
pub mod Heap
pub mod Seen
pub mod Copies
pub mod Reordered
pub mod Changes
pub mod Updates
mod Tests
use net_gateway_api_obsolete.Prelude.{
  String, Option, none, some, List, [], ◌∷◌, ◌==◌, ◌||◌, if◌then◌else◌,
}
use net_gateway_api_obsolete.Prelude.Outcome.{Error, errorf, Outcome, ok, err, ◌>>=◌, ◌>>◌}
use net_gateway_api_obsolete.GoMap.{Map, lookup, insert}
use net_gateway_api_obsolete.Objects.Ingress.{
  IngressVisibility, visibility_external_ip, visibility_cluster_local,
}
use net_gateway_api_obsolete.Libraries.{Libraries}

abbrev pub gateway_config_name : String
gateway_config_name = "config-gateway"

abbrev pub visibility_config_key : String
visibility_config_key = "visibility"

abbrev pub default_gateway_class : String
default_gateway_class = "istio"

abbrev pub default_istio_gateway : String
default_istio_gateway = "istio-system/knative-gateway"

abbrev pub default_istio_local_gateway : String
default_istio_local_gateway = "istio-system/knative-local-gateway"

abbrev pub default_local_gateway_service : String
default_local_gateway_service = "istio-system/knative-local-gateway"

abbrev pub default_gateway_service : String
default_gateway_service = "istio-system/istio-ingressgateway"

pub record GatewayConfig : Type 0 where
  pub gateway_class : String
  pub gateway : String
  pub service : String

-- The values are pointers: `none` is nil.
pub record Gateway : Type 0 where
  pub gateways : Map (Option GatewayConfig)

-- `LookupX` on the pointer that the map holds, nil for a missing key
abbrev field_or_empty : (GatewayConfig → String) → Option (Option GatewayConfig) → String
field_or_empty f (some (some g)) = f g
field_or_empty f (some none) = ""
field_or_empty f none = ""

unfoldable pub lookup_gateway : Gateway → IngressVisibility → String
lookup_gateway c visibility = field_or_empty (λ g. g.gateway) (lookup visibility c.gateways)

unfoldable pub lookup_gateway_class : Gateway → IngressVisibility → String
lookup_gateway_class c visibility =
    field_or_empty (λ g. g.gateway_class) (lookup visibility c.gateways)

unfoldable pub lookup_service : Gateway → IngressVisibility → String
lookup_service c visibility = field_or_empty (λ g. g.service) (lookup visibility c.gateways)

abbrev pub default_external : GatewayConfig
default_external = record {
  gateway_class = default_gateway_class;
  gateway = default_istio_gateway;
  service = default_gateway_service;
}

abbrev pub default_local : GatewayConfig
default_local = record {
  gateway_class = default_gateway_class;
  gateway = default_istio_local_gateway;
  service = default_local_gateway_service;
}

abbrev pub default_gateway : Gateway
default_gateway = record {
  gateways =
      (visibility_external_ip, some default_external)
      ∷ (visibility_cluster_local, some default_local)
      ∷ [];
}

-- `if _, ok := entry[vis]; !ok { return nil, … }`
abbrev require_key : Option GatewayConfig → IngressVisibility → Outcome (Unit {0})
require_key none vis = err (errorf "visibility %q must not be empty" (vis ∷ []))
require_key (some _) vis = ok tt

unfoldable pub require_keys : List IngressVisibility → Map GatewayConfig → Outcome (Unit {0})
require_keys [] entry = ok tt
require_keys (vis ∷ rest) entry = do require_key (lookup vis entry) vis; require_keys rest entry

abbrev no_error : Option Error → Outcome (Unit {0})
no_error none = ok tt
no_error (some e) = err e

abbrev require_visibility : IngressVisibility → Outcome (Unit {0})
require_visibility key =
    if key == visibility_cluster_local || key == visibility_external_ip
    then ok tt
    else err (errorf "unrecognized visibility: %q" (key ∷ []))

abbrev require_class : IngressVisibility → GatewayConfig → Outcome (Unit {0})
require_class key value =
    if value.gateway_class == ""
    then err (errorf "visibility %q must set class" (key ∷ []))
    else ok tt

module _ (lib : Libraries) where
  -- the checks of one entry, in the order of the loop's body
  unfoldable pub check_entry : IngressVisibility → GatewayConfig → Outcome (Unit {0})
  check_entry key value = do
    require_visibility key
    no_error (lib.split_meta_namespace_key value.service).error
    no_error (lib.split_meta_namespace_key value.gateway).error
    require_class key value

  -- `for key, value := range entry`, which fills `c.Gateways`
  unfoldable pub collect_entries :
      Map GatewayConfig → Map (Option GatewayConfig) → Outcome (Map (Option GatewayConfig))
  collect_entries [] gateways = ok gateways
  collect_entries ((key, value) ∷ rest) gateways = do
    check_entry key value
    collect_entries rest (insert key (some value) gateways)

  abbrev from_entries : Map GatewayConfig → Outcome Gateway
  from_entries entry = do
    require_keys (visibility_cluster_local ∷ visibility_external_ip ∷ []) entry
    gateways ← collect_entries entry []
    ok (record { gateways = gateways })

  abbrev from_visibility : (String → Outcome (Map GatewayConfig)) → Option String → Outcome Gateway
  from_visibility unmarshal none = ok default_gateway
  from_visibility unmarshal (some v) = do entry ← unmarshal v; from_entries entry

  -- `NewGatewayFromConfigMap`, over the config map's `Data`
  unfoldable pub new_gateway_from_config_map :
      (String → Outcome (Map GatewayConfig)) → Map String → Outcome Gateway
  new_gateway_from_config_map unmarshal config_map =
      from_visibility unmarshal (lookup visibility_config_key config_map)
