-- ===== src/Probe.antt =====
-- The lister of probe targets, pkg/reconciler/ingress/lister.go. The endpoints lister, the set of
-- strings and the libraries are parameters.
pub mod Targets
mod Tests
use net_gateway_api_obsolete.Prelude.{
  String, Bool, Option, none, some, List, [], ◌∷◌, ◌++◌, ◌==◌, if◌then◌else◌, map,
}
use net_gateway_api_obsolete.Prelude.Outcome.{Outcome, ok, err, errorf, wrap_error, ◌>>=◌}
use net_gateway_api_obsolete.Objects.{EndpointAddress, EndpointSubset, Endpoints}
use net_gateway_api_obsolete.Objects.Ingress.{
  IngressRule, IngressSpec, IngressVisibility, HttpOption, visibility_external_ip,
  visibility_cluster_local, http_option_redirected,
}
use net_gateway_api_obsolete.Libraries.{Libraries}
use net_gateway_api_obsolete.Config.{lookup_service}
use net_gateway_api_obsolete.Config.Context.{Context}
use net_gateway_api_obsolete.Resources.{gateway_config}

abbrev pub http_port_external : String
http_port_external = "8080"

abbrev pub http_port_internal : String
http_port_internal = "8081"

abbrev pub https_port_external : String
https_port_external = "8443"

-- `url.URL`, as far as the code sets it
pub record Url : Type 0 where
  pub scheme : String
  pub host : String
  pub path : String

-- `status.ProbeTarget`; `Set` is `sets.String`.
pub record ProbeTarget (Set : Type 0) : Type 0 where
  pub pod_ips : Set
  pub pod_port : String
  pub urls : List Url

-- `domainsToURL`
unfoldable pub domains_to_url : List String → String → List Url
domains_to_url [] scheme = []
domains_to_url (domain ∷ domains) scheme =
    (record { scheme = scheme; host = domain; path = "/" }) ∷ domains_to_url domains scheme

-- the two loops that gather the addresses
unfoldable pub subset_ips : List EndpointAddress → List String
subset_ips [] = []
subset_ips (address ∷ addresses) = address.ip ∷ subset_ips addresses

unfoldable pub ready_ips : List EndpointSubset → List String
unfolding subset_ips
ready_ips [] = []
ready_ips (sub ∷ subsets) = subset_ips sub.addresses ++ ready_ips subsets

module _ {Set : Type 0} (new_string_set : List String → Set) where
  -- one round of `getIngressUrls`'s loop
  unfoldable pub rule_target : Set → HttpOption → IngressRule → ProbeTarget Set
  unfolding domains_to_url
  rule_target ips http_option rule =
      if rule.visibility == visibility_external_ip
      then (if http_option == http_option_redirected
          then record {
            pod_ips = ips;
            pod_port = https_port_external;
            urls = domains_to_url rule.hosts "https";
          }
          else record {
            pod_ips = ips;
            pod_port = http_port_external;
            urls = domains_to_url rule.hosts "http";
          })
      else record {
        pod_ips = ips;
        pod_port = http_port_internal;
        urls = domains_to_url rule.hosts "http";
      }

  unfoldable pub rule_targets : Set → HttpOption → List IngressRule → List (ProbeTarget Set)
  unfolding rule_target
  rule_targets ips http_option [] = []
  rule_targets ips http_option (rule ∷ rules) =
      rule_target ips http_option rule ∷ rule_targets ips http_option rules

  -- `getIngressUrls`, whose error is always nil
  unfoldable pub get_ingress_urls : IngressSpec → List String → Outcome (List (ProbeTarget Set))
  unfolding rule_targets
  get_ingress_urls spec gateway_ips =
      ok (rule_targets (new_string_set gateway_ips) spec.http_option spec.rules)

  abbrev targets_of : IngressSpec → List String → Outcome (List (ProbeTarget Set))
  targets_of spec [] = err (errorf "no gateway pods available" [])
  targets_of spec (ip ∷ ips) = get_ingress_urls spec (ip ∷ ips)

  module _ (lib : Libraries) {Network : Type 0} (ctx : Context Network)
      (get_endpoints : String → String → Outcome Endpoints) where
    -- `ListProbeTargets`; the error of the key is dropped
    unfoldable pub list_probe_targets : IngressSpec → Outcome (List (ProbeTarget Set))
    list_probe_targets spec = do
      gateway ← gateway_config lib ctx
      let key = lib.split_meta_namespace_key (lookup_service gateway visibility_cluster_local)
      eps ← wrap_error "failed to get internal service: %w" (get_endpoints key.namespace key.name)
      targets_of spec (ready_ips eps.subsets)
