-- ===== src/Resources.antt =====
-- From an ingress rule to the HTTPRoute that it wants, pkg/reconciler/ingress/resources.
pub mod Names
pub mod Prefixes
pub mod Matching
pub mod Forwards
pub mod Routes
pub mod Takes
mod Tests
use net_gateway_api_obsolete.Prelude.{
  ℕ, ◌%◌, ◌^◌, String, ◌≡◌, refl, Option, none, some, List, [], ◌∷◌, ◌++◌, ◌==◌, if◌then◌else◌,
}
use net_gateway_api_obsolete.Prelude.Outcome.{Outcome, ok, panic, ◌>>=◌}
use net_gateway_api_obsolete.GoMap.{Map, insert}
use net_gateway_api_obsolete.Hosts.{sort_strings}
use net_gateway_api_obsolete.Objects.{ObjectMeta}
use net_gateway_api_obsolete.Objects.Ingress.{
  Ingress, IngressRule, IngressBackendSplit, HttpIngressPath, HttpIngressRuleValue, HeaderMatch,
  IngressVisibility, visibility_external_ip, visibility_cluster_local,
}
use net_gateway_api_obsolete.Objects.HttpRoute.{
  HttpRoute, HttpRouteSpec, HttpRouteRule, HttpRouteFilter, HttpRouteForwardTo, HttpRouteMatch,
  HttpPathMatch, HttpHeaderMatch, RouteGateways, gateway_allow_from_list, path_match_prefix,
  header_match_exact, filter_request_header_modifier,
}
use net_gateway_api_obsolete.Libraries.{Libraries}
use net_gateway_api_obsolete.Config.{Gateway, lookup_gateway}
use net_gateway_api_obsolete.Config.Context.{Context, Config, from_context}

-- `pkg.VisibilityLabelKey`
abbrev pub visibility_label_key : String
visibility_label_key = "networking.knative.dev/visibility"

-- `corev1.LastAppliedConfigAnnotation`
abbrev pub last_applied_config_annotation : String
last_applied_config_annotation = "kubectl.kubernetes.io/last-applied-configuration"

-- `Visibility` of helpers.go
unfoldable pub visibility_name : IngressVisibility → String
visibility_name visibility =
    if visibility == visibility_cluster_local
    then "cluster-local"
    else if visibility == visibility_external_ip
    then ""
    else ""

-- The conversions to int32 that keep the low bits.
unfoldable pub int32 : ℕ → ℕ
int32 n = n % 2 ^ 32

-- `portNumPtr`
unfoldable port_num_ptr : ℕ → Option ℕ
unfolding int32
port_num_ptr port = some (int32 port)

abbrev first_host : List String → Outcome (String × List String)
first_host [] = panic
first_host (host ∷ rest) = ok (host, host ∷ rest)

-- `LongestHost` sorts the caller's slice in place: the sorted slice is the second result. An empty
-- slice has no element 0.
unfoldable pub longest_host : List String → Outcome (String × List String)
longest_host hosts = first_host (sort_strings hosts)

-- `*p` at a pointer that may be nil
abbrev pub deref : {A : Type 0} → Option A → Outcome A
deref none = panic
deref (some a) = ok a

-- the filter that sets request headers
abbrev header_filter : Map String → HttpRouteFilter
header_filter headers = record {
  type = filter_request_header_modifier;
  request_header_modifier = some (record { set_headers = headers });
}

abbrev host_headers : String → Map String
host_headers rewrite_host =
    if rewrite_host == "" then [] else ("Host", rewrite_host) ∷ (":Authority", rewrite_host) ∷ []

abbrev pre_filters : Option (Map String) → List HttpRouteFilter
pre_filters none = []
pre_filters (some append_headers) = header_filter append_headers ∷ []

-- `for k, v := range path.Headers { header[k] = v.Exact }`
unfoldable pub exact_headers : Map HeaderMatch → Map String → Map String
exact_headers [] header = header
exact_headers ((k, v) ∷ headers) header = exact_headers headers (insert k v.exact header)

abbrev match_headers : Option (Map HeaderMatch) → Option HttpHeaderMatch
match_headers none = none
match_headers (some headers) =
    some (record { type = some header_match_exact; values = exact_headers headers [] })

abbrev path_prefix : String → String
path_prefix path = if path == "" then "/" else path

abbrev visibility_label : IngressVisibility → String
visibility_label visibility = if visibility == visibility_cluster_local then "cluster-local" else ""

module _ (lib : Libraries) where
  -- `for _, split := range path.Splits`
  unfoldable pub make_forwards : Map String → List IngressBackendSplit → List HttpRouteForwardTo
  unfolding int32 port_num_ptr
  make_forwards host_set [] = []
  make_forwards host_set (split ∷ splits) =
      (record {
        port = port_num_ptr (lib.int_value split.service_port);
        service_name = some split.service_name;
        weight = some (int32 split.percent);
        filters = header_filter (lib.union_maps split.append_headers host_set) ∷ [];
      })
      ∷ make_forwards host_set splits

  -- one round of `makeHTTPRouteRule`'s loop
  unfoldable pub make_path_rule : HttpIngressPath → HttpRouteRule
  unfolding make_forwards exact_headers
  make_path_rule path = record {
    matches =
        (record {
          path =
              some (record { type = some path_match_prefix; value = some (path_prefix path.path) });
          headers = match_headers path.headers;
        })
        ∷ [];
    filters = pre_filters path.append_headers;
    forward_to = make_forwards (host_headers path.rewrite_host) path.splits;
  }

  unfoldable pub make_path_rules : List HttpIngressPath → List HttpRouteRule
  unfolding make_path_rule
  make_path_rules [] = []
  make_path_rules (path ∷ paths) = make_path_rule path ∷ make_path_rules paths

  -- `makeHTTPRouteRule`
  unfoldable pub make_http_route_rule : IngressRule → Outcome (List HttpRouteRule)
  unfolding make_path_rules
  make_http_route_rule rule = do http ← deref rule.http; ok (make_path_rules http.paths)

  -- The metadata of `MakeHTTPRoute`.
  unfoldable pub make_meta : ObjectMeta → IngressVisibility → String → ObjectMeta
  make_meta ing visibility name = record {
    name = name;
    namespace = ing.namespace;
    uid = "";
    labels = lib.union_maps ing.labels ((visibility_label_key, visibility_label visibility) ∷ []);
    annotations = lib.filter_map ing.annotations (λ key. key == last_applied_config_annotation);
    owner_references = lib.new_controller_ref ing ∷ [];
  }

  module _ {Network : Type 0} (ctx : Context Network) where
    -- `config.FromContext(ctx).Gateway`, of which a method is then called
    unfoldable pub gateway_config : Outcome Gateway
    unfolding from_context
    gateway_config = do found ← from_context ctx; config ← deref found; deref config.gateway

    -- `makeHTTPRouteSpec`; its error from the key is dropped
    unfoldable pub make_http_route_spec : IngressRule → Outcome HttpRouteSpec
    make_http_route_spec rule = do
      rules ← make_http_route_rule rule
      gateway ← gateway_config
      let key = lib.split_meta_namespace_key (lookup_gateway gateway rule.visibility)
      ok (record {
        hostnames = rule.hosts;
        rules = rules;
        gateways = some (record {
          allow = some gateway_allow_from_list;
          gateway_refs = (record { namespace = key.namespace; name = key.name }) ∷ [];
        });
      })

    -- `MakeHTTPRoute`: the name is computed first and leaves the rule's hosts sorted, so the spec
    -- has them sorted. The second result is the rule with those hosts.
    unfoldable pub make_http_route : ObjectMeta → IngressRule → Outcome (HttpRoute × IngressRule)
    make_http_route ing rule = do
      named ← longest_host rule.hosts
      let sorted = record rule { hosts = named.1 }
      spec ← make_http_route_spec sorted
      ok (
        record {
          meta = make_meta ing rule.visibility named.0;
          spec = spec;
          status = record { gateways = none };
        },
        sorted,
      )
