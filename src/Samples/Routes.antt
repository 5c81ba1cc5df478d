-- ===== src/Samples/Routes.antt =====
-- The route that is made for the sample rule.
use net_gateway_api_obsolete.Prelude.{◌≡◌, refl, [], ◌∷◌, none, some}
use net_gateway_api_obsolete.Prelude.Outcome.{ok}
use net_gateway_api_obsolete.GoMap.{lookup, insert, insert_all}
use net_gateway_api_obsolete.Hosts.{sort_strings, insert_string}
use net_gateway_api_obsolete.Objects.Ingress.{IngressRule}
use net_gateway_api_obsolete.Objects.HttpRoute.{HttpRoute, gateway_allow_from_list}
use net_gateway_api_obsolete.Config.{lookup_gateway}
use net_gateway_api_obsolete.Config.Context.{from_context}
use net_gateway_api_obsolete.Resources.{
  longest_host, visibility_label_key, make_meta, gateway_config, make_http_route,
  make_http_route_spec, make_http_route_rule, make_path_rules,
}
use net_gateway_api_obsolete.Samples.{lib, ctx, rule, meta, http}
use net_gateway_api_obsolete.Samples.Cluster.{start}

abbrev pub sorted : IngressRule
sorted = record rule { hosts = "a.example" ∷ "b.example" ∷ [] }

abbrev pub desired : HttpRoute
desired = record {
  meta = record {
    name = "a.example";
    namespace = "ns";
    uid = "";
    labels = ("app", "hello") ∷ (visibility_label_key, "") ∷ [];
    annotations = ("note", "kept") ∷ [];
    owner_references = lib.new_controller_ref meta ∷ [];
  };
  spec = record {
    hostnames = sorted.hosts;
    rules = make_path_rules lib http.paths;
    gateways = some (record {
      allow = some gateway_allow_from_list;
      gateway_refs = (record { namespace = "istio-system"; name = "knative-gateway" }) ∷ [];
    });
  };
  status = record { gateways = none };
}

pub made : make_http_route lib ctx start.ingress.meta rule ≡ ok (desired, sorted)
unfolding make_http_route longest_host sort_strings insert_string make_http_route_spec
    make_http_route_rule gateway_config from_context make_meta lookup_gateway lookup insert
    insert_all
made = refl
