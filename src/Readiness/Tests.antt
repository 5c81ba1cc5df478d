-- ===== src/Readiness/Tests.antt =====
-- The theorem on readiness, at a route with one gateway.
use net_gateway_api_obsolete.Prelude.{◌≡◌, ◌↔◌, Bool, true, none, some, [], ◌∷◌}
use net_gateway_api_obsolete.Prelude.Outcome.{ok}
use net_gateway_api_obsolete.Objects.HttpRoute.{HttpRoute}
use net_gateway_api_obsolete.Samples.{meta}
use net_gateway_api_obsolete.Readiness.{is_http_route_ready, IsReady, is_http_route_ready_iff}

abbrev admitted_route : HttpRoute
admitted_route = record {
  meta = meta;
  spec = record { gateways = none; hostnames = []; rules = [] };
  status = record {
    gateways = some (
        (record {
          gateway_ref = record { namespace = "istio-system"; name = "knative-gateway" };
          conditions =
              (record { type = "Scheduled"; status = "False" })
              ∷ (record { type = "Admitted"; status = "True" })
              ∷ [];
        })
        ∷ []);
  };
}

is_http_route_ready_iff_example :
    (is_http_route_ready admitted_route ≡ ok true ↔ IsReady admitted_route)
    × ((b : Bool) × (is_http_route_ready admitted_route ≡ ok b))
is_http_route_ready_iff_example = is_http_route_ready_iff admitted_route
