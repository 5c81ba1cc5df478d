-- ===== src/Objects/HttpRoute.antt =====
-- The gateway API's HTTPRoute (gateway-api/apis/v1alpha1/httproute_types.go, shared_types.go).
use net_gateway_api_obsolete.Prelude.{ℕ, String, Option, List}
use net_gateway_api_obsolete.GoMap.{Map}
use net_gateway_api_obsolete.Objects.{ObjectMeta, Condition}

abbrev pub gateway_allow_from_list : String
gateway_allow_from_list = "FromList"

abbrev pub path_match_prefix : String
path_match_prefix = "Prefix"

abbrev pub header_match_exact : String
header_match_exact = "Exact"

abbrev pub filter_request_header_modifier : String
filter_request_header_modifier = "RequestHeaderModifier"

abbrev pub condition_route_admitted : String
condition_route_admitted = "Admitted"

pub record GatewayReference : Type 0 where
  pub namespace : String
  pub name : String

pub record RouteGateways : Type 0 where
  pub allow : Option String
  pub gateway_refs : List GatewayReference

pub record HttpPathMatch : Type 0 where
  pub type : Option String
  pub value : Option String

pub record HttpHeaderMatch : Type 0 where
  pub type : Option String
  pub values : Map String

pub record HttpRouteMatch : Type 0 where
  pub path : Option HttpPathMatch
  pub headers : Option HttpHeaderMatch

pub record HttpRequestHeaderFilter : Type 0 where
  pub set_headers : Map String

pub record HttpRouteFilter : Type 0 where
  pub type : String
  pub request_header_modifier : Option HttpRequestHeaderFilter

-- `port` and `weight` are int32 bit patterns.
pub record HttpRouteForwardTo : Type 0 where
  pub service_name : Option String
  pub port : Option ℕ
  pub weight : Option ℕ
  pub filters : List HttpRouteFilter

pub record HttpRouteRule : Type 0 where
  pub matches : List HttpRouteMatch
  pub filters : List HttpRouteFilter
  pub forward_to : List HttpRouteForwardTo

pub record HttpRouteSpec : Type 0 where
  pub gateways : Option RouteGateways
  pub hostnames : List String
  pub rules : List HttpRouteRule

pub record RouteGatewayStatus : Type 0 where
  pub gateway_ref : GatewayReference
  pub conditions : List Condition

-- `none` is a nil slice, which the code tells from an empty one.
pub record HttpRouteStatus : Type 0 where
  pub gateways : Option (List RouteGatewayStatus)

pub record HttpRoute : Type 0 where
  pub meta : ObjectMeta
  pub open meta use *
  pub spec : HttpRouteSpec
  pub status : HttpRouteStatus
