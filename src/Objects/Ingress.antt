-- ===== src/Objects/Ingress.antt =====
-- knative's Ingress (apis/networking/v1alpha1/ingress_types.go). The status stays abstract: it is
-- written through the methods of the status alone.
use net_gateway_api_obsolete.Prelude.{ℕ, String, Option, List}
use net_gateway_api_obsolete.GoMap.{Map}
use net_gateway_api_obsolete.Objects.{ObjectMeta}

-- A string type in the source: values other than the two constants, "" among them, can occur.
abbrev pub IngressVisibility : Type 0
IngressVisibility = String

abbrev pub visibility_external_ip : IngressVisibility
visibility_external_ip = "ExternalIP"

abbrev pub visibility_cluster_local : IngressVisibility
visibility_cluster_local = "ClusterLocal"

abbrev pub HttpOption : Type 0
HttpOption = String

abbrev pub http_option_redirected : HttpOption
http_option_redirected = "Redirected"

pub data IntOrString : Type 0 where
  int_val : ℕ → IntOrString
  str_val : String → IntOrString

pub record HeaderMatch : Type 0 where
  pub exact : String

pub record IngressBackend : Type 0 where
  pub service_namespace : String
  pub service_name : String
  pub service_port : IntOrString

pub record IngressBackendSplit : Type 0 where
  pub backend : IngressBackend
  pub open backend use *
  pub percent : ℕ
  pub append_headers : Map String

-- `none` is a nil map: the code tells it from an empty one.
pub record HttpIngressPath : Type 0 where
  pub path : String
  pub rewrite_host : String
  pub headers : Option (Map HeaderMatch)
  pub splits : List IngressBackendSplit
  pub append_headers : Option (Map String)

pub record HttpIngressRuleValue : Type 0 where
  pub paths : List HttpIngressPath

-- `http` is a pointer: `none` is nil.
pub record IngressRule : Type 0 where
  pub hosts : List String
  pub visibility : IngressVisibility
  pub http : Option HttpIngressRuleValue

pub record IngressSpec : Type 0 where
  pub rules : List IngressRule
  pub http_option : HttpOption

pub record Ingress (Status : Type 0) : Type 0 where
  pub meta : ObjectMeta
  pub open meta use *
  pub spec : IngressSpec
  pub status : Status

pub record LoadBalancerIngressStatus : Type 0 where
  pub domain_internal : String
