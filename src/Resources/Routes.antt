-- ===== src/Resources/Routes.antt =====
-- The whole HTTPRoute of a rule: `MakeHTTPRoute` against what the ingress asks for.
use net_gateway_api_obsolete.Prelude.{◌⊎◌, String, ◌≡◌, ◌≢◌, ◌↔◌, Option, none, some, [], ◌∷◌, All}
use net_gateway_api_obsolete.GoMap.{Map, lookup}
use net_gateway_api_obsolete.Objects.{ObjectMeta}
use net_gateway_api_obsolete.Objects.Ingress.{
  HttpIngressPath, HttpIngressRuleValue, IngressRule, IngressVisibility,
}
use net_gateway_api_obsolete.Objects.HttpRoute.{
  HttpRoute, HttpRouteRule, GatewayReference, gateway_allow_from_list,
}
use net_gateway_api_obsolete.Libraries.{Libraries, MetaNamespaceKey}
use net_gateway_api_obsolete.Config.{Gateway, lookup_gateway}
use net_gateway_api_obsolete.Config.Context.{Context}
use net_gateway_api_obsolete.Resources.{
  visibility_name, visibility_label_key, last_applied_config_annotation,
}
use net_gateway_api_obsolete.Resources.Names.{IsNamed}
use net_gateway_api_obsolete.Resources.Prefixes.{LiteralPrefix, IsPlain}
use net_gateway_api_obsolete.Resources.Matching.{Request, UniqueHeaders, RuleTakes, IngressTakes}
use net_gateway_api_obsolete.Resources.Forwards.{Pairs, ForwardOf, IsValidSplit, set_by}

-- A path that is not given or plain, whose splits fit and whose headers are maps.
pub record IsValidPath (lib : Libraries) (path : HttpIngressPath) : Type 0 where
  pub plain : (path.path ≡ "") ⊎ IsPlain path.path
  pub headers : UniqueHeaders path.headers
  pub splits : All (IsValidSplit lib) path.splits

abbrev lookup_in : Option (Map String) → String → Option String
lookup_in none k = none
lookup_in (some m) k = lookup k m

-- A rule of the HTTPRoute is its path's: the requests, whose paths begin with '/', the headers set on each, the forwards.
pub record RuleOf (lib : Libraries) (PrefixMatches : String → String → Type 0)
    (path : HttpIngressPath) (rule : HttpRouteRule) : Type 0 where
  pub takes :
      (r : Request)
      → LiteralPrefix "/" r.path
      → RuleTakes PrefixMatches r rule ↔ IngressTakes r path
  pub headers : (k : String) → set_by rule.filters k ≡ lookup_in path.append_headers k
  pub forwards : Pairs (ForwardOf lib path.rewrite_host) path.splits rule.forward_to

-- The metadata: the ingress's labels with the visibility, and its annotations without the one that
-- `kubectl apply` keeps.
pub record MetaOf (lib : Libraries) (ing : ObjectMeta) (visibility : IngressVisibility)
    (meta : ObjectMeta) : Type 0 where
  pub namespace : meta.namespace ≡ ing.namespace
  pub owner : meta.owner_references ≡ lib.new_controller_ref ing ∷ []
  pub visibility_label : lookup visibility_label_key meta.labels ≡ some (visibility_name visibility)
  pub other_labels :
      (k : String) → k ≢ visibility_label_key → lookup k meta.labels ≡ lookup k ing.labels
  pub last_applied : lookup last_applied_config_annotation meta.annotations ≡ none
  pub other_annotations :
      (k : String)
      → k ≢ last_applied_config_annotation
      → lookup k meta.annotations ≡ lookup k ing.annotations

abbrev gateway_ref : MetaNamespaceKey → GatewayReference
gateway_ref key = record { namespace = key.namespace; name = key.name }

-- The HTTPRoute of a rule under a gateway configuration.
pub record RouteOf (lib : Libraries) (PrefixMatches : String → String → Type 0) (gateway : Gateway)
    (ing : ObjectMeta) (rule : IngressRule) (http : HttpIngressRuleValue) (route : HttpRoute)
    : Type 0 where
  pub meta : MetaOf lib ing rule.visibility route.meta
  pub named : IsNamed rule.hosts route.name route.spec.hostnames
  pub rules : Pairs (RuleOf lib PrefixMatches) http.paths route.spec.rules
  pub gateways :
      route.spec.gateways
      ≡ some (record {
        allow = some gateway_allow_from_list;
        gateway_refs =
            gateway_ref (lib.split_meta_namespace_key (lookup_gateway gateway rule.visibility))
            ∷ [];
      })
