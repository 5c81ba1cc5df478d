-- ===== src/Resources/Takes.antt =====
-- Which requests the HTTPRoute of a rule takes, and which the rule of the ingress takes. `HostMatches` is
-- the proxy's test of a request's host against a host name.
use mathlib.Core.List.{Mem}
use mathlib.Core.List.Perm
use net_gateway_api_obsolete.Prelude.{◌⊎◌, String, ◌≡◌, List, [], ◌∷◌, Any}
use net_gateway_api_obsolete.Objects.Ingress.{HttpIngressPath, HttpIngressRuleValue, IngressRule}
use net_gateway_api_obsolete.Objects.HttpRoute.{HttpRoute}
use net_gateway_api_obsolete.Libraries.{Libraries}
use net_gateway_api_obsolete.Config.Context.{Context}
use net_gateway_api_obsolete.Resources.Prefixes.{IsPlain}
use net_gateway_api_obsolete.Resources.Matching.{Request, UniqueHeaders, RuleTakes, IngressTakes}

-- A path that is not given or plain, whose headers are a map.
abbrev pub IsMatched : HttpIngressPath → Type 0
IsMatched path = ((path.path ≡ "") ⊎ IsPlain path.path) × UniqueHeaders path.headers

module _ (HostMatches : String → String → Type 0) where
  abbrev Matched : Request → List String → Type 0
  Matched r hosts = (h : String) × Mem h hosts × HostMatches h r.host

  -- The gateway API: a route without host names takes every host.
  abbrev pub HostTakes : Request → List String → Type 0
  HostTakes r [] = Unit
  HostTakes r (host ∷ hosts) = Matched r (host ∷ hosts)

  -- The ingress: a rule takes the requests to one of its hosts that one of its paths takes.
  abbrev pub IngressRuleTakes : Request → IngressRule → HttpIngressRuleValue → Type 0
  IngressRuleTakes r rule http = Matched r rule.hosts × Any (IngressTakes r) http.paths

module _ (PrefixMatches : String → String → Type 0) where
  abbrev pub RouteTakes : (String → String → Type 0) → Request → HttpRoute → Type 0
  RouteTakes HostMatches r route =
      HostTakes HostMatches r route.spec.hostnames
      × Any (RuleTakes PrefixMatches r) route.spec.rules
