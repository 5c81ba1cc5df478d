-- ===== src/Resources/Matching.antt =====
-- Which requests a rule of an HTTPRoute takes, and which the ingress path it was made from takes.
-- `PrefixMatches` is the gateway API's test of a path against a match of type "Prefix".
use mathlib.Core.Option
use net_gateway_api_obsolete.Prelude.{
  String, ◌≡◌, ◌↔◌, ◌⊎◌, inl, inr, refl, ap, ◌∙◌, Option, none, some, [], ◌∷◌, Any, arith, ◌==◌,
  eq_iff, Bool-cases, false,
}
use net_gateway_api_obsolete.GoMap.{Map, lookup, insert, lookup-insert, IsMap, or_else}
use net_gateway_api_obsolete.Objects.Ingress.{HttpIngressPath, HeaderMatch}
use net_gateway_api_obsolete.Objects.HttpRoute.{HttpRouteRule, HttpPathMatch, HttpHeaderMatch}
use net_gateway_api_obsolete.Libraries.{Libraries}
use net_gateway_api_obsolete.Resources.Prefixes.{LiteralPrefix, IsPlain, PrefixLaws}
use net_gateway_api_obsolete.Resources.{exact_headers, match_headers, path_prefix, make_path_rule}

pub record Request : Type 0 where
  pub host : String
  pub path : String
  pub header : String → Option String

module _ (PrefixMatches : String → String → Type 0) where
  -- The gateway API: a rule takes a request that one of its matches takes, and a match, one that its
  -- path and its headers take. An absent part takes all.
  abbrev pub PathTakes : Request → Option HttpPathMatch → Type 0
  PathTakes r none = Unit
  PathTakes r (some m) =
      (m.type ≡ some "Prefix") × ((v : String) × (m.value ≡ some v) × PrefixMatches v r.path)

  abbrev pub HeadersTake : Request → Option HttpHeaderMatch → Type 0
  HeadersTake r none = Unit
  HeadersTake r (some m) =
      (m.type ≡ some "Exact") × ((k v : String) → lookup k m.values ≡ some v → r.header k ≡ some v)

  abbrev pub RuleTakes : Request → HttpRouteRule → Type 0
  RuleTakes r rule = Any (λ m. PathTakes r m.path × HeadersTake r m.headers) rule.matches

-- The ingress: an unspecified path catches all, another is a literal prefix, and each header has the
-- value of its match.
abbrev pub IngressPrefix : Request → String → Type 0
IngressPrefix r path = (path ≡ "") ⊎ LiteralPrefix path r.path

abbrev pub IngressHeaders : Request → Option (Map HeaderMatch) → Type 0
IngressHeaders r none = Unit
IngressHeaders r (some headers) =
    (k : String) (m : HeaderMatch) → lookup k headers ≡ some m → r.header k ≡ some m.exact

abbrev pub IngressTakes : Request → HttpIngressPath → Type 0
IngressTakes r path = IngressPrefix r path.path × IngressHeaders r path.headers

abbrev exact : HeaderMatch → String
exact m = m.exact

lookup-exact_headers :
    (k : String) (m : Map HeaderMatch) (out : Map String)
    → IsMap m
    → lookup k (exact_headers m out) ≡ or_else (Option.map exact (lookup k m)) (lookup k out)
unfolding exact_headers lookup
lookup-exact_headers k [] out u = refl
lookup-exact_headers k ((j, v) ∷ m) out u = ground (
  arith,
  eq_iff j k,
  lookup-insert j k v.exact out,
  lookup-exact_headers k m (insert j v.exact out) u.1,
)

or_else-none : (o : Option String) → or_else o none ≡ o
or_else-none none = refl
or_else-none (some v) = refl

lookup-exact :
    (k : String) (m : Map HeaderMatch)
    → IsMap m
    → lookup k (exact_headers m []) ≡ Option.map exact (lookup k m)
unfolding lookup
lookup-exact k m u = lookup-exact_headers k m [] u ∙ or_else-none _

-- The headers of a map and of its copy are the same conditions.
abbrev pub UniqueHeaders : Option (Map HeaderMatch) → Type 0
UniqueHeaders none = Unit
UniqueHeaders (some m) = IsMap m

map-some :
    (o : Option HeaderMatch) {v : String}
    → Option.map exact o ≡ some v
    → (m : HeaderMatch) × (o ≡ some m) × (m.exact ≡ v)
map-some none h = cc
map-some (some m) h = (m, refl, ground arith)

is_plain : (path : String) → (path == "") ≡ false → (path ≡ "") ⊎ IsPlain path → IsPlain path
is_plain path n (inl e) = absurd (ground (arith, n, e, eq_iff path ""))
is_plain path n (inr plain) = plain

is_prefix :
    (r : Request) (path : String)
    → (path == "") ≡ false
    → IngressPrefix r path
    → LiteralPrefix path r.path
is_prefix r path n (inl e) = absurd (ground (arith, n, e, eq_iff path ""))
is_prefix r path n (inr h) = h

module _ (PrefixMatches : String → String → Type 0) (r : Request) where
  headers_taken :
      (headers : Option (Map HeaderMatch))
      → UniqueHeaders headers
      → IngressHeaders r headers
      → HeadersTake PrefixMatches r (match_headers headers)
  headers_taken none u h = tt
  headers_taken (some headers) u h = (refl, λ k v p. value k v (rw lookup-exact at p))
    where
      value : (k v : String) → Option.map exact (lookup k headers) ≡ some v → r.header k ≡ some v
      value k v p = let (m, q, e) = map-some (lookup k headers) p in h k m q ∙ ap some e

  headers_asked :
      (headers : Option (Map HeaderMatch))
      → UniqueHeaders headers
      → HeadersTake PrefixMatches r (match_headers headers)
      → IngressHeaders r headers
  headers_asked none u h = tt
  headers_asked (some headers) u h =
      λ k m p. h.1 k m.exact (lookup-exact k headers u ∙ ap (Option.map exact) p)

  module _ (laws : PrefixLaws PrefixMatches) (rooted : LiteralPrefix "/" r.path) where
    prefix_taken :
        (path : String)
        → (path ≡ "") ⊎ IsPlain path
        → IngressPrefix r path
        → PrefixMatches (path_prefix path) r.path
    prefix_taken path plain h = elim (Bool-cases (path == "")) [
      | inl e ↦ rw e ((laws.plain "/" r.path (inl refl)).1 rooted)
      | inr n ↦ rw n ((laws.plain path r.path (is_plain path n plain)).1 (is_prefix r path n h))
    ]

    prefix_asked :
        (path : String)
        → (path ≡ "") ⊎ IsPlain path
        → PrefixMatches (path_prefix path) r.path
        → IngressPrefix r path
    prefix_asked path plain h = elim (Bool-cases (path == "")) [
      | inl e ↦ inl ((eq_iff path "").0 e)
      | inr n ↦ inr ((laws.plain path r.path (is_plain path n plain)).0 (rw n at h))
    ]

    -- The rule that is made for an ingress path takes the requests that the path takes, and no others,
    -- where the path is not given or does not end in '/', or is the root. The request's path begins
    -- with '/', and the path's headers are a map.
    pub make_path_rule_takes :
        (lib : Libraries) (path : HttpIngressPath)
        → (path.path ≡ "") ⊎ IsPlain path.path
        → UniqueHeaders path.headers
        → RuleTakes PrefixMatches r (make_path_rule lib path) ↔ IngressTakes r path
    unfolding make_path_rule
    make_path_rule_takes lib path plain u = (asked, taken)
      where
        asked : RuleTakes PrefixMatches r (make_path_rule lib path) → IngressTakes r path
        asked (inl ((e, (v, q, h)), hs)) =
            let same : path_prefix path.path ≡ v = cc in
            (prefix_asked path.path plain (rw same h), headers_asked path.headers u hs)
        asked (inr none_left) = absurd none_left

        taken : IngressTakes r path → RuleTakes PrefixMatches r (make_path_rule lib path)
        taken t = inl (
          (refl, (path_prefix path.path, refl, prefix_taken path.path plain t.0)),
          headers_taken path.headers u t.1,
        )
