-- ===== src/Resources/Forwards.antt =====
-- The traffic that an HTTPRoute forwards, against the splits and the headers of the ingress path.
use net_gateway_api_obsolete.Prelude.{
  ℕ, ◌^◌, ◌<◌, String, ◌≡◌, refl, ap, ◌∙◌, Option, none, some, List, [], ◌∷◌, All, arith, ◌==◌,
  ◌||◌, if◌then◌else◌, Bool-cases, inl, inr,
}
use net_gateway_api_obsolete.GoMap.{lookup, IsMap, or_else}
use net_gateway_api_obsolete.Objects.Ingress.{IngressBackendSplit}
use net_gateway_api_obsolete.Objects.HttpRoute.{
  HttpRouteFilter, HttpRequestHeaderFilter, HttpRouteForwardTo,
}
use net_gateway_api_obsolete.Libraries.{Libraries, KmetaLaws}
use net_gateway_api_obsolete.Resources.{int32, host_headers, make_forwards}

abbrev modified : Option HttpRequestHeaderFilter → String → Option String
modified none k = none
modified (some f) k = lookup k f.set_headers

-- The value that a filter sets for a header, where its type is the one that sets headers.
abbrev set_at : HttpRouteFilter → String → Option String
set_at f k =
    if f.type == "RequestHeaderModifier" then modified f.request_header_modifier k else none

-- The value that a list of filters leaves at a header: a later filter overrides an earlier one.
abbrev pub set_by : List HttpRouteFilter → String → Option String
set_by [] k = none
set_by (f ∷ fs) k = or_else (set_by fs k) (set_at f k)

-- A split within the bounds of int32, whose headers are a map.
pub record IsValidSplit (lib : Libraries) (split : IngressBackendSplit) : Type 0 where
  pub percent : split.percent < 2 ^ 31
  pub port : lib.int_value split.service_port < 2 ^ 31
  pub headers : IsMap split.append_headers

-- What the ingress asks to be set on a request of a split: the rewritten host under both of its
-- names, and else the split's own headers.
abbrev pub asked_header : String → IngressBackendSplit → String → Option String
asked_header rewrite_host split k =
    if rewrite_host == ""
    then lookup k split.append_headers
    else if "Host" == k || ":Authority" == k
    then some rewrite_host
    else lookup k split.append_headers

-- A forward is its split's: the service, the port, the share of the traffic, the headers.
pub record ForwardOf (lib : Libraries) (rewrite_host : String) (split : IngressBackendSplit)
    (forward : HttpRouteForwardTo) : Type 0 where
  pub service : forward.service_name ≡ some split.service_name
  pub port : forward.port ≡ some (lib.int_value split.service_port)
  pub weight : forward.weight ≡ some split.percent
  pub headers : (k : String) → set_by forward.filters k ≡ asked_header rewrite_host split k

-- The relation holds between the elements at each place, and the lists are equally long.
abbrev pub Pairs : {A B : Type 0} → (A → B → Type 0) → List A → List B → Type 0
Pairs R [] [] = Unit
Pairs R [] (y ∷ ys) = ⊥
Pairs R (x ∷ xs) [] = ⊥
Pairs R (x ∷ xs) (y ∷ ys) = R x y × Pairs R xs ys

int32_small : (n : ℕ) → n < 2 ^ 31 → int32 n ≡ n
unfolding int32
int32_small n h = omega arith

host_headers-IsMap : (rewrite_host : String) → IsMap (host_headers rewrite_host)
unfolding lookup
host_headers-IsMap rewrite_host = elim (Bool-cases (rewrite_host == "")) [
  | inl e ↦ rw e tt
  | inr n ↦ rw n (refl, (refl, tt))
]

overridden :
    (rewrite_host : String) (split : IngressBackendSplit) (k : String)
    → or_else (lookup k (host_headers rewrite_host)) (lookup k split.append_headers)
      ≡ asked_header rewrite_host split k
unfolding lookup
overridden rewrite_host split k = ground arith

module _ (lib : Libraries) (laws : KmetaLaws lib) (rewrite_host : String) where
  -- Every split within the bounds of int32 is given its forward, in order: the service, the port, the
  -- weight, and the headers, where the rewritten host comes before the split's own. The libraries'
  -- maps keep their laws.
  pub make_forwards-ForwardOf :
      (splits : List IngressBackendSplit)
      → All (IsValidSplit lib) splits
      → Pairs
          (ForwardOf lib rewrite_host)
          splits
          (make_forwards lib (host_headers rewrite_host) splits)
  unfolding make_forwards
  make_forwards-ForwardOf [] v = tt
  make_forwards-ForwardOf (split ∷ splits) v = (
    record {
      service = refl;
      port = ap some (int32_small _ v.0.port);
      weight = ap some (int32_small _ v.0.percent);
      headers = λ k.
          laws.lookup-union_maps k split.append_headers (host_headers rewrite_host) v.0.headers
            (host_headers-IsMap rewrite_host)
          ∙ overridden rewrite_host split k;
    },
    make_forwards-ForwardOf splits v.1,
  )
