-- ===== src/Resources/Prefixes.antt =====
-- The two tests of a request's path: the ingress's, for which a path is a literal prefix, and the gateway
-- API's for a match of type "Prefix", which ignores a '/' at the end of the match's path.
use Prim.Native.String.{◌++◌}
use net_gateway_api_obsolete.Prelude.{String, ◌≡◌, ◌≢◌, ◌⊎◌, ◌↔◌}

abbrev pub LiteralPrefix : String → String → Type 0
LiteralPrefix prefix path = (rest : String) × (path ≡ prefix ++ rest)

-- A path on which the two tests agree: it does not end in '/', or it is the root.
abbrev pub IsPlain : String → Type 0
IsPlain path = (path ≡ "/") ⊎ ((start : String) → path ≢ start ++ "/")

-- "For prefix paths, a trailing '/' character in the Path is ignored", so that nothing is said of how a
-- path that ends in one compares with the ingress's. On another the test is that of a prefix.
pub record PrefixLaws (PrefixMatches : String → String → Type 0) : Type 0 where
  pub plain :
      (prefix path : String)
      → IsPlain prefix
      → PrefixMatches prefix path ↔ LiteralPrefix prefix path
