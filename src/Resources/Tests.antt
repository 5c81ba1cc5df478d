-- ===== src/Resources/Tests.antt =====
-- The theorems on the HTTPRoute of a rule, at the sample rule.
use mathlib.Core.List.{mem-cons_self, mem-cons_of_mem}
use mathlib.Core.List.Perm
use Prim.Native.String.{len, ◌++◌}
use net_gateway_api_obsolete.Prelude.{
  String, ◌≡◌, ◌≢◌, ◌⊎◌, refl, List, [], ◌∷◌, ◌<◌, none, All, arith,
}
use net_gateway_api_obsolete.Prelude.Outcome.{ok}
use net_gateway_api_obsolete.Hosts.{sort_strings, insert_string}
use net_gateway_api_obsolete.GoMap.{lookup}
use net_gateway_api_obsolete.Objects.HttpRoute.{HttpRoute, HttpRouteForwardTo}
use net_gateway_api_obsolete.Samples.{lib, lib_laws, path}
use net_gateway_api_obsolete.Resources.{longest_host, make_forwards, host_headers}
use net_gateway_api_obsolete.Resources.Names.{
  IsNamed, longest_host-IsNamed, longest_host-perm, longest_host_shorter,
}
use net_gateway_api_obsolete.Resources.Prefixes.{LiteralPrefix}
use net_gateway_api_obsolete.Resources.Matching.{Request}
use net_gateway_api_obsolete.Resources.Forwards.{
  IsValidSplit, Pairs, ForwardOf, make_forwards-ForwardOf,
}
use net_gateway_api_obsolete.Samples.Routes.{sorted}
use net_gateway_api_obsolete.Samples.Cluster.{start}

named : longest_host ("b" ∷ "a" ∷ []) ≡ ok ("a", "a" ∷ "b" ∷ [])
unfolding longest_host sort_strings insert_string
named = refl

longest_host-IsNamed_example : IsNamed ("b" ∷ "a" ∷ []) "a" ("a" ∷ "b" ∷ [])
longest_host-IsNamed_example = longest_host-IsNamed ("b" ∷ "a" ∷ []) named

longest_host-perm_example : longest_host ("b" ∷ "a" ∷ []) ≡ longest_host ("a" ∷ "b" ∷ [])
longest_host-perm_example = longest_host-perm (Perm.swap "a" "b" [])

abbrev no_hosts : List String
no_hosts = []

longest_host_shorter_example :
    (name : String) × (sorted : List String) × (longest_host ("a" ∷ "bb" ∷ []) ≡ ok (name, sorted))
    × (len name < len "bb")
longest_host_shorter_example =
    longest_host_shorter ("a" ∷ "bb" ∷ []) {x = "a"} {y = "bb"} mem-cons_self (refl, (refl, tt))
      (mem-cons_of_mem "a" mem-cons_self) (omega arith)

-- A prefix without the '/' at its end.
abbrev Trimmed : String → String → Type 0
Trimmed v p =
    LiteralPrefix v p ⊎ ((start : String) × (v ≡ start ++ "/") × (v ≢ "/") × LiteralPrefix start p)

-- A host name is matched by itself.
abbrev HasHost : String → String → Type 0
HasHost h host = h ≡ host

abbrev sample_request : Request
sample_request = record { host = "a.example"; path = "/x"; header = λ k. none }

abbrev forwards : List HttpRouteForwardTo
forwards = make_forwards lib (host_headers "inner.example") path.splits

valid_splits : All (IsValidSplit lib) path.splits
unfolding lookup
valid_splits = (
  record { percent = omega arith; port = omega arith; headers = (refl, tt) },
  (record { percent = omega arith; port = omega arith; headers = (refl, tt) }, tt),
)

make_forwards-ForwardOf_example : Pairs (ForwardOf lib "inner.example") path.splits forwards
make_forwards-ForwardOf_example =
    make_forwards-ForwardOf lib lib_laws "inner.example" path.splits valid_splits
