-- ===== src/Resources/Names.antt =====
-- `LongestHost` of pkg/reconciler/ingress/resources/helpers.go, which names the HTTPRoute of a rule.
use mathlib.Core.Bool.{Bool-set}
use mathlib.Core.Logic.Or
use mathlib.Core.List.{Mem, Perm, mem-cons, mem-cons_self, not-mem-nil}
use mathlib.Core.List.Perm
use Prim.Native.String.{len}
use net_gateway_api_obsolete.Prelude.{
  String, ◌≡◌, ◌↔◌, ◌≢◌, refl, ap, ◌∙◌, ◌<◌, true, List, [], ◌∷◌, str_leb, str_leb_refl,
  str_leb_antisym,
}
use net_gateway_api_obsolete.Prelude.Outcome.{ok, panic}
use net_gateway_api_obsolete.Hosts.{
  LeAll, IsSorted, sort_strings, sort_strings-IsSorted, sort_strings-perm, sort_strings-of_perm,
  sort_strings-cons,
}
use net_gateway_api_obsolete.Resources.{longest_host, first_host}

LeAll-mem :
    (x : String) {y : String} (ys : List String) → LeAll x ys → Mem y ys → str_leb x y ≡ true
LeAll-mem x [] a m = absurd (not-mem-nil m)
LeAll-mem x (z ∷ zs) a m =
    Or.elim (Bool-set _ _) (mem-cons.0 m) (λ e. rw e a.0) (LeAll-mem x zs a.1)

-- What the call promises of the name and of the slice that it leaves to its caller.
pub record IsNamed (hosts : List String) (name : String) (sorted : List String) : Type 0 where
  pub host : Mem name hosts
  pub first : LeAll name sorted
  pub sorted_hosts : IsSorted sorted
  pub same_hosts : Perm sorted hosts

first_host-IsNamed :
    (hosts s : List String) {name : String} {sorted : List String}
    → IsSorted s
    → Perm s hosts
    → first_host s ≡ ok (name, sorted)
    → IsNamed hosts name sorted
first_host-IsNamed hosts [] k p h = cc
first_host-IsNamed hosts (x ∷ xs) {name} {sorted} k p h =
    let e : x ≡ name = cc in
    let f : x ∷ xs ≡ sorted = cc in
    rw (← e, ← f)
      (record {
        host = (Perm.mem_iff p).0 mem-cons_self;
        first = (str_leb_refl x, k.0);
        sorted_hosts = k;
        same_hosts = p;
      })

-- Where the call returns, the name is one of the hosts, and none comes before it in the alphabet; the
-- caller's slice holds the same hosts in alphabetical order.
pub longest_host-IsNamed :
    (hosts : List String) {name : String} {sorted : List String}
    → longest_host hosts ≡ ok (name, sorted)
    → IsNamed hosts name sorted
unfolding longest_host
longest_host-IsNamed hosts h =
    first_host-IsNamed hosts _ (sort_strings-IsSorted hosts) (sort_strings-perm hosts) h

-- A rule whose hosts come in another order has the same name and leaves the same slice.
pub longest_host-perm : {xs ys : List String} → Perm xs ys → longest_host xs ≡ longest_host ys
unfolding longest_host
longest_host-perm p = ap first_host (sort_strings-of_perm p)

first_host-alphabetical :
    (hosts s : List String) (x : String)
    → IsSorted s
    → Perm s hosts
    → Mem x hosts
    → LeAll x hosts
    → first_host s ≡ ok (x, s)
first_host-alphabetical hosts [] x k p m a = absurd (not-mem-nil ((Perm.mem_iff p).1 m))
first_host-alphabetical hosts (z ∷ zs) x k p m a =
    let below = LeAll-mem z (z ∷ zs) (str_leb_refl z, k.0) ((Perm.mem_iff p).1 m) in
    let above = LeAll-mem x hosts a ((Perm.mem_iff p).0 mem-cons_self) in
    ap (λ (w : String). ok (w, z ∷ zs)) (str_leb_antisym z x below above)

-- The call panics on a rule with no host, and on no other.
longest_host_panics : (hosts : List String) → (longest_host hosts ≡ panic) ↔ (hosts ≡ [])
unfolding longest_host
longest_host_panics [] = (λ h. refl, λ h. unfold sort_strings in refl)
longest_host_panics (x ∷ xs) =
    let (y, ys, e) = sort_strings-cons x xs in (λ h. cc (ap first_host e), λ h. cc)

pub longest_host_total :
    (hosts : List String)
    → hosts ≢ []
    → (name : String) × (sorted : List String) × (longest_host hosts ≡ ok (name, sorted))
unfolding longest_host
longest_host_total [] h = absurd (h refl)
longest_host_total (x ∷ xs) h =
    let (y, ys, e) = sort_strings-cons x xs in (y, y ∷ ys, ap first_host e)

-- The second call in one reconciliation returns the name of the first and moves no host.
pub longest_host_again :
    (hosts : List String) {name : String} {sorted : List String}
    → longest_host hosts ≡ ok (name, sorted)
    → longest_host sorted ≡ ok (name, sorted)
longest_host_again hosts {name} {sorted} h =
    longest_host-perm (longest_host-IsNamed hosts h).same_hosts ∙ h

-- Where the alphabetical first of the hosts is shorter than another of them, the call returns a name
-- that is shorter than that other host.
pub longest_host_shorter :
    (hosts : List String) {x y : String}
    → Mem x hosts
    → LeAll x hosts
    → Mem y hosts
    → len x < len y
    → (name : String) × (sorted : List String) × (longest_host hosts ≡ ok (name, sorted))
      × (len name < len y)
unfolding longest_host
longest_host_shorter hosts {x} m a n h = (
  x,
  sort_strings hosts,
  first_host-alphabetical hosts _ x (sort_strings-IsSorted hosts) (sort_strings-perm hosts) m a,
  h,
)

first_host-rest :
    (s : List String) {name : String} {rest : List String}
    → first_host s ≡ ok (name, rest)
    → rest ≡ s
first_host-rest [] h = cc
first_host-rest (x ∷ xs) h = cc

-- The slice that is left to the caller is the sorted one.
pub longest_host-sorted :
    (hosts : List String) {name : String} {sorted : List String}
    → longest_host hosts ≡ ok (name, sorted)
    → sorted ≡ sort_strings hosts
unfolding longest_host
longest_host-sorted hosts h = first_host-rest (sort_strings hosts) h
