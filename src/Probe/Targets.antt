-- ===== src/Probe/Targets.antt =====
-- What is probed: `ListProbeTargets` of pkg/reconciler/ingress/lister.go against the rules of the ingress
-- and the pods that the endpoints list.
use net_gateway_api_obsolete.Prelude.{
  String, ◌≡◌, ◌≢◌, ◌↔◌, ◌⊎◌, inl, inr, refl, Bool, true, false, List, [], ◌∷◌, ◌++◌, Any, ◌==◌,
  eq_iff, Bool-cases,
}
use net_gateway_api_obsolete.Prelude.Outcome.{Outcome, ok}
use net_gateway_api_obsolete.Objects.{EndpointAddress, EndpointSubset, Endpoints}
use net_gateway_api_obsolete.Objects.Ingress.{
  IngressRule, IngressSpec, IngressVisibility, HttpOption, visibility_external_ip,
  visibility_cluster_local, http_option_redirected,
}
use net_gateway_api_obsolete.Libraries.{Libraries, MetaNamespaceKey}
use net_gateway_api_obsolete.Config.{Gateway, lookup_service}
use net_gateway_api_obsolete.Config.Context.{Context}
use net_gateway_api_obsolete.Resources.{gateway_config}
use net_gateway_api_obsolete.Resources.Forwards.{Pairs}
use net_gateway_api_obsolete.Probe.{
  Url, ProbeTarget, domains_to_url, subset_ips, ready_ips, rule_target, rule_targets,
  get_ingress_urls, targets_of, list_probe_targets,
}

-- Which port a rule is probed on, and by which scheme.
pub data Listens (http_option : HttpOption) (visibility : IngressVisibility) (port scheme : String)
    : Type 0 where
  redirected :
      visibility ≡ visibility_external_ip
      → http_option ≡ http_option_redirected
      → port ≡ "8443"
      → scheme ≡ "https"
      → Listens http_option visibility port scheme
  external :
      visibility ≡ visibility_external_ip
      → http_option ≢ http_option_redirected
      → port ≡ "8080"
      → scheme ≡ "http"
      → Listens http_option visibility port scheme
  internal :
      visibility ≢ visibility_external_ip
      → port ≡ "8081"
      → scheme ≡ "http"
      → Listens http_option visibility port scheme

pub record UrlOf (scheme host : String) (url : Url) : Type 0 where
  pub scheme_eq : url.scheme ≡ scheme
  pub host_eq : url.host ≡ host
  pub path_eq : url.path ≡ "/"

pub record TargetOf {Set : Type 0} (ips : Set) (http_option : HttpOption) (rule : IngressRule)
    (target : ProbeTarget Set) : Type 0 where
  pub pods : target.pod_ips ≡ ips
  pub scheme : String
  pub listens : Listens http_option rule.visibility target.pod_port scheme
  pub urls : Pairs (UrlOf scheme) rule.hosts target.urls

UrlOf-domains_to_url :
    (scheme : String) (hosts : List String)
    → Pairs (UrlOf scheme) hosts (domains_to_url hosts scheme)
unfolding domains_to_url
UrlOf-domains_to_url scheme [] = tt
UrlOf-domains_to_url scheme (h ∷ hs) =
    (record { scheme_eq = refl; host_eq = refl; path_eq = refl }, UrlOf-domains_to_url scheme hs)

-- The address of some pod of the endpoints.
abbrev pub IsPodIp : Endpoints → String → Type 0
IsPodIp eps ip = Any (λ s. Any (λ a. a.ip ≡ ip) s.addresses) eps.subsets

abbrev Holds : List String → String → Type 0
Holds ips ip = Any (λ x. x ≡ ip) ips

differs : (s t : String) → (s == t) ≡ false → s ≢ t
differs s t h e = cc ((eq_iff s t).1 e)

or_map : {A B C D : Type 0} → (A → C) → (B → D) → A ⊎ B → C ⊎ D
or_map f g (inl a) = inl (f a)
or_map f g (inr b) = inr (g b)

or_assoc : {A B C : Type 0} → A ⊎ (B ⊎ C) → (A ⊎ B) ⊎ C
or_assoc (inl a) = inl (inl a)
or_assoc (inr (inl b)) = inl (inr b)
or_assoc (inr (inr c)) = inr c

or_assoc_back : {A B C : Type 0} → (A ⊎ B) ⊎ C → A ⊎ (B ⊎ C)
or_assoc_back (inl (inl a)) = inl a
or_assoc_back (inl (inr b)) = inr (inl b)
or_assoc_back (inr c) = inr (inr c)

Any-append :
    (xs ys : List String) (ip : String) → Any (λ x. x ≡ ip) (xs ++ ys) ↔ (Holds xs ip ⊎ Holds ys ip)
Any-append [] ys ip = (λ h. inr h, λ h. elim h [ inl n ↦ absurd n | inr k ↦ k ])
Any-append (x ∷ xs) ys ip =
    let ih = Any-append xs ys ip in
    (λ h. or_assoc (or_map (λ e. e) ih.0 h), λ h. or_map (λ e. e) ih.1 (or_assoc_back h))

Holds-subset_ips :
    (addresses : List EndpointAddress) (ip : String)
    → Holds (subset_ips addresses) ip ↔ Any (λ a. a.ip ≡ ip) addresses
unfolding subset_ips
Holds-subset_ips [] ip = (λ h. h, λ h. h)
Holds-subset_ips (a ∷ addresses) ip =
    let ih = Holds-subset_ips addresses ip in (or_map (λ e. e) ih.0, or_map (λ e. e) ih.1)

Holds-ready_ips :
    (subsets : List EndpointSubset) (ip : String)
    → Holds (ready_ips subsets) ip ↔ Any (λ s. Any (λ a. a.ip ≡ ip) s.addresses) subsets
unfolding ready_ips
Holds-ready_ips [] ip = (λ h. h, λ h. h)
Holds-ready_ips (s ∷ subsets) ip =
    let first = Holds-subset_ips s.addresses ip in
    let rest = Holds-ready_ips subsets ip in
    let both = Any-append (subset_ips s.addresses) (ready_ips subsets) ip in
    (λ h. or_map first.0 rest.0 (both.0 h), λ h. both.1 (or_map first.1 rest.1 h))

-- The key of the service whose endpoints are probed.
abbrev pub internal_key : Libraries → Gateway → MetaNamespaceKey
internal_key lib gateway =
    lib.split_meta_namespace_key (lookup_service gateway visibility_cluster_local)

module _ {Set : Type 0} (new_string_set : List String → Set) where
  rule_target-TargetOf :
      (ips : Set) (http_option : HttpOption) (rule : IngressRule)
      → TargetOf ips http_option rule (rule_target new_string_set ips http_option rule)
  unfolding rule_target
  rule_target-TargetOf ips http_option rule =
      elim (Bool-cases (rule.visibility == visibility_external_ip)) [
        | inl out ↦ elim (Bool-cases (http_option == http_option_redirected)) [
          | inl red ↦
              rw (out, red)
                (record {
                  pods = refl;
                  scheme = "https";
                  listens = redirected ((eq_iff _ _).0 out) ((eq_iff _ _).0 red) refl refl;
                  urls = UrlOf-domains_to_url "https" rule.hosts;
                })
          | inr plain ↦
              rw (out, plain)
                (record {
                  pods = refl;
                  scheme = "http";
                  listens = external ((eq_iff _ _).0 out) (differs http_option _ plain) refl refl;
                  urls = UrlOf-domains_to_url "http" rule.hosts;
                })
        ]
        | inr inside ↦ rw inside (record {
          pods = refl;
          scheme = "http";
          listens = internal (differs rule.visibility _ inside) refl refl;
          urls = UrlOf-domains_to_url "http" rule.hosts;
        })
      ]

  rule_targets-TargetOf :
      (ips : Set) (http_option : HttpOption) (rules : List IngressRule)
      → Pairs (TargetOf ips http_option) rules (rule_targets new_string_set ips http_option rules)
  unfolding rule_targets
  rule_targets-TargetOf ips http_option [] = tt
  rule_targets-TargetOf ips http_option (rule ∷ rules) =
      (rule_target-TargetOf ips http_option rule, rule_targets-TargetOf ips http_option rules)

  targets_of_some :
      (spec : IngressSpec) (ips : List String) (ip : String)
      → Holds ips ip
      → targets_of new_string_set spec ips
        ≡ ok (rule_targets new_string_set (new_string_set ips) spec.http_option spec.rules)
  unfolding get_ingress_urls
  targets_of_some spec [] ip h = absurd h
  targets_of_some spec (x ∷ xs) ip h = refl

  module _ (lib : Libraries) {Network : Type 0} (ctx : Context Network)
      (get_endpoints : String → String → Outcome Endpoints) {gateway : Gateway}
      (configured : gateway_config lib ctx ≡ ok gateway) where
    -- Where the endpoints of the internal service are found and list a pod, every rule has its target,
    -- in order: the URLs of its hosts, the port and the scheme of its visibility, and the set of all
    -- pods that the endpoints list. `has` is the membership test of the library's sets.
    pub list_probe_targets-TargetOf :
        (has : Set → String → Bool) (spec : IngressSpec) {eps : Endpoints} (ip : String)
        → ((xs : List String) (x : String)
            → (has (new_string_set xs) x ≡ true) ↔ Any (λ y. y ≡ x) xs)
        → get_endpoints (internal_key lib gateway).namespace (internal_key lib gateway).name
          ≡ ok eps
        → IsPodIp eps ip
        → (targets : List (ProbeTarget Set)) × (ips : Set) × (list_probe_targets new_string_set lib
              ctx get_endpoints spec
            ≡ ok targets)
          × Pairs (TargetOf ips spec.http_option) spec.rules targets
          × ((x : String) → (has ips x ≡ true) ↔ IsPodIp eps x)
    unfolding list_probe_targets
    list_probe_targets-TargetOf has spec {eps} ip members found pod =
        let ips = new_string_set (ready_ips eps.subsets) in
        (
          rule_targets new_string_set ips spec.http_option spec.rules,
          ips,
          rw configured
              (rw found (targets_of_some spec _ ip ((Holds-ready_ips eps.subsets ip).1 pod))),
          rule_targets-TargetOf ips spec.http_option spec.rules,
          λ x. (
            λ h. (Holds-ready_ips eps.subsets x).0 ((members _ x).0 h),
            λ h. (members _ x).1 ((Holds-ready_ips eps.subsets x).1 h),
          ),
        )
