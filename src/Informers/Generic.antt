-- ===== src/Informers/Generic.antt =====
-- `ForResource`, pkg/client/gatewayapi/informers/externalversions/generic.go, and what it answers beside
-- the typed accessors.
use net_gateway_api_obsolete.Prelude.{
  Bool, ◌==◌, ◌&&◌, String, ◌≡◌, ◌≢◌, ◌⊎◌, refl, sym, ap, ◌∙◌, true, Option, none, some, [], ◌∷◌,
  arith, eq_iff, if◌then◌else◌, Bool-cases, inl, inr, Option-cases,
}
use net_gateway_api_obsolete.Prelude.Outcome.{errorf, ok, err}
use net_gateway_api_obsolete.Objects.{ObjectMeta}
use net_gateway_api_obsolete.Informers.{SharedInformerFactory, SharedIndexInformer}
use net_gateway_api_obsolete.Prelude.Action.{Action}
use net_gateway_api_obsolete.Informers.Resources.{
  Accessor, backend_policies, gateways, gateway_classes, http_routes, tcp_routes, tls_routes,
  udp_routes, informer_of,
}
use net_gateway_api_obsolete.Informers.Scopes.{scope_of}

pub record GroupVersionResource : Type 0 where
  pub group : String
  pub version : String
  pub resource : String

pub record GroupResource : Type 0 where
  pub group : String
  pub resource : String

-- `genericInformer`
pub record GenericInformer (Object : Type 0) : Type 0 where
  pub informer : SharedIndexInformer Object
  pub resource : GroupResource

-- `v1alpha1.SchemeGroupVersion`
abbrev pub group_name : String
group_name = "networking.x-k8s.io"

abbrev pub version_name : String
version_name = "v1alpha1"

-- `case v1alpha1.SchemeGroupVersion.WithResource(name)`
abbrev pub is_resource : GroupVersionResource → String → Bool
is_resource gvr name =
    (gvr.group == group_name) && ((gvr.version == version_name) && (gvr.resource == name))

-- the cases of the switch
unfoldable pub accessor_for : GroupVersionResource → Option Accessor
accessor_for gvr =
    if is_resource gvr "backendpolicies"
    then some backend_policies
    else if is_resource gvr "gateways"
    then some gateways
    else if is_resource gvr "gatewayclasses"
    then some gateway_classes
    else if is_resource gvr "httproutes"
    then some http_routes
    else if is_resource gvr "tcproutes"
    then some tcp_routes
    else if is_resource gvr "tlsroutes"
    then some tls_routes
    else if is_resource gvr "udproutes"
    then some udp_routes
    else none

module _ {Object : Type 0} (meta : Object → ObjectMeta) where
  abbrev pub generic_of :
      GroupVersionResource
      → Option Accessor
      → Action (SharedInformerFactory Object) (GenericInformer Object)
  generic_of gvr none f =
      (err (errorf "no informer found for %v" (gvr.group ∷ gvr.version ∷ gvr.resource ∷ [])), f)
  generic_of gvr (some accessor) f =
      let (informer, g) = informer_of meta accessor f in
      (
        ok (record {
          informer = informer;
          resource = record { group = gvr.group; resource = gvr.resource };
        }),
        g,
      )

  -- `ForResource`
  unfoldable pub for_resource :
      GroupVersionResource → Action (SharedInformerFactory Object) (GenericInformer Object)
  unfolding accessor_for informer_of
  for_resource gvr f = generic_of gvr (accessor_for gvr) f

-- The resource that an accessor's informer lists, in the package's group and version.
abbrev pub gvr_of : Accessor → GroupVersionResource
gvr_of a = record {
  group = group_name;
  version = version_name;
  resource = (scope_of a "").resource;
}

is_resource-eq :
    (gvr : GroupVersionResource) (name : String)
    → is_resource gvr name ≡ true
    → gvr ≡ record { group = group_name; version = version_name; resource = name }
is_resource-eq gvr name h =
    ground (
      arith,
      eq_iff gvr.group group_name,
      eq_iff gvr.version version_name,
      eq_iff gvr.resource name,
    )

accessor_for-gvr_of : (a : Accessor) → accessor_for (gvr_of a) ≡ some a
unfolding accessor_for
accessor_for-gvr_of backend_policies = refl
accessor_for-gvr_of gateways = refl
accessor_for-gvr_of gateway_classes = refl
accessor_for-gvr_of http_routes = refl
accessor_for-gvr_of tcp_routes = refl
accessor_for-gvr_of tls_routes = refl
accessor_for-gvr_of udp_routes = refl

-- one case of the switch
switch-eq :
    (gvr : GroupVersionResource) (b : Accessor) (rest : Option Accessor) {a : Accessor}
    → (rest ≡ some a → gvr ≡ gvr_of a)
    → (if is_resource gvr (scope_of b "").resource then some b else rest) ≡ some a
    → gvr ≡ gvr_of a
switch-eq gvr b rest {a} later h = elim (Bool-cases (is_resource gvr (scope_of b "").resource)) [
  | inl e ↦
      let same : b ≡ a = some_eq (rw e at h) in
      is_resource-eq gvr (scope_of b "").resource e ∙ ap gvr_of same
  | inr n ↦ later (rw n at h)
]
  where
    some_eq : some b ≡ some a → b ≡ a
    some_eq h = cc

accessor_for-eq :
    (gvr : GroupVersionResource) {a : Accessor} → accessor_for gvr ≡ some a → gvr ≡ gvr_of a
unfolding accessor_for
accessor_for-eq gvr = switch-eq gvr backend_policies _ (
    switch-eq gvr gateways _ (
      switch-eq gvr gateway_classes _ (
        switch-eq gvr http_routes _ (
          switch-eq gvr tcp_routes _
            (switch-eq gvr tls_routes _ (switch-eq gvr udp_routes none (λ h. cc)))))))

module _ {Object : Type 0} (meta : Object → ObjectMeta) where
  -- Asked for a resource, the factory either knows it as the resource of one of its seven accessors, in
  -- the package's group and version, and answers what that accessor's `Informer` returns, with the group
  -- and the resource that were asked for, and it has changed as by that call; or the resource is of no
  -- accessor, and the call is an error that leaves the factory as it was.
  pub for_resource-informer_of :
      (gvr : GroupVersionResource) (f : SharedInformerFactory Object)
      → ((a : Accessor) × (gvr ≡ gvr_of a)
          × (for_resource meta gvr f ≡ (
            ok (record {
              informer = (informer_of meta a f).0;
              resource = record { group = gvr.group; resource = gvr.resource };
            }),
            (informer_of meta a f).1,
          )))
        ⊎ (((a : Accessor) → gvr ≢ gvr_of a)
            × (for_resource meta gvr f ≡ (
              err (errorf "no informer found for %v" (gvr.group ∷ gvr.version ∷ gvr.resource ∷ [])),
              f,
            )))
  unfolding for_resource
  for_resource-informer_of gvr f = elim (Option-cases (accessor_for gvr)) [
    | inl missing ↦ inr (
      λ a e. none_or a (sym (accessor_for-gvr_of a) ∙ ap accessor_for (sym e) ∙ missing),
      ap (λ o. generic_of meta gvr o f) missing,
    )
    | inr (a, found) ↦ inl (a, accessor_for-eq gvr found, ap (λ o. generic_of meta gvr o f) found)
  ]
    where
      none_or : (a : Accessor) → some a ≢ none
      none_or a h = cc
