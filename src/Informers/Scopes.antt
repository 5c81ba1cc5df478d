-- ===== src/Informers/Scopes.antt =====
-- What the informers of one factory list and watch, whoever asked for them: each its own resource, in the
-- factory's namespace, with the factory's tweak of the options.
use net_gateway_api_obsolete.Prelude.{
  some_injective, ℕ, String, ◌≡◌, refl, sym, ap, ◌∙◌, Option, none, some, ◌==◌, eq_iff,
  if◌then◌else◌, Bool-cases, inl, inr, Option-cases, subst,
}
use net_gateway_api_obsolete.Objects.{ObjectMeta}
use net_gateway_api_obsolete.GoMap.{Map, lookup, insert, lookup-insert}
use net_gateway_api_obsolete.Clients.{
  ListOptions, Scope, list, watch_all, request, backend_policy_request, gateway_request,
  gateway_class_request, http_route_request, tcp_route_request, tls_route_request,
  udp_route_request,
}
use net_gateway_api_obsolete.Informers.{
  TweakListOptions, SharedIndexInformer, SharedInformerFactory, informer_for,
}
use net_gateway_api_obsolete.Informers.Resources.{
  Accessor, backend_policies, gateways, gateway_classes, http_routes, tcp_routes, tls_routes,
  udp_routes, tweaked, namespace_index, listing, informer_of, backend_policy_informer,
  gateway_informer, gateway_class_informer, http_route_informer, tcp_route_informer,
  tls_route_informer, udp_route_informer,
}

-- The type of the objects of an accessor.
abbrev pub type_of : Accessor → String
type_of backend_policies = "BackendPolicy"
type_of gateways = "Gateway"
type_of gateway_classes = "GatewayClass"
type_of http_routes = "HTTPRoute"
type_of tcp_routes = "TCPRoute"
type_of tls_routes = "TLSRoute"
type_of udp_routes = "UDPRoute"

-- The resource of an accessor, in a namespace or in the cluster.
abbrev pub scope_of : Accessor → String → Scope
scope_of backend_policies ns = record { namespace = some ns; resource = "backendpolicies" }
scope_of gateways ns = record { namespace = some ns; resource = "gateways" }
scope_of gateway_classes ns = record { namespace = none; resource = "gatewayclasses" }
scope_of http_routes ns = record { namespace = some ns; resource = "httproutes" }
scope_of tcp_routes ns = record { namespace = some ns; resource = "tcproutes" }
scope_of tls_routes ns = record { namespace = some ns; resource = "tlsroutes" }
scope_of udp_routes ns = record { namespace = some ns; resource = "udproutes" }

-- The accessor of a type.
abbrev of_type : String → Option Accessor
of_type k =
    if k == "BackendPolicy"
    then some backend_policies
    else if k == "Gateway"
    then some gateways
    else if k == "GatewayClass"
    then some gateway_classes
    else if k == "HTTPRoute"
    then some http_routes
    else if k == "TCPRoute"
    then some tcp_routes
    else if k == "TLSRoute"
    then some tls_routes
    else if k == "UDPRoute"
    then some udp_routes
    else none

of_type-type_of : (a : Accessor) → of_type (type_of a) ≡ some a
of_type-type_of backend_policies = refl
of_type-type_of gateways = refl
of_type-type_of gateway_classes = refl
of_type-type_of http_routes = refl
of_type-type_of tcp_routes = refl
of_type-type_of tls_routes = refl
of_type-type_of udp_routes = refl

module _ {Object : Type 0} (meta : Object → ObjectMeta) where
  -- An informer that lists and watches the resource of an accessor, and nothing else, with the options
  -- that the tweak leaves.
  pub record Serves (a : Accessor) (ns : String) (tweak : Option TweakListOptions)
      (v : SharedIndexInformer Object) : Type 0 where
    pub lists :
        (opts : ListOptions)
        → v.list_watch.list_func opts ≡ request meta (scope_of a ns) (list (tweaked tweak opts))
    pub watches :
        (opts : ListOptions)
        → v.list_watch.watch_func opts
          ≡ request meta (scope_of a ns) (watch_all (tweaked tweak opts))

  abbrev made : Accessor → String → Option TweakListOptions → ℕ → SharedIndexInformer Object
  made a ns tweak resync_period =
      listing (request meta (scope_of a ns)) (type_of a) resync_period namespace_index tweak

  pub informer_of-informer_for :
      (a : Accessor) (f : SharedInformerFactory Object)
      → informer_of meta a f ≡ informer_for (type_of a) (made a f.namespace f.tweak_list_options) f
  unfolding informer_of informer_for request lookup backend_policy_informer backend_policy_request
      gateway_informer gateway_request gateway_class_informer gateway_class_request
      http_route_informer http_route_request tcp_route_informer tcp_route_request tls_route_informer
      tls_route_request udp_route_informer udp_route_request
  informer_of-informer_for backend_policies f = refl
  informer_of-informer_for gateways f = refl
  informer_of-informer_for gateway_classes f = refl
  informer_of-informer_for http_routes f = refl
  informer_of-informer_for tcp_routes f = refl
  informer_of-informer_for tls_routes f = refl
  informer_of-informer_for udp_routes f = refl

  -- The namespace and the tweak are the ones given, and so are those of each informer.
  pub record IsScoped (ns : String) (tweak : Option TweakListOptions)
      (f : SharedInformerFactory Object) : Type 0 where
    pub namespace : f.namespace ≡ ns
    pub tweak_list_options : f.tweak_list_options ≡ tweak
    pub informers :
        (a : Accessor) (v : SharedIndexInformer Object)
        → lookup (type_of a) f.informers ≡ some v
        → Serves a ns tweak v

  Serves-made :
      (a : Accessor) (ns : String) (tweak : Option TweakListOptions) (resync_period : ℕ)
      → Serves a ns tweak (made a ns tweak resync_period)
  Serves-made a ns tweak resync_period = record { lists = λ opts. refl; watches = λ opts. refl }

  type_of_injective : (a b : Accessor) → type_of a ≡ type_of b → a ≡ b
  type_of_injective a b h =
      some_injective (sym (of_type-type_of a) ∙ ap of_type h ∙ of_type-type_of b)

  inserted-Serves :
      (a b : Accessor) (ns : String) (tweak : Option TweakListOptions) (resync_period : ℕ)
      (m : Map (SharedIndexInformer Object)) (v : SharedIndexInformer Object)
      → (lookup (type_of b) m ≡ some v → Serves b ns tweak v)
      → lookup (type_of b) (insert (type_of a) (made a ns tweak resync_period) m) ≡ some v
      → Serves b ns tweak v
  inserted-Serves a b ns tweak resync_period m v old found =
      let found' =
        sym (lookup-insert (type_of a) (type_of b) (made a ns tweak resync_period) m) ∙ found in
      elim (Bool-cases (type_of a == type_of b)) [
        | inl e ↦
            subst (λ w. Serves b ns tweak w) (some_injective (rw e at found'))
              (subst (λ c. Serves c ns tweak (made a ns tweak resync_period))
                (type_of_injective a b ((eq_iff (type_of a) (type_of b)).0 e))
                (Serves-made a ns tweak resync_period))
        | inr n ↦ old (rw n at found')
      ]

  informer_for-IsScoped :
      (a : Accessor) (ns : String) (tweak : Option TweakListOptions)
      (f : SharedInformerFactory Object)
      → IsScoped ns tweak f
      → IsScoped ns tweak (informer_for (type_of a) (made a ns tweak) f).1
  unfolding informer_for
  informer_for-IsScoped a ns tweak f h = elim (Option-cases (lookup (type_of a) f.informers)) [
    | inl missing ↦ rw missing (record {
      namespace = h.namespace;
      tweak_list_options = h.tweak_list_options;
      informers = λ b v found. inserted-Serves a b ns tweak _ f.informers v (h.informers b v) found;
    })
    | inr found ↦ rw found.1 h
  ]

  pub informer_of-IsScoped :
      (a : Accessor) (ns : String) (tweak : Option TweakListOptions)
      (f : SharedInformerFactory Object)
      → IsScoped ns tweak f
      → IsScoped ns tweak (informer_of meta a f).1
  informer_of-IsScoped a ns tweak f h =
      rw informer_of-informer_for
        (simp (h.namespace, h.tweak_list_options) (informer_for-IsScoped a ns tweak f h))
