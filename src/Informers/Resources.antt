-- ===== src/Informers/Resources.antt =====
-- The informers of the seven resources and their accessors, pkg/client/gatewayapi/informers/externalversions:
-- apis/v1alpha1 and apis/interface.go.
use net_gateway_api_obsolete.Prelude.{ℕ, String, Option, none, some, List, [], ◌∷◌}
use net_gateway_api_obsolete.Objects.{ObjectMeta}
use net_gateway_api_obsolete.Clients.{
  ListOptions, RestRequest, Call, list, watch_all, backend_policy_request, gateway_request,
  gateway_class_request, http_route_request, tcp_route_request, tls_route_request,
  udp_route_request,
}
use net_gateway_api_obsolete.Informers.{
  TweakListOptions, SharedIndexInformer, SharedInformerFactory, informer_for,
}

-- `group` and `version`: what an accessor is given beside the factory.
pub record Version : Type 0 where
  pub namespace : String
  pub tweak_list_options : Option TweakListOptions

-- `group` of apis/interface.go, and `New`
pub record Group : Type 0 where
  pub namespace : String
  pub tweak_list_options : Option TweakListOptions

-- `V1alpha1`
abbrev pub v1alpha1 : Group → Version
v1alpha1 g = record { namespace = g.namespace; tweak_list_options = g.tweak_list_options }

-- `if tweakListOptions != nil { tweakListOptions(&options) }`
abbrev pub tweaked : Option TweakListOptions → ListOptions → ListOptions
tweaked none options = options
tweaked (some tweak) options = tweak options

-- `cache.Indexers{cache.NamespaceIndex: cache.MetaNamespaceIndexFunc}`
abbrev pub namespace_index : List String
namespace_index = "namespace" ∷ []

-- The methods of the group version's `Interface`.
pub data Accessor : Type 0 where
  backend_policies : Accessor
  gateways : Accessor
  gateway_classes : Accessor
  http_routes : Accessor
  tcp_routes : Accessor
  tls_routes : Accessor
  udp_routes : Accessor

module _ {Object : Type 0} where
  -- What the seven constructors share: the list and watch functions over one client.
  abbrev pub listing :
      (Call Object → RestRequest Object)
      → String
      → ℕ
      → List String
      → Option TweakListOptions
      → SharedIndexInformer Object
  listing client object_type resync_period indexers tweak = record {
    list_watch = record {
      list_func = λ options. client (list (tweaked tweak options));
      watch_func = λ options. client (watch_all (tweaked tweak options));
    };
    object_type = object_type;
    resync_period = resync_period;
    indexers = indexers;
  }

module _ {Object : Type 0} (meta : Object → ObjectMeta) where
  -- `NewFilteredBackendPolicyInformer`
  unfoldable pub new_filtered_backend_policy_informer :
      String → ℕ → List String → Option TweakListOptions → SharedIndexInformer Object
  new_filtered_backend_policy_informer namespace resync_period indexers tweak =
      listing (backend_policy_request meta namespace) "BackendPolicy" resync_period indexers tweak

  -- `Informer` of its accessor, with `defaultInformer`
  unfoldable pub backend_policy_informer :
      Version
      → SharedInformerFactory Object
      → SharedIndexInformer Object × SharedInformerFactory Object
  unfolding new_filtered_backend_policy_informer
  backend_policy_informer v f =
      informer_for "BackendPolicy"
        (λ resync_period.
          new_filtered_backend_policy_informer v.namespace resync_period namespace_index
            v.tweak_list_options)
        f

  -- `NewFilteredGatewayInformer`
  unfoldable pub new_filtered_gateway_informer :
      String → ℕ → List String → Option TweakListOptions → SharedIndexInformer Object
  new_filtered_gateway_informer namespace resync_period indexers tweak =
      listing (gateway_request meta namespace) "Gateway" resync_period indexers tweak

  -- `Informer` of its accessor, with `defaultInformer`
  unfoldable pub gateway_informer :
      Version
      → SharedInformerFactory Object
      → SharedIndexInformer Object × SharedInformerFactory Object
  unfolding new_filtered_gateway_informer
  gateway_informer v f =
      informer_for "Gateway"
        (λ resync_period.
          new_filtered_gateway_informer v.namespace resync_period namespace_index
            v.tweak_list_options)
        f

  -- `NewFilteredGatewayClassInformer`; the resource has no namespace
  unfoldable pub new_filtered_gateway_class_informer :
      ℕ → List String → Option TweakListOptions → SharedIndexInformer Object
  new_filtered_gateway_class_informer resync_period indexers tweak =
      listing (gateway_class_request meta) "GatewayClass" resync_period indexers tweak

  -- `Informer` of its accessor, with `defaultInformer`
  unfoldable pub gateway_class_informer :
      Version
      → SharedInformerFactory Object
      → SharedIndexInformer Object × SharedInformerFactory Object
  unfolding new_filtered_gateway_class_informer
  gateway_class_informer v f =
      informer_for "GatewayClass"
        (λ resync_period.
          new_filtered_gateway_class_informer resync_period namespace_index v.tweak_list_options)
        f

  -- `NewFilteredHTTPRouteInformer`
  unfoldable pub new_filtered_http_route_informer :
      String → ℕ → List String → Option TweakListOptions → SharedIndexInformer Object
  new_filtered_http_route_informer namespace resync_period indexers tweak =
      listing (http_route_request meta namespace) "HTTPRoute" resync_period indexers tweak

  -- `Informer` of its accessor, with `defaultInformer`
  unfoldable pub http_route_informer :
      Version
      → SharedInformerFactory Object
      → SharedIndexInformer Object × SharedInformerFactory Object
  unfolding new_filtered_http_route_informer
  http_route_informer v f =
      informer_for "HTTPRoute"
        (λ resync_period.
          new_filtered_http_route_informer v.namespace resync_period namespace_index
            v.tweak_list_options)
        f

  -- `NewFilteredTCPRouteInformer`
  unfoldable pub new_filtered_tcp_route_informer :
      String → ℕ → List String → Option TweakListOptions → SharedIndexInformer Object
  new_filtered_tcp_route_informer namespace resync_period indexers tweak =
      listing (tcp_route_request meta namespace) "TCPRoute" resync_period indexers tweak

  -- `Informer` of its accessor, with `defaultInformer`
  unfoldable pub tcp_route_informer :
      Version
      → SharedInformerFactory Object
      → SharedIndexInformer Object × SharedInformerFactory Object
  unfolding new_filtered_tcp_route_informer
  tcp_route_informer v f =
      informer_for "TCPRoute"
        (λ resync_period.
          new_filtered_tcp_route_informer v.namespace resync_period namespace_index
            v.tweak_list_options)
        f

  -- `NewFilteredTLSRouteInformer`
  unfoldable pub new_filtered_tls_route_informer :
      String → ℕ → List String → Option TweakListOptions → SharedIndexInformer Object
  new_filtered_tls_route_informer namespace resync_period indexers tweak =
      listing (tls_route_request meta namespace) "TLSRoute" resync_period indexers tweak

  -- `Informer` of its accessor, with `defaultInformer`
  unfoldable pub tls_route_informer :
      Version
      → SharedInformerFactory Object
      → SharedIndexInformer Object × SharedInformerFactory Object
  unfolding new_filtered_tls_route_informer
  tls_route_informer v f =
      informer_for "TLSRoute"
        (λ resync_period.
          new_filtered_tls_route_informer v.namespace resync_period namespace_index
            v.tweak_list_options)
        f

  -- `NewFilteredUDPRouteInformer`
  unfoldable pub new_filtered_udp_route_informer :
      String → ℕ → List String → Option TweakListOptions → SharedIndexInformer Object
  new_filtered_udp_route_informer namespace resync_period indexers tweak =
      listing (udp_route_request meta namespace) "UDPRoute" resync_period indexers tweak

  -- `Informer` of its accessor, with `defaultInformer`
  unfoldable pub udp_route_informer :
      Version
      → SharedInformerFactory Object
      → SharedIndexInformer Object × SharedInformerFactory Object
  unfolding new_filtered_udp_route_informer
  udp_route_informer v f =
      informer_for "UDPRoute"
        (λ resync_period.
          new_filtered_udp_route_informer v.namespace resync_period namespace_index
            v.tweak_list_options)
        f

  -- `Networking().V1alpha1()`
  unfoldable pub networking : SharedInformerFactory Object → Version
  networking f =
      v1alpha1 (record { namespace = f.namespace; tweak_list_options = f.tweak_list_options })

  -- `Networking().V1alpha1().X().Informer()`
  unfoldable pub informer_of :
      Accessor
      → SharedInformerFactory Object
      → SharedIndexInformer Object × SharedInformerFactory Object
  unfolding networking
  informer_of backend_policies f = backend_policy_informer (networking f) f
  informer_of gateways f = gateway_informer (networking f) f
  informer_of gateway_classes f = gateway_class_informer (networking f) f
  informer_of http_routes f = http_route_informer (networking f) f
  informer_of tcp_routes f = tcp_route_informer (networking f) f
  informer_of tls_routes f = tls_route_informer (networking f) f
  informer_of udp_routes f = udp_route_informer (networking f) f
