-- ===== src/Informers/Access.antt =====
-- The rest of the informers' files in apis/v1alpha1 of pkg/client/gatewayapi/informers/externalversions:
-- the constructors without a tweak, and the listers of the accessors, over an informer's indexer.
use net_gateway_api_obsolete.Prelude.{ℕ, String, List, none}
use net_gateway_api_obsolete.Objects.{ObjectMeta}
use net_gateway_api_obsolete.Clients.Listers.{
  Indexer, Lister, NamespaceLister, backend_policy_lister, gateway_lister, gateway_class_lister,
  http_route_lister, tcp_route_lister, tls_route_lister, udp_route_lister,
}
use net_gateway_api_obsolete.Informers.{SharedIndexInformer, SharedInformerFactory}
use net_gateway_api_obsolete.Informers.Resources.{
  Version, new_filtered_backend_policy_informer, backend_policy_informer,
  new_filtered_gateway_informer, gateway_informer, new_filtered_gateway_class_informer,
  gateway_class_informer, new_filtered_http_route_informer, http_route_informer,
  new_filtered_tcp_route_informer, tcp_route_informer, new_filtered_tls_route_informer,
  tls_route_informer, new_filtered_udp_route_informer, udp_route_informer,
}

module _ {Object : Type 0} (meta : Object → ObjectMeta) where
  -- `NewBackendPolicyInformer`
  unfoldable pub new_backend_policy_informer : String → ℕ → List String → SharedIndexInformer Object
  unfolding new_filtered_backend_policy_informer
  new_backend_policy_informer namespace resync_period indexers =
      new_filtered_backend_policy_informer meta namespace resync_period indexers none

  -- `NewGatewayInformer`
  unfoldable pub new_gateway_informer : String → ℕ → List String → SharedIndexInformer Object
  unfolding new_filtered_gateway_informer
  new_gateway_informer namespace resync_period indexers =
      new_filtered_gateway_informer meta namespace resync_period indexers none

  -- `NewGatewayClassInformer`
  unfoldable pub new_gateway_class_informer : ℕ → List String → SharedIndexInformer Object
  unfolding new_filtered_gateway_class_informer
  new_gateway_class_informer resync_period indexers =
      new_filtered_gateway_class_informer meta resync_period indexers none

  -- `NewHTTPRouteInformer`
  unfoldable pub new_http_route_informer : String → ℕ → List String → SharedIndexInformer Object
  unfolding new_filtered_http_route_informer
  new_http_route_informer namespace resync_period indexers =
      new_filtered_http_route_informer meta namespace resync_period indexers none

  -- `NewTCPRouteInformer`
  unfoldable pub new_tcp_route_informer : String → ℕ → List String → SharedIndexInformer Object
  unfolding new_filtered_tcp_route_informer
  new_tcp_route_informer namespace resync_period indexers =
      new_filtered_tcp_route_informer meta namespace resync_period indexers none

  -- `NewTLSRouteInformer`
  unfoldable pub new_tls_route_informer : String → ℕ → List String → SharedIndexInformer Object
  unfolding new_filtered_tls_route_informer
  new_tls_route_informer namespace resync_period indexers =
      new_filtered_tls_route_informer meta namespace resync_period indexers none

  -- `NewUDPRouteInformer`
  unfoldable pub new_udp_route_informer : String → ℕ → List String → SharedIndexInformer Object
  unfolding new_filtered_udp_route_informer
  new_udp_route_informer namespace resync_period indexers =
      new_filtered_udp_route_informer meta namespace resync_period indexers none

module _ {World Selector Object : Type 0} (meta : Object → ObjectMeta)
    (get_indexer : SharedIndexInformer Object → Indexer World Selector Object) where
  -- `Lister` of the accessor of BackendPolicies
  unfoldable pub backend_policy_lister_of :
      Version
      → SharedInformerFactory Object
      → Lister World Selector Object × SharedInformerFactory Object
  unfolding backend_policy_informer backend_policy_lister
  backend_policy_lister_of v f =
      let (informer, g) = backend_policy_informer meta v f in
      (backend_policy_lister (get_indexer informer), g)

  -- `Lister` of the accessor of Gateways
  unfoldable pub gateway_lister_of :
      Version
      → SharedInformerFactory Object
      → Lister World Selector Object × SharedInformerFactory Object
  unfolding gateway_informer gateway_lister
  gateway_lister_of v f =
      let (informer, g) = gateway_informer meta v f in (gateway_lister (get_indexer informer), g)

  -- `Lister` of the accessor of GatewayClasses
  unfoldable pub gateway_class_lister_of :
      Version
      → SharedInformerFactory Object
      → NamespaceLister World Selector Object × SharedInformerFactory Object
  unfolding gateway_class_informer gateway_class_lister
  gateway_class_lister_of v f =
      let (informer, g) = gateway_class_informer meta v f in
      (gateway_class_lister (get_indexer informer), g)

  -- `Lister` of the accessor of HTTPRoutes
  unfoldable pub http_route_lister_of :
      Version
      → SharedInformerFactory Object
      → Lister World Selector Object × SharedInformerFactory Object
  unfolding http_route_informer http_route_lister
  http_route_lister_of v f =
      let (informer, g) = http_route_informer meta v f in
      (http_route_lister (get_indexer informer), g)

  -- `Lister` of the accessor of TCPRoutes
  unfoldable pub tcp_route_lister_of :
      Version
      → SharedInformerFactory Object
      → Lister World Selector Object × SharedInformerFactory Object
  unfolding tcp_route_informer tcp_route_lister
  tcp_route_lister_of v f =
      let (informer, g) = tcp_route_informer meta v f in
      (tcp_route_lister (get_indexer informer), g)

  -- `Lister` of the accessor of TLSRoutes
  unfoldable pub tls_route_lister_of :
      Version
      → SharedInformerFactory Object
      → Lister World Selector Object × SharedInformerFactory Object
  unfolding tls_route_informer tls_route_lister
  tls_route_lister_of v f =
      let (informer, g) = tls_route_informer meta v f in
      (tls_route_lister (get_indexer informer), g)

  -- `Lister` of the accessor of UDPRoutes
  unfoldable pub udp_route_lister_of :
      Version
      → SharedInformerFactory Object
      → Lister World Selector Object × SharedInformerFactory Object
  unfolding udp_route_informer udp_route_lister
  udp_route_lister_of v f =
      let (informer, g) = udp_route_informer meta v f in
      (udp_route_lister (get_indexer informer), g)
