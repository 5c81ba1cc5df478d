-- ===== src/Clientset/Accessors.antt =====
-- The methods of the clientset and of its group's client that hand out clients: clientset.go,
-- typed/apis/v1alpha1/apis_client.go and the constructors of the typed clients beside it.
use net_gateway_api_obsolete.Prelude.{String, Option, none, some, List, [], ◌∷◌}
use net_gateway_api_obsolete.Clientset.{Clientset, NetworkingClient}

-- A typed client: the REST client that its requests go to, nil as `none`, and its namespace, which the
-- client of the gateway classes has not.
pub record TypedClient (RestClient : Type 0) : Type 0 where
  pub client : Option RestClient
  pub ns : Option String

module _ {RestClient : Type 0} where
  -- `New` of the group's client
  unfoldable pub networking_new : RestClient → NetworkingClient RestClient
  networking_new c = record { rest_client = c }

  -- `RESTClient`, whose receiver may be nil
  unfoldable pub rest_client_of : Option (NetworkingClient RestClient) → Option RestClient
  rest_client_of none = none
  rest_client_of (some c) = some c.rest_client

module _ {RestClient Discovery : Type 0} where
  -- `New`, given the discovery package's `NewDiscoveryClient`
  unfoldable pub new : (RestClient → Discovery) → RestClient → Clientset RestClient Discovery
  unfolding networking_new
  new new_discovery_client c = record {
    networking_v1alpha1 = networking_new c;
    discovery_client = new_discovery_client c;
  }

  -- `Discovery`, whose receiver may be nil
  unfoldable pub discovery : Option (Clientset RestClient Discovery) → Option Discovery
  discovery none = none
  discovery (some c) = some c.discovery_client

  -- `NetworkingV1alpha1`
  unfoldable pub networking_v1alpha1_of :
      Clientset RestClient Discovery → Option (NetworkingClient RestClient)
  networking_v1alpha1_of c = some c.networking_v1alpha1

module _ {RestClient : Type 0} where
  -- `newBackendPolicies`
  unfoldable pub new_backend_policies :
      Option (NetworkingClient RestClient) → String → TypedClient RestClient
  unfolding rest_client_of
  new_backend_policies c namespace = record { client = rest_client_of c; ns = some namespace }

  -- `newGateways`
  unfoldable pub new_gateways :
      Option (NetworkingClient RestClient) → String → TypedClient RestClient
  unfolding rest_client_of
  new_gateways c namespace = record { client = rest_client_of c; ns = some namespace }

  -- `newHTTPRoutes`
  unfoldable pub new_http_routes :
      Option (NetworkingClient RestClient) → String → TypedClient RestClient
  unfolding rest_client_of
  new_http_routes c namespace = record { client = rest_client_of c; ns = some namespace }

  -- `newTCPRoutes`
  unfoldable pub new_tcp_routes :
      Option (NetworkingClient RestClient) → String → TypedClient RestClient
  unfolding rest_client_of
  new_tcp_routes c namespace = record { client = rest_client_of c; ns = some namespace }

  -- `newTLSRoutes`
  unfoldable pub new_tls_routes :
      Option (NetworkingClient RestClient) → String → TypedClient RestClient
  unfolding rest_client_of
  new_tls_routes c namespace = record { client = rest_client_of c; ns = some namespace }

  -- `newUDPRoutes`
  unfoldable pub new_udp_routes :
      Option (NetworkingClient RestClient) → String → TypedClient RestClient
  unfolding rest_client_of
  new_udp_routes c namespace = record { client = rest_client_of c; ns = some namespace }

  -- `newGatewayClasses`
  unfoldable pub new_gateway_classes : Option (NetworkingClient RestClient) → TypedClient RestClient
  unfolding rest_client_of
  new_gateway_classes c = record { client = rest_client_of c; ns = none }

  -- `BackendPolicies`
  unfoldable pub backend_policies_client :
      Option (NetworkingClient RestClient) → String → TypedClient RestClient
  unfolding new_backend_policies
  backend_policies_client c namespace = new_backend_policies c namespace

  -- `Gateways`
  unfoldable pub gateways_client :
      Option (NetworkingClient RestClient) → String → TypedClient RestClient
  unfolding new_gateways
  gateways_client c namespace = new_gateways c namespace

  -- `HTTPRoutes`
  unfoldable pub http_routes_client :
      Option (NetworkingClient RestClient) → String → TypedClient RestClient
  unfolding new_http_routes
  http_routes_client c namespace = new_http_routes c namespace

  -- `TCPRoutes`
  unfoldable pub tcp_routes_client :
      Option (NetworkingClient RestClient) → String → TypedClient RestClient
  unfolding new_tcp_routes
  tcp_routes_client c namespace = new_tcp_routes c namespace

  -- `TLSRoutes`
  unfoldable pub tls_routes_client :
      Option (NetworkingClient RestClient) → String → TypedClient RestClient
  unfolding new_tls_routes
  tls_routes_client c namespace = new_tls_routes c namespace

  -- `UDPRoutes`
  unfoldable pub udp_routes_client :
      Option (NetworkingClient RestClient) → String → TypedClient RestClient
  unfolding new_udp_routes
  udp_routes_client c namespace = new_udp_routes c namespace

  -- `GatewayClasses`
  unfoldable pub gateway_classes_client :
      Option (NetworkingClient RestClient) → TypedClient RestClient
  unfolding new_gateway_classes
  gateway_classes_client c = new_gateway_classes c

  -- The seven typed clients of a group's client, six of them for a namespace.
  abbrev pub typed_clients :
      Option (NetworkingClient RestClient) → String → List (TypedClient RestClient)
  typed_clients c namespace =
      backend_policies_client c namespace
      ∷ gateways_client c namespace
      ∷ http_routes_client c namespace
      ∷ tcp_routes_client c namespace
      ∷ tls_routes_client c namespace
      ∷ udp_routes_client c namespace
      ∷ gateway_classes_client c
      ∷ []
