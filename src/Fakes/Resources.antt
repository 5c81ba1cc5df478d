-- ===== src/Fakes/Resources.antt =====
-- The seven fake clients and the accessors that make them, fake_apis_client.go. Each method's action is
-- that of the client's resource.
use net_gateway_api_obsolete.Prelude.{String, none, some}
use net_gateway_api_obsolete.Clients.{Call}
use net_gateway_api_obsolete.Fakes.{FakeScope, ActionCall, fake_action}

-- `BackendPolicies(namespace)`, with the variables `backendpoliciesResource` and `backendpoliciesKind`
unfoldable pub fake_backend_policies : String → FakeScope
fake_backend_policies ns = record {
  namespace = some ns;
  resource = record {
    group = "networking.x-k8s.io";
    version = "v1alpha1";
    resource = "backendpolicies";
  };
  kind = record { group = "networking.x-k8s.io"; version = "v1alpha1"; kind = "BackendPolicy" };
}

-- `Gateways(namespace)`, with the variables `gatewaysResource` and `gatewaysKind`
unfoldable pub fake_gateways : String → FakeScope
fake_gateways ns = record {
  namespace = some ns;
  resource = record { group = "networking.x-k8s.io"; version = "v1alpha1"; resource = "gateways" };
  kind = record { group = "networking.x-k8s.io"; version = "v1alpha1"; kind = "Gateway" };
}

-- `GatewayClasses()`, with the variables `gatewayclassesResource` and `gatewayclassesKind`
unfoldable pub fake_gateway_classes : FakeScope
fake_gateway_classes = record {
  namespace = none;
  resource = record {
    group = "networking.x-k8s.io";
    version = "v1alpha1";
    resource = "gatewayclasses";
  };
  kind = record { group = "networking.x-k8s.io"; version = "v1alpha1"; kind = "GatewayClass" };
}

-- `HTTPRoutes(namespace)`, with the variables `httproutesResource` and `httproutesKind`
unfoldable pub fake_http_routes : String → FakeScope
fake_http_routes ns = record {
  namespace = some ns;
  resource = record {
    group = "networking.x-k8s.io";
    version = "v1alpha1";
    resource = "httproutes";
  };
  kind = record { group = "networking.x-k8s.io"; version = "v1alpha1"; kind = "HTTPRoute" };
}

-- `TCPRoutes(namespace)`, with the variables `tcproutesResource` and `tcproutesKind`
unfoldable pub fake_tcp_routes : String → FakeScope
fake_tcp_routes ns = record {
  namespace = some ns;
  resource = record { group = "networking.x-k8s.io"; version = "v1alpha1"; resource = "tcproutes" };
  kind = record { group = "networking.x-k8s.io"; version = "v1alpha1"; kind = "TCPRoute" };
}

-- `TLSRoutes(namespace)`, with the variables `tlsroutesResource` and `tlsroutesKind`
unfoldable pub fake_tls_routes : String → FakeScope
fake_tls_routes ns = record {
  namespace = some ns;
  resource = record { group = "networking.x-k8s.io"; version = "v1alpha1"; resource = "tlsroutes" };
  kind = record { group = "networking.x-k8s.io"; version = "v1alpha1"; kind = "TLSRoute" };
}

-- `UDPRoutes(namespace)`, with the variables `udproutesResource` and `udproutesKind`
unfoldable pub fake_udp_routes : String → FakeScope
fake_udp_routes ns = record {
  namespace = some ns;
  resource = record { group = "networking.x-k8s.io"; version = "v1alpha1"; resource = "udproutes" };
  kind = record { group = "networking.x-k8s.io"; version = "v1alpha1"; kind = "UDPRoute" };
}

module _ {Object : Type 0} where
  -- the methods of `FakeBackendPolicies`
  unfoldable pub fake_backend_policy_action : String → Call Object → ActionCall Object
  unfolding fake_action fake_backend_policies
  fake_backend_policy_action ns call = fake_action (fake_backend_policies ns) call

  -- the methods of `FakeGateways`
  unfoldable pub fake_gateway_action : String → Call Object → ActionCall Object
  unfolding fake_action fake_gateways
  fake_gateway_action ns call = fake_action (fake_gateways ns) call

  -- the methods of `FakeGatewayClasses`
  unfoldable pub fake_gateway_class_action : Call Object → ActionCall Object
  unfolding fake_action fake_gateway_classes
  fake_gateway_class_action call = fake_action fake_gateway_classes call

  -- the methods of `FakeHTTPRoutes`
  unfoldable pub fake_http_route_action : String → Call Object → ActionCall Object
  unfolding fake_action fake_http_routes
  fake_http_route_action ns call = fake_action (fake_http_routes ns) call

  -- the methods of `FakeTCPRoutes`
  unfoldable pub fake_tcp_route_action : String → Call Object → ActionCall Object
  unfolding fake_action fake_tcp_routes
  fake_tcp_route_action ns call = fake_action (fake_tcp_routes ns) call

  -- the methods of `FakeTLSRoutes`
  unfoldable pub fake_tls_route_action : String → Call Object → ActionCall Object
  unfolding fake_action fake_tls_routes
  fake_tls_route_action ns call = fake_action (fake_tls_routes ns) call

  -- the methods of `FakeUDPRoutes`
  unfoldable pub fake_udp_route_action : String → Call Object → ActionCall Object
  unfolding fake_action fake_udp_routes
  fake_udp_route_action ns call = fake_action (fake_udp_routes ns) call
