-- ===== src/Injection/FakePackages.antt =====
-- The fake packages of the seven resources, pkg/client/gatewayapi/injection/informers/apis/v1alpha1. Each
-- `Get` is that of the package which it fakes.
use net_gateway_api_obsolete.Objects.{ObjectMeta}
use net_gateway_api_obsolete.Informers.Resources.{
  Accessor, backend_policies, gateways, gateway_classes, http_routes, tcp_routes, tls_routes,
  udp_routes,
}
use net_gateway_api_obsolete.Injection.Resources.{
  InformerPackage, FilteredPackage, injected, filtered_injected,
}
use net_gateway_api_obsolete.Injection.Fakes.{fake_with_informer, fake_with_filtered_informer}
use net_gateway_api_obsolete.Injection.Callbacks.{register_informer, register_filtered_informers}

module _ {Config Client Object : Type 0} (meta : Object → ObjectMeta) where
  unfoldable pub fake_backend_policy_package : InformerPackage Config Client Object
  unfolding fake_with_informer injected
  fake_backend_policy_package = record {
    with_informer = fake_with_informer meta backend_policies;
    init = register_informer (fake_with_informer meta backend_policies);
    get = injected backend_policies;
  }

  unfoldable pub fake_backend_policy_filtered : FilteredPackage Config Client Object
  unfolding fake_with_filtered_informer filtered_injected
  fake_backend_policy_filtered = record {
    with_informer = fake_with_filtered_informer meta backend_policies;
    init = register_filtered_informers (fake_with_filtered_informer meta backend_policies);
    get = filtered_injected backend_policies;
  }

  unfoldable pub fake_gateway_package : InformerPackage Config Client Object
  unfolding fake_with_informer injected
  fake_gateway_package = record {
    with_informer = fake_with_informer meta gateways;
    init = register_informer (fake_with_informer meta gateways);
    get = injected gateways;
  }

  unfoldable pub fake_gateway_filtered : FilteredPackage Config Client Object
  unfolding fake_with_filtered_informer filtered_injected
  fake_gateway_filtered = record {
    with_informer = fake_with_filtered_informer meta gateways;
    init = register_filtered_informers (fake_with_filtered_informer meta gateways);
    get = filtered_injected gateways;
  }

  unfoldable pub fake_gateway_class_package : InformerPackage Config Client Object
  unfolding fake_with_informer injected
  fake_gateway_class_package = record {
    with_informer = fake_with_informer meta gateway_classes;
    init = register_informer (fake_with_informer meta gateway_classes);
    get = injected gateway_classes;
  }

  unfoldable pub fake_gateway_class_filtered : FilteredPackage Config Client Object
  unfolding fake_with_filtered_informer filtered_injected
  fake_gateway_class_filtered = record {
    with_informer = fake_with_filtered_informer meta gateway_classes;
    init = register_filtered_informers (fake_with_filtered_informer meta gateway_classes);
    get = filtered_injected gateway_classes;
  }

  unfoldable pub fake_http_route_package : InformerPackage Config Client Object
  unfolding fake_with_informer injected
  fake_http_route_package = record {
    with_informer = fake_with_informer meta http_routes;
    init = register_informer (fake_with_informer meta http_routes);
    get = injected http_routes;
  }

  unfoldable pub fake_http_route_filtered : FilteredPackage Config Client Object
  unfolding fake_with_filtered_informer filtered_injected
  fake_http_route_filtered = record {
    with_informer = fake_with_filtered_informer meta http_routes;
    init = register_filtered_informers (fake_with_filtered_informer meta http_routes);
    get = filtered_injected http_routes;
  }

  unfoldable pub fake_tcp_route_package : InformerPackage Config Client Object
  unfolding fake_with_informer injected
  fake_tcp_route_package = record {
    with_informer = fake_with_informer meta tcp_routes;
    init = register_informer (fake_with_informer meta tcp_routes);
    get = injected tcp_routes;
  }

  unfoldable pub fake_tcp_route_filtered : FilteredPackage Config Client Object
  unfolding fake_with_filtered_informer filtered_injected
  fake_tcp_route_filtered = record {
    with_informer = fake_with_filtered_informer meta tcp_routes;
    init = register_filtered_informers (fake_with_filtered_informer meta tcp_routes);
    get = filtered_injected tcp_routes;
  }

  unfoldable pub fake_tls_route_package : InformerPackage Config Client Object
  unfolding fake_with_informer injected
  fake_tls_route_package = record {
    with_informer = fake_with_informer meta tls_routes;
    init = register_informer (fake_with_informer meta tls_routes);
    get = injected tls_routes;
  }

  unfoldable pub fake_tls_route_filtered : FilteredPackage Config Client Object
  unfolding fake_with_filtered_informer filtered_injected
  fake_tls_route_filtered = record {
    with_informer = fake_with_filtered_informer meta tls_routes;
    init = register_filtered_informers (fake_with_filtered_informer meta tls_routes);
    get = filtered_injected tls_routes;
  }

  unfoldable pub fake_udp_route_package : InformerPackage Config Client Object
  unfolding fake_with_informer injected
  fake_udp_route_package = record {
    with_informer = fake_with_informer meta udp_routes;
    init = register_informer (fake_with_informer meta udp_routes);
    get = injected udp_routes;
  }

  unfoldable pub fake_udp_route_filtered : FilteredPackage Config Client Object
  unfolding fake_with_filtered_informer filtered_injected
  fake_udp_route_filtered = record {
    with_informer = fake_with_filtered_informer meta udp_routes;
    init = register_filtered_informers (fake_with_filtered_informer meta udp_routes);
    get = filtered_injected udp_routes;
  }

  -- The fake package of an accessor, and the filtered one.
  abbrev pub fake_package : Accessor → InformerPackage Config Client Object
  fake_package backend_policies = fake_backend_policy_package
  fake_package gateways = fake_gateway_package
  fake_package gateway_classes = fake_gateway_class_package
  fake_package http_routes = fake_http_route_package
  fake_package tcp_routes = fake_tcp_route_package
  fake_package tls_routes = fake_tls_route_package
  fake_package udp_routes = fake_udp_route_package

  abbrev pub fake_filtered_package : Accessor → FilteredPackage Config Client Object
  fake_filtered_package backend_policies = fake_backend_policy_filtered
  fake_filtered_package gateways = fake_gateway_filtered
  fake_filtered_package gateway_classes = fake_gateway_class_filtered
  fake_filtered_package http_routes = fake_http_route_filtered
  fake_filtered_package tcp_routes = fake_tcp_route_filtered
  fake_filtered_package tls_routes = fake_tls_route_filtered
  fake_filtered_package udp_routes = fake_udp_route_filtered
