-- ===== src/Fakes/Actions.antt =====
-- The fake clients against the generated ones.
use net_gateway_api_obsolete.Prelude.{
  String, ◌≡◌, refl, true, Option, none, some, List, [], ◌∷◌, All, map,
}
use net_gateway_api_obsolete.Objects.{ObjectMeta}
use net_gateway_api_obsolete.Clients.{
  ListOptions, Verb, http_get, http_post, http_put, http_delete, http_patch, no_params, Body,
  no_body, object_body, options_body, patch_body, RestRequest, Call, get, list, watch_all, create,
  update, update_status, delete, delete_collection, patch, request, http_route_request,
  gateway_request, tcp_route_request, tls_route_request, udp_route_request, backend_policy_request,
  gateway_class_request,
}
use net_gateway_api_obsolete.Clients.Scopes.{seven, distinct, resources, namespaces, seven_apart}
use net_gateway_api_obsolete.Informers.Generic.{GroupVersionResource, group_name, version_name}
use net_gateway_api_obsolete.Fakes.{
  GroupVersionKind, FakeScope, ActionCall, fake_action, new_get_action, new_list_action,
  new_watch_action, new_create_action, new_update_action, new_update_subresource_action,
  new_delete_action, new_delete_collection_action, new_patch_subresource_action,
}
use net_gateway_api_obsolete.Fakes.Resources.{
  fake_backend_policies, fake_gateways, fake_gateway_classes, fake_http_routes, fake_tcp_routes,
  fake_tls_routes, fake_udp_routes, fake_backend_policy_action, fake_gateway_action,
  fake_gateway_class_action, fake_http_route_action, fake_tcp_route_action, fake_tls_route_action,
  fake_udp_route_action,
}

-- The kinds of the seven clients.
abbrev pub kinds : List String
kinds =
    "HTTPRoute" ∷ "Gateway" ∷ "TCPRoute" ∷ "TLSRoute" ∷ "UDPRoute" ∷ "BackendPolicy"
    ∷ "GatewayClass" ∷ []

module _ {Object : Type 0} (meta : Object → ObjectMeta) where
  abbrev request_to :
      GroupVersionResource
      → Option String
      → Verb
      → Option String
      → List String
      → Body Object
      → RestRequest Object
  request_to gvr ns verb name subresources body = record {
    verb = verb;
    namespace = ns;
    resource = gvr.resource;
    name = name;
    subresources = subresources;
    params = no_params;
    timeout = none;
    body = body;
  }

  -- The request that an action stands for, without its options.
  abbrev pub action_request : ActionCall Object → RestRequest Object
  action_request (new_get_action gvr ns name) = request_to gvr ns http_get (some name) [] no_body
  action_request (new_list_action gvr kind ns opts) = request_to gvr ns http_get none [] no_body
  action_request (new_watch_action gvr ns opts) = request_to gvr ns http_get none [] no_body
  action_request (new_create_action gvr ns object) =
      request_to gvr ns http_post none [] (object_body object)
  action_request (new_update_action gvr ns object) =
      request_to gvr ns http_put (some (meta object).name) [] (object_body object)
  action_request (new_update_subresource_action gvr subresource ns object) =
      request_to gvr ns http_put (some (meta object).name) (subresource ∷ []) (object_body object)
  action_request (new_delete_action gvr ns name) =
      request_to gvr ns http_delete (some name) [] no_body
  action_request (new_delete_collection_action gvr ns opts) =
      request_to gvr ns http_delete none [] no_body
  action_request (new_patch_subresource_action gvr ns name patch_type data_bytes subresources) =
      request_to gvr ns (http_patch patch_type) (some name) subresources (patch_body data_bytes)

  -- the resource of an action
  abbrev pub gvr_of_action : ActionCall Object → GroupVersionResource
  gvr_of_action (new_get_action gvr ns name) = gvr
  gvr_of_action (new_list_action gvr kind ns opts) = gvr
  gvr_of_action (new_watch_action gvr ns opts) = gvr
  gvr_of_action (new_create_action gvr ns object) = gvr
  gvr_of_action (new_update_action gvr ns object) = gvr
  gvr_of_action (new_update_subresource_action gvr subresource ns object) = gvr
  gvr_of_action (new_delete_action gvr ns name) = gvr
  gvr_of_action (new_delete_collection_action gvr ns opts) = gvr
  gvr_of_action (new_patch_subresource_action gvr ns name patch_type data_bytes subresources) = gvr

  -- The verb of an action, and the kind and the list options that it carries.
  abbrev pub described : ActionCall Object → String × Option GroupVersionKind × Option ListOptions
  described (new_get_action gvr ns name) = ("get", none, none)
  described (new_list_action gvr kind ns opts) = ("list", some kind, some opts)
  described (new_watch_action gvr ns opts) = ("watch", none, some opts)
  described (new_create_action gvr ns object) = ("create", none, none)
  described (new_update_action gvr ns object) = ("update", none, none)
  described (new_update_subresource_action gvr subresource ns object) = ("update", none, none)
  described (new_delete_action gvr ns name) = ("delete", none, none)
  described (new_delete_collection_action gvr ns opts) = ("delete-collection", none, some opts)
  described (new_patch_subresource_action gvr ns name patch_type data_bytes subresources) =
      ("patch", none, none)

  -- What a call of a client of a kind should record of these.
  abbrev pub described_call :
      Call Object → String → String × Option GroupVersionKind × Option ListOptions
  described_call (get name opts) kind = ("get", none, none)
  described_call (list opts) kind = (
    "list",
    some (record { group = "networking.x-k8s.io"; version = "v1alpha1"; kind = kind }),
    some opts,
  )
  described_call (watch_all opts) kind = ("watch", none, some opts)
  described_call (create object opts) kind = ("create", none, none)
  described_call (update object opts) kind = ("update", none, none)
  described_call (update_status object opts) kind = ("update", none, none)
  described_call (delete name opts) kind = ("delete", none, none)
  described_call (delete_collection opts list_opts) kind =
      ("delete-collection", none, some list_opts)
  described_call (patch name patch_type data_bytes opts subresources) kind = ("patch", none, none)

  abbrev without_options_body : Body Object → Body Object
  without_options_body (options_body opts) = no_body
  without_options_body body = body

  -- A request without the options of its call.
  abbrev pub without_options : RestRequest Object → RestRequest Object
  without_options r = record r {
    params = no_params;
    timeout = none;
    body = without_options_body r.body;
  }

  -- The actions that the seven fake clients record for one call each, whose namespace is the same.
  abbrev pub fake_seven : String → Call Object → List (ActionCall Object)
  fake_seven ns call =
      fake_http_route_action ns call
      ∷ fake_gateway_action ns call
      ∷ fake_tcp_route_action ns call
      ∷ fake_tls_route_action ns call
      ∷ fake_udp_route_action ns call
      ∷ fake_backend_policy_action ns call
      ∷ fake_gateway_class_action call
      ∷ []

  abbrev pub InGroup : ActionCall Object → Type 0
  InGroup a = ((gvr_of_action a).group ≡ group_name) × ((gvr_of_action a).version ≡ version_name)

  fake_action-InGroup :
      (c : FakeScope) (call : Call Object)
      → (c.resource.group ≡ group_name) × (c.resource.version ≡ version_name)
      → InGroup (fake_action c call)
  unfolding fake_action
  fake_action-InGroup c (get name opts) h = h
  fake_action-InGroup c (list opts) h = h
  fake_action-InGroup c (watch_all opts) h = h
  fake_action-InGroup c (create object opts) h = h
  fake_action-InGroup c (update object opts) h = h
  fake_action-InGroup c (update_status object opts) h = h
  fake_action-InGroup c (delete name opts) h = h
  fake_action-InGroup c (delete_collection opts list_opts) h = h
  fake_action-InGroup c (patch name patch_type data_bytes opts subresources) h = h

  fake_seven-InGroup : (ns : String) (call : Call Object) → All InGroup (fake_seven ns call)
  unfolding fake_action fake_backend_policies fake_gateways fake_gateway_classes fake_http_routes
      fake_tcp_routes fake_tls_routes fake_udp_routes fake_backend_policy_action fake_gateway_action
      fake_gateway_class_action fake_http_route_action fake_tcp_route_action fake_tls_route_action
      fake_udp_route_action
  fake_seven-InGroup ns call = (
    fake_action-InGroup (fake_http_routes ns) call (refl, refl),
    (
      fake_action-InGroup (fake_gateways ns) call (refl, refl),
      (
        fake_action-InGroup (fake_tcp_routes ns) call (refl, refl),
        (
          fake_action-InGroup (fake_tls_routes ns) call (refl, refl),
          (
            fake_action-InGroup (fake_udp_routes ns) call (refl, refl),
            (
              fake_action-InGroup (fake_backend_policies ns) call (refl, refl),
              (fake_action-InGroup fake_gateway_classes call (refl, refl), tt),
            ),
          ),
        ),
      ),
    ),
  )

  fake_seven-requests :
      (ns : String) (call : Call Object)
      → map action_request (fake_seven ns call) ≡ map without_options (seven meta ns call)
  unfolding request fake_action fake_backend_policies fake_gateways fake_gateway_classes
      fake_http_routes fake_tcp_routes fake_tls_routes fake_udp_routes fake_backend_policy_action
      fake_gateway_action fake_gateway_class_action fake_http_route_action fake_tcp_route_action
      fake_tls_route_action fake_udp_route_action backend_policy_request gateway_request
      gateway_class_request http_route_request tcp_route_request tls_route_request udp_route_request
  fake_seven-requests ns (get name opts) = refl
  fake_seven-requests ns (list opts) = refl
  fake_seven-requests ns (watch_all opts) = refl
  fake_seven-requests ns (create object opts) = refl
  fake_seven-requests ns (update object opts) = refl
  fake_seven-requests ns (update_status object opts) = refl
  fake_seven-requests ns (delete name opts) = refl
  fake_seven-requests ns (delete_collection opts list_opts) = refl
  fake_seven-requests ns (patch name patch_type data_bytes opts subresources) = refl

  fake_seven-described :
      (ns : String) (call : Call Object)
      → map described (fake_seven ns call) ≡ map (described_call call) kinds
  unfolding fake_action fake_backend_policies fake_gateways fake_gateway_classes fake_http_routes
      fake_tcp_routes fake_tls_routes fake_udp_routes fake_backend_policy_action fake_gateway_action
      fake_gateway_class_action fake_http_route_action fake_tcp_route_action fake_tls_route_action
      fake_udp_route_action
  fake_seven-described ns (get name opts) = refl
  fake_seven-described ns (list opts) = refl
  fake_seven-described ns (watch_all opts) = refl
  fake_seven-described ns (create object opts) = refl
  fake_seven-described ns (update object opts) = refl
  fake_seven-described ns (update_status object opts) = refl
  fake_seven-described ns (delete name opts) = refl
  fake_seven-described ns (delete_collection opts list_opts) = refl
  fake_seven-described ns (patch name patch_type data_bytes opts subresources) = refl

  -- Whatever the call, each of the seven fake clients records the action that stands for the request
  -- that the generated client builds, their options aside: the same method, namespace, resource, name,
  -- subresources and object; and it is an action on the package's group and version. It has the verb of
  -- the call, so that a watch is not a list, the client's kind where it lists, and the call's list
  -- options. The seven clients
  -- address seven resources, six of them in the namespace that the client was made for, and the gateway
  -- classes in the cluster.
  pub fake_seven-seven :
      (ns : String) (call : Call Object)
      → (map action_request (fake_seven ns call) ≡ map without_options (seven meta ns call))
        × All InGroup (fake_seven ns call)
        × (map described (fake_seven ns call) ≡ map (described_call call) kinds)
        × (distinct (resources meta (seven meta ns call)) ≡ true)
        × (namespaces meta (seven meta ns call)
            ≡ some ns ∷ some ns ∷ some ns ∷ some ns ∷ some ns ∷ some ns ∷ none ∷ [])
  fake_seven-seven ns call =
      let (distinct_resources, in_namespaces) = seven_apart meta ns call in
      (
        fake_seven-requests ns call,
        fake_seven-InGroup ns call,
        fake_seven-described ns call,
        distinct_resources,
        in_namespaces,
      )
