-- ===== src/Clients.antt =====
-- The generated typed clients, pkg/client/gatewayapi/clientset/versioned/typed/apis/v1alpha1: the request
-- that each method builds. client-go's REST client, which sends it, is a parameter.
pub mod Listers
pub mod Routes
pub mod Scopes
mod Tests
use net_gateway_api_obsolete.Prelude.{
  ℕ, ◌*◌, ◌%◌, ◌^◌, String, Bool, true, Option, none, some, List, [], ◌∷◌,
}
use net_gateway_api_obsolete.Objects.{ObjectMeta}

-- The HTTP method, for a patch with its type.
pub data Verb : Type 0 where
  http_get : Verb
  http_post : Verb
  http_put : Verb
  http_delete : Verb
  http_patch : String → Verb

-- The fields of `ListOptions` that the code reads or sets; `rest` stands for the others, encoded.
pub record ListOptions : Type 0 where
  pub timeout_seconds : Option ℕ
  pub watch : Bool
  pub label_selector : String
  pub rest : String

-- What `VersionedParams` is given. Options that are only passed on are their encoding.
pub data Params : Type 0 where
  no_params : Params
  options : String → Params
  list_options : ListOptions → Params

pub data Body (Object : Type 0) : Type 0 where
  no_body : Body Object
  object_body : Object → Body Object
  options_body : String → Body Object
  patch_body : String → Body Object

-- `namespace` is `none` for a resource of the whole cluster, whose client does not call `Namespace`.
pub record RestRequest (Object : Type 0) : Type 0 where
  pub verb : Verb
  pub namespace : Option String
  pub resource : String
  pub name : Option String
  pub subresources : List String
  pub params : Params
  pub timeout : Option ℕ
  pub body : Body Object

-- A client of one resource, with the namespace that it was made for.
pub record Scope : Type 0 where
  pub namespace : Option String
  pub resource : String

-- The calls of the client's interface, with their arguments.
pub data Call (Object : Type 0) : Type 0 where
  get : String → String → Call Object
  list : ListOptions → Call Object
  watch_all : ListOptions → Call Object
  create : Object → String → Call Object
  update : Object → String → Call Object
  update_status : Object → String → Call Object
  delete : String → String → Call Object
  delete_collection : String → ListOptions → Call Object
  patch : String → String → String → String → List String → Call Object

-- `time.Duration(*opts.TimeoutSeconds) * time.Second` of a number of seconds that is not negative, in the
-- 64 bits of a duration read without a sign: below 2 ^ 63 nanoseconds the two readings are the same.
unfoldable pub duration : Option ℕ → ℕ
duration none = 0
duration (some seconds) = (seconds * 1000000000) % 2 ^ 64

module _ {Object : Type 0} (meta : Object → ObjectMeta) where
  abbrev plain : Scope → Verb → RestRequest Object
  plain scope verb = record {
    verb = verb;
    namespace = scope.namespace;
    resource = scope.resource;
    name = none;
    subresources = [];
    params = no_params;
    timeout = none;
    body = no_body;
  }

  -- The request of each method, in the order of the file.
  unfoldable pub request : Scope → Call Object → RestRequest Object
  unfolding duration
  request scope (get name opts) = record (plain scope http_get) {
    name = some name;
    params = options opts;
  }
  request scope (list opts) = record (plain scope http_get) {
    params = list_options opts;
    timeout = some (duration opts.timeout_seconds);
  }
  request scope (watch_all opts) = record (plain scope http_get) {
    params = list_options (record opts { watch = true });
    timeout = some (duration opts.timeout_seconds);
  }
  request scope (create object opts) = record (plain scope http_post) {
    params = options opts;
    body = object_body object;
  }
  request scope (update object opts) = record (plain scope http_put) {
    name = some (meta object).name;
    params = options opts;
    body = object_body object;
  }
  request scope (update_status object opts) = record (plain scope http_put) {
    name = some (meta object).name;
    subresources = "status" ∷ [];
    params = options opts;
    body = object_body object;
  }
  request scope (delete name opts) = record (plain scope http_delete) {
    name = some name;
    body = options_body opts;
  }
  request scope (delete_collection opts list_opts) = record (plain scope http_delete) {
    params = list_options list_opts;
    timeout = some (duration list_opts.timeout_seconds);
    body = options_body opts;
  }
  request scope (patch name patch_type data_bytes opts subresources) =
      record (plain scope (http_patch patch_type)) {
        name = some name;
        subresources = subresources;
        params = options opts;
        body = patch_body data_bytes;
      }

  -- The clients of the seven resources.
  unfoldable pub http_route_request : String → Call Object → RestRequest Object
  unfolding request
  http_route_request ns call =
      request (record { namespace = some ns; resource = "httproutes" }) call

  unfoldable pub gateway_request : String → Call Object → RestRequest Object
  unfolding request
  gateway_request ns call = request (record { namespace = some ns; resource = "gateways" }) call

  unfoldable pub tcp_route_request : String → Call Object → RestRequest Object
  unfolding request
  tcp_route_request ns call = request (record { namespace = some ns; resource = "tcproutes" }) call

  unfoldable pub tls_route_request : String → Call Object → RestRequest Object
  unfolding request
  tls_route_request ns call = request (record { namespace = some ns; resource = "tlsroutes" }) call

  unfoldable pub udp_route_request : String → Call Object → RestRequest Object
  unfolding request
  udp_route_request ns call = request (record { namespace = some ns; resource = "udproutes" }) call

  unfoldable pub backend_policy_request : String → Call Object → RestRequest Object
  unfolding request
  backend_policy_request ns call =
      request (record { namespace = some ns; resource = "backendpolicies" }) call

  unfoldable pub gateway_class_request : Call Object → RestRequest Object
  unfolding request
  gateway_class_request call =
      request (record { namespace = none; resource = "gatewayclasses" }) call
