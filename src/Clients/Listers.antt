-- ===== src/Clients/Listers.antt =====
-- The generated listers, pkg/client/gatewayapi/listers/apis/v1alpha1. The indexer is client-go's, a
-- parameter, and so are `cache.ListAll` and `cache.ListAllByNamespace`.
use Prim.Native.String.{◌++◌}
use net_gateway_api_obsolete.Prelude.{String, Option, none, some, List, [], ◌∷◌, snoc}
use net_gateway_api_obsolete.Prelude.Outcome.{Error, Outcome, ok, err, ◌>>=◌}

-- An indexer of objects of one type: `GetByKey`, whose result is nil where the key does not exist; the
-- objects that `ListAll` and `ListAllByNamespace` hand over, in order, and their error; and apimachinery's
-- `NewNotFound`.
pub record Indexer (World Selector Object : Type 0) : Type 0 where
  pub get_by_key : World → String → Outcome (Option Object)
  pub list_all : World → Selector → List Object × Option Error
  pub list_all_by_namespace : World → String → Selector → List Object × Option Error
  pub new_not_found : String → String → Error

-- `XNamespaceLister`
pub record NamespaceLister (World Selector Object : Type 0) : Type 0 where
  pub list : World → Selector → List Object × Option Error
  pub get : World → String → Outcome Object

-- `XLister`, `in_namespace` being the method named for the resource
pub record Lister (World Selector Object : Type 0) : Type 0 where
  pub list : World → Selector → List Object × Option Error
  pub in_namespace : String → NamespaceLister World Selector Object

-- the key of an object in a namespace
abbrev pub object_key : String → String → String
object_key namespace name = namespace ++ ("/" ++ name)

module _ {World Selector Object : Type 0} (indexer : Indexer World Selector Object) where
  -- `ret = append(ret, m)` for each object that is handed over
  abbrev pub appended : List Object → List Object → List Object
  appended ret [] = ret
  appended ret (m ∷ ms) = appended (snoc ret m) ms

  -- `return ret, err`
  abbrev pub collected : List Object × Option Error → List Object × Option Error
  collected (handed, error) = (appended [] handed, error)

  abbrev pub found_or : String → String → Option Object → Outcome Object
  found_or noun name none = err (indexer.new_not_found noun name)
  found_or noun name (some object) = ok object

  -- What the `Get`s share: the lookup of a key, and the error where it does not exist.
  unfoldable pub lister_get : String → String → World → String → Outcome Object
  lister_get noun key w name = do obj ← indexer.get_by_key w key; found_or noun name obj

  -- `BackendPolicies(namespace)` of a lister, with its `List` and `Get`
  unfoldable pub backend_policy_namespace_lister : String → NamespaceLister World Selector Object
  unfolding lister_get
  backend_policy_namespace_lister namespace = record {
    list = λ w selector. collected (indexer.list_all_by_namespace w namespace selector);
    get = λ w name. lister_get "backendpolicy" (object_key namespace name) w name;
  }

  -- `NewBackendPolicyLister`, with the `List` of the lister
  unfoldable pub backend_policy_lister : Lister World Selector Object
  unfolding backend_policy_namespace_lister
  backend_policy_lister = record {
    list = λ w selector. collected (indexer.list_all w selector);
    in_namespace = backend_policy_namespace_lister;
  }

  -- `Gateways(namespace)` of a lister, with its `List` and `Get`
  unfoldable pub gateway_namespace_lister : String → NamespaceLister World Selector Object
  unfolding lister_get
  gateway_namespace_lister namespace = record {
    list = λ w selector. collected (indexer.list_all_by_namespace w namespace selector);
    get = λ w name. lister_get "gateway" (object_key namespace name) w name;
  }

  -- `NewGatewayLister`, with the `List` of the lister
  unfoldable pub gateway_lister : Lister World Selector Object
  unfolding gateway_namespace_lister
  gateway_lister = record {
    list = λ w selector. collected (indexer.list_all w selector);
    in_namespace = gateway_namespace_lister;
  }

  -- `HTTPRoutes(namespace)` of a lister, with its `List` and `Get`
  unfoldable pub http_route_namespace_lister : String → NamespaceLister World Selector Object
  unfolding lister_get
  http_route_namespace_lister namespace = record {
    list = λ w selector. collected (indexer.list_all_by_namespace w namespace selector);
    get = λ w name. lister_get "httproute" (object_key namespace name) w name;
  }

  -- `NewHTTPRouteLister`, with the `List` of the lister
  unfoldable pub http_route_lister : Lister World Selector Object
  unfolding http_route_namespace_lister
  http_route_lister = record {
    list = λ w selector. collected (indexer.list_all w selector);
    in_namespace = http_route_namespace_lister;
  }

  -- `TCPRoutes(namespace)` of a lister, with its `List` and `Get`
  unfoldable pub tcp_route_namespace_lister : String → NamespaceLister World Selector Object
  unfolding lister_get
  tcp_route_namespace_lister namespace = record {
    list = λ w selector. collected (indexer.list_all_by_namespace w namespace selector);
    get = λ w name. lister_get "tcproute" (object_key namespace name) w name;
  }

  -- `NewTCPRouteLister`, with the `List` of the lister
  unfoldable pub tcp_route_lister : Lister World Selector Object
  unfolding tcp_route_namespace_lister
  tcp_route_lister = record {
    list = λ w selector. collected (indexer.list_all w selector);
    in_namespace = tcp_route_namespace_lister;
  }

  -- `TLSRoutes(namespace)` of a lister, with its `List` and `Get`
  unfoldable pub tls_route_namespace_lister : String → NamespaceLister World Selector Object
  unfolding lister_get
  tls_route_namespace_lister namespace = record {
    list = λ w selector. collected (indexer.list_all_by_namespace w namespace selector);
    get = λ w name. lister_get "tlsroute" (object_key namespace name) w name;
  }

  -- `NewTLSRouteLister`, with the `List` of the lister
  unfoldable pub tls_route_lister : Lister World Selector Object
  unfolding tls_route_namespace_lister
  tls_route_lister = record {
    list = λ w selector. collected (indexer.list_all w selector);
    in_namespace = tls_route_namespace_lister;
  }

  -- `UDPRoutes(namespace)` of a lister, with its `List` and `Get`
  unfoldable pub udp_route_namespace_lister : String → NamespaceLister World Selector Object
  unfolding lister_get
  udp_route_namespace_lister namespace = record {
    list = λ w selector. collected (indexer.list_all_by_namespace w namespace selector);
    get = λ w name. lister_get "udproute" (object_key namespace name) w name;
  }

  -- `NewUDPRouteLister`, with the `List` of the lister
  unfoldable pub udp_route_lister : Lister World Selector Object
  unfolding udp_route_namespace_lister
  udp_route_lister = record {
    list = λ w selector. collected (indexer.list_all w selector);
    in_namespace = udp_route_namespace_lister;
  }

  -- `NewGatewayClassLister`, with its `List` and `Get`: the name is the key, and there is no namespace.
  unfoldable pub gateway_class_lister : NamespaceLister World Selector Object
  unfolding lister_get
  gateway_class_lister = record {
    list = λ w selector. collected (indexer.list_all w selector);
    get = λ w name. lister_get "gatewayclass" name w name;
  }
