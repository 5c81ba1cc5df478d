-- ===== src/Lib.antt =====
-- Verification of the ingress controller of net-gateway-api-obsolete: it turns knative Ingress objects
-- into HTTPRoutes of the Kubernetes gateway API.
--
-- The program. A reconciliation is given one Ingress. For every rule it makes the HTTPRoute that the
-- rule asks for, creates it on the API server or updates the one that the informer's cache shows,
-- and marks the ingress's status by what the route's gateways report. Then it asks a prober whether
-- the gateways serve the ingress and marks the load balancer. The prober takes its targets from the
-- probe lister. All of them read the gateway configuration, which a store loads from a config map
-- and puts in the context of each request.
--
-- The files, and the code that each is about (paths from the repository's root):
-- - Prelude: shared names. Go's outcomes (a result, an error value, a panic), actions that change a
--   state and may fail, lists, Go's order on strings.
-- - GoMap: Go's maps, as the entries in the order of one range over them.
-- - Hosts: sort.Strings on host names, with its order laws.
-- - Objects: the vendored API types, as far as their fields are read or set
--   (vendor/knative.dev/networking, vendor/sigs.k8s.io/gateway-api).
-- - Libraries: what the code calls of kmeta, client-go's cache, intstr and network, as parameters.
-- - Config: pkg/reconciler/ingress/config/gateway.go, with NewGatewayFromConfigMap as
--   new_gateway_from_config_map, LookupGateway, LookupGatewayClass and LookupService; in Config/Context,
--   Config/Store and Config/Changes store.go, with NewStore as new_store; in Config/Heap
--   zz_generated.deepcopy.go.
-- - Resources: pkg/reconciler/ingress/resources, with LongestHost as longest_host, MakeHTTPRoute as
--   make_http_route, makeHTTPRouteSpec and makeHTTPRouteRule.
-- - Readiness: pkg/reconciler/ingress/ingress.go, with IsHTTPRouteReady and isGatewayAdmitted.
-- - Probe: pkg/reconciler/ingress/lister.go, with ListProbeTargets, getIngressUrls and domainsToURL.
-- - Reconcile: pkg/reconciler/ingress/reconcile_resources.go, with reconcileHTTPRoute.
-- - Sync: pkg/reconciler/ingress/ingress.go, with ReconcileKind and reconcileIngress.
-- - Clients: pkg/client/gatewayapi/clientset/versioned/typed/apis/v1alpha1, the requests of the typed
--   clients; in Clients/Listers pkg/client/gatewayapi/listers/apis/v1alpha1; in Clients/Routes the client
--   and the lister that pkg/reconciler/ingress/controller.go gives the reconciler.
-- - Informers: pkg/client/gatewayapi/informers/externalversions, with InformerFor of factory.go as
--   informer_for, Start as start and WaitForCacheSync as wait_for_cache_sync; in Informers/Resources
--   apis/v1alpha1; in Informers/Generic generic.go, with ForResource as for_resource.
-- - Clientset: pkg/client/gatewayapi/clientset/versioned/clientset.go and apis_client.go of its typed
--   clients, with NewForConfig as new_for_config and NewForConfigOrDie as new_for_config_or_die; in
--   Clientset/Accessors the methods that hand out clients; in Clientset/Scheme scheme/register.go and
--   fake/register.go.
-- - Fakes: the fake clients beside the typed ones, fake_action being the action of a method; in
--   Fakes/Simple pkg/client/gatewayapi/clientset/versioned/fake/clientset_generated.go, with
--   NewSimpleClientset as new_simple_clientset, and fake_apis_client.go.
-- - Injection: pkg/client/gatewayapi/injection, with client, informers/factory and its filtered
--   factories; in Injection/Resources the informers' packages; in Injection/Fakes and
--   Injection/FakePackages the fakes of all these; in Injection/Registry and with each package what its
--   init function registers.
-- - Controller: pkg/reconciler/ingress/controller.go, with NewController as new_controller and its
--   handlers as add_event_handlers.
-- - Samples: concrete libraries, a cluster, an object tracker and an ingress for the tests.
--
-- State. A reconciliation passes a state on: the ingress that it was given, the world (the API server
-- and the informer's cache, abstract), and the events that were recorded. LongestHost sorts its
-- caller's slice in place, and the copy of a rule that the loop takes shares that slice with the
-- ingress: the model writes the sorted rule back to its place in the ingress. The status of an ingress
-- is abstract, written through its methods; Conditions of Sync/Ready states what their
-- documentation says of the two conditions that the theorems read.
--
-- A shared informer factory is a record that each call passes on; its lock makes a call one step,
-- and Informers/Runs and Informers/Uses let any calls come in any order. The record also keeps which
-- informers were run, which the source leaves to goroutines. The keys of the factory's maps are the
-- names of the types. The filtered factories' closures read the loop variable that they share: a
-- factory is made as a function of what that variable holds when the closure is called.
--
-- An informer factory is kept without its client, which it only hands to the constructors of informers:
-- what an informer's functions do is the request that they make of that client.
--
-- The configuration is a value where it is read. Where it is copied, in Config/Heap, it is a map of
-- pointers into a heap of cells, so that a write through one pointer may be seen through another.
--
-- Numbers. An int that the code counts with is a natural number, the burst of a client is signed;
-- the conversions to int32 keep the low 32 bits, and the theorems on weights and ports ask for
-- values below 2 ^ 31. All loops are structural recursion on the slice or map that they range over,
-- so no fuel is used. A map is ranged over in the order of its entries, and what holds of every list
-- of entries holds of every order.
--
-- Interfaces. The reconciler is over a RouteClient, a lister and a client of HTTPRoutes;
-- generated_client of Clients/Routes fills it with the generated code, over client-go's indexer and
-- REST client. The fake clients are over a Testing, which the FakeLibrary of Fakes/Simple has for each
-- of client-go's fakes.
--
-- The gateway API's test of a path against a prefix is a parameter too: it is the ingress's, a literal
-- prefix, but for paths that end in '/', where the two documents differ. Those are left out of the
-- theorems on the requests that a route takes. A fatal log of knative's store ends the process.
--
-- client-go's REST client, its indexers, its testing package with the object tracker, apimachinery's
-- scheme, knative's store and the SetupInformers of its injection are parameters too: the requests and
-- the actions are values, and what answers them is given.
--
-- Not modelled: logging; what an informer does once it runs; vendored libraries; the test helpers; cmd
-- and hack.
pub mod Prelude
pub mod GoMap
pub mod Hosts
pub mod Objects
pub mod Libraries
pub mod Config
pub mod Resources
pub mod Readiness
pub mod Probe
pub mod Reconcile
pub mod Sync
pub mod Clients
pub mod Informers
pub mod Clientset
pub mod Fakes
pub mod Injection
pub mod Controller
pub mod Samples
