-- ===== src/Clients/Scopes.antt =====
-- Which resource each generated client addresses, and how long its requests may take.
use net_gateway_api_obsolete.Prelude.{
  ℕ, ◌*◌, ◌<◌, ◌^◌, String, ◌≡◌, refl, ap, ◌∙◌, Bool, true, false, not, ◌&&◌, ◌||◌, Option, none,
  some, List, [], ◌∷◌, ◌==◌, arith,
}
use net_gateway_api_obsolete.Objects.{ObjectMeta}
use net_gateway_api_obsolete.Clients.{
  RestRequest, Scope, ListOptions, Call, get, list, watch_all, create, update, update_status,
  delete, delete_collection, patch, duration, request, http_route_request, gateway_request,
  tcp_route_request, tls_route_request, udp_route_request, backend_policy_request,
  gateway_class_request,
}

abbrev occurs : String → List String → Bool
occurs s [] = false
occurs s (t ∷ ts) = (s == t) || occurs s ts

-- No text stands in the list twice.
abbrev pub distinct : List String → Bool
distinct [] = true
distinct (s ∷ ss) = not (occurs s ss) && distinct ss

duration_small : (n : ℕ) → n < 2 ^ 33 → duration (some n) ≡ n * 1000000000
unfolding duration
duration_small n small = omega arith

module _ {Object : Type 0} (meta : Object → ObjectMeta) where
  -- The requests that the seven clients build for one call each, whose namespace is the same.
  abbrev pub seven : String → Call Object → List (RestRequest Object)
  seven ns call =
      http_route_request meta ns call
      ∷ gateway_request meta ns call
      ∷ tcp_route_request meta ns call
      ∷ tls_route_request meta ns call
      ∷ udp_route_request meta ns call
      ∷ backend_policy_request meta ns call
      ∷ gateway_class_request meta call
      ∷ []

  abbrev pub resources : List (RestRequest Object) → List String
  resources [] = []
  resources (r ∷ rs) = r.resource ∷ resources rs

  abbrev pub namespaces : List (RestRequest Object) → List (Option String)
  namespaces [] = []
  namespaces (r ∷ rs) = r.namespace ∷ namespaces rs

  -- Whatever the call, the seven clients address seven resources: six of them in the namespace that the
  -- client was made for, and the gateway classes in the cluster.
  pub seven_apart :
      (ns : String) (call : Call Object)
      → (distinct (resources (seven ns call)) ≡ true)
        × (namespaces (seven ns call)
            ≡ some ns ∷ some ns ∷ some ns ∷ some ns ∷ some ns ∷ some ns ∷ none ∷ [])
  unfolding request http_route_request gateway_request tcp_route_request tls_route_request
      udp_route_request backend_policy_request gateway_class_request
  seven_apart ns (get name opts) = (refl, refl)
  seven_apart ns (list opts) = (refl, refl)
  seven_apart ns (watch_all opts) = (refl, refl)
  seven_apart ns (create object opts) = (refl, refl)
  seven_apart ns (update object opts) = (refl, refl)
  seven_apart ns (update_status object opts) = (refl, refl)
  seven_apart ns (delete name opts) = (refl, refl)
  seven_apart ns (delete_collection opts list_opts) = (refl, refl)
  seven_apart ns (patch name patch_type data_bytes opts subresources) = (refl, refl)

  -- The requests that list, watch or delete a collection carry the timeout of their options in
  -- nanoseconds, where it is below 2 ^ 33 seconds.
  pub request_timeout :
      (scope : Scope) (opts : ListOptions) (n : ℕ) (delete_opts : String)
      → opts.timeout_seconds ≡ some n
      → n < 2 ^ 33
      → ((request meta scope (list opts)).timeout ≡ some (n * 1000000000))
        × ((request meta scope (watch_all opts)).timeout ≡ some (n * 1000000000))
        × ((request meta scope (delete_collection delete_opts opts)).timeout
            ≡ some (n * 1000000000))
  unfolding request duration
  request_timeout scope opts n delete_opts e small =
      let exact : some (duration opts.timeout_seconds) ≡ some (n * 1000000000) =
        ap (λ (o : Option ℕ). some (duration o)) e ∙ ap some (duration_small n small) in
      (exact, exact, exact)
