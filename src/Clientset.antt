-- ===== src/Clientset.antt =====
-- The clientset and the client of its group, pkg/client/gatewayapi/clientset/versioned/clientset.go and
-- typed/apis/v1alpha1/apis_client.go: the configurations that they give to client-go, whose constructors
-- are parameters.
pub mod Accessors
pub mod Limits
pub mod Scheme
pub mod Shared
mod Tests
use net_gateway_api_obsolete.Prelude.{
  ℕ, zero, suc, String, Bool, true, false, ◌&&◌, Option, none, some, [], ◌==◌, if◌then◌else◌,
}
use net_gateway_api_obsolete.Prelude.Outcome.{errorf, Outcome, ok, err, panic, ◌>>=◌}
use net_gateway_api_obsolete.Informers.Generic.{group_name, version_name}

-- An `int`.
pub data ℤ : Type 0 where
  pos : ℕ → ℤ
  negsuc : ℕ → ℤ

-- `n <= 0`
abbrev pub not_positive : ℤ → Bool
not_positive (pos zero) = true
not_positive (pos (suc n)) = false
not_positive (negsuc n) = true

-- The fields of `rest.Config` that the code reads or sets; `rest` stands for the others. `Qps` is its
-- 32-bit floating point type.
pub record RestConfig (RateLimiter Qps Serializer : Type 0) : Type 0 where
  pub rate_limiter : Option RateLimiter
  pub qps : Qps
  pub burst : ℤ
  pub group_version : Option (String × String)
  pub api_path : String
  pub negotiated_serializer : Option Serializer
  pub user_agent : String
  pub rest : String

-- client-go: `QPS > 0`, the constructors of a rate limiter, of a REST client and of a discovery client,
-- `scheme.Codecs.WithoutConversion()` and the default of the user agent.
pub record ClientLibrary (RateLimiter Qps Serializer RestClient Discovery : Type 0) : Type 0 where
  pub is_positive : Qps → Bool
  pub new_token_bucket_rate_limiter : Qps → ℤ → RateLimiter
  pub default_kubernetes_user_agent : String
  pub without_conversion : Serializer
  pub rest_client_for : RestConfig RateLimiter Qps Serializer → Outcome RestClient
  pub new_discovery_client_for_config : RestConfig RateLimiter Qps Serializer → Outcome Discovery
  pub new_discovery_client_for_config_or_die :
      RestConfig RateLimiter Qps Serializer → Outcome Discovery

-- `NetworkingV1alpha1Client`
pub record NetworkingClient (RestClient : Type 0) : Type 0 where
  pub rest_client : RestClient

-- `Clientset`
pub record Clientset (RestClient Discovery : Type 0) : Type 0 where
  pub discovery_client : Discovery
  pub networking_v1alpha1 : NetworkingClient RestClient

-- `if err != nil { panic(err) }`
abbrev pub or_die : {A : Type 0} → Outcome A → Outcome A
or_die (ok a) = ok a
or_die (err e) = panic
or_die panic = panic

abbrev pub is_nil : {A : Type 0} → Option A → Bool
is_nil none = true
is_nil (some a) = false

-- the message of `NewForConfig`
abbrev pub burst_required : String
burst_required =
    "burst is required to be greater than 0 when RateLimiter is not set and QPS is set to greater than 0"

module _ {RateLimiter Qps Serializer RestClient Discovery : Type 0}
    (lib : ClientLibrary RateLimiter Qps Serializer RestClient Discovery) where
  -- `setConfigDefaults`, whose error is always nil
  unfoldable pub set_config_defaults :
      RestConfig RateLimiter Qps Serializer → RestConfig RateLimiter Qps Serializer
  set_config_defaults config = record config {
    group_version = some (group_name, version_name);
    api_path = "/apis";
    negotiated_serializer = some lib.without_conversion;
    user_agent =
        if config.user_agent == "" then lib.default_kubernetes_user_agent else config.user_agent;
  }

  -- `NewForConfig` of the group's client
  unfoldable pub networking_new_for_config :
      RestConfig RateLimiter Qps Serializer → Outcome (NetworkingClient RestClient)
  unfolding set_config_defaults
  networking_new_for_config c = do
    client ← lib.rest_client_for (set_config_defaults c)
    ok (record { rest_client = client })

  -- `NewForConfigOrDie` of the group's client
  unfoldable pub networking_new_for_config_or_die :
      RestConfig RateLimiter Qps Serializer → Outcome (NetworkingClient RestClient)
  unfolding networking_new_for_config
  networking_new_for_config_or_die c = or_die (networking_new_for_config c)

  -- The copy of the configuration, with a rate limiter where it has none and sets a rate.
  unfoldable pub with_rate_limiter :
      RestConfig RateLimiter Qps Serializer → Outcome (RestConfig RateLimiter Qps Serializer)
  with_rate_limiter c =
      if is_nil c.rate_limiter && lib.is_positive c.qps
      then (if not_positive c.burst
          then err (errorf burst_required [])
          else ok
              (record c { rate_limiter = some (lib.new_token_bucket_rate_limiter c.qps c.burst) }))
      else ok c

  -- `NewForConfig`
  unfoldable pub new_for_config :
      RestConfig RateLimiter Qps Serializer → Outcome (Clientset RestClient Discovery)
  unfolding with_rate_limiter networking_new_for_config
  new_for_config c = do
    config_shallow_copy ← with_rate_limiter c
    networking ← networking_new_for_config config_shallow_copy
    discovery ← lib.new_discovery_client_for_config config_shallow_copy
    ok (record { networking_v1alpha1 = networking; discovery_client = discovery })

  -- `NewForConfigOrDie`
  unfoldable pub new_for_config_or_die :
      RestConfig RateLimiter Qps Serializer → Outcome (Clientset RestClient Discovery)
  unfolding networking_new_for_config_or_die
  new_for_config_or_die c = do
    networking ← networking_new_for_config_or_die c
    discovery ← lib.new_discovery_client_for_config_or_die c
    ok (record { networking_v1alpha1 = networking; discovery_client = discovery })
