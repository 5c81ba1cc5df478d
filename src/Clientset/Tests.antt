-- ===== src/Clientset/Tests.antt =====
-- The theorem on the clientset, at a library whose clients are the texts of their configurations.
use net_gateway_api_obsolete.Prelude.{
  ℕ, zero, suc, String, ◌≡◌, refl, Bool, true, false, none, some, [],
}
use net_gateway_api_obsolete.Prelude.Outcome.{errorf, ok, err}
use net_gateway_api_obsolete.Clientset.{
  pos, RestConfig, ClientLibrary, or_die, burst_required, new_for_config, new_for_config_or_die,
  set_config_defaults,
}
use net_gateway_api_obsolete.Clientset.Limits.{new_for_config_or_die-new_for_config}
use net_gateway_api_obsolete.Clientset.Shared.{Shares, new_for_config-Shares}

abbrev positive : ℕ → Bool
positive zero = false
positive (suc n) = true

-- A rate is a number, and a rate limiter is the name of its bucket.
abbrev lib : ClientLibrary String ℕ String String String
lib = record {
  is_positive = positive;
  new_token_bucket_rate_limiter = λ qps burst. "bucket";
  default_kubernetes_user_agent = "agent";
  without_conversion = "codecs";
  rest_client_for = λ c. ok c.api_path;
  new_discovery_client_for_config = λ c. ok c.user_agent;
  new_discovery_client_for_config_or_die = λ c. or_die (ok c.user_agent);
}

dies :
    (c : RestConfig String ℕ String)
    → lib.new_discovery_client_for_config_or_die c ≡ or_die (lib.new_discovery_client_for_config c)
dies c = refl

abbrev unlimited : RestConfig String ℕ String
unlimited = record {
  rate_limiter = none;
  qps = 5;
  burst = pos 0;
  group_version = none;
  api_path = "";
  negotiated_serializer = none;
  user_agent = "controller";
  rest = "";
}

abbrev limited : RestConfig String ℕ String
limited = record unlimited { rate_limiter = some "shared" }

new_for_config_or_die-new_for_config_example :
    (new_for_config_or_die lib limited ≡ or_die (new_for_config lib limited))
    × (new_for_config lib unlimited ≡ err (errorf burst_required []))
    × (new_for_config_or_die lib unlimited
        ≡ ok (record {
          networking_v1alpha1 = record { rest_client = "/apis" };
          discovery_client = "controller";
        }))
unfolding set_config_defaults
new_for_config_or_die-new_for_config_example =
    new_for_config_or_die-new_for_config lib dies limited unlimited refl refl refl refl refl refl

made :
    new_for_config lib limited
    ≡ ok (record {
      networking_v1alpha1 = record { rest_client = "/apis" };
      discovery_client = "controller";
    })
unfolding new_for_config set_config_defaults
made = refl

new_for_config-Shares_example :
    Shares lib limited
      (record {
        networking_v1alpha1 = record { rest_client = "/apis" };
        discovery_client = "controller";
      })
      "ns"
new_for_config-Shares_example = new_for_config-Shares lib limited "ns" made
