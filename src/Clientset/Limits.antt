-- ===== src/Clientset/Limits.antt =====
-- The two constructors of the clientset, with and without a rate limiter in the configuration.
use net_gateway_api_obsolete.Prelude.{
  ◌≡◌, refl, sym, ap, ◌∙◌, Bool, true, false, ◌&&◌, none, some, [], if◌then◌else◌,
}
use net_gateway_api_obsolete.Prelude.Outcome.{
  errorf, Outcome, ok, err, panic, ◌>>=◌, bind_ok, bind_err,
}
use net_gateway_api_obsolete.Clientset.{
  RestConfig, ClientLibrary, Clientset, NetworkingClient, not_positive, or_die, is_nil,
  burst_required, set_config_defaults, networking_new_for_config, networking_new_for_config_or_die,
  with_rate_limiter, new_for_config, new_for_config_or_die,
}

if_unset : {A : Type 0} (b : Bool) (x y : A) → b ≡ false → (if b then x else y) ≡ y
if_unset b x y e = rw e refl

or_die_both :
    {A B C : Type 0} (m : Outcome A) (n : Outcome B) (f : A → B → C)
    → (or_die m >>= λ a. or_die n >>= λ b. ok (f a b)) ≡ or_die (m >>= λ a. n >>= λ b. ok (f a b))
or_die_both (ok a) (ok b) f = refl
or_die_both (ok a) (err e) f = refl
or_die_both (ok a) panic f = refl
or_die_both (err e) n f = refl
or_die_both panic n f = refl

module _ {RateLimiter Qps Serializer RestClient Discovery : Type 0}
    (lib : ClientLibrary RateLimiter Qps Serializer RestClient Discovery)
    (dies : (c : RestConfig RateLimiter Qps Serializer)
      → lib.new_discovery_client_for_config_or_die c
        ≡ or_die (lib.new_discovery_client_for_config c)) where
  abbrev both : NetworkingClient RestClient → Discovery → Clientset RestClient Discovery
  both n d = record { networking_v1alpha1 = n; discovery_client = d }

  with_rate_limiter_set :
      (c : RestConfig RateLimiter Qps Serializer) {l : RateLimiter}
      → c.rate_limiter ≡ some l
      → with_rate_limiter lib c ≡ ok c
  unfolding with_rate_limiter
  with_rate_limiter_set c h =
      let set : (is_nil c.rate_limiter && lib.is_positive c.qps) ≡ false =
        ap (λ o. is_nil o && lib.is_positive c.qps) h in
      if_unset _ _ _ set

  with_rate_limiter_refused :
      (c : RestConfig RateLimiter Qps Serializer)
      → c.rate_limiter ≡ none
      → lib.is_positive c.qps ≡ true
      → not_positive c.burst ≡ true
      → with_rate_limiter lib c ≡ err (errorf burst_required [])
  unfolding with_rate_limiter
  with_rate_limiter_refused c h p b = rw (h, p, b) refl

  -- For a configuration that has its rate limiter, NewForConfigOrDie returns the clients that NewForConfig
  -- returns, and panics where that is an error. But for one without, which sets a rate and no burst,
  -- NewForConfig is an error, and NewForConfigOrDie does not panic: it returns clients, where client-go
  -- makes them. client-go's NewDiscoveryClientForConfigOrDie panics where its other constructor fails.
  pub new_for_config_or_die-new_for_config :
      (limited unlimited : RestConfig RateLimiter Qps Serializer) {l : RateLimiter}
      {client : RestClient} {discovery : Discovery}
      → limited.rate_limiter ≡ some l
      → unlimited.rate_limiter ≡ none
      → lib.is_positive unlimited.qps ≡ true
      → not_positive unlimited.burst ≡ true
      → lib.rest_client_for (set_config_defaults lib unlimited) ≡ ok client
      → lib.new_discovery_client_for_config unlimited ≡ ok discovery
      → (new_for_config_or_die lib limited ≡ or_die (new_for_config lib limited))
        × (new_for_config lib unlimited ≡ err (errorf burst_required []))
        × (new_for_config_or_die lib unlimited
            ≡ ok (record {
              networking_v1alpha1 = record { rest_client = client };
              discovery_client = discovery;
            }))
  unfolding new_for_config new_for_config_or_die networking_new_for_config_or_die
  new_for_config_or_die-new_for_config limited unlimited set unset positive small made found = (
    ap
          (λ found.
            or_die (networking_new_for_config lib limited) >>= λ n. found >>= λ d. ok (both n d))
          (dies limited)
        ∙ or_die_both (networking_new_for_config lib limited)
            (lib.new_discovery_client_for_config limited) both
        ∙ ap or_die (sym (bind_ok _ (with_rate_limiter_set limited set))),
    bind_err _ (with_rate_limiter_refused unlimited unset positive small),
    bind_ok _ (ap or_die (bind_ok _ made)) ∙ bind_ok _ (dies unlimited ∙ ap or_die found),
  )
