-- ===== src/Clientset/Shared.antt =====
-- What the clients that one clientset hands out share.
use net_gateway_api_obsolete.Prelude.{
  if◌then◌else◌, ◌&&◌, ℕ, zero, suc, Bool, true, false, Option, ◌⊎◌, inl, inr, ◌≢◌, ◌==◌, eq_iff,
  arith, Bool-cases, ap, sym, ◌∙◌, String, ◌≡◌, refl, none, some, [], ◌∷◌, map,
}
use net_gateway_api_obsolete.Prelude.Outcome.{Outcome, err, errorf, ok, bind-eq-ok, ok_injective}
use net_gateway_api_obsolete.Clientset.{
  not_positive, is_nil, burst_required, ℤ, pos, negsuc, RestConfig, ClientLibrary, Clientset,
  NetworkingClient, set_config_defaults, networking_new_for_config, with_rate_limiter,
  new_for_config,
}
use net_gateway_api_obsolete.Clientset.Accessors.{
  rest_client_of, discovery, networking_v1alpha1_of, typed_clients, backend_policies_client,
  gateways_client, http_routes_client, tcp_routes_client, tls_routes_client, udp_routes_client,
  gateway_classes_client,
}

module _ {RateLimiter Qps Serializer RestClient Discovery : Type 0}
    (lib : ClientLibrary RateLimiter Qps Serializer RestClient Discovery) where
  -- The configuration that client-go is given for the group, of another: the group's version and path,
  -- the scheme's serializer, a user agent, and all else as it was.
  pub record Defaulted (c d : RestConfig RateLimiter Qps Serializer) : Type 0 where
    pub group_version : d.group_version ≡ some ("networking.x-k8s.io", "v1alpha1")
    pub api_path : d.api_path ≡ "/apis"
    pub negotiated_serializer : d.negotiated_serializer ≡ some lib.without_conversion
    pub user_agent :
        ((c.user_agent ≡ "") × (d.user_agent ≡ lib.default_kubernetes_user_agent))
        ⊎ ((c.user_agent ≢ "") × (d.user_agent ≡ c.user_agent))
    pub rate_limiter : d.rate_limiter ≡ c.rate_limiter
    pub qps : d.qps ≡ c.qps
    pub burst : d.burst ≡ c.burst
    pub rest : d.rest ≡ c.rest

  set_config_defaults-Defaulted :
      (c : RestConfig RateLimiter Qps Serializer) → Defaulted c (set_config_defaults lib c)
  unfolding set_config_defaults
  set_config_defaults-Defaulted c = record {
    group_version = refl;
    api_path = refl;
    negotiated_serializer = refl;
    user_agent = elim (Bool-cases (c.user_agent == "")) [
      | inl e ↦ inl ((eq_iff c.user_agent "").0 e, rw e refl)
      | inr n ↦ inr (λ e. ground (arith, n, e, eq_iff c.user_agent ""), rw n refl)
    ];
    rate_limiter = refl;
    qps = refl;
    burst = refl;
    rest = refl;
  }

  -- The configuration with a rate limiter: as it was, where it has one or sets no rate, and with a
  -- token bucket of its rate and its burst, which is then positive, where it has none and sets a rate.
  abbrev pub Limited : (c d : RestConfig RateLimiter Qps Serializer) → Type 0
  Limited c d =
      ((d ≡ c) × ((c.rate_limiter ≢ none) ⊎ (lib.is_positive c.qps ≡ false)))
      ⊎ ((c.rate_limiter ≡ none)
          × (lib.is_positive c.qps ≡ true)
          × (n : ℕ) × (c.burst ≡ pos (suc n))
          × (d
              ≡ record c { rate_limiter = some (lib.new_token_bucket_rate_limiter c.qps c.burst) }))

  abbrev limiter_made :
      RestConfig RateLimiter Qps Serializer → Outcome (RestConfig RateLimiter Qps Serializer)
  limiter_made c =
      if not_positive c.burst
      then err (errorf burst_required [])
      else ok (record c { rate_limiter = some (lib.new_token_bucket_rate_limiter c.qps c.burst) })

  limiter_made-eq-ok :
      (c : RestConfig RateLimiter Qps Serializer) (burst : ℤ)
      {d : RestConfig RateLimiter Qps Serializer}
      → c.burst ≡ burst
      → limiter_made c ≡ ok d
      → (n : ℕ) × (burst ≡ pos (suc n))
        × (d ≡ record c { rate_limiter = some (lib.new_token_bucket_rate_limiter c.qps c.burst) })
  limiter_made-eq-ok c burst {d} r h = by_sign burst (
      ap
        (λ (b : Bool).
          if b
          then err (errorf burst_required [])
          else ok
              (record c { rate_limiter = some (lib.new_token_bucket_rate_limiter c.qps c.burst) }))
        (ap not_positive (sym r))
      ∙ h)
    where
      by_sign :
          (sign : ℤ)
          → (if not_positive sign
              then err (errorf burst_required [])
              else ok (record c {
                rate_limiter = some (lib.new_token_bucket_rate_limiter c.qps c.burst);
              }))
            ≡ ok d
          → (n : ℕ) × (sign ≡ pos (suc n))
            × (d ≡ record c {
              rate_limiter = some (lib.new_token_bucket_rate_limiter c.qps c.burst);
            })
      by_sign (pos zero) e = cc
      by_sign (pos (suc n)) e = (n, refl, sym (ok_injective e))
      by_sign (negsuc n) e = cc

  not_limited :
      (c : RestConfig RateLimiter Qps Serializer) {d : RestConfig RateLimiter Qps Serializer}
      → (is_nil c.rate_limiter && lib.is_positive c.qps) ≡ false
      → with_rate_limiter lib c ≡ ok d
      → d ≡ c
  unfolding with_rate_limiter
  not_limited c has h =
      let kept : with_rate_limiter lib c ≡ ok c =
        ap (λ (b : Bool). if b then limiter_made c else ok c) has in
      sym (ok_injective (sym kept ∙ h))

  limited-Limited :
      (c : RestConfig RateLimiter Qps Serializer) (limiter : Option RateLimiter) (positive : Bool)
      (burst : ℤ) {d : RestConfig RateLimiter Qps Serializer}
      → c.rate_limiter ≡ limiter
      → lib.is_positive c.qps ≡ positive
      → c.burst ≡ burst
      → with_rate_limiter lib c ≡ ok d
      → Limited c d
  unfolding with_rate_limiter
  limited-Limited c (some limiter) positive burst p q r h =
      inl (not_limited c (rw p refl) h, inl (λ e. none_apart (sym p ∙ e)))
    where
      none_apart : some limiter ≢ none
      none_apart e = cc
  limited-Limited c none false burst p q r h = inl (not_limited c (rw (p, q) refl) h, inr q)
  limited-Limited c none true burst {d} p q r h =
      let no_limiter : (is_nil c.rate_limiter && lib.is_positive c.qps) ≡ true = rw (p, q) refl in
      let chosen : with_rate_limiter lib c ≡ limiter_made c =
        ap (λ (b : Bool). if b then limiter_made c else ok c) no_limiter in
      let (n, positive, made) = limiter_made-eq-ok c burst r (sym chosen ∙ h) in
      inr (p, q, n, r ∙ positive, made)

  -- What the clients of a clientset share: the one REST client, which is made from the configuration
  -- with its rate limiter and the defaults of the group, as the discovery client is from the same
  -- one without the defaults.
  pub record Shares (c : RestConfig RateLimiter Qps Serializer)
      (cs : Clientset RestClient Discovery) (namespace : String) : Type 0 where
    pub config : RestConfig RateLimiter Qps Serializer
    pub limited : Limited c config
    pub configured : RestConfig RateLimiter Qps Serializer
    pub defaulted : Defaulted config configured
    pub rest : RestClient
    pub rest_made : lib.rest_client_for configured ≡ ok rest
    pub found : Discovery
    pub found_made : lib.new_discovery_client_for_config config ≡ ok found
    pub discovery_same : discovery (some cs) ≡ some found
    pub clients :
        map (λ t. t.client) (typed_clients (networking_v1alpha1_of cs) namespace)
        ≡ some rest ∷ some rest ∷ some rest ∷ some rest ∷ some rest ∷ some rest ∷ some rest ∷ []
    pub namespaces :
        map (λ t. t.ns) (typed_clients (networking_v1alpha1_of cs) namespace)
        ≡ some namespace
          ∷ some namespace
          ∷ some namespace
          ∷ some namespace
          ∷ some namespace
          ∷ some namespace
          ∷ none
          ∷ []

  -- Where NewForConfig returns a clientset: its seven typed clients share one REST client, which
  -- client-go made from the configuration with a rate limiter where it sets a rate, and with the
  -- group's version and path, the scheme's serializer and a user agent, the default one if it has none; and
  -- its discovery client is made from the same configuration without those defaults. Six of the typed
  -- clients are for the namespace that they were asked for, and the gateway classes' is for none.
  pub new_for_config-Shares :
      (c : RestConfig RateLimiter Qps Serializer) {cs : Clientset RestClient Discovery}
      (namespace : String)
      → new_for_config lib c ≡ ok cs
      → Shares c cs namespace
  unfolding new_for_config networking_new_for_config rest_client_of discovery networking_v1alpha1_of
      backend_policies_client gateways_client http_routes_client tcp_routes_client tls_routes_client
      udp_routes_client gateway_classes_client
  new_for_config-Shares c {cs} namespace h =
      let (config, limited, h1) = bind-eq-ok (with_rate_limiter lib c) _ h in
      let (client, made, h2) = bind-eq-ok (networking_new_for_config lib config) _ h1 in
      let (found, found_made, end) = bind-eq-ok (lib.new_discovery_client_for_config config) _ h2 in
      let (rest, rest_made, wrapped) =
        bind-eq-ok (lib.rest_client_for (set_config_defaults lib config)) _ made in
      let same : record { networking_v1alpha1 = client; discovery_client = found } ≡ cs =
        ok_injective end in
      let rest_eq : cs.networking_v1alpha1.rest_client ≡ rest =
        ap (λ (x : Clientset RestClient Discovery). x.networking_v1alpha1.rest_client) (sym same)
        ∙ ap (λ (x : NetworkingClient RestClient). x.rest_client) (sym (ok_injective wrapped)) in
      record {
        config = config;
        limited = limited-Limited c _ _ _ refl refl refl limited;
        configured = set_config_defaults lib config;
        defaulted = set_config_defaults-Defaulted config;
        rest = rest;
        rest_made = rest_made;
        found = found;
        found_made = found_made;
        discovery_same =
            ap (λ (x : Clientset RestClient Discovery). some x.discovery_client) (sym same);
        clients =
            ap
              (λ (r : RestClient).
                some r ∷ some r ∷ some r ∷ some r ∷ some r ∷ some r ∷ some r ∷ [])
              rest_eq;
        namespaces = refl;
      }
