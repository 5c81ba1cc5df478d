-- ===== src/Config/Context.antt =====
-- The configuration in a request's context, pkg/reconciler/ingress/config/store.go.
use net_gateway_api_obsolete.Prelude.{◌≡◌, ◌↔◌, arith, Option, none, some}
use net_gateway_api_obsolete.Prelude.Outcome.{Outcome, ok, panic, ◌>>=◌}
use net_gateway_api_obsolete.Config.{Gateway}

-- `Config`, whose fields are pointers. `Network` is knative's network configuration.
pub record Config (Network : Type 0) : Type 0 where
  pub network : Option Network
  pub gateway : Option Gateway

-- What `ctx.Value(cfgKey{})` returns: `none` if no `WithValue` set the key, else a `*Config`, which
-- may be nil.
pub record Context (Network : Type 0) : Type 0 where
  pub value : Option (Option (Config Network))

-- `v.(T)`, which panics on nil
abbrev type_assertion : {A : Type 0} → Option A → Outcome A
type_assertion none = panic
type_assertion (some a) = ok a

module _ {Network : Type 0} where
  -- `FromContext`: the assertion on the type panics where the key was never set.
  unfoldable pub from_context : Context Network → Outcome (Option (Config Network))
  from_context ctx = type_assertion ctx.value

  abbrev config_or_default : Option (Config Network) → Config Network
  config_or_default none = record { network = none; gateway = none }
  config_or_default (some cfg) = cfg

  -- `FromContextOrDefaults`
  unfoldable pub from_context_or_defaults : Context Network → Outcome (Config Network)
  unfolding from_context
  from_context_or_defaults ctx = do cfg ← from_context ctx; ok (config_or_default cfg)

  -- `ToContext`
  unfoldable pub to_context : Context Network → Option (Config Network) → Context Network
  to_context ctx c = record ctx { value = some c }

  -- The defaults serve a context with a nil configuration only: where no configuration was ever
  -- put in the context, the call panics, and in no other case.
  pub from_context_or_defaults_panics :
      (ctx : Context Network) → (from_context_or_defaults ctx ≡ panic) ↔ (ctx.value ≡ none)
  unfolding from_context_or_defaults
  from_context_or_defaults_panics ctx = (λ h. ground arith, λ h. ground arith)
