-- ===== src/Clientset/Scheme.antt =====
-- The schemes of the clientset and of the fake one, pkg/client/gatewayapi/clientset/versioned/scheme and
-- fake/register.go. apimachinery's scheme and its functions are parameters.
use net_gateway_api_obsolete.Prelude.{String, ◌≡◌, refl, List, [], ◌∷◌}
use net_gateway_api_obsolete.Prelude.Action.{Action, ◌>>◌}
use net_gateway_api_obsolete.Clientset.{or_die}

-- `runtime.NewScheme`, `v1.AddToGroupVersion` with the group and the version, `AddToScheme` of the gateway
-- API's package, and `AddToScheme` of a `runtime.SchemeBuilder`, a list of functions.
pub record SchemeLibrary (Scheme : Type 0) : Type 0 where
  pub new_scheme : Scheme
  pub add_to_group_version : String → String → Action Scheme (Unit {0})
  pub gateway_add_to_scheme : Action Scheme (Unit {0})
  pub builder_add_to_scheme : List (Action Scheme (Unit {0})) → Action Scheme (Unit {0})

-- `utilruntime.Must`
abbrev must : {Scheme : Type 0} → Action Scheme (Unit {0}) → Action Scheme (Unit {0})
must m s = let r = m s in (or_die r.0, r.1)

module _ {Scheme : Type 0} (lib : SchemeLibrary Scheme) where
  -- `localSchemeBuilder`
  unfoldable pub local_scheme_builder : List (Action Scheme (Unit {0}))
  local_scheme_builder = lib.gateway_add_to_scheme ∷ []

  -- `AddToScheme`
  unfoldable pub add_to_scheme : Action Scheme (Unit {0})
  unfolding local_scheme_builder
  add_to_scheme = lib.builder_add_to_scheme local_scheme_builder

  -- `init`
  unfoldable pub scheme_init : Action Scheme (Unit {0})
  unfolding add_to_scheme
  scheme_init = do lib.add_to_group_version "" "v1"; must add_to_scheme

  -- the `localSchemeBuilder` of the fake package
  unfoldable pub fake_local_scheme_builder : List (Action Scheme (Unit {0}))
  fake_local_scheme_builder = lib.gateway_add_to_scheme ∷ []

  -- the `AddToScheme` of the fake package
  unfoldable pub fake_add_to_scheme : Action Scheme (Unit {0})
  unfolding fake_local_scheme_builder
  fake_add_to_scheme = lib.builder_add_to_scheme fake_local_scheme_builder

  -- the `init` of the fake package
  unfoldable pub fake_scheme_init : Action Scheme (Unit {0})
  unfolding fake_add_to_scheme
  fake_scheme_init = do lib.add_to_group_version "" "v1"; must fake_add_to_scheme

  -- Both packages start from a new scheme, and end with the same one.
  same_schemes : scheme_init lib.new_scheme ≡ fake_scheme_init lib.new_scheme
  unfolding scheme_init fake_scheme_init local_scheme_builder fake_local_scheme_builder
      add_to_scheme fake_add_to_scheme
  same_schemes = refl
