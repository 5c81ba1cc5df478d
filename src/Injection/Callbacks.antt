-- ===== src/Injection/Callbacks.antt =====
-- What the `init` functions of the injection's packages register with knative's injection: the callbacks,
-- in the order of the calls.
use net_gateway_api_obsolete.Prelude.{List, snoc}
use net_gateway_api_obsolete.Prelude.Outcome.{Outcome}
use net_gateway_api_obsolete.Prelude.Action.{Action}

-- The callbacks on clients.
pub record ClientCallbacks (World Ctx Config Client : Type 0) : Type 0 where
  pub clients : List (Ctx → Config → Action World Ctx)
  pub client_fetchers : List (Ctx → Outcome Client)

-- The callbacks on factories and informers.
pub record Callbacks (Ctx Informer : Type 0) : Type 0 where
  pub informer_factories : List (Ctx → Outcome Ctx)
  pub informers : List (Ctx → Outcome (Ctx × Informer))
  pub filtered_informers : List (Ctx → Outcome (Ctx × List Informer))

module _ {World Ctx Config Client : Type 0} where
  -- `RegisterClient`, `RegisterClientFetcher`
  abbrev pub register_client :
      (Ctx → Config → Action World Ctx)
      → (Ctx → Outcome Client)
      → ClientCallbacks World Ctx Config Client
      → ClientCallbacks World Ctx Config Client
  register_client client fetcher r = record {
    clients = snoc r.clients client;
    client_fetchers = snoc r.client_fetchers fetcher;
  }

module _ {Ctx Informer : Type 0} where
  -- `RegisterInformerFactory`
  abbrev pub register_informer_factory :
      (Ctx → Outcome Ctx) → Callbacks Ctx Informer → Callbacks Ctx Informer
  register_informer_factory f r = record r { informer_factories = snoc r.informer_factories f }

  -- `RegisterInformer`
  abbrev pub register_informer :
      (Ctx → Outcome (Ctx × Informer)) → Callbacks Ctx Informer → Callbacks Ctx Informer
  register_informer f r = record r { informers = snoc r.informers f }

  -- `RegisterFilteredInformers`
  abbrev pub register_filtered_informers :
      (Ctx → Outcome (Ctx × List Informer)) → Callbacks Ctx Informer → Callbacks Ctx Informer
  register_filtered_informers f r = record r { filtered_informers = snoc r.filtered_informers f }
