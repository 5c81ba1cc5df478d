-- ===== src/Injection/Setup.antt =====
-- What a context has after the set-up of everything that the packages' `init` functions registered.
-- knative's `SetupInformers` is a parameter; `set_up` says in which order its documentation lets the
-- callbacks run.
use mathlib.Core.List.{append-nil}
use net_gateway_api_obsolete.Prelude.{
  String, ◌≡◌, refl, ap, ◌∙◌, Option, some, List, [], ◌∷◌, ◌++◌, All, ◌==◌, Bool-cases, inl, inr,
  eq_refl,
}
use net_gateway_api_obsolete.Prelude.Outcome.{Outcome, ok, ◌>>=◌, bind_ok}
use net_gateway_api_obsolete.Prelude.Action.{Action, lift, continue}
use net_gateway_api_obsolete.GoMap.{lookup, insert, lookup-insert}
use net_gateway_api_obsolete.Objects.{ObjectMeta}
use net_gateway_api_obsolete.Informers.{
  SharedIndexInformer, SharedInformerFactory, TweakListOptions,
}
use net_gateway_api_obsolete.Informers.Resources.{Version, Accessor, networking, informer_of}
use net_gateway_api_obsolete.Informers.Scopes.{Serves, IsScoped, informer_of-IsScoped}
use net_gateway_api_obsolete.Informers.Uses.{held_informer}
use net_gateway_api_obsolete.Resources.Forwards.{Pairs}
use net_gateway_api_obsolete.Injection.{InjectionContext, package_of, present, factory_get}
use net_gateway_api_obsolete.Injection.Callbacks.{ClientCallbacks, Callbacks}
use net_gateway_api_obsolete.Injection.Resources.{with_informer}

module _ {World Ctx Config : Type 0} where
  abbrev pub run_clients : List (Ctx → Config → Action World Ctx) → Ctx → Config → Action World Ctx
  run_clients [] ctx cfg w = (ok ctx, w)
  run_clients (f ∷ fs) ctx cfg w = continue (λ next. run_clients fs next cfg) (f ctx cfg w)

module _ {Ctx : Type 0} where
  abbrev pub run_factories : List (Ctx → Outcome Ctx) → Ctx → Outcome Ctx
  run_factories [] ctx = ok ctx
  run_factories (f ∷ fs) ctx = f ctx >>= λ next. run_factories fs next

module _ {Ctx Informer : Type 0} where
  abbrev pub run_informers :
      List (Ctx → Outcome (Ctx × Informer)) → Ctx → Outcome (Ctx × List Informer)
  run_informers [] ctx = ok (ctx, [])
  run_informers (f ∷ fs) ctx =
      f ctx >>= λ made. run_informers fs made.0 >>= λ rest. ok (rest.0, made.1 ∷ rest.1)

  abbrev pub run_filtered :
      List (Ctx → Outcome (Ctx × List Informer)) → Ctx → Outcome (Ctx × List Informer)
  run_filtered [] ctx = ok (ctx, [])
  run_filtered (f ∷ fs) ctx =
      f ctx >>= λ made. run_filtered fs made.0 >>= λ rest. ok (rest.0, made.1 ++ rest.1)

  -- The factories, the informers, the filtered informers.
  abbrev pub run_callbacks : Callbacks Ctx Informer → Ctx → Outcome (Ctx × List Informer)
  run_callbacks r ctx = run_factories r.informer_factories ctx >>= λ with_factories.
      run_informers r.informers with_factories >>= λ with_informers.
      run_filtered r.filtered_informers with_informers.0 >>= λ last.
      ok (last.0, with_informers.1 ++ last.1)

module _ {World Ctx Config Client Informer : Type 0} where
  -- The clients with the configuration, then the others.
  abbrev pub set_up :
      ClientCallbacks World Ctx Config Client
      → Callbacks Ctx Informer
      → Ctx
      → Config
      → Action World (Ctx × List Informer)
  set_up clients callbacks ctx cfg w =
      continue (λ with_clients. lift (run_callbacks callbacks with_clients))
        (run_clients clients.clients ctx cfg w)

module _ {World Ctx Config Client Informer : Type 0} where
  -- The set-up of one client, one factory and some informers.
  pub set_up-one :
      (client : Ctx → Config → Action World Ctx) (fetcher : Ctx → Outcome Client)
      (factory : Ctx → Outcome Ctx) (informers : List (Ctx → Outcome (Ctx × Informer))) (ctx : Ctx)
      (cfg : Config) (w : World) {given made next : Ctx} {vs : List Informer} {w' : World}
      → client ctx cfg w ≡ (ok given, w')
      → factory given ≡ ok made
      → run_informers informers made ≡ ok (next, vs)
      → set_up
          (record { clients = client ∷ []; client_fetchers = fetcher ∷ [] })
          (record {
            informer_factories = factory ∷ [];
            informers = informers;
            filtered_informers = [];
          })
          ctx
          cfg
          w
        ≡ (ok (next, vs), w')
  set_up-one client fetcher factory informers ctx cfg w {vs = vs} p q r =
      rw p (rw q (rw r (rw append-nil refl)))

abbrev pub scoped_version : String → Option TweakListOptions → Version
scoped_version ns tweak = record { namespace = ns; tweak_list_options = tweak }

module _ {Config Client Object : Type 0} (meta : Object → ObjectMeta) where
  -- The callbacks of the accessors, in order.
  abbrev pub injectors :
      List Accessor
      → List (
          InjectionContext Config Client Object
          → Outcome (InjectionContext Config Client Object × SharedIndexInformer Object))
  injectors [] = []
  injectors (a ∷ accessors) = with_informer meta a ∷ injectors accessors

module _ {Config Client Object : Type 0} (meta : Object → ObjectMeta) (ns : String)
    (tweak : Option TweakListOptions) where
  -- A context with a client, and with a factory of a scope.
  pub record Holds (c : Client) (ctx : InjectionContext Config Client Object) : Type 0 where
    pub client : ctx.client ≡ some c
    pub factory : SharedInformerFactory Object
    pub held : ctx.factory ≡ some factory
    pub scoped : IsScoped meta ns tweak factory

  abbrev pub Got : InjectionContext Config Client Object → Accessor → Type 0
  Got ctx a = lookup (package_of a) ctx.informers ≡ some (scoped_version ns tweak)

  -- A step to a context that holds what the one before held, and from which no package is lost.
  pub record Next (c : Client) (ctx next : InjectionContext Config Client Object) : Type 0 where
    pub holds : Holds c next
    pub kept : (b : Accessor) → Got ctx b → Got next b

  kept_by_insert :
      (a b : Accessor) (ctx : InjectionContext Config Client Object)
      → Got ctx b
      → lookup (package_of b) (insert (package_of a) (scoped_version ns tweak) ctx.informers)
        ≡ some (scoped_version ns tweak)
  kept_by_insert a b ctx got =
      lookup-insert (package_of a) (package_of b) (scoped_version ns tweak) ctx.informers
      ∙ elim (Bool-cases (package_of a == package_of b)) [ inl e ↦ rw e refl | inr n ↦ rw n got ]

  got_inserted :
      (a : Accessor) (ctx : InjectionContext Config Client Object)
      → lookup (package_of a) (insert (package_of a) (scoped_version ns tweak) ctx.informers)
        ≡ some (scoped_version ns tweak)
  got_inserted a ctx =
      lookup-insert (package_of a) (package_of a) (scoped_version ns tweak) ctx.informers
      ∙ rw eq_refl refl

  with_informer-Next :
      (a : Accessor) (c : Client) (ctx : InjectionContext Config Client Object)
      → Holds c ctx
      → (next : InjectionContext Config Client Object) × (v : SharedIndexInformer Object)
        × (with_informer meta a ctx ≡ ok (next, v))
        × Next c ctx next
        × Got next a
        × Serves meta a ns tweak v
  unfolding with_informer factory_get
  with_informer-Next a c ctx h =
      let f = h.factory in
      let version : networking meta f ≡ (scoped_version ns tweak) =
        unfold networking in rw (h.scoped.namespace, h.scoped.tweak_list_options) refl in
      let after = informer_of-IsScoped meta a ns tweak f h.scoped in
      let next = record ctx {
        informers = insert (package_of a) (networking meta f) ctx.informers;
        factory = some (informer_of meta a f).1;
      } in
      (
        next,
        (informer_of meta a f).0,
        bind_ok _ (ap present h.held),
        record {
          holds = record {
            client = h.client;
            factory = (informer_of meta a f).1;
            held = refl;
            scoped = after;
          };
          kept = λ b got. rw version (kept_by_insert a b ctx got);
        },
        rw version (got_inserted a ctx),
        after.informers a _ (held_informer meta f a),
      )

  pub run_informers-Next :
      (accessors : List Accessor) (c : Client) (ctx : InjectionContext Config Client Object)
      → Holds c ctx
      → (next : InjectionContext Config Client Object) × (vs : List (SharedIndexInformer Object))
        × (run_informers (injectors meta accessors) ctx ≡ ok (next, vs))
        × Next c ctx next
        × All (Got next) accessors
        × Pairs (λ a v. Serves meta a ns tweak v) accessors vs
  run_informers-Next [] c ctx h = (ctx, [], refl, record { holds = h; kept = λ b got. got }, tt, tt)
  run_informers-Next (a ∷ accessors) c ctx h =
      let (next, v, p, first, got, serves) = with_informer-Next a c ctx h in
      let (last, vs, q, others, all, all_serve) = run_informers-Next accessors c next first.holds in
      (
        last,
        v ∷ vs,
        bind_ok _ p ∙ bind_ok _ q,
        record { holds = others.holds; kept = λ b g. others.kept b (first.kept b g) },
        (others.kept a got, all),
        (serves, all_serve),
      )
