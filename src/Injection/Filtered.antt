-- ===== src/Injection/Filtered.antt =====
-- Which label each filtered factory selects.
use net_gateway_api_obsolete.Prelude.{
  ℕ, String, ◌≡◌, refl, ap, ◌∙◌, Option, none, some, List, [], ◌∷◌, ◌++◌, All, All-map, arith, ◌==◌,
  eq_iff, eq_refl, Bool-cases, inl, inr,
}
use net_gateway_api_obsolete.Prelude.Outcome.{ok, bind_ok}
use net_gateway_api_obsolete.GoMap.{Map, lookup, insert, lookup-insert}
use net_gateway_api_obsolete.Clients.{ListOptions, list, request}
use net_gateway_api_obsolete.Informers.{
  SharedInformerFactory, new_shared_informer_factory_with_options, with_tweak_list_options,
  with_namespace, namespace_all,
}
use net_gateway_api_obsolete.Informers.Resources.{Accessor, informer_of}
use net_gateway_api_obsolete.Informers.Scopes.{scope_of}
use net_gateway_api_obsolete.Informers.Uses.{fresh-Serves}
use net_gateway_api_obsolete.Objects.{ObjectMeta}
use net_gateway_api_obsolete.Injection.{
  InjectionContext, present, scope_options, labelled, filtered_factory, filtered_loop, settled,
  constant, with_filtered_factories, filtered_get,
}

-- The last of some selectors.
abbrev pub last : String → List String → String
last selector [] = selector
last selector (next ∷ selectors) = last next selectors

module _ {Object : Type 0} where
  lookup-settled :
      (k variable : String) (made : Map (String → SharedInformerFactory Object))
      (f : String → SharedInformerFactory Object)
      → lookup k made ≡ some f
      → lookup k (settled variable made) ≡ some (f variable)
  unfolding lookup
  lookup-settled k variable [] f h = cc
  lookup-settled k variable ((j, g) ∷ made) f h =
      let rest = lookup-settled k variable made f in ground (arith, rest, eq_iff j k)

-- The namespace of a factory that is made for a scope.
abbrev pub scope_namespace : Option String → String
scope_namespace none = namespace_all
scope_namespace (some namespace) = namespace

filtered_options-lists :
    {Object : Type 0} (meta : Object → ObjectMeta) (resync_period : ℕ) (scope : Option String)
    (content : String) (a : Accessor) (opts : ListOptions)
    → (informer_of meta a (
          new_shared_informer_factory_with_options resync_period (
            scope_options scope
            ++ with_tweak_list_options (labelled content) ∷ []))).0.list_watch.list_func
        opts
      ≡ request meta
          (scope_of a (scope_namespace scope))
          (list (record opts { label_selector = content }))
unfolding new_shared_informer_factory_with_options with_tweak_list_options with_namespace
filtered_options-lists meta resync_period none content a opts =
    (fresh-Serves meta _ refl a).lists opts
filtered_options-lists meta resync_period (some namespace) content a opts =
    (fresh-Serves meta _ refl a).lists opts

module _ {Config Client Object : Type 0} (meta : Object → ObjectMeta) where
  filtered_loop-variable :
      (ctx : InjectionContext Config Client Object) (selectors : List String) (variable : String)
      (made : Map (String → SharedInformerFactory Object))
      → (filtered_loop ctx selectors variable made).0 ≡ last variable selectors
  unfolding filtered_loop
  filtered_loop-variable ctx [] variable made = refl
  filtered_loop-variable ctx (selector ∷ selectors) variable made =
      filtered_loop-variable ctx selectors selector (insert selector (filtered_factory ctx) made)

  -- The entry of a selector is made from the variable.
  abbrev IsMade :
      InjectionContext Config Client Object
      → Map (String → SharedInformerFactory Object)
      → (selector : String) → Type 0
  IsMade ctx made selector = lookup selector made ≡ some (filtered_factory ctx)

  IsMade-insert :
      (ctx : InjectionContext Config Client Object) (selector k : String)
      (made : Map (String → SharedInformerFactory Object))
      → IsMade ctx made k
      → IsMade ctx (insert selector (filtered_factory ctx) made) k
  IsMade-insert ctx selector k made h = elim (Bool-cases (selector == k)) [
    | inl e ↦ rw lookup-insert (rw e refl)
    | inr n ↦ rw lookup-insert (rw n h)
  ]

  IsMade-kept :
      (ctx : InjectionContext Config Client Object) (selectors : List String) (variable k : String)
      (made : Map (String → SharedInformerFactory Object))
      → IsMade ctx made k
      → IsMade ctx (filtered_loop ctx selectors variable made).1 k
  unfolding filtered_loop
  IsMade-kept ctx [] variable k made h = h
  IsMade-kept ctx (selector ∷ selectors) variable k made h =
      IsMade-kept ctx selectors selector k (insert selector (filtered_factory ctx) made)
        (IsMade-insert ctx selector k made h)

  filtered_loop-IsMade :
      (ctx : InjectionContext Config Client Object) (selectors : List String) (variable : String)
      (made : Map (String → SharedInformerFactory Object))
      → All (IsMade ctx (filtered_loop ctx selectors variable made).1) selectors
  unfolding filtered_loop
  filtered_loop-IsMade ctx [] variable made = tt
  filtered_loop-IsMade ctx (selector ∷ selectors) variable made = (
    IsMade-kept ctx selectors selector selector (insert selector (filtered_factory ctx) made)
        (rw lookup-insert (rw eq_refl refl)),
    filtered_loop-IsMade ctx selectors selector (insert selector (filtered_factory ctx) made),
  )

  -- A context's factory for a selector, whose informers list what has a label, in the context's scope.
  pub record Lists (ctx : InjectionContext Config Client Object) (label selector : String)
      : Type 0 where
    pub factory : SharedInformerFactory Object
    pub found : filtered_get ctx selector ≡ ok factory
    pub lists :
        (a : Accessor) (opts : ListOptions)
        → (informer_of meta a factory).0.list_watch.list_func opts
          ≡ request meta
              (scope_of a (scope_namespace ctx.namespace_scope))
              (list (record opts { label_selector = label }))

  filtered_factory-lists :
      (ctx : InjectionContext Config Client Object) (content : String) (a : Accessor)
      (opts : ListOptions)
      → (informer_of meta a (filtered_factory ctx content)).0.list_watch.list_func opts
        ≡ request meta
            (scope_of a (scope_namespace ctx.namespace_scope))
            (list (record opts { label_selector = content }))
  filtered_factory-lists ctx content a opts =
      filtered_options-lists meta ctx.resync_period ctx.namespace_scope content a opts

  -- The context that the loop leaves.
  abbrev after_loop :
      InjectionContext Config Client Object → List String → InjectionContext Config Client Object
  after_loop ctx selectors =
      let (variable, made) = filtered_loop ctx selectors "" (constant ctx.filtered_factories) in
      record ctx { filtered_factories = settled variable made }

  after_loop-Lists :
      (ctx : InjectionContext Config Client Object) (first : String) (selectors : List String)
      → All (Lists (after_loop ctx (first ∷ selectors)) (last first selectors)) (first ∷ selectors)
  unfolding filtered_get
  after_loop-Lists ctx first selectors =
      let start = constant ctx.filtered_factories in
      let (variable, made) = filtered_loop ctx (first ∷ selectors) "" start in
      All-map
        (λ k h. record {
          factory = filtered_factory ctx variable;
          found = ap present (lookup-settled k variable made (filtered_factory ctx) h);
          lists = λ a opts.
              filtered_factory-lists ctx variable a opts
              ∙ ap
                  (λ (l : String).
                    request meta (scope_of a (scope_namespace ctx.namespace_scope))
                      (list (record opts { label_selector = l })))
                  (filtered_loop-variable ctx (first ∷ selectors) "" start);
        })
        (first ∷ selectors) (filtered_loop-IsMade ctx (first ∷ selectors) "" start)

  -- Where a context has a client and a list of selectors that is not empty, the filtered factories are
  -- made for all the selectors, and none of their `Get`s panics; but each informer that one of them makes
  -- lists its resource, in the context's scope, by the last selector of the list, and not by its own.
  pub with_filtered_factories-last :
      (ctx : InjectionContext Config Client Object) (c : Client) (first : String)
      (selectors : List String)
      → ctx.client ≡ some c
      → ctx.label_selectors ≡ some (first ∷ selectors)
      → (made : InjectionContext Config Client Object) × (with_filtered_factories ctx ≡ ok made)
        × All (Lists made (last first selectors)) (first ∷ selectors)
  unfolding with_filtered_factories filtered_get
  with_filtered_factories-last ctx c first selectors h q =
      (after_loop ctx (first ∷ selectors), made_eq, after_loop-Lists ctx first selectors)
    where
      made_eq : with_filtered_factories ctx ≡ ok (after_loop ctx (first ∷ selectors))
      made_eq = bind_ok _ (ap present h) ∙ bind_ok _ (ap present q)
