-- ===== src/Fakes/Tracked.antt =====
-- What the fake clients of a fake clientset read: the objects of its tracker.
use net_gateway_api_obsolete.Prelude.{
  ◌≢◌, subst, String, ◌≡◌, refl, sym, ap, ◌∙◌, Option, none, some, List, [], ◌∷◌, ◌++◌,
}
use net_gateway_api_obsolete.Prelude.Outcome.{ok_injective, Error, Outcome, ok}
use net_gateway_api_obsolete.Prelude.Action.{pure, continue-eq-ok}
use net_gateway_api_obsolete.Objects.{ObjectMeta}
use net_gateway_api_obsolete.Clients.{get, create}
use net_gateway_api_obsolete.Informers.Generic.{GroupVersionResource}
use net_gateway_api_obsolete.Informers.Resources.{Accessor, gateways}
use net_gateway_api_obsolete.Informers.Scopes.{type_of}
use net_gateway_api_obsolete.Fakes.{
  RuntimeObject, one, many, Answer, an_object, fake_call, fake_action, object_answer,
}
use net_gateway_api_obsolete.Fakes.Simple.{
  or_panic, FakeLibrary, SimpleClientset, FakeClient, add_objects, simple_clientset,
  new_simple_clientset, client_call, simple_networking,
}
use net_gateway_api_obsolete.Fakes.Served.{
  guessed_resource, scope-guessed_resource, reacting, invokes-reaction, stored_namespace,
  fake_client, TrackerLaws, fake_client-fake, get-client,
}

module _ {World Fake Tracker TestAction Object Watch Selector : Type 0}
    (lib : FakeLibrary World Fake Tracker TestAction Object Watch Selector)
    (meta : Object → ObjectMeta) (laws : TrackerLaws lib meta) (empty : Object) where
  open laws use {stored, recorded}

  -- An object is stored where an accessor's kind is, under its namespace and name.
  abbrev IsStored : Accessor → Tracker → World → Object → Type 0
  IsStored a o w obj =
      stored o w (guessed_resource a) (meta obj).namespace (meta obj).name ≡ some obj

  added :
      (o : Tracker) (obj : Object) (p : Option Error × World) {w' : World}
      → ◌≡◌ {A = Outcome (Unit {0}) × World} (or_panic p.0, p.1) (ok tt, w')
      → p ≡ (none, w')
  added o obj (none, w) h = ap (λ (r : Outcome (Unit {0}) × World). (none, r.1)) h
  added o obj (some e, w) h = cc

  step :
      (o : Tracker) (obj : Object) (objects : List Object) (w w' : World)
      → add_objects lib o (obj ∷ objects) w ≡ (ok tt, w')
      → (u : World) × (lib.add o obj w ≡ (none, u)) × (add_objects lib o objects u ≡ (ok tt, w'))
  unfolding add_objects
  step o obj objects w w' h =
      let p = lib.add o obj w in
      let (done, u, e, rest) =
        continue-eq-ok (λ (_ : Unit {0}). add_objects lib o objects) (or_panic p.0, p.1) h in
      (u, added o obj p e, rest)

  add_objects_keeps :
      (o : Tracker) (objects : List Object) (w w' : World)
      → add_objects lib o objects w ≡ (ok tt, w')
      → (gvr : GroupVersionResource) (namespace name : String) {old : Object}
      → stored o w gvr namespace name ≡ some old
      → stored o w' gvr namespace name ≡ some old
  unfolding add_objects
  add_objects_keeps o [] w w' h gvr namespace name k =
      ap (λ (r : Outcome (Unit {0}) × World). stored o r.1 gvr namespace name) (sym h) ∙ k
  add_objects_keeps o (obj ∷ objects) w w' h gvr namespace name k =
      let (u, e, rest) = step o obj objects w w' h in
      add_objects_keeps o objects u w' rest gvr namespace name
        (laws.add_keeps o obj w u e gvr namespace name k)

  add_objects-IsStored :
      (a : Accessor) (o : Tracker) (before : List Object) (obj : Object) (after : List Object)
      (w w' : World)
      → laws.kind_of obj ≡ type_of a
      → add_objects lib o (before ++ obj ∷ after) w ≡ (ok tt, w')
      → IsStored a o w' obj
  add_objects-IsStored a o [] obj after w w' kind h =
      let (u, e, rest) = step o obj after w w' h in
      add_objects_keeps o after u w' rest (guessed_resource a) (meta obj).namespace (meta obj).name
        (laws.add_stores o a obj w u kind e)
  add_objects-IsStored a o (b ∷ before) obj after w w' kind h =
      let (u, e, rest) = step o b (before ++ obj ∷ after) w w' h in
      add_objects-IsStored a o before obj after u w' kind rest

  served :
      (o : Tracker) (cs : SimpleClientset Fake Tracker) (a : Accessor) (namespace : String)
      (w : World) (obj : Object) (opts : String)
      → simple_clientset lib o ≡ cs
      → IsStored a o w obj
      → a ≢ gateways
      → stored_namespace (fake_client a (simple_networking cs) namespace).scope.namespace
        ≡ (meta obj).namespace
      → (client_call lib meta empty
          (fake_client a (simple_networking cs) namespace)
          (get (meta obj).name opts)
          w).0
        ≡ ok (an_object (some obj) none)
  served o cs a namespace w obj opts same h other within =
      subst
        (λ (c : SimpleClientset Fake Tracker).
          (client_call lib meta empty (fake_client a (simple_networking c) namespace)
            (get (meta obj).name opts) w).0
          ≡ ok (an_object (some obj) none))
        same
        (get-client lib meta laws empty a o namespace w (meta obj).name opts obj (
          subst
            (λ (c : SimpleClientset Fake Tracker).
              stored o w (fake_client a (simple_networking c) namespace).scope.resource
                (stored_namespace (fake_client a (simple_networking c) namespace).scope.namespace)
                (meta obj).name
              ≡ some obj)
            (sym same) (rw (scope-guessed_resource a cs namespace other, within) h)))

  -- Where NewSimpleClientset returns, and does not panic: an object that it was given, whatever objects
  -- come before and after it, comes back from a get by the clientset's client of the object's kind and
  -- namespace. The object is not a Gateway, which the tracker stores under a resource that the Gateways'
  -- client does not ask for. client-go's tracker and reaction are as their documentation says.
  pub new_simple_clientset-get :
      (before : List Object) (obj : Object) (after : List Object) (w w' : World)
      {cs : SimpleClientset Fake Tracker} (a : Accessor) (namespace opts : String)
      → a ≢ gateways
      → laws.kind_of obj ≡ type_of a
      → new_simple_clientset lib (before ++ obj ∷ after) w ≡ (ok cs, w')
      → stored_namespace (fake_client a (simple_networking cs) namespace).scope.namespace
        ≡ (meta obj).namespace
      → (client_call lib meta empty
          (fake_client a (simple_networking cs) namespace)
          (get (meta obj).name opts)
          w').0
        ≡ ok (an_object (some obj) none)
  unfolding new_simple_clientset
  new_simple_clientset-get before obj after w w' {cs} a namespace opts other kind h within =
      let o = (lib.new_object_tracker w).0 in
      let (done, u, e, rest) =
        continue-eq-ok (λ (_ : Unit {0}). pure (simple_clientset lib o))
          (add_objects lib o (before ++ obj ∷ after) (lib.new_object_tracker w).1) h in
      let same : simple_clientset lib o ≡ cs = ok_injective (ap (λ r. r.0) rest) in
      let end : u ≡ w' = ap (λ r. r.1) rest in
      let held = add_objects-IsStored a o before obj after (lib.new_object_tracker w).1 u kind e in
      served o cs a namespace w' obj opts same (subst (λ (x : World). IsStored a o x obj) end held)
        other within

  -- An answer with an object and no error is made of the results of the reaction.
  answered :
      (fake : Fake) (P : World → Object → Type 0) (obj : Option (RuntimeObject Object))
      (e : Option Error) (u : World) {w : World} {r : Object}
      → ((x : Object) → obj ≡ some (one x) → e ≡ none → P u x)
      → ◌≡◌ {A = Outcome (Answer Object Watch) × World}
          (object_answer (lib.testing fake) meta (obj, e), u)
          (ok (an_object (some r) none), w)
      → P w r
  answered fake P none e u kept h = cc
  answered fake P (some (one x)) none u {w} {r} kept h =
      let same : x ≡ r = cc in
      let end : u ≡ w = cc in
      subst (λ (v : World). P v r) end (subst (λ (y : Object). P u y) same (kept x refl refl))
  answered fake P (some (one x)) (some f) u kept h = cc
  answered fake P (some (many l items)) e u kept h = cc

  -- What a fake client of a fake clientset created, where the creation returned it, a get of the same
  -- client right after finds. client-go's tracker and reaction are as their documentation says.
  pub client_call_created :
      (o : Tracker) (a : Accessor) (namespace : String) (object r : Object) (w w' : World)
      (opts get_opts : String)
      → client_call lib meta empty
          (fake_client a (simple_networking (simple_clientset lib o)) namespace)
          (create object opts)
          w
        ≡ (ok (an_object (some r) none), w')
      → (client_call lib meta empty
          (fake_client a (simple_networking (simple_clientset lib o)) namespace)
          (get (meta object).name get_opts)
          w').0
        ≡ ok (an_object (some r) none)
  unfolding client_call fake_call fake_action
  client_call_created o a namespace object r w w' opts get_opts h =
      let cs = simple_clientset lib o in
      let scope = (fake_client a (simple_networking cs) namespace).scope in
      let h' : client_call lib meta empty (record { fake = cs.fake; scope = scope })
            (create object opts) w
          ≡ (ok (an_object (some r) none), w') =
        ap (λ (c : FakeClient Fake). client_call lib meta empty c (create object opts) w)
          (fake_client-fake lib meta laws empty a cs namespace)
        ∙ h in
      let (action, made, reacts) = laws.new_create cs.fake scope.resource scope.namespace object in
      let (obj, e, u, reacted, kept) =
        reacts o (recorded (reacting lib meta laws empty o) action w) in
      let invoked = invokes-reaction lib meta laws empty o action (one empty) w u obj e reacted in
      get-client lib meta laws empty a o namespace w' (meta object).name get_opts r (
        answered cs.fake
          (λ (v : World) (x : Object).
            stored o v scope.resource (stored_namespace scope.namespace) (meta object).name
            ≡ some x)
          obj e u kept (rw invoked at (rw made at h')))
