-- ===== src/Samples/Tracker.antt =====
-- An object tracker over a list, and a fake that has its reaction.
use net_gateway_api_obsolete.Prelude.{
  String, ◌≡◌, refl, ap, ◌∙◌, Bool, true, false, ◌&&◌, Option, none, some, List, [], ◌∷◌, ◌==◌,
  eq_iff, eq_refl, Bool-cases, inl, inr, arith, if◌then◌else◌,
}
use net_gateway_api_obsolete.Prelude.Outcome.{Error, external, ok}
use net_gateway_api_obsolete.Objects.{ObjectMeta}
use net_gateway_api_obsolete.Informers.Generic.{GroupVersionResource}
use net_gateway_api_obsolete.Fakes.{
  ActionCall, RuntimeObject, one, new_get_action, new_create_action,
}
use net_gateway_api_obsolete.Fakes.Resources.{fake_http_routes}
use net_gateway_api_obsolete.Fakes.Simple.{FakeLibrary, Reaction, simple_clientset}
use net_gateway_api_obsolete.Fakes.Served.{stored_namespace, guessed_resource, TrackerLaws}
use net_gateway_api_obsolete.Informers.Scopes.{type_of}
use net_gateway_api_obsolete.Informers.Resources.{
  Accessor, backend_policies, gateways, gateway_classes, http_routes, tcp_routes, tls_routes,
  udp_routes,
}

-- Objects that are their metadata.
abbrev pub identity : ObjectMeta → ObjectMeta
identity m = m

-- What a tracker stores: an object under its resource, its namespace and its name.
pub record Entry : Type 0 where
  resource : String
  namespace : String
  name : String
  object : ObjectMeta

abbrev is_at : String → String → String → Entry → Bool
is_at resource namespace name e =
    (e.resource == resource) && ((e.namespace == namespace) && (e.name == name))

abbrev find : String → String → String → List Entry → Option ObjectMeta
find resource namespace name [] = none
find resource namespace name (e ∷ es) =
    let rest = find resource namespace name es in
    if is_at resource namespace name e then some e.object else rest

abbrev exists : Error
exists = external "AlreadyExists"

abbrev stored_unless : Option ObjectMeta → Entry → List Entry → Option Error × List Entry
stored_unless none e es = (none, e ∷ es)
stored_unless (some old) e es = (some exists, es)

abbrev entry_of : String → String → ObjectMeta → Entry
entry_of resource namespace m = record {
  resource = resource;
  namespace = namespace;
  name = m.name;
  object = m;
}

abbrev put : String → String → ObjectMeta → List Entry → Option Error × List Entry
put resource namespace m es =
    stored_unless (find resource namespace m.name es) (entry_of resource namespace m) es

abbrev Results : Type 0
Results = (Bool × Option (RuntimeObject ObjectMeta) × Option Error) × List Entry

abbrev created_result : ObjectMeta → Option Error × List Entry → Results
created_result m (none, es) = ((true, some (one m), none), es)
created_result m (some e, es) = ((true, none, some e), es)

abbrev got : Option ObjectMeta → List Entry → Results
got none es = ((true, none, some (external "NotFound")), es)
got (some m) es = ((true, some (one m), none), es)

-- The reaction of a tracker to a get and a create.
abbrev react : ActionCall ObjectMeta → List Entry → Results
react (new_get_action gvr ns name) es = got (find gvr.resource (stored_namespace ns) name es) es
react (new_create_action gvr ns m) es =
    created_result m (put gvr.resource (stored_namespace ns) m es)
react _ es = ((false, none, none), es)

-- A fake is the reaction that was added to it.
abbrev pub Chain : Type 0
Chain = Option (Reaction (List Entry) (ActionCall ObjectMeta) (RuntimeObject ObjectMeta))

abbrev invoked :
    RuntimeObject ObjectMeta
    → Results
    → (Option (RuntimeObject ObjectMeta) × Option Error) × List Entry
invoked default ((true, r, e), es) = ((r, e), es)
invoked default ((false, r, e), es) = ((some default, none), es)

abbrev invoke_chain :
    Chain
    → ActionCall ObjectMeta
    → RuntimeObject ObjectMeta
    → List Entry
    → (Option (RuntimeObject ObjectMeta) × Option Error) × List Entry
invoke_chain none action default es = ((some default, none), es)
invoke_chain (some r) action default es = invoked default (r action es)

abbrev http_resource : GroupVersionResource
http_resource = (fake_http_routes "").resource

abbrev pub tracker_lib :
    FakeLibrary (List Entry) Chain (Unit {0}) (ActionCall ObjectMeta) ObjectMeta (Unit {0}) String
tracker_lib = record {
  testing = λ fake. record {
    new_action = ok;
    invokes = invoke_chain fake;
    invokes_watch = λ action es. ((none, none), es);
    extract_from_list_options = λ opts. ok none;
    everything = "";
    matches = λ selector labels. true;
  };
  empty_fake = none;
  add_reactor = λ verb resource r fake. if (verb == "*") && (resource == "*") then some r else fake;
  add_watch_reactor = λ resource r fake. fake;
  object_reaction = λ o. react;
  get_resource = λ action. http_resource;
  get_namespace = λ action. "";
  new_object_tracker = λ es. (tt, []);
  add = λ o m es. put "httproutes" m.namespace m es;
  watch = λ o gvr ns es. ((none, none), es);
}

is_at_own :
    (resource namespace : String) (m : ObjectMeta)
    → is_at resource namespace m.name (entry_of resource namespace m) ≡ true
is_at_own resource namespace m = simp eq_refl

-- What stands at a place is the object of an entry that is there.
pub put-find :
    (resource namespace : String) (m : ObjectMeta) (old : Option ObjectMeta) (es es' : List Entry)
    → stored_unless old (entry_of resource namespace m) es ≡ (none, es')
    → find resource namespace m.name es' ≡ some m
put-find resource namespace m none es es' h =
    let same : entry_of resource namespace m ∷ es ≡ es' =
      ap (λ (r : Option Error × List Entry). r.1) h in
    rw (← same) (rw (is_at_own resource namespace m) refl)
put-find resource namespace m (some old) es es' h = cc

-- The entry that is added hides none, since there was none at its place.
find-cons :
    (resource namespace name : String) (e : Entry) (es : List Entry) {m : ObjectMeta}
    → find e.resource e.namespace e.name es ≡ none
    → find resource namespace name es ≡ some m
    → find resource namespace name (e ∷ es) ≡ some m
find-cons resource namespace name e es fresh h =
    elim (Bool-cases (is_at resource namespace name e)) [
      | inl at ↦
          let r : e.resource ≡ resource = ground (arith, eq_iff e.resource resource) in
          let n : e.namespace ≡ namespace = ground (arith, eq_iff e.namespace namespace) in
          let k : e.name ≡ name = ground (arith, eq_iff e.name name) in
          cc (rw k at (rw n at (rw r at fresh)))
      | inr other ↦ rw other h
    ]

pub put_keeps :
    (resource namespace : String) (m : ObjectMeta) (old : Option ObjectMeta) (es es' : List Entry)
    → find resource namespace m.name es ≡ old
    → stored_unless old (entry_of resource namespace m) es ≡ (none, es')
    → (r n k : String) {x : ObjectMeta} → find r n k es ≡ some x
    → find r n k es' ≡ some x
put_keeps resource namespace m none es es' fresh h r n k q =
    let same : entry_of resource namespace m ∷ es ≡ es' =
      ap (λ (p : Option Error × List Entry). p.1) h in
    rw (← same) (find-cons r n k (entry_of resource namespace m) es fresh q)
put_keeps resource namespace m (some old) es es' fresh h r n k q = cc

pub created_stored :
    (resource namespace : String) (m : ObjectMeta) (p : Option Error × List Entry) (es : List Entry)
    → put resource namespace m es ≡ p
    → (made : Option (RuntimeObject ObjectMeta)) × (e : Option Error) × (es' : List Entry)
      × (created_result m p ≡ ((true, made, e), es'))
      × ((r : ObjectMeta)
          → made ≡ some (one r)
          → e ≡ none
          → find resource namespace m.name es' ≡ some r)
created_stored resource namespace m (none, es') es h = (
  some (one m),
  none,
  es',
  refl,
  λ r same fine.
      let q : m ≡ r = cc in
      put-find resource namespace m (find resource namespace m.name es) es es' h ∙ ap some q,
)
created_stored resource namespace m (some e, es') es h =
    (none, some e, es', refl, λ r same fine. cc)

-- All objects are HTTPRoutes.
pub added_stored :
    (a : Accessor) (m : ObjectMeta) (es es' : List Entry)
    → "HTTPRoute" ≡ type_of a
    → put "httproutes" m.namespace m es ≡ (none, es')
    → find (guessed_resource a).resource m.namespace m.name es' ≡ some m
added_stored backend_policies m es es' kind h = cc
added_stored gateways m es es' kind h = cc
added_stored gateway_classes m es es' kind h = cc
added_stored http_routes m es es' kind h = put-find "httproutes" m.namespace m _ es es' h
added_stored tcp_routes m es es' kind h = cc
added_stored tls_routes m es es' kind h = cc
added_stored udp_routes m es es' kind h = cc

unfoldable pub tracker_laws : TrackerLaws tracker_lib identity
unfolding simple_clientset fake_http_routes
tracker_laws = record {
  kind_of = λ m. "HTTPRoute";
  stored = λ o es gvr namespace name. find gvr.resource namespace name es;
  recorded = λ fake action es. es;
  add_stores = λ o a m es es' kind h. added_stored a m es es' kind h;
  add_keeps = λ o m es es' h gvr namespace name q.
      put_keeps "httproutes" m.namespace m _ es es' refl h gvr.resource namespace name q;
  recorded_keeps = λ fake action o es gvr namespace name. refl;
  new_get = λ fake gvr namespace name. (
    new_get_action gvr namespace name,
    refl,
    λ o es m h. ap (λ (f : Option ObjectMeta). got f es) h,
  );
  new_create = λ fake gvr namespace m. (
    new_create_action gvr namespace m,
    refl,
    λ o es. created_stored gvr.resource (stored_namespace namespace) m _ es refl,
  );
  handled = λ r action default es es' obj e h. ap (invoked default) h;
  watches_apart = λ resource r fake action default es. refl;
}
