-- ===== src/Fakes.antt =====
-- The generated fake clients, pkg/client/gatewayapi/clientset/versioned/typed/apis/v1alpha1/fake: the action
-- that each method records, and what it returns. client-go's testing package, which records the actions and
-- reacts to them, is a parameter.
pub mod Resources
pub mod Actions
pub mod Simple
pub mod Served
pub mod Tracked
mod Tests
use net_gateway_api_obsolete.Prelude.{
  String, Bool, Option, none, some, List, [], ◌∷◌, if◌then◌else◌,
}
use net_gateway_api_obsolete.Prelude.Outcome.{Error, Outcome, ok, err, panic, ◌>>=◌}
use net_gateway_api_obsolete.Prelude.Action.{Action, continue}
use net_gateway_api_obsolete.GoMap.{Map}
use net_gateway_api_obsolete.Objects.{ObjectMeta}
use net_gateway_api_obsolete.Clients.{
  ListOptions, Call, get, list, watch_all, create, update, update_status, delete, delete_collection,
  patch,
}
use net_gateway_api_obsolete.Informers.Generic.{GroupVersionResource}

pub record GroupVersionKind : Type 0 where
  pub group : String
  pub version : String
  pub kind : String

-- A fake client of one resource, with its two variables.
pub record FakeScope : Type 0 where
  pub namespace : Option String
  pub resource : GroupVersionResource
  pub kind : GroupVersionKind

-- The constructor of `k8s.io/client-go/testing` that a method calls, with its arguments. The namespace
-- is `none` in a call of the `NewRoot…` one.
pub data ActionCall (Object : Type 0) : Type 0 where
  new_get_action : GroupVersionResource → Option String → String → ActionCall Object
  new_list_action :
      GroupVersionResource → GroupVersionKind → Option String → ListOptions → ActionCall Object
  new_watch_action : GroupVersionResource → Option String → ListOptions → ActionCall Object
  new_create_action : GroupVersionResource → Option String → Object → ActionCall Object
  new_update_action : GroupVersionResource → Option String → Object → ActionCall Object
  new_update_subresource_action :
      GroupVersionResource → String → Option String → Object → ActionCall Object
  new_delete_action : GroupVersionResource → Option String → String → ActionCall Object
  new_delete_collection_action :
      GroupVersionResource → Option String → ListOptions → ActionCall Object
  new_patch_subresource_action :
      GroupVersionResource
      → Option String
      → String
      → String
      → String
      → List String
      → ActionCall Object

-- The objects that a reaction returns.
pub data RuntimeObject (Object : Type 0) : Type 0 where
  one : Object → RuntimeObject Object
  many : String → List Object → RuntimeObject Object

-- What a method returns: the values of the source's return statement, nil as `none`.
pub data Answer (Object Watch : Type 0) : Type 0 where
  an_object : Option Object → Option Error → Answer Object Watch
  a_list : Option (String × List Object) → Option Error → Answer Object Watch
  a_watch : Option Watch → Option Error → Answer Object Watch
  an_error : Option Error → Answer Object Watch

-- client-go's testing package. `new_action` is the constructors, which panic on a selector that does not
-- parse; `invokes` is given the object that it returns where nothing reacts.
pub record Testing (World TestAction Object Watch Selector : Type 0) : Type 0 where
  pub new_action : ActionCall Object → Outcome TestAction
  pub invokes :
      TestAction
      → RuntimeObject Object
      → World
      → (Option (RuntimeObject Object) × Option Error) × World
  pub invokes_watch : TestAction → World → (Option Watch × Option Error) × World
  pub extract_from_list_options : ListOptions → Outcome (Option Selector)
  pub everything : Selector
  pub matches : Selector → Map String → Bool

module _ {Object : Type 0} where
  -- The action of each method, in the order of the file.
  unfoldable pub fake_action : FakeScope → Call Object → ActionCall Object
  fake_action c (get name opts) = new_get_action c.resource c.namespace name
  fake_action c (list opts) = new_list_action c.resource c.kind c.namespace opts
  fake_action c (watch_all opts) = new_watch_action c.resource c.namespace opts
  fake_action c (create object opts) = new_create_action c.resource c.namespace object
  fake_action c (update object opts) = new_update_action c.resource c.namespace object
  fake_action c (update_status object opts) =
      new_update_subresource_action c.resource "status" c.namespace object
  fake_action c (delete name opts) = new_delete_action c.resource c.namespace name
  fake_action c (delete_collection opts list_opts) =
      new_delete_collection_action c.resource c.namespace list_opts
  fake_action c (patch name patch_type data_bytes opts subresources) =
      new_patch_subresource_action c.resource c.namespace name patch_type data_bytes subresources

module _ {World TestAction Object Watch Selector : Type 0}
    (testing : Testing World TestAction Object Watch Selector) (meta : Object → ObjectMeta) where
  -- `if obj == nil { return nil, err }`, and the type assertion
  abbrev pub object_answer :
      Option (RuntimeObject Object) × Option Error → Outcome (Answer Object Watch)
  object_answer (none, e) = ok (an_object none e)
  object_answer (some (one object), e) = ok (an_object (some object) e)
  object_answer (some (many list_meta items), e) = panic

  abbrev pub error_answer :
      Option (RuntimeObject Object) × Option Error → Outcome (Answer Object Watch)
  error_answer (obj, e) = ok (an_error e)

  -- `if label == nil { label = labels.Everything() }`
  abbrev pub or_everything : Option Selector → Selector
  or_everything none = testing.everything
  or_everything (some label) = label

  -- The loop that keeps the items that match.
  unfoldable pub matching : Selector → List Object → List Object
  matching label [] = []
  matching label (item ∷ items) =
      let rest = matching label items in
      if testing.matches label (meta item).labels then item ∷ rest else rest

  -- the rest of `List`
  abbrev pub list_answer :
      ListOptions → Option (RuntimeObject Object) × Option Error → Outcome (Answer Object Watch)
  list_answer opts (none, e) = ok (a_list none e)
  list_answer opts (some (one object), e) =
      testing.extract_from_list_options opts >>= λ label. panic
  list_answer opts (some (many list_meta items), e) =
      testing.extract_from_list_options opts >>= λ label.
      ok (a_list (some (list_meta, matching (or_everything label) items)) e)

  abbrev pub watch_answer : Option Watch × Option Error → Outcome (Answer Object Watch)
  watch_answer (watcher, e) = ok (a_watch watcher e)

  -- `c.Fake.Invokes(action, default)` and what the method does with its results
  abbrev pub invoke :
      RuntimeObject Object
      → (Option (RuntimeObject Object) × Option Error → Outcome (Answer Object Watch))
      → TestAction
      → Action World (Answer Object Watch)
  invoke default answer action w =
      let (results, w') = testing.invokes action default w in (answer results, w')

  abbrev pub invoke_watch : TestAction → Action World (Answer Object Watch)
  invoke_watch action w =
      let (results, w') = testing.invokes_watch action w in (watch_answer results, w')

  -- The rest of each method; `empty` is the object with no field set.
  abbrev pub fake_invoke : Object → Call Object → TestAction → Action World (Answer Object Watch)
  fake_invoke empty (get name opts) = invoke (one empty) object_answer
  fake_invoke empty (list opts) = invoke (many "" []) (list_answer opts)
  fake_invoke empty (watch_all opts) = invoke_watch
  fake_invoke empty (create object opts) = invoke (one empty) object_answer
  fake_invoke empty (update object opts) = invoke (one empty) object_answer
  fake_invoke empty (update_status object opts) = invoke (one empty) object_answer
  fake_invoke empty (delete name opts) = invoke (one empty) error_answer
  fake_invoke empty (delete_collection opts list_opts) = invoke (many "" []) error_answer
  fake_invoke empty (patch name patch_type data_bytes opts subresources) =
      invoke (one empty) object_answer

  -- A method of a fake client: its action, and what it returns.
  unfoldable pub fake_call : Object → FakeScope → Call Object → Action World (Answer Object Watch)
  unfolding fake_action matching
  fake_call empty c call w =
      continue (λ action. fake_invoke empty call action)
        (testing.new_action (fake_action c call), w)
