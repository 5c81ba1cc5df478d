-- ===== src/Samples/Cluster.antt =====
-- An API server whose objects the lister sees at once, and an ingress status of two conditions.
use net_gateway_api_obsolete.Prelude.{
  String, ◌≡◌, refl, ap, Bool, true, false, ◌&&◌, List, [], ◌∷◌, ◌==◌, eq_refl, eq_iff, arith,
  if◌then◌else◌,
}
use net_gateway_api_obsolete.Prelude.Outcome.{Error, external, Outcome, ok, err}
use net_gateway_api_obsolete.GoMap.{Map}
use net_gateway_api_obsolete.Objects.Ingress.{Ingress}
use net_gateway_api_obsolete.Objects.HttpRoute.{HttpRoute}
use net_gateway_api_obsolete.Reconcile.{RouteClient, State}
use net_gateway_api_obsolete.Reconcile.Converges.{SameDesired, ServerLaws}
use net_gateway_api_obsolete.Sync.{StatusMethods, IngressMethods}
use net_gateway_api_obsolete.Sync.Ready.{Conditions}
use net_gateway_api_obsolete.Samples.{meta, spec}

-- The routes, the newest version first; whether the server accepts, and whether the lister works.
pub record Cluster : Type 0 where
  pub routes : List HttpRoute
  pub accepts : Bool
  pub listed : Bool

abbrev pub not_found : Error
not_found = external "NotFound"

abbrev pub refused : Error
refused = external "Forbidden"

abbrev pub broken : Error
broken = external "broken"

abbrev pub find : String → String → List HttpRoute → Outcome HttpRoute
find namespace name [] = err not_found
find namespace name (r ∷ routes) =
    let rest = find namespace name routes in
    if (r.namespace == namespace) && (r.name == name) then ok r else rest

abbrev answer : Bool → HttpRoute → Cluster → Outcome HttpRoute × Cluster
answer true route w = (ok route, record w { routes = route ∷ w.routes })
answer false route w = (err refused, w)

abbrev pub put : HttpRoute → Cluster → Outcome HttpRoute × Cluster
put route w = answer w.accepts route w

abbrev is_not_found : Error → Bool
is_not_found (external message) = message == "NotFound"
is_not_found _ = false

abbrev same_strings : List String → List String → Bool
same_strings [] [] = true
same_strings [] (t ∷ ts) = false
same_strings (s ∷ ss) [] = false
same_strings (s ∷ ss) (t ∷ ts) = (s == t) && same_strings ss ts

abbrev same_entries : Map String → Map String → Bool
same_entries [] [] = true
same_entries [] (e ∷ n) = false
same_entries (e ∷ m) [] = false
same_entries ((k, v) ∷ m) ((j, w) ∷ n) = (k == j) && ((v == w) && same_entries m n)

-- Of two specs, the host names are compared.
abbrev pub client : RouteClient Cluster
client = record {
  lister_get = λ w namespace name. if w.listed then find namespace name w.routes else err broken;
  create = λ namespace route w. put route w;
  update = λ namespace route w. put route w;
  is_not_found = is_not_found;
  deep_equal_spec = λ a b. same_strings a.hostnames b.hostnames;
  deep_equal_map = same_entries;
}

answer-SameDesired :
    (b : Bool) (route r : HttpRoute) (w w' : Cluster)
    → answer b route w ≡ (ok r, w')
    → SameDesired r route
answer-SameDesired true route r w w' h =
    let same : r ≡ route = cc in
    record {
      spec = ap (λ (x : HttpRoute). x.spec) same;
      annotations = ap (λ (x : HttpRoute). x.annotations) same;
      labels = ap (λ (x : HttpRoute). x.labels) same;
    }
answer-SameDesired false route r w w' h = cc

same_strings_refl : (ss : List String) → same_strings ss ss ≡ true
same_strings_refl [] = refl
same_strings_refl (s ∷ ss) = rw eq_refl (same_strings_refl ss)

same_entries_refl : (m : Map String) → same_entries m m ≡ true
same_entries_refl [] = refl
same_entries_refl ((k, v) ∷ m) = ground (arith, eq_iff k k, eq_iff v v, same_entries_refl m)

pub client_laws : ServerLaws client
client_laws = record {
  create_keeps = λ namespace route r w w' h. answer-SameDesired w.accepts route r w w' h;
  update_keeps = λ namespace route r w w' h. answer-SameDesired w.accepts route r w w' h;
  deep_equal_spec_refl = λ a. same_strings_refl a.hostnames;
  deep_equal_map_refl = same_entries_refl;
}

pub record Status : Type 0 where
  pub configured : Bool
  pub balanced : Bool
  pub ready : Bool

-- A dependent condition is true: the happy condition is true if both are.
abbrev happy : Status → Status
happy s = record s { ready = s.configured && s.balanced }

abbrev pub methods : StatusMethods Status
methods = record {
  initialize_conditions = λ s. s;
  mark_network_configured = λ s. happy (record s { configured = true });
  mark_ingress_not_ready = λ reason message s. record s { ready = false };
  mark_load_balancer_ready = λ public private s. happy (record s { balanced = true });
  mark_load_balancer_not_ready = λ s. record s { balanced = false; ready = false };
}

pub and_true : (b : Bool) → (b && true) ≡ b
and_true true = refl
and_true false = refl

abbrev pub conditions : Conditions methods
conditions = record {
  configured = λ s. s.configured;
  ready = λ s. s.ready;
  configured-mark_network_configured = λ s. refl;
  configured-mark_ingress_not_ready = λ reason message s. refl;
  ready-mark_ingress_not_ready = λ reason message s. refl;
  ready-mark_load_balancer_ready = λ public private s. and_true s.configured;
}

-- The probe adds no header, and the prober answers that the ingress is ready.
abbrev pub knative : IngressMethods Status Cluster
knative = record {
  set_defaults = λ ing. ok ing;
  insert_probe = λ ing. (ok "hash", ing);
  is_ready = λ ing w. (ok true, w);
}

abbrev pub ingress : Ingress Status
ingress = record {
  meta = meta;
  spec = spec;
  status = record { configured = false; balanced = false; ready = false };
}

-- A state with an empty cluster that accepts what it is sent.
abbrev pub start : State Status Cluster
start = record {
  ingress = ingress;
  world = record { routes = []; accepts = true; listed = true };
  events = [];
}
