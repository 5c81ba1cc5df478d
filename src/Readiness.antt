-- ===== src/Readiness.antt =====
-- `IsHTTPRouteReady` and `isGatewayAdmitted`, pkg/reconciler/ingress/ingress.go.
mod Tests
use net_gateway_api_obsolete.Prelude.{
  String, ◌≡◌, ◌↔◌, ◌≢◌, refl, ap, sym, ◌∙◌, Bool, true, false, Option, none, some, List, [], ◌∷◌,
  ◌++◌, All, arith, ◌==◌, eq_iff, Bool-cases, Option-cases, inl, inr, if◌then◌else◌,
}
use net_gateway_api_obsolete.Prelude.Outcome.{Outcome, ok}
use net_gateway_api_obsolete.Objects.{Condition}
use net_gateway_api_obsolete.Objects.HttpRoute.{
  HttpRoute, RouteGatewayStatus, condition_route_admitted,
}

-- `metav1.ConditionTrue`
abbrev pub condition_true : String
condition_true = "True"

-- the loop of `isGatewayAdmitted`
unfoldable first_admitted : List Condition → Bool
first_admitted [] = false
first_admitted (condition ∷ conditions) =
    if condition.type == condition_route_admitted
    then condition.status == condition_true
    else first_admitted conditions

unfoldable is_gateway_admitted : RouteGatewayStatus → Bool
unfolding first_admitted
is_gateway_admitted gw = first_admitted gw.conditions

-- the loop of `IsHTTPRouteReady`, which ends at the first gateway that is not admitted
unfoldable all_admitted : List RouteGatewayStatus → Bool
unfolding is_gateway_admitted
all_admitted [] = true
all_admitted (gw ∷ gateways) = if is_gateway_admitted gw then all_admitted gateways else false

abbrev ready_gateways : Option (List RouteGatewayStatus) → Outcome Bool
ready_gateways none = ok false
ready_gateways (some gateways) = ok (all_admitted gateways)

-- `IsHTTPRouteReady`, whose error is always nil
unfoldable pub is_http_route_ready : HttpRoute → Outcome Bool
unfolding all_admitted
is_http_route_ready r = ready_gateways r.status.gateways

abbrev OtherType : Condition → Type 0
OtherType c = c.type ≢ condition_route_admitted

-- The first condition of the type "Admitted" is there, and has the status "True".
pub record IsAdmitted (conditions : List Condition) : Type 0 where
  pub before : List Condition
  pub admitted : Condition
  pub after : List Condition
  pub split : conditions ≡ before ++ admitted ∷ after
  pub earlier : All OtherType before
  pub type : admitted.type ≡ condition_route_admitted
  pub status : admitted.status ≡ condition_true

later : (c : Condition) (cs : List Condition) → OtherType c → IsAdmitted cs → IsAdmitted (c ∷ cs)
later c cs n a = record {
  before = c ∷ a.before;
  admitted = a.admitted;
  after = a.after;
  split = ap (λ (x : List Condition). c ∷ x) a.split;
  earlier = (n, a.earlier);
  type = a.type;
  status = a.status;
}

first_admitted_sound : (cs : List Condition) → first_admitted cs ≡ true → IsAdmitted cs
unfolding first_admitted
first_admitted_sound [] h = cc
first_admitted_sound (c ∷ cs) h = elim (Bool-cases (c.type == condition_route_admitted)) [
  | inl e ↦ record {
    before = [];
    admitted = c;
    after = cs;
    split = refl;
    earlier = tt;
    type = (eq_iff c.type condition_route_admitted).0 e;
    status = (eq_iff c.status condition_true).0 (rw e at h);
  }
  | inr n ↦
      later c cs (λ p. cc ((eq_iff c.type condition_route_admitted).1 p))
        (first_admitted_sound cs (rw n at h))
]

first_admitted_split :
    (before : List Condition) (c : Condition) (after : List Condition)
    → All OtherType before
    → c.type ≡ condition_route_admitted
    → c.status ≡ condition_true
    → first_admitted (before ++ c ∷ after) ≡ true
unfolding first_admitted
first_admitted_split [] c after a t s =
    ground (arith, eq_iff c.type condition_route_admitted, eq_iff c.status condition_true)
first_admitted_split (b ∷ bs) c after a t s =
    ground (arith, eq_iff b.type condition_route_admitted, first_admitted_split bs c after a.1 t s)

-- Every gateway of the status is admitted, and there is a status.
pub record IsReady (r : HttpRoute) : Type 0 where
  pub gateways : List RouteGatewayStatus
  pub reported : r.status.gateways ≡ some gateways
  pub admitted : All (λ gw. IsAdmitted gw.conditions) gateways

all_admitted_sound :
    (gws : List RouteGatewayStatus)
    → all_admitted gws ≡ true
    → All (λ gw. IsAdmitted gw.conditions) gws
unfolding all_admitted
all_admitted_sound [] h = tt
all_admitted_sound (gw ∷ gws) h = elim (Bool-cases (first_admitted gw.conditions)) [
  | inl e ↦ (first_admitted_sound gw.conditions e, all_admitted_sound gws (rw e at h))
  | inr n ↦ cc (rw n at h)
]

all_admitted_complete :
    (gws : List RouteGatewayStatus)
    → All (λ gw. IsAdmitted gw.conditions) gws
    → all_admitted gws ≡ true
unfolding all_admitted
all_admitted_complete [] a = refl
all_admitted_complete (gw ∷ gws) a =
    let e =
      ap first_admitted a.0.split
      ∙ first_admitted_split a.0.before a.0.admitted a.0.after a.0.earlier a.0.type a.0.status in
    rw e (all_admitted_complete gws a.1)

-- A route is ready exactly when its status lists gateways and the first condition "Admitted" of each
-- of them is "True"; the call gives an answer on every route.
pub is_http_route_ready_iff :
    (r : HttpRoute)
    → (is_http_route_ready r ≡ ok true ↔ IsReady r) × ((b : Bool) × (is_http_route_ready r ≡ ok b))
unfolding is_http_route_ready
is_http_route_ready_iff r = ((sound, complete), answer r.status.gateways)
  where
    sound : is_http_route_ready r ≡ ok true → IsReady r
    sound h = elim (Option-cases r.status.gateways) [
      | inl missing ↦ cc (rw missing at h)
      | inr found ↦ record {
        gateways = found.0;
        reported = found.1;
        admitted = all_admitted_sound found.0 (ground (arith, found.1));
      }
    ]

    complete : IsReady r → is_http_route_ready r ≡ ok true
    complete a = rw a.reported (ap ok (all_admitted_complete a.gateways a.admitted))

    answer : (o : Option (List RouteGatewayStatus)) → (b : Bool) × (ready_gateways o ≡ ok b)
    answer none = (false, refl)
    answer (some gateways) = (all_admitted gateways, refl)
