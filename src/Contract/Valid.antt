-- ===== src/Contract/Valid.antt =====
-- What the validators of the response contracts accept.
use blueveil.Prelude.{◌≡◌, ◌≢◌, ◌↔◌, Bool, true, false, String, Option, none, some, arith, eq_iff}
use blueveil.Prelude.Time.{Timestamp, check_valid}
use blueveil.Contract.Enums.{
  explicit, Enumeration, standing, operation_enumeration, risk_enumeration, status_enumeration,
}
use blueveil.Contract.Messages.{ResponseRecommendation}
use blueveil.Contract.Check.{Check, ◌>>◌, non_empty, check_value, require_timestamp}
use blueveil.Contract.Response.{validate_recommendation}

-- A timestamp that is there and within the years 1 to 9999.
abbrev pub is_stamped : Option Timestamp → Bool
is_stamped none = false
is_stamped (some ts) = check_valid ts

abbrev pub IsStamped : Option Timestamp → Type 0
IsStamped o = is_stamped o ≡ true

pub record IsValid (r : ResponseRecommendation) : Type 0 where
  pub id_given : r.id ≢ ""
  pub incident_given : r.incident_id ≢ ""
  pub target_given : r.target ≢ ""
  pub reason_given : r.reason ≢ ""
  pub proposer_given : r.recommended_by ≢ ""
  pub operation_explicit : standing r.operation ≡ explicit
  pub risk_explicit : standing r.risk ≡ explicit
  pub status_explicit : standing r.status ≡ explicit
  pub stamped : IsStamped r.recommended_at

pub >>-eq-none : (a b : Check) → (a >> b) ≡ none → (a ≡ none) × (b ≡ none)
>>-eq-none none b h = ground arith
>>-eq-none (some e) b h = ground arith

pub non_empty_iff : (what s : String) → (non_empty what s ≡ none) ↔ (s ≢ "")
non_empty_iff what s = ground (arith, eq_iff s "")

pub check_value_iff :
    {A : Type 0} ⦃e : Enumeration A⦄ (what : String) (v : A)
    → (check_value what v ≡ none) ↔ (standing v ≡ explicit)
unfolding check_value
check_value_iff what v = ground arith

pub require_timestamp_iff :
    (what : String) (o : Option Timestamp) → (require_timestamp what o ≡ none) ↔ IsStamped o
unfolding require_timestamp
require_timestamp_iff what none = ground arith
require_timestamp_iff what (some ts) = ground arith

validate_recommendation-IsValid :
    (r : ResponseRecommendation) → validate_recommendation (some r) ≡ none → IsValid r
unfolding validate_recommendation
validate_recommendation-IsValid r h0 =
    let (id, h1) = >>-eq-none (non_empty "id" r.id) _ h0 in
    let (incident, h2) = >>-eq-none (non_empty "incident_id" r.incident_id) _ h1 in
    let (target, h3) = >>-eq-none (non_empty "target" r.target) _ h2 in
    let (reason, h4) = >>-eq-none (non_empty "reason" r.reason) _ h3 in
    let (proposer, h5) = >>-eq-none (non_empty "recommended_by" r.recommended_by) _ h4 in
    let (operation, h6) = >>-eq-none (check_value "operation" r.operation) _ h5 in
    let (risk, h7) = >>-eq-none (check_value "risk" r.risk) _ h6 in
    let (status, stamp) = >>-eq-none (check_value "status" r.status) _ h7 in
    record {
      id_given = (non_empty_iff "id" r.id).0 id;
      incident_given = (non_empty_iff "incident_id" r.incident_id).0 incident;
      target_given = (non_empty_iff "target" r.target).0 target;
      reason_given = (non_empty_iff "reason" r.reason).0 reason;
      proposer_given = (non_empty_iff "recommended_by" r.recommended_by).0 proposer;
      operation_explicit = (check_value_iff "operation" r.operation).0 operation;
      risk_explicit = (check_value_iff "risk" r.risk).0 risk;
      status_explicit = (check_value_iff "status" r.status).0 status;
      stamped = (require_timestamp_iff "recommended_at" r.recommended_at).0 stamp;
    }

IsValid-validate_recommendation :
    (r : ResponseRecommendation) → IsValid r → validate_recommendation (some r) ≡ none
unfolding validate_recommendation
IsValid-validate_recommendation r v = rw (
  (non_empty_iff "id" r.id).1 v.id_given,
  (non_empty_iff "incident_id" r.incident_id).1 v.incident_given,
  (non_empty_iff "target" r.target).1 v.target_given,
  (non_empty_iff "reason" r.reason).1 v.reason_given,
  (non_empty_iff "recommended_by" r.recommended_by).1 v.proposer_given,
  (check_value_iff "operation" r.operation).1 v.operation_explicit,
  (check_value_iff "risk" r.risk).1 v.risk_explicit,
  (check_value_iff "status" r.status).1 v.status_explicit,
  (require_timestamp_iff "recommended_at" r.recommended_at).1 v.stamped,
)

-- A recommendation passes its validator exactly when its texts are given, its operation, risk and
-- status are listed values other than UNSPECIFIED, and its timestamp is well formed.
pub validate_recommendation_iff :
    (r : ResponseRecommendation) → (validate_recommendation (some r) ≡ none) ↔ IsValid r
validate_recommendation_iff r =
    (validate_recommendation-IsValid r, IsValid-validate_recommendation r)
