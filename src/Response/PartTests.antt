-- ===== src/Response/PartTests.antt =====
-- The theorems of the response engine's collaborators at the data of the incident.
use blueveil.Contract.Incident.{validate_incident}
use blueveil.Contract.Response.{validate_approval, validate_recommendation}
use blueveil.Contract.Labels.{severity_name}
use blueveil.Contract.Detection.{
  out_of_unit, validate_alert, validate_detection, validate_telemetry_event,
}
use blueveil.Response.Samples.{
  login_alert, login_detection, login_event, login_incident, login_response, noon, plain,
}
use blueveil.Response.Recommend.Proposals.{
  ReadOnly, Inherits, is_about, propose-read_only, targets_of-is_about,
}
use blueveil.Prelude.Library.{derived_id}
use blueveil.Contract.Check.{check_value, no_empty_id, require_ids, require_timestamp}
use blueveil.Prelude.Time.{check_valid, timestamp}
use blueveil.Prelude.Names.{add, contains, join, sort}
use blueveil.Contract.Messages.{ResponseApproval, ResponseRecommendation}
use blueveil.Contract.Enums.{Severity, OperationType, ResponseStatus, RiskLevel}
use blueveil.Response.Policy.Agreement.{IsWellFormed, by_gate, default_decide_iff}
use blueveil.Contract.Valid.{IsValid, validate_recommendation_iff}
use blueveil.Response.Safety.{Gate, required_gate}
use blueveil.Response.Approval.Binding.{Binds, IsUnexpired, covers_iff, grant-covers}
use blueveil.Response.Policy.{ActionRequest, default_decide}
use blueveil.Prelude.{ℕ, ◌+◌, ◌<◌, ◌≡◌, ◌↔◌, ◌⊎◌, refl, arith, true, false, none, some, [], ◌∷◌}
use blueveil.Prelude.Int.{pos}
use blueveil.Prelude.Result.{ok}
use blueveil.Response.Approval.{approval_id, approval_of, covers, expiry, grant}
use blueveil.Response.Recommend.{
  flags_approval, recommendation_id, collect_assets, proposal, propose, reason_for,
  severity_operation, targets_of,
}

abbrev request : ActionRequest
request = record {
  actor = "soc";
  operation = OperationType.isolate;
  target = "web01";
  risk = RiskLevel.low;
}

abbrev waiting : ResponseRecommendation
waiting = login_response ResponseStatus.pending_approval

abbrev consent : ResponseApproval
consent = record {
  id = approval_id plain waiting.id "alice" noon;
  recommendation_id = waiting.id;
  operation = waiting.operation;
  target = waiting.target;
  risk = waiting.risk;
  approver = "alice";
  approved_at = some (timestamp noon);
  expires_at = expiry noon (pos 60);
  reason = "reviewed";
}

consented : grant plain waiting "alice" "reviewed" noon (pos 60) ≡ ok consent
unfolding grant approval_of approval_id expiry validate_approval validate_recommendation check_value
    require_timestamp timestamp check_valid derived_id join
consented = refl

covers_iff_example :
    (covers (some consent) (some waiting) noon ≡ true)
    ↔ (Binds consent waiting × IsUnexpired consent.expires_at noon)
covers_iff_example = covers_iff consent waiting noon

grant-covers_example :
    (covers (some consent) (some (login_response ResponseStatus.executing)) (noon + 59) ≡ true)
    ↔ ((◌≡◌ {A = ℕ} 60 0) ⊎ (noon + 59 < noon + 60))
grant-covers_example =
    grant-covers plain waiting (login_response ResponseStatus.executing) "alice" "reviewed" noon 60
      (noon + 59) consent (omega arith) consented (refl, refl, refl, refl)

targets_found :
    targets_of login_incident login_alert login_detection (some login_event ∷ [])
    ≡ ok ("web01" ∷ [])
unfolding targets_of collect_assets validate_incident validate_alert validate_detection
    validate_telemetry_event check_value require_timestamp require_ids no_empty_id out_of_unit
    check_valid sort add
targets_found = refl

targets_of-is_about_example :
    contains ("web01" ∷ []) "db01" ≡ is_about (some login_event ∷ []) "db01"
targets_of-is_about_example =
    targets_of-is_about login_incident login_alert login_detection (some login_event ∷ [])
      ("web01" ∷ []) targets_found "db01"

proposed :
    propose plain login_incident login_alert login_detection ("web01" ∷ []) noon
    ≡ ok (login_response ResponseStatus.proposed)
unfolding propose proposal recommendation_id reason_for severity_operation severity_name
    flags_approval derived_id join validate_recommendation check_value require_timestamp timestamp
    check_valid
proposed = refl

propose-read_only_example :
    IsValid (login_response ResponseStatus.proposed)
    × (ResponseStatus.proposed ≡ ResponseStatus.proposed)
    × ReadOnly OperationType.recommend
    × Inherits Severity.high RiskLevel.high
    × ((true ≡ true) ↔ (required_gate OperationType.recommend RiskLevel.high false ≡ Gate.approved))
propose-read_only_example =
    propose-read_only plain login_incident login_alert login_detection ("web01" ∷ []) noon
      (login_response ResponseStatus.proposed) proposed

default_decide_iff_example :
    (default_decide request
      ≡ (by_gate (required_gate OperationType.isolate RiskLevel.low false), none))
    ↔ IsWellFormed request
default_decide_iff_example = default_decide_iff request

validate_recommendation_iff_example :
    (validate_recommendation (some waiting) ≡ none) ↔ IsValid waiting
validate_recommendation_iff_example = validate_recommendation_iff waiting
