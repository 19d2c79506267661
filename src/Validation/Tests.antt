-- ===== src/Validation/Tests.antt =====
-- The theorems on validation at an exercise and at the request of a login.
use blueveil.Validation.Provider.{check_request}
use blueveil.Prelude.Library.{derived_id}
use blueveil.Contract.Validation.{validate_request}
use blueveil.Validation.Request.{by_id, context_of, control_of, gather, gather_event, request_id}
use blueveil.Contract.Detection.{
  out_of_unit, validate_alert, validate_detection, validate_telemetry_event,
}
use blueveil.Prelude.Time.{check_valid, timestamp}
use blueveil.Contract.Incident.{validate_incident}
use blueveil.Prelude.Names.{add, insert, join, sort}
use blueveil.Contract.Check.{check_value, no_empty_id, require_ids, require_timestamp}
use blueveil.Prelude.Space.{is_blank, trim_left, trim_right}
use blueveil.Contract.Fields.{refuse_if, required}
use blueveil.Validation.Exercise.{build_entries, check_entry, check_exercise_input}
use blueveil.Prelude.{◌≡◌, refl, true, false, none, some, [], ◌∷◌, map}
use blueveil.Prelude.Dict
use blueveil.Prelude.Result.{ok}
use blueveil.Contract.Messages.{TelemetryEvent}
use blueveil.Contract.Validation.{ValidationVerdict, ValidationRequest}
use blueveil.Response.Samples.{
  plain, noon, login_event, login_detection, login_alert, login_incident,
}
use blueveil.Validation.Exercise.{
  ExerciseEntryInput, ExerciseInput, Exercise, entry_of, exercise_of, build_exercise,
  validate_exercise,
}
use blueveil.Validation.Exercise.Built.{AllEnter, build_exercise-valid}
use blueveil.Validation.Request.{request_of, build_for}
use blueveil.Validation.Request.Named.{IsNamed, build_for-IsNamed}

abbrev missed : ExerciseEntryInput
missed = record {
  case_id = "c1";
  request_id = "q1";
  result_id = "s1";
  verdict = ValidationVerdict.allowed_and_not_detected;
  provider_failed = false;
  telemetry_ids = "e1" ∷ [];
  detection_ids = [];
  alert_ids = [];
  incident_ids = [];
  evidence_ids = [];
}

abbrev crashed : ExerciseEntryInput
crashed = record missed { case_id = "c2"; provider_failed = true }

abbrev drill : ExerciseInput
drill = record {
  campaign_id = "v1";
  name = "drill";
  source = "soc";
  entries = missed ∷ crashed ∷ [];
}

abbrev recorded : Exercise
recorded = exercise_of plain drill (
  map entry_of drill.entries,
  "blueveil-purple-exercise-v1" ∷ "v1" ∷ "drill" ∷ "c1" ∷ "s1" ∷ "c2" ∷ "s1" ∷ [],
)

drill_built : build_exercise plain drill ≡ ok recorded
unfolding build_exercise check_exercise_input required is_blank trim_right trim_left refuse_if
    build_entries check_entry check_value
drill_built = refl

build_exercise-valid_example :
    (validate_exercise recorded ≡ none)
    × (recorded.campaign_id ≡ drill.campaign_id)
    × (recorded.name ≡ drill.name)
    × (recorded.source ≡ drill.source)
    × AllEnter drill.entries recorded.entries
build_exercise-valid_example = build_exercise-valid plain drill recorded drill_built

-- The event names the control that is to be validated.
abbrev marked : TelemetryEvent
marked = record login_event { attributes = Dict.put Dict.empty "rule_id" "waf-1" }

abbrev asked : ValidationRequest
asked =
    request_of plain login_incident login_alert login_detection
      (record { assets = "web01" ∷ []; control = "waf-1" }) noon

asked_built :
    build_for plain login_incident login_alert login_detection (some marked ∷ []) noon ≡ ok asked
unfolding build_for validate_incident require_ids check_value require_timestamp check_valid
    validate_alert validate_detection out_of_unit by_id gather gather_event Dict.get Dict.put
    validate_telemetry_event control_of sort no_empty_id validate_request derived_id add insert join
    timestamp check_request context_of request_id request_of
asked_built = refl

asked_target : asked.target ≡ "web01"
unfolding request_of join sort
asked_target = refl

build_for-IsNamed_example :
    IsNamed login_incident login_alert login_detection (some marked ∷ []) asked
build_for-IsNamed_example =
    build_for-IsNamed plain login_incident login_alert login_detection (some marked ∷ []) noon asked
      asked_built
