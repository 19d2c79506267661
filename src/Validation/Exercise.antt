-- ===== src/Validation/Exercise.antt =====
-- validation/purple.go: exercises, which record what became of each case of a campaign.
pub mod Built
use blueveil.Prelude.{Bool, true, false, not, String, none, List, [], ◌∷◌, ◌++◌, is_empty}
use blueveil.Prelude.Names.{contains}
use blueveil.Prelude.Library.{Library, derived_id}
use blueveil.Prelude.Result.{Result, ok, ensure_none, ◌>>=◌, ◌>>◌ as ◌>>ᵣ◌}
use blueveil.Contract.Check.{Check, ContractError, ◌>>◌, check_value}
use blueveil.Contract.Fields.{required, refuse_if}
use blueveil.Contract.Validation.{ValidationVerdict, verdict_enumeration}

abbrev pub exercise_statuses : List String
exercise_statuses =
    "ATTEMPTED" ∷ "PREVENTED" ∷ "DETECTED" ∷ "PREVENTED_AND_DETECTED" ∷ "ALLOWED_BUT_DETECTED"
    ∷ "ALLOWED_AND_NOT_DETECTED" ∷ "NOT_TESTED" ∷ "RATE_LIMITED" ∷ "UNKNOWN_OUTCOME"
    ∷ "PROVIDER_FAILURE" ∷ []

unfoldable pub verdict_status : ValidationVerdict → String
verdict_status ValidationVerdict.prevented = "PREVENTED"
verdict_status ValidationVerdict.detected = "DETECTED"
verdict_status ValidationVerdict.prevented_and_detected = "PREVENTED_AND_DETECTED"
verdict_status ValidationVerdict.allowed_but_detected = "ALLOWED_BUT_DETECTED"
verdict_status ValidationVerdict.allowed_and_not_detected = "ALLOWED_AND_NOT_DETECTED"
verdict_status ValidationVerdict.not_tested = "NOT_TESTED"
verdict_status ValidationVerdict.rate_limited = "RATE_LIMITED"
verdict_status _ = "UNKNOWN_OUTCOME"

-- ExerciseStatusFor; the flag says whether the provider gave an error.
unfoldable pub exercise_status_for : ValidationVerdict → Bool → String
exercise_status_for verdict true = "PROVIDER_FAILURE"
exercise_status_for verdict false = verdict_status verdict

pub record ExerciseEntryInput : Type 0 where
  pub case_id : String
  pub request_id : String
  pub result_id : String
  pub verdict : ValidationVerdict
  pub provider_failed : Bool
  pub telemetry_ids : List String
  pub detection_ids : List String
  pub alert_ids : List String
  pub incident_ids : List String
  pub evidence_ids : List String

pub record ExerciseInput : Type 0 where
  pub campaign_id : String
  pub name : String
  pub source : String
  pub entries : List ExerciseEntryInput

pub record ExerciseEntry : Type 0 where
  pub case_id : String
  pub request_id : String
  pub result_id : String
  pub verdict : ValidationVerdict
  pub status : String
  pub telemetry_ids : List String
  pub detection_ids : List String
  pub alert_ids : List String
  pub incident_ids : List String
  pub evidence_ids : List String

pub record Exercise : Type 0 where
  pub id : String
  pub campaign_id : String
  pub name : String
  pub source : String
  pub entries : List ExerciseEntry

unfoldable pub valid_exercise_status : String → Bool
valid_exercise_status s = contains exercise_statuses s

-- One round of the loop of Validate, and the loop.
unfoldable pub validate_entry : ExerciseEntry → Check
validate_entry en = do
  required "case_id" en.case_id
  required "request_id" en.request_id
  required "result_id" en.result_id
  refuse_if (is_empty en.telemetry_ids) "telemetry_ids"
  check_value "verdict" en.verdict
  refuse_if (not (valid_exercise_status en.status)) "status"

unfoldable pub validate_entries : List ExerciseEntry → Check
validate_entries [] = none
validate_entries (en ∷ ens) = validate_entry en >> validate_entries ens

-- Validate
unfoldable pub validate_exercise : Exercise → Check
validate_exercise e = do
  required "id" e.id
  required "campaign_id" e.campaign_id
  required "name" e.name
  required "source" e.source
  refuse_if (is_empty e.entries) "entries"
  validate_entries e.entries

-- The checks of BuildExercise on one entry.
unfoldable pub check_entry : ExerciseEntryInput → Check
check_entry e = do
  required "case_id" e.case_id
  required "request_id" e.request_id
  required "result_id" e.result_id
  refuse_if (is_empty e.telemetry_ids) "telemetry_ids"
  check_value "verdict" e.verdict

unfoldable pub entry_of : ExerciseEntryInput → ExerciseEntry
entry_of e = record {
  case_id = e.case_id;
  request_id = e.request_id;
  result_id = e.result_id;
  verdict = e.verdict;
  status = exercise_status_for e.verdict e.provider_failed;
  telemetry_ids = e.telemetry_ids;
  detection_ids = e.detection_ids;
  alert_ids = e.alert_ids;
  incident_ids = e.incident_ids;
  evidence_ids = e.evidence_ids;
}

-- The loop of BuildExercise: the entries, and the parts of the identifier.
unfoldable pub build_entries :
    List ExerciseEntryInput
    → List ExerciseEntry
    → List String
    → Result ContractError (List ExerciseEntry × List String)
build_entries [] entries parts = ok (entries, parts)
build_entries (e ∷ es) entries parts =
    ensure_none (λ c. c) (check_entry e)
    >>ᵣ build_entries es (entries ++ (entry_of e ∷ [])) (parts ++ (e.case_id ∷ e.result_id ∷ []))

unfoldable pub check_exercise_input : ExerciseInput → Check
check_exercise_input i = do
  required "campaign_id" i.campaign_id
  required "name" i.name
  required "source" i.source
  refuse_if (is_empty i.entries) "entries"

unfoldable pub exercise_of : Library → ExerciseInput → List ExerciseEntry × List String → Exercise
exercise_of lib i (entries, parts) = record {
  id = derived_id lib "pex-" parts;
  campaign_id = i.campaign_id;
  name = i.name;
  source = i.source;
  entries = entries;
}

-- BuildExercise
unfoldable pub build_exercise : Library → ExerciseInput → Result ContractError Exercise
build_exercise lib i =
    ensure_none (λ c. c) (check_exercise_input i)
    >>ᵣ (build_entries i.entries [] ("blueveil-purple-exercise-v1" ∷ i.campaign_id ∷ i.name ∷ [])
        >>= λ built. ok (exercise_of lib i built))
