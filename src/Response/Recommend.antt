-- ===== src/Response/Recommend.antt =====
-- response/recommend.go: proposals from validated incident data.
pub mod Proposals
use blueveil.Prelude.{
  ℕ, Bool, true, false, ◌||◌, not, String, Option, none, some, List, [], ◌∷◌, ◌==◌, if◌then◌else◌,
  is_empty,
}
use blueveil.Prelude.Names.{contains, add, sort, join}
use blueveil.Prelude.Time.{Time, is_zero, timestamp}
use blueveil.Prelude.Result.{Result, ok, err, ◌>>=◌, ◌>>◌, ensure, ensure_none}
use blueveil.Contract.Enums.{Severity, OperationType, RiskLevel, ResponseStatus}
use blueveil.Contract.Labels.{severity_name}
use blueveil.Contract.Messages.{TelemetryEvent, Detection, Alert, Incident, ResponseRecommendation}
use blueveil.Contract.Response.{validate_recommendation}
use blueveil.Contract.Detection.{validate_detection, validate_alert, validate_telemetry_event}
use blueveil.Contract.Incident.{validate_incident}
use blueveil.Response.Error.{ResponseError, response_build}
use blueveil.Prelude.Library.{Library, derived_id}

abbrev pub recommender_name : String
recommender_name = "blueveil-recommender/1"

unfoldable pub severity_operation : Severity → OperationType × RiskLevel
severity_operation Severity.critical = (OperationType.analyze, RiskLevel.critical)
severity_operation Severity.high = (OperationType.recommend, RiskLevel.high)
severity_operation Severity.medium = (OperationType.observe, RiskLevel.medium)
severity_operation _ = (OperationType.observe, RiskLevel.low)

-- `risk == HIGH || risk == CRITICAL`
unfoldable pub flags_approval : RiskLevel → Bool
flags_approval RiskLevel.high = true
flags_approval RiskLevel.critical = true
flags_approval _ = false

-- What Recommend is given: message pointers, any of which may be nil.
pub record Inputs : Type 0 where
  pub incident : Option Incident
  pub alert : Option Alert
  pub detection : Option Detection
  pub events : List (Option TelemetryEvent)

-- The loop over the events: the set of their assets.
unfoldable pub collect_assets :
    List (Option TelemetryEvent) → List String → Result ResponseError (List String)
collect_assets [] assets = ok assets
collect_assets (none ∷ events) assets = err response_build
collect_assets (some e ∷ events) assets = do
  ensure_none (λ _. response_build) (validate_telemetry_event (some e))
  ensure (not (e.asset_id == "")) response_build
  collect_assets events (add assets e.asset_id)

-- Recommend up to the call of the clock, for inputs that are there: the sorted target assets.
unfoldable pub targets_of :
    Incident → Alert → Detection → List (Option TelemetryEvent) → Result ResponseError (List String)
targets_of incident alert det events = do
  ensure_none (λ _. response_build) (validate_incident (some incident))
  ensure_none (λ _. response_build) (validate_alert (some alert))
  ensure_none (λ _. response_build) (validate_detection (some det))
  ensure (contains incident.alert_ids alert.id) response_build
  assets ← collect_assets events []
  let names = sort assets
  ensure (not (is_empty names)) response_build
  ok names

module _ (lib : Library) where
  unfoldable pub recommendation_id : String → String → String
  recommendation_id incident_id alert_id =
      derived_id lib "rec-" ("blueveil-recommendation-v1" ∷ incident_id ∷ alert_id ∷ [])

  unfoldable pub reason_for : Incident → Detection → String
  reason_for incident det = join "" (
      "incident "
      ∷ incident.id
      ∷ " (severity "
      ∷ severity_name incident.severity
      ∷ ", rule "
      ∷ det.rule_id
      ∷ ") requires analyst review; no automated action proposed"
      ∷ [])

  -- The recommendation that Recommend fills in.
  unfoldable pub proposal :
      Incident → Alert → Detection → List String → Time → ResponseRecommendation
  proposal incident alert det names now =
      let (op, risk) = severity_operation incident.severity in
      record {
        id = recommendation_id incident.id alert.id;
        incident_id = incident.id;
        operation = op;
        target = join "," names;
        risk = risk;
        reason = reason_for incident det;
        status = ResponseStatus.proposed;
        recommended_at = some (timestamp now);
        recommended_by = recommender_name;
        approval_required = flags_approval risk;
      }

  -- Recommend from the reading of the clock on.
  unfoldable pub propose :
      Incident
      → Alert
      → Detection
      → List String
      → Time
      → Result ResponseError ResponseRecommendation
  propose incident alert det names now = do
    ensure (not (is_zero now)) response_build
    let rec = proposal incident alert det names now
    ensure_none (λ _. response_build) (validate_recommendation (some rec))
    ok rec
