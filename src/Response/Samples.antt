-- ===== src/Response/Samples.antt =====
-- A high-severity incident, its recommendation, and an engine with the simulated executor, for the
-- tests.
use blueveil.Prelude.{true, false, String, some, List, [], ◌∷◌}
use blueveil.Prelude.Int.{pos}
use blueveil.Prelude.Time.{Time, Timestamp}
use blueveil.Prelude.Dict
use blueveil.Contract.Enums.{
  Severity, AlertStatus, IncidentStatus, ResponseStatus, OperationType, RiskLevel,
}
use blueveil.Contract.Messages.{
  TelemetryEvent, Detection, Alert, Incident, fraction, ResponseRecommendation,
}
use blueveil.Prelude.Library.{Library}
use blueveil.Response.Policy.{default_decide}
use blueveil.Response.Executor.{SimulatedExecutor, simulated_execute}
use blueveil.Response.Verifier.{unknown_verify}
use blueveil.Response.Recommend.{Inputs}
use blueveil.Response.Engine.State.{Environment}
use blueveil.Response.Engine.Runs.{Call, recommend, decide, approve, execute, verify}

abbrev pub plain : Library
plain = record {
  digest16 = λ t. t;
  rfc3339 = λ t. "now";
  quote = λ t. t;
  lower = λ c. c;
  fold = λ c. c;
}

abbrev pub noon : Time
noon = 63800000000000000000

abbrev pub stamp : Timestamp
stamp = record { seconds = pos 1664403200; nanos = pos 0 }

abbrev pub lab : Environment SimulatedExecutor
lab = record {
  library = plain;
  clock = λ n. noon;
  decide = default_decide;
  execute = simulated_execute plain;
  verify = unknown_verify;
}

abbrev pub idle : SimulatedExecutor
idle = record { fail = λ op. false; executed = [] }

abbrev pub login_event : TelemetryEvent
login_event = record {
  id = "e1";
  occurred_at = some stamp;
  source = "waf";
  asset_id = "web01";
  identity_id = "";
  event_type = "login";
  severity = Severity.high;
  attributes = Dict.empty;
  raw = "";
}

abbrev pub login_detection : Detection
login_detection = record {
  id = "d1";
  rule_id = "r1";
  rule_name = "brute force";
  telemetry_event_ids = "e1" ∷ [];
  detected_at = some stamp;
  severity = Severity.high;
  confidence = fraction (pos 1) 1;
  title = "logins";
  description = "";
  attributes = Dict.empty;
}

abbrev pub login_alert : Alert
login_alert = record {
  id = "a1";
  detection_ids = "d1" ∷ [];
  status = AlertStatus.opened;
  severity = Severity.high;
  created_at = some stamp;
  updated_at = some stamp;
  title = "logins";
}

abbrev pub login_incident : Incident
login_incident = record {
  id = "i1";
  alert_ids = "a1" ∷ [];
  status = IncidentStatus.opened;
  severity = Severity.high;
  created_at = some stamp;
  updated_at = some stamp;
  title = "logins";
  summary = "";
}

abbrev pub login : Inputs
login = record {
  incident = some login_incident;
  alert = some login_alert;
  detection = some login_detection;
  events = some login_event ∷ [];
}

abbrev pub rec_id : String
rec_id = "rec-blueveil-recommendation-v1\u{1f}i1\u{1f}a1"

abbrev pub story : List Call
story =
    recommend login
    ∷ decide rec_id "soc"
    ∷ approve rec_id "alice" "reviewed" (pos 60)
    ∷ execute rec_id
    ∷ verify rec_id
    ∷ []

-- The stored recommendation in a status.
abbrev pub login_response : ResponseStatus → ResponseRecommendation
login_response status = record {
  id = rec_id;
  incident_id = "i1";
  operation = OperationType.recommend;
  target = "web01";
  risk = RiskLevel.high;
  reason =
      "incident i1 (severity SEVERITY_HIGH, rule r1) requires analyst review; no automated action proposed";
  status = status;
  recommended_at = some stamp;
  recommended_by = "blueveil-recommender/1";
  approval_required = true;
}

abbrev pub opening : List Call
opening = recommend login ∷ []
