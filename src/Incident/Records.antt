-- ===== src/Incident/Records.antt =====
-- The records of incident/incident.go, what is checked before Ingest takes the lock, and what it
-- writes into a record.
use blueveil.Prelude.{
  Bool, true, false, String, Option, none, some, List, [], ◌∷◌, ◌++◌, if◌then◌else◌,
}
use blueveil.Prelude.Int.{ltb_ℤ}
use blueveil.Prelude.Time.{Time, timestamp}
use blueveil.Prelude.Dict
use blueveil.Prelude.Dict.{Dict}
use blueveil.Prelude.Names.{contains, add, sort, join}
use blueveil.Prelude.Result.{Result, ok, err, ensure, ensure_none, ◌>>=◌, ◌>>◌}
use blueveil.Contract.Enums.{Severity, code, IncidentStatus}
use blueveil.Contract.Messages.{TelemetryEvent, Detection, Alert, Incident}
use blueveil.Contract.Detection.{validate_alert, validate_detection}
use blueveil.Contract.Incident.{validate_incident}
use blueveil.Prelude.Library.{Library}
use blueveil.Incident.Correlation.{incident_id, summarize}

pub data IncidentError : Type 0 where
  incident_build incident_transition incident_not_found : IncidentError

-- The map nextState.
unfoldable pub next_status : IncidentStatus → Option IncidentStatus
next_status IncidentStatus.opened = some IncidentStatus.investigating
next_status IncidentStatus.investigating = some IncidentStatus.contained
next_status IncidentStatus.contained = some IncidentStatus.resolved
next_status IncidentStatus.resolved = some IncidentStatus.closed
next_status _ = none

pub record Record : Type 0 where
  pub incident : Incident
  pub alerts : List String
  pub rules : List String
  pub assets : List String

pub record Manager : Type 0 where
  pub by_id : Dict Record
  pub by_key : Dict String

abbrev pub new_manager : Manager
new_manager = record { by_id = Dict.empty; by_key = Dict.empty }

-- The loop over the events: none of them is nil.
unfoldable pub events_of : List (Option TelemetryEvent) → Result IncidentError (List TelemetryEvent)
events_of [] = ok []
events_of (none ∷ events) = err incident_build
events_of (some e ∷ events) = do rest ← events_of events; ok (e ∷ rest)

unfoldable pub event_ids : List TelemetryEvent → List String
event_ids [] = []
event_ids (e ∷ events) = e.id ∷ event_ids events

-- The loop over the detection's event ids: each is provided.
unfoldable pub all_provided : List String → List String → Bool
all_provided provided [] = true
all_provided provided (id ∷ ids) =
    let rest = all_provided provided ids in if contains provided id then rest else false

-- Ingest up to the reading of the clock, for an alert and a detection that are there.
unfoldable pub admit :
    Alert → Detection → List (Option TelemetryEvent) → Result IncidentError (List TelemetryEvent)
admit alert det events = do
  ensure_none (λ _. incident_build) (validate_alert (some alert))
  ensure_none (λ _. incident_build) (validate_detection (some det))
  ensure (contains alert.detection_ids det.id) incident_build
  present ← events_of events
  ensure (all_provided (event_ids present) det.telemetry_event_ids) incident_build
  ok present

-- The loop that adds the events' assets.
unfoldable pub add_assets : List String → List TelemetryEvent → List String
add_assets assets [] = assets
add_assets assets (e ∷ events) = add_assets (add assets e.asset_id) events

-- `if alert.GetSeverity() > rec.incident.GetSeverity()`
unfoldable pub higher : Severity → Severity → Severity
higher mine theirs = if ltb_ℤ (code mine) (code theirs) then theirs else mine

-- What Ingest writes into a record for a further alert.
unfoldable pub merged : Time → Alert → Detection → List TelemetryEvent → Record → Record
merged now alert det events rec =
    let alerts = add rec.alerts alert.id in
    let rules = add rec.rules det.rule_id in
    let assets = add_assets rec.assets events in
    record {
      incident = record rec.incident {
        alert_ids = sort (rec.incident.alert_ids ++ alert.id ∷ []);
        severity = higher rec.incident.severity alert.severity;
        updated_at = some (timestamp now);
        summary = summarize alerts rules assets;
      };
      alerts = alerts;
      rules = rules;
      assets = assets;
    }

unfoldable pub incident_checked : Incident → Result IncidentError Incident
incident_checked i = do ensure_none (λ _. incident_build) (validate_incident (some i)); ok i

module _ (lib : Library) where
  -- The record of a new incident.
  unfoldable pub founded : Time → String → Alert → Detection → List TelemetryEvent → Record
  founded now key alert det events =
      let assets = add_assets [] events in
      record {
        incident = record {
          id = incident_id lib key;
          alert_ids = alert.id ∷ [];
          status = IncidentStatus.opened;
          severity = alert.severity;
          created_at = some (timestamp now);
          updated_at = some (timestamp now);
          title = join "" ("Incident: " ∷ alert.title ∷ []);
          summary = summarize (alert.id ∷ []) (det.rule_id ∷ []) assets;
        };
        alerts = alert.id ∷ [];
        rules = det.rule_id ∷ [];
        assets = assets;
      }
