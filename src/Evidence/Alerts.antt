-- ===== src/Evidence/Alerts.antt =====
-- evidence/evidence.go: BuildForAlert, the evidence of an alert.
use blueveil.Prelude.{
  Bool, true, false, not, String, Option, none, some, List, [], ◌∷◌, ◌++◌, ◌==◌, if◌then◌else◌,
}
use blueveil.Prelude.Names.{contains, sort}
use blueveil.Prelude.Time.{Time, is_zero}
use blueveil.Prelude.Dict.{Dict, empty, get, put, has}
use blueveil.Prelude.Library.{Library}
use blueveil.Prelude.Result.{Result, ok, err, ensure, ensure_none, ◌>>=◌, ◌>>◌}
use blueveil.Contract.Enums.{EvidenceType}
use blueveil.Contract.Messages.{TelemetryEvent, Detection, Alert, Evidence}
use blueveil.Contract.Detection.{validate_detection, validate_alert, validate_telemetry_event}
use blueveil.Evidence.Item.{EvidenceError, evidence_build, Codec, Subject, new_item}

-- The loop that collects the events by their ids; the last of two with one id stays.
unfoldable pub by_id :
    List (Option TelemetryEvent) → Dict TelemetryEvent → Result EvidenceError (Dict TelemetryEvent)
by_id [] found = ok found
by_id (none ∷ events) found = err evidence_build
by_id (some e ∷ events) found = do
  ensure_none (λ _. evidence_build) (validate_telemetry_event (some e))
  by_id events (put found e.id e)

-- The loop over the ids of the detection.
unfoldable pub all_found : Dict TelemetryEvent → List String → Bool
all_found found [] = true
all_found found (id ∷ ids) = if has found id then all_found found ids else false

abbrev pub detector_name : String
detector_name = "blueveil-detect"

unfoldable pub event_subject : TelemetryEvent → String → Subject
event_subject e id = record {
  kind = "event";
  ref_id = id;
  type = EvidenceType.log_excerpt;
  source = e.source;
}

unfoldable pub detection_subject : Detection → Subject
detection_subject d = record {
  kind = "detection";
  ref_id = d.id;
  type = EvidenceType.note;
  source = detector_name;
}

unfoldable pub alert_subject : Alert → Subject
alert_subject a = record {
  kind = "alert";
  ref_id = a.id;
  type = EvidenceType.note;
  source = detector_name;
}

module _ (lib : Library) (codec : Codec) where
  -- mk, with the content that MarshalCanonical gives.
  unfoldable pub make : String → Subject → Option String → Time → Result EvidenceError Evidence
  make incident_id s none now = err evidence_build
  make incident_id s (some content) now = new_item codec lib incident_id s content now

  unfoldable pub event_item :
      String → Option TelemetryEvent → String → Time → Result EvidenceError Evidence
  event_item incident_id none id now = err evidence_build
  event_item incident_id (some e) id now =
      make incident_id (event_subject e id) (codec.marshal_event e) now

  -- The loop over the sorted ids.
  unfoldable pub event_items :
      String → Dict TelemetryEvent → List String → Time → Result EvidenceError (List Evidence)
  event_items incident_id found [] now = ok []
  event_items incident_id found (id ∷ ids) now = do
    e ← event_item incident_id (get found id) id now
    rest ← event_items incident_id found ids now
    ok (e ∷ rest)

  -- BuildForAlert, for an alert and a detection that are there.
  unfoldable pub build_for :
      String
      → Alert
      → Detection
      → List (Option TelemetryEvent)
      → Time
      → Result EvidenceError (List Evidence)
  build_for incident_id alert det events now = do
    ensure_none (λ _. evidence_build) (validate_alert (some alert))
    ensure_none (λ _. evidence_build) (validate_detection (some det))
    ensure (contains alert.detection_ids det.id) evidence_build
    found ← by_id events empty
    ensure (all_found found det.telemetry_event_ids) evidence_build
    ensure (not (is_zero now)) evidence_build
    items ← event_items incident_id found (sort det.telemetry_event_ids) now
    det_item ← make incident_id (detection_subject det) (codec.marshal_detection det) now
    alert_item ← make incident_id (alert_subject alert) (codec.marshal_alert alert) now
    ok (items ++ (det_item ∷ alert_item ∷ []))

  unfoldable pub build_for_alert :
      String
      → Option Alert
      → Option Detection
      → List (Option TelemetryEvent)
      → Time
      → Result EvidenceError (List Evidence)
  build_for_alert incident_id (some alert) (some det) events now = do
    ensure (not (incident_id == "")) evidence_build
    build_for incident_id alert det events now
  build_for_alert incident_id _ _ events now = err evidence_build
