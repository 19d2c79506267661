-- ===== src/Validation/Request.antt =====
-- validation/request.go: the request that an incident gives rise to.
pub mod Control
pub mod Found
pub mod Named
use blueveil.Prelude.{not, String, Option, none, some, List, [], ◌∷◌, ◌==◌, if◌then◌else◌, is_empty}
use blueveil.Prelude.Names.{contains, add, sort, join}
use blueveil.Prelude.Time.{Time, is_zero, timestamp}
use blueveil.Prelude.Dict.{Dict, empty, get, put}
use blueveil.Prelude.Library.{Library, derived_id}
use blueveil.Prelude.Result.{Result, ok, err, ensure, ensure_none, ◌>>=◌, ◌>>◌}
use blueveil.Contract.Messages.{TelemetryEvent, Detection, Alert, Incident}
use blueveil.Contract.Detection.{validate_detection, validate_alert, validate_telemetry_event}
use blueveil.Contract.Incident.{validate_incident}
use blueveil.Contract.Validation.{ValidationRequest}
use blueveil.Validation.Error.{ValidationError, validation_build}
use blueveil.Validation.Provider.{check_request}

unfoldable pub request_id : Library → String → String → String → String
request_id lib control_id target incident_id =
    derived_id lib "vreq-"
      ("blueveil-validation-request-v1" ∷ control_id ∷ target ∷ incident_id ∷ [])

-- The loop that collects the events by their ids; the last of two with one id stays.
unfoldable pub by_id :
    List (Option TelemetryEvent)
    → Dict TelemetryEvent
    → Result ValidationError (Dict TelemetryEvent)
by_id [] found = ok found
by_id (none ∷ events) found = err validation_build
by_id (some e ∷ events) found = by_id events (put found e.id e)

abbrev pub or_empty : Option String → String
or_empty none = ""
or_empty (some v) = v

-- The loop over controlAttributeKeys: the first attribute that is not empty.
unfoldable pub control_of : TelemetryEvent → String
control_of e =
    let control = or_empty (get e.attributes "control_id") in
    if control == "" then or_empty (get e.attributes "rule_id") else control

-- What the loop over the events of the detection collects.
pub record Gathered : Type 0 where
  pub assets : List String
  pub control : String

unfoldable pub gather_event : Option TelemetryEvent → Gathered → Result ValidationError Gathered
gather_event none g = err validation_build
gather_event (some e) g = do
  ensure_none (λ _. validation_build) (validate_telemetry_event (some e))
  ok (record {
    assets = add g.assets e.asset_id;
    control = if g.control == "" then control_of e else g.control;
  })

unfoldable pub gather :
    Dict TelemetryEvent → List String → Gathered → Result ValidationError Gathered
gather found [] g = ok g
gather found (id ∷ ids) g = do g' ← gather_event (get found id) g; gather found ids g'

unfoldable pub context_of : Incident → Alert → Detection → Dict String
context_of incident alert det =
    put (put (put empty "incident_id" incident.id) "alert_id" alert.id) "detection_id" det.id

-- The request that BuildRequest fills in.
unfoldable pub request_of :
    Library → Incident → Alert → Detection → Gathered → Time → ValidationRequest
request_of lib incident alert det g now =
    let target = join "," (sort g.assets) in
    record {
      id = request_id lib g.control target incident.id;
      control_id = g.control;
      target = target;
      context = context_of incident alert det;
      requested_at = some (timestamp now);
    }

-- BuildRequest, for an incident, an alert and a detection that are there.
unfoldable pub build_for :
    Library
    → Incident
    → Alert
    → Detection
    → List (Option TelemetryEvent)
    → Time
    → Result ValidationError ValidationRequest
build_for lib incident alert det events now = do
  ensure_none (λ _. validation_build) (validate_incident (some incident))
  ensure_none (λ _. validation_build) (validate_alert (some alert))
  ensure_none (λ _. validation_build) (validate_detection (some det))
  ensure (contains incident.alert_ids alert.id) validation_build
  ensure (contains alert.detection_ids det.id) validation_build
  found ← by_id events empty
  g ← gather found det.telemetry_event_ids (record { assets = []; control = "" })
  ensure (not (g.control == "")) validation_build
  ensure (not (is_empty (sort g.assets))) validation_build
  ensure (not (is_zero now)) validation_build
  let req = request_of lib incident alert det g now
  check_request (some req)
  ok req

unfoldable pub build_request :
    Library
    → Option Incident
    → Option Alert
    → Option Detection
    → List (Option TelemetryEvent)
    → Time
    → Result ValidationError ValidationRequest
build_request lib (some incident) (some alert) (some det) events now =
    build_for lib incident alert det events now
build_request lib _ _ _ events now = err validation_build
