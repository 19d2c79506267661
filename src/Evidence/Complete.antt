-- ===== src/Evidence/Complete.antt =====
-- The evidence of an alert is complete.
use blueveil.Prelude.{◌≡◌, ◌≢◌, sym, not, String, Option, some, List, ◌==◌}
use blueveil.Prelude.Names.{contains, sort}
use blueveil.Prelude.Time.{Time, is_zero}
use blueveil.Prelude.Dict.{empty}
use blueveil.Prelude.Library.{Library}
use blueveil.Prelude.Result.{ok, bind_passed, ensure_passed, ensure_none_passed, ok_injective}
use blueveil.Contract.Messages.{TelemetryEvent, Detection, Alert, Evidence}
use blueveil.Contract.Detection.{validate_detection, validate_alert}
use blueveil.Contract.Check.{ContractError}
use blueveil.Evidence.Item.{EvidenceError, evidence_build, Codec}
use blueveil.Evidence.Alerts.{
  by_id, all_found, detection_subject, alert_subject, make, event_items, build_for, build_for_alert,
}
use blueveil.Evidence.Faithful.{Covers, make-IsItem, event_items-AreItems}

module _ (lib : Library) (codec : Codec) (given : (text : String) → codec.digest text ≢ "") where
  build_for-Covers :
      (incident_id : String) (alert : Alert) (det : Detection)
      (events : List (Option TelemetryEvent)) (now : Time) (es : List Evidence)
      → build_for lib codec incident_id alert det events now ≡ ok es
      → Covers lib codec incident_id alert det now es
  unfolding build_for detection_subject alert_subject
  build_for-Covers incident_id alert det events now es h0 =
      let wrap : ContractError → EvidenceError = λ _. evidence_build in
      let (_, h1) = ensure_none_passed wrap (validate_alert (some alert)) _ es h0 in
      let (_, h2) = ensure_none_passed wrap (validate_detection (some det)) _ es h1 in
      let (_, h3) = ensure_passed (contains alert.detection_ids det.id) evidence_build _ es h2 in
      let (found, _, h4) = bind_passed (by_id events empty) _ es h3 in
      let (_, h5) =
        ensure_passed (all_found found det.telemetry_event_ids) evidence_build _ es h4 in
      let (_, h6) = ensure_passed (not (is_zero now)) evidence_build _ es h5 in
      let ids = sort det.telemetry_event_ids in
      let (items, of_events, h7) =
        bind_passed (event_items lib codec incident_id found ids now) _ es h6 in
      let subject = detection_subject det in
      let (det_item, of_det, h8) =
        bind_passed (make lib codec incident_id subject (codec.marshal_detection det) now) _ es
          h7 in
      let subject' = alert_subject alert in
      let (alert_item, of_alert, h9) =
        bind_passed (make lib codec incident_id subject' (codec.marshal_alert alert) now) _ es h8 in
      record {
        events = items;
        det_item = det_item;
        alert_item = alert_item;
        whole = sym (ok_injective h9);
        of_events = event_items-AreItems lib codec given incident_id found ids now items of_events;
        of_detection =
            make-IsItem lib codec given incident_id subject (codec.marshal_detection det) now
              det_item of_det;
        of_alert =
            make-IsItem lib codec given incident_id subject' (codec.marshal_alert alert) now
              alert_item of_alert;
      }

  -- Where BuildForAlert succeeds (and no text has the empty digest), it gives one item for each event of the
  -- detection, in the order of their ids, then one for the detection and one for the alert. Each
  -- verifies, passes its validator, belongs to the incident, bears the time of collection, and has
  -- the id that the incident, its kind and what it is taken of determine.
  pub build_for_alert-Covers :
      (incident_id : String) (alert : Alert) (det : Detection)
      (events : List (Option TelemetryEvent)) (now : Time) (es : List Evidence)
      → build_for_alert lib codec incident_id (some alert) (some det) events now ≡ ok es
      → Covers lib codec incident_id alert det now es
  unfolding build_for_alert
  build_for_alert-Covers incident_id alert det events now es h =
      let (_, h1) = ensure_passed (not (incident_id == "")) evidence_build _ es h in
      build_for-Covers incident_id alert det events now es h1
