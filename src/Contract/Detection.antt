-- ===== src/Contract/Detection.antt =====
-- contract/detection.go and validate.go: detections, alerts and telemetry events.
use blueveil.Prelude.{◌+◌, Bool, true, Option, none, some, ltb, if◌then◌else◌}
use blueveil.Prelude.Int.{pos, negsuc}
use blueveil.Contract.Messages.{
  Float, nan, positive_infinity, negative_infinity, fraction, TelemetryEvent, Detection, Alert,
}
use blueveil.Contract.Enums.{severity_enumeration, alert_enumeration}
use blueveil.Contract.Check.{
  Check, ◌>>◌, rejected, is_nil, out_of_bounds, non_empty, check_value, require_timestamp,
  require_ids,
}

-- math.IsNaN(c) || c < 0.0 || c > 1.0
unfoldable pub out_of_unit : Float → Bool
out_of_unit nan = true
out_of_unit positive_infinity = true
out_of_unit negative_infinity = true
out_of_unit (fraction (pos p) q) = ltb (q + 1) p
out_of_unit (fraction (negsuc p) q) = true

unfoldable pub validate_detection : Option Detection → Check
validate_detection none = some (rejected "Detection" is_nil)
validate_detection (some d) = do
  non_empty "id" d.id
  non_empty "rule_id" d.rule_id
  non_empty "rule_name" d.rule_name
  non_empty "title" d.title
  require_ids "telemetry_event_ids" d.telemetry_event_ids
  require_timestamp "detected_at" d.detected_at
  check_value "severity" d.severity
  if out_of_unit d.confidence then some (rejected "confidence" out_of_bounds) else none

unfoldable pub validate_alert : Option Alert → Check
validate_alert none = some (rejected "Alert" is_nil)
validate_alert (some a) = do
  non_empty "id" a.id
  require_ids "detection_ids" a.detection_ids
  check_value "status" a.status
  check_value "severity" a.severity
  require_timestamp "created_at" a.created_at
  require_timestamp "updated_at" a.updated_at
  non_empty "title" a.title

unfoldable pub validate_telemetry_event : Option TelemetryEvent → Check
validate_telemetry_event none = some (rejected "TelemetryEvent" is_nil)
validate_telemetry_event (some e) = do
  non_empty "id" e.id
  non_empty "source" e.source
  non_empty "asset_id" e.asset_id
  non_empty "event_type" e.event_type
  require_timestamp "occurred_at" e.occurred_at
  check_value "severity" e.severity
