-- ===== src/Evidence/Tests.antt =====
-- The theorems on evidence at the alert of a login.
use Prim.Native.String.{◌++◌ as ◌++ₛ◌}
use blueveil.Prelude.{Bool, ◌≡◌, ◌≢◌, refl, eq_iff, ◌==◌, true, false, String, some, List, [], ◌∷◌}
use blueveil.Contract.Enums.{EvidenceType}
use blueveil.Contract.Messages.{Evidence}
use blueveil.Response.Samples.{plain, noon, stamp, login_event, login_detection, login_alert}
use blueveil.Evidence.Item.{item_of, evidence_id, Codec, Subject, verify, new_item}
use blueveil.Evidence.Alerts.{
  build_for_alert, build_for, by_id, all_found, event_items, alert_subject, detection_subject,
  event_item, event_subject, make,
}
use blueveil.Contract.Incident.{validate_evidence, check_digest, is_digest}
use blueveil.Contract.Check.{check_value, require_timestamp, require_ids, no_empty_id}
use blueveil.Contract.Detection.{
  validate_alert, validate_detection, validate_telemetry_event, out_of_unit,
}
use blueveil.Prelude.Library.{derived_id}
use blueveil.Prelude.Names.{join, sort, insert}
use blueveil.Prelude.Dict.{has, get, put}
use blueveil.Prelude.Time.{check_valid, timestamp}
use blueveil.Evidence.Faithful.{Covers, new_item-verify}
use blueveil.Evidence.Complete.{build_for_alert-Covers}

abbrev zeros : String
zeros = "000000000000000000000000000000000000000000000000000000000000000"

-- Digests that tell one text from all others, and the names of messages for their contents.
abbrev code_of : Bool → String
code_of true = zeros ++ₛ "1"
code_of false = zeros ++ₛ "2"

abbrev digest_of : String → String
digest_of text = code_of (text == "login")

abbrev two_digests : Codec
two_digests = record {
  digest = digest_of;
  marshal_event = λ e. some e.id;
  marshal_detection = λ d. some d.id;
  marshal_alert = λ a. some a.id;
}

-- Neither digest is empty.
code_of-given : (b : Bool) → code_of b ≢ ""
code_of-given true h = absurd (cc ((eq_iff (code_of true) "").1 h))
code_of-given false h = absurd (cc ((eq_iff (code_of false) "").1 h))

digest_of-given : (text : String) → digest_of text ≢ ""
digest_of-given text = code_of-given (text == "login")

abbrev note : Subject
note = record { kind = "note"; ref_id = "n1"; type = EvidenceType.note; source = "soc" }

abbrev note_item : Evidence
note_item = record {
  id = "ev-blueveil-evidence-v1\u{1f}i1\u{1f}note\u{1f}n1";
  incident_id = "i1";
  type = EvidenceType.note;
  collected_at = some stamp;
  source = "soc";
  media_type = "application/json";
  sha256 = zeros ++ₛ "1";
  content = "login";
}

new_item-verify_example :
    (verify two_digests (some note_item) ≡ true)
    × (verify two_digests (some (record note_item { content = "logout" })) ≡ false)
unfolding new_item validate_evidence item_of evidence_id derived_id check_value require_timestamp
    check_valid timestamp check_digest is_digest join verify
new_item-verify_example =
    new_item-verify plain two_digests digest_of-given "i1" note "login" "logout" noon note_item refl
      λ h. absurd (cc ((eq_iff (code_of false) (code_of true)).1 h))

abbrev items : List Evidence
items =
    record {
      id = "ev-blueveil-evidence-v1\u{1f}i1\u{1f}event\u{1f}e1";
      incident_id = "i1";
      type = EvidenceType.log_excerpt;
      collected_at = some stamp;
      source = "waf";
      media_type = "application/json";
      sha256 = zeros ++ₛ "2";
      content = "e1";
    }
    ∷ record {
      id = "ev-blueveil-evidence-v1\u{1f}i1\u{1f}detection\u{1f}d1";
      incident_id = "i1";
      type = EvidenceType.note;
      collected_at = some stamp;
      source = "blueveil-detect";
      media_type = "application/json";
      sha256 = zeros ++ₛ "2";
      content = "d1";
    }
    ∷ record {
      id = "ev-blueveil-evidence-v1\u{1f}i1\u{1f}alert\u{1f}a1";
      incident_id = "i1";
      type = EvidenceType.note;
      collected_at = some stamp;
      source = "blueveil-detect";
      media_type = "application/json";
      sha256 = zeros ++ₛ "2";
      content = "a1";
    }
    ∷ []

build_for_alert-Covers_example :
    Covers plain two_digests "i1" login_alert login_detection noon items
unfolding new_item validate_evidence item_of evidence_id derived_id check_value require_timestamp
    check_valid timestamp check_digest is_digest join verify build_for_alert build_for
    validate_alert require_ids validate_detection out_of_unit by_id validate_telemetry_event
    all_found has get put event_items sort no_empty_id alert_subject detection_subject event_item
    event_subject make insert
build_for_alert-Covers_example =
    build_for_alert-Covers plain two_digests digest_of-given "i1" login_alert login_detection
      (some login_event ∷ []) noon items refl
