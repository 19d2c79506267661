-- ===== src/Evidence/Item.antt =====
-- evidence/evidence.go: an item of evidence, its digest and its identity.
use blueveil.Prelude.{
  Bool, false, ◌||◌, not, String, Option, none, some, [], ◌∷◌, ◌==◌, if◌then◌else◌,
}
use blueveil.Prelude.Time.{Time, is_zero, timestamp}
use blueveil.Prelude.Library.{Library, derived_id}
use blueveil.Prelude.Result.{Result, ok, ensure, ensure_none, ◌>>◌}
use blueveil.Contract.Enums.{EvidenceType}
use blueveil.Contract.Messages.{TelemetryEvent, Detection, Alert, Evidence}
use blueveil.Contract.Incident.{validate_evidence}

-- ErrEvidenceBuild
pub data EvidenceError : Type 0 where
  evidence_build : EvidenceError

-- hex.EncodeToString(sha256(text)), and contract.MarshalCanonical, which may fail.
pub record Codec : Type 0 where
  pub digest : String → String
  pub marshal_event : TelemetryEvent → Option String
  pub marshal_detection : Detection → Option String
  pub marshal_alert : Alert → Option String

-- What NewItem is told of an item.
pub record Subject : Type 0 where
  pub kind : String
  pub ref_id : String
  pub type : EvidenceType
  pub source : String

unfoldable pub evidence_id : Library → String → String → String → String
evidence_id lib incident_id kind ref_id =
    derived_id lib "ev-" ("blueveil-evidence-v1" ∷ incident_id ∷ kind ∷ ref_id ∷ [])

module _ (codec : Codec) where
  unfoldable pub verify : Option Evidence → Bool
  verify none = false
  verify (some e) = if e.sha256 == "" then false else codec.digest e.content == e.sha256

  module _ (lib : Library) where
    -- The item that NewItem fills in.
    unfoldable pub item_of : String → Subject → String → Time → Evidence
    item_of incident_id s content now = record {
      id = evidence_id lib incident_id s.kind s.ref_id;
      incident_id = incident_id;
      type = s.type;
      collected_at = some (timestamp now);
      source = s.source;
      media_type = "application/json";
      sha256 = codec.digest content;
      content = content;
    }

    unfoldable pub new_item : String → Subject → String → Time → Result EvidenceError Evidence
    new_item incident_id s content now = do
      ensure (not (incident_id == "" || s.kind == "" || s.ref_id == "")) evidence_build
      ensure (not (is_zero now)) evidence_build
      let e = item_of incident_id s content now
      ensure_none (λ _. evidence_build) (validate_evidence (some e))
      ok e
