-- ===== src/Contract/Incident.antt =====
-- contract/incident.go: incidents and evidence.
use Prim.Native.String.{len}
use Prim.Native.Char.{code}
use blueveil.Prelude.{
  ℕ, Bool, true, ◌&&◌, ◌||◌, not, String, Option, none, some, leb, eqb, ◌==◌, if◌then◌else◌,
}
use blueveil.Contract.Messages.{Incident, Evidence}
use blueveil.Contract.Enums.{severity_enumeration, incident_enumeration, evidence_enumeration}
use blueveil.Contract.Check.{
  Check, ◌>>◌, rejected, is_nil, not_a_digest, non_empty, check_value, require_timestamp,
  require_ids,
}

unfoldable pub validate_incident : Option Incident → Check
validate_incident none = some (rejected "Incident" is_nil)
validate_incident (some i) = do
  non_empty "id" i.id
  require_ids "alert_ids" i.alert_ids
  check_value "status" i.status
  check_value "severity" i.severity
  require_timestamp "created_at" i.created_at
  require_timestamp "updated_at" i.updated_at
  non_empty "title" i.title

is_lower_hex : ℕ → Bool
is_lower_hex c = leb b'0' c && leb c b'9' || leb b'a' c && leb c b'f'

all_lower_hex : String → Bool
all_lower_hex String.[] = true
all_lower_hex (String.◌∷◌ c s) = is_lower_hex (code c) && all_lower_hex s

-- 64 lowercase hexadecimal digits.
unfoldable pub is_digest : String → Bool
unfolding all_lower_hex is_lower_hex
is_digest s = eqb (len s) 64 && all_lower_hex s

-- The digest is optional, and must be one when it is there.
unfoldable pub check_digest : String → Check
check_digest s =
    if not (s == "") && not (is_digest s) then some (rejected "sha256" not_a_digest) else none

unfoldable pub validate_evidence : Option Evidence → Check
validate_evidence none = some (rejected "Evidence" is_nil)
validate_evidence (some e) = do
  non_empty "id" e.id
  non_empty "incident_id" e.incident_id
  non_empty "source" e.source
  non_empty "media_type" e.media_type
  non_empty "content" e.content
  check_value "type" e.type
  require_timestamp "collected_at" e.collected_at
  check_digest e.sha256
