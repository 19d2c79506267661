-- ===== src/Store/Memory/Audits.antt =====
-- store/audit.go, and memoryAudit of store/memory.go: the archive of decisions, in the order of arrival.
pub mod Index
pub mod Order
use blueveil.Prelude.{not, String, Option, none, some, List, [], ◌∷◌, ◌++◌}
use blueveil.Prelude.Time.{Time, Timestamp, as_time}
use blueveil.Prelude.Dict.{Dict, empty, put, has}
use blueveil.Prelude.Result.{Result, ok, err, ensure, ensure_none, ◌>>◌ as ◌>>ᵣ◌}
use blueveil.Contract.Enums.{OperationType, RiskLevel, operation_enumeration, risk_enumeration}
use blueveil.Contract.Check.{Check, ◌>>◌, non_empty, check_value}
use blueveil.Contract.Fields.{observed}
use blueveil.Response.Audit.{AuditDecision}
use blueveil.Response.Audit as Decided
use blueveil.Store.Table.{StoreError, invalid, duplicate, lookup, passes}

pub record AuditEntry : Type 0 where
  pub id : String
  pub decided_at : Time
  pub actor : String
  pub operation : OperationType
  pub risk : RiskLevel
  pub decision : String
  pub reason : String
  pub result : String
  pub response_id : String
  pub phase : String

-- Validate; each of its errors is ErrInvalid.
unfoldable pub validate_audit : AuditEntry → Check
validate_audit e = do
  non_empty "id" e.id
  observed "decided_at" e.decided_at
  non_empty "actor" e.actor
  check_value "operation" e.operation
  check_value "risk" e.risk
  non_empty "decision" e.decision

unfoldable pub decision_text : AuditDecision → String
decision_text AuditDecision.recommended = "recommended"
decision_text AuditDecision.allowed = "allowed"
decision_text AuditDecision.denied = "denied"
decision_text AuditDecision.approval_required = "approval-required"
decision_text AuditDecision.approved = "approved"
decision_text AuditDecision.executed = "executed"
decision_text AuditDecision.execution_failed = "execution-failed"
decision_text AuditDecision.executor_error = "executor-error"
decision_text AuditDecision.verified = "verified"
decision_text AuditDecision.verification_failed = "verification-failed"
decision_text AuditDecision.verification_unknown = "verification-unknown"

-- The entry that AuditFromResponse fills in.
unfoldable pub archived : Decided.AuditEntry → Time → AuditEntry
archived a t = record {
  id = a.id;
  decided_at = t;
  actor = a.actor;
  operation = a.operation;
  risk = a.risk;
  decision = decision_text a.decision;
  reason = a.reason;
  result = a.result;
  response_id = a.response_id;
  phase = a.phase;
}

abbrev checked : AuditEntry → Result StoreError AuditEntry
checked e = ensure_none (λ _. invalid) (validate_audit e) >>ᵣ ok e

abbrev archived_at : Decided.AuditEntry → Option Timestamp → Result StoreError AuditEntry
archived_at a none = err invalid
archived_at a (some ts) = checked (archived a (as_time ts))

-- AuditFromResponse
unfoldable pub audit_from_response : Decided.AuditEntry → Result StoreError AuditEntry
audit_from_response a = archived_at a a.decided_at

-- The two copies that memoryAudit keeps.
pub record Archive : Type 0 where
  pub entries : List AuditEntry
  pub by_id : Dict AuditEntry

abbrev pub new_archive : Archive
new_archive = record { entries = []; by_id = empty }

-- Append: the archive after it.
unfoldable pub append : Archive → AuditEntry → Result StoreError Archive
append r e =
    ensure_none (λ _. invalid) (validate_audit e)
    >>ᵣ (ensure (not (has r.by_id e.id)) duplicate
        >>ᵣ ok (record { entries = r.entries ++ (e ∷ []); by_id = put r.by_id e.id e }))

-- Get
unfoldable pub get : Archive → String → Result StoreError AuditEntry
get r id = lookup r.by_id id

-- List
unfoldable pub list : Archive → List AuditEntry
list r = r.entries
