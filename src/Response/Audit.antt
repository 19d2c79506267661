-- ===== src/Response/Audit.antt =====
-- response/audit.go: the append-only log of decisions, with sequential ids.
pub mod Log
use Prim.Native.String
use blueveil.Prelude.{ℕ, ◌+◌, ◌≡◌, refl, String, Option, List, [], ◌∷◌, ◌++◌, length, arith}
use blueveil.Prelude.Names.{join}
use blueveil.Prelude.Text.{padded}
use blueveil.Prelude.Time.{Timestamp}
use blueveil.Contract.Enums.{OperationType, RiskLevel}

-- The AuditDecision strings.
pub data AuditDecision : Type 0 where
  recommended allowed denied approval_required approved executed execution_failed : AuditDecision
  executor_error verified verification_failed verification_unknown : AuditDecision

pub record AuditEntry : Type 0 where
  pub id : String
  pub decided_at : Option Timestamp
  pub actor : String
  pub operation : OperationType
  pub risk : RiskLevel
  pub decision : AuditDecision
  pub reason : String
  pub result : String
  pub response_id : String
  pub phase : String

-- fmt.Sprintf("audit-%04d", n)
unfoldable pub audit_id : ℕ → String
audit_id n = join "" ("audit-" ∷ padded n ∷ [])

-- InMemoryAuditLog.Append: stamps the next id.
unfoldable pub append : AuditEntry → List AuditEntry → List AuditEntry
append entry entries = entries ++ record entry { id = audit_id (length entries + 1) } ∷ []
