-- ===== src/Contract/Messages.antt =====
-- The messages of collector/internal/contract/v1 as records. A message pointer that may be nil is an
-- `Option` where it is used; an absent timestamp is `none`.
use blueveil.Prelude.{ℕ, Bool, String, Option, List}
use blueveil.Prelude.Int.{ℤ}
use blueveil.Prelude.Time.{Timestamp}
use blueveil.Prelude.Dict.{Dict}
use blueveil.Contract.Enums.{
  Severity, OperationType, RiskLevel, ResponseStatus, VerificationOutcome, AlertStatus,
  IncidentStatus, EvidenceType,
}

-- A float64: a finite one is the fraction numerator / (denominator + 1).
pub data Float : Type 0 where
  nan : Float
  positive_infinity negative_infinity : Float
  fraction : ℤ → ℕ → Float

pub record TelemetryEvent : Type 0 where
  pub id : String
  pub occurred_at : Option Timestamp
  pub source : String
  pub asset_id : String
  pub identity_id : String
  pub event_type : String
  pub severity : Severity
  pub attributes : Dict String
  pub raw : String

pub record Detection : Type 0 where
  pub id : String
  pub rule_id : String
  pub rule_name : String
  pub telemetry_event_ids : List String
  pub detected_at : Option Timestamp
  pub severity : Severity
  pub confidence : Float
  pub title : String
  pub description : String
  pub attributes : Dict String

pub record Alert : Type 0 where
  pub id : String
  pub detection_ids : List String
  pub status : AlertStatus
  pub severity : Severity
  pub created_at : Option Timestamp
  pub updated_at : Option Timestamp
  pub title : String

pub record Incident : Type 0 where
  pub id : String
  pub alert_ids : List String
  pub status : IncidentStatus
  pub severity : Severity
  pub created_at : Option Timestamp
  pub updated_at : Option Timestamp
  pub title : String
  pub summary : String

pub record Evidence : Type 0 where
  pub id : String
  pub incident_id : String
  pub type : EvidenceType
  pub collected_at : Option Timestamp
  pub source : String
  pub media_type : String
  pub sha256 : String
  pub content : String

pub record ResponseRecommendation : Type 0 where
  pub id : String
  pub incident_id : String
  pub operation : OperationType
  pub target : String
  pub risk : RiskLevel
  pub reason : String
  pub status : ResponseStatus
  pub recommended_at : Option Timestamp
  pub recommended_by : String
  pub approval_required : Bool

pub record ResponseApproval : Type 0 where
  pub id : String
  pub recommendation_id : String
  pub operation : OperationType
  pub target : String
  pub risk : RiskLevel
  pub approver : String
  pub approved_at : Option Timestamp
  pub expires_at : Option Timestamp
  pub reason : String

pub record ResponseExecution : Type 0 where
  pub id : String
  pub recommendation_id : String
  pub approval_id : String
  pub operation : OperationType
  pub target : String
  pub started_at : Option Timestamp
  pub finished_at : Option Timestamp
  pub success : Bool
  pub detail : String

pub record ResponseVerification : Type 0 where
  pub id : String
  pub execution_id : String
  pub outcome : VerificationOutcome
  pub verified_at : Option Timestamp
  pub detail : String
