-- ===== src/Contract/Enums.antt =====
-- The enumerations of collector/internal/contract/v1. A protobuf enumeration is an int32:
-- `out_of_range` stands for a number that the generated `_name` table does not list.
use blueveil.Prelude.Int.{ℤ, pos}

pub data Severity : Type 0 where
  unspecified info low medium high critical : Severity
  out_of_range : ℤ → Severity

pub data OperationType : Type 0 where
  unspecified read observe analyze recommend write modify block isolate delete execute :
      OperationType
  out_of_range : ℤ → OperationType

pub data RiskLevel : Type 0 where
  unspecified low medium high critical : RiskLevel
  out_of_range : ℤ → RiskLevel

pub data ResponseStatus : Type 0 where
  unspecified proposed pending_approval approved denied executing executed : ResponseStatus
  execution_failed verified verification_failed verification_unknown : ResponseStatus
  out_of_range : ℤ → ResponseStatus

pub data VerificationOutcome : Type 0 where
  unspecified verified failed unknown : VerificationOutcome
  out_of_range : ℤ → VerificationOutcome

pub data AlertStatus : Type 0 where
  unspecified opened acknowledged closed : AlertStatus
  out_of_range : ℤ → AlertStatus

pub data IncidentStatus : Type 0 where
  unspecified opened investigating contained resolved closed : IncidentStatus
  out_of_range : ℤ → IncidentStatus

pub data EvidenceType : Type 0 where
  unspecified log_excerpt http_request http_response scan_result file_hash note : EvidenceType
  out_of_range : ℤ → EvidenceType

-- What a validator asks of an enumerator: is it in the table, and is it other than UNSPECIFIED?
pub data Standing : Type 0 where
  explicit unset unlisted : Standing

pub record Enumeration (A : Type 0) : Type 0 where
  pub standing_of : A → Standing

abbrev pub standing : {A : Type 0} ⦃e : Enumeration A⦄ → A → Standing
standing ⦃e⦄ = e.standing_of

abbrev severity_standing : Severity → Standing
severity_standing Severity.unspecified = unset
severity_standing (Severity.out_of_range _) = unlisted
severity_standing _ = explicit

abbrev operation_standing : OperationType → Standing
operation_standing OperationType.unspecified = unset
operation_standing (OperationType.out_of_range _) = unlisted
operation_standing _ = explicit

abbrev risk_standing : RiskLevel → Standing
risk_standing RiskLevel.unspecified = unset
risk_standing (RiskLevel.out_of_range _) = unlisted
risk_standing _ = explicit

abbrev status_standing : ResponseStatus → Standing
status_standing ResponseStatus.unspecified = unset
status_standing (ResponseStatus.out_of_range _) = unlisted
status_standing _ = explicit

abbrev outcome_standing : VerificationOutcome → Standing
outcome_standing VerificationOutcome.unspecified = unset
outcome_standing (VerificationOutcome.out_of_range _) = unlisted
outcome_standing _ = explicit

abbrev alert_standing : AlertStatus → Standing
alert_standing AlertStatus.unspecified = unset
alert_standing (AlertStatus.out_of_range _) = unlisted
alert_standing _ = explicit

abbrev incident_standing : IncidentStatus → Standing
incident_standing IncidentStatus.unspecified = unset
incident_standing (IncidentStatus.out_of_range _) = unlisted
incident_standing _ = explicit

abbrev evidence_standing : EvidenceType → Standing
evidence_standing EvidenceType.unspecified = unset
evidence_standing (EvidenceType.out_of_range _) = unlisted
evidence_standing _ = explicit

instance abbrev pub severity_enumeration : Enumeration Severity
severity_enumeration = record { standing_of = severity_standing }

instance abbrev pub operation_enumeration : Enumeration OperationType
operation_enumeration = record { standing_of = operation_standing }

instance abbrev pub risk_enumeration : Enumeration RiskLevel
risk_enumeration = record { standing_of = risk_standing }

instance abbrev pub status_enumeration : Enumeration ResponseStatus
status_enumeration = record { standing_of = status_standing }

instance abbrev pub outcome_enumeration : Enumeration VerificationOutcome
outcome_enumeration = record { standing_of = outcome_standing }

instance abbrev pub alert_enumeration : Enumeration AlertStatus
alert_enumeration = record { standing_of = alert_standing }

instance abbrev pub incident_enumeration : Enumeration IncidentStatus
incident_enumeration = record { standing_of = incident_standing }

instance abbrev pub evidence_enumeration : Enumeration EvidenceType
evidence_enumeration = record { standing_of = evidence_standing }

-- The number by which Go compares severities.
unfoldable pub code : Severity → ℤ
code Severity.unspecified = pos 0
code Severity.info = pos 1
code Severity.low = pos 2
code Severity.medium = pos 3
code Severity.high = pos 4
code Severity.critical = pos 5
code (Severity.out_of_range n) = n
