-- ===== src/Grc/Resilience.antt =====
-- grc/resilience.go: the resilience posture, derived from what was observed.
pub mod Posture
use blueveil.Prelude.{Bool, ◌&&◌, ◌||◌, String, List, [], ◌∷◌, if◌then◌else◌}
use blueveil.Prelude.Time.{Time, is_zero}
use blueveil.Prelude.Library.{Library, derived_id}
use blueveil.Prelude.Result.{Result, ok, ensure_none, ◌>>◌ as ◌>>ᵣ◌}
use blueveil.Contract.Check.{Check, ContractError, ◌>>◌}
use blueveil.Contract.Fields.{required, listed, observed, refuse_if}

abbrev pub resilience_statuses : List String
resilience_statuses = "READY" ∷ "DEGRADED" ∷ "NOT_READY" ∷ "NOT_ASSESSED" ∷ "UNKNOWN" ∷ []

pub record ResilienceInput : Type 0 where
  pub target : String
  pub assessor : String
  pub observed_at : Time
  pub backup_observed : Bool
  pub backup_at : Time
  pub restore_test_observed : Bool
  pub restore_test_at : Time
  pub procedure_declared : Bool
  pub dependencies : List String
  pub evidence_ids : List String
  pub retention_configured : Bool
  pub encryption_observed : Bool

pub record ResilienceRecord : Type 0 where
  pub id : String
  pub target : String
  pub assessor : String
  pub observed_at : Time
  pub status : String
  pub backup_observed : Bool
  pub backup_at : Time
  pub restore_test_observed : Bool
  pub restore_test_at : Time
  pub procedure_declared : Bool
  pub dependencies : List String
  pub evidence_ids : List String
  pub retention_configured : Bool
  pub encryption_observed : Bool

-- Validate
unfoldable pub validate_resilience : ResilienceRecord → Check
validate_resilience r = do
  required "id" r.id
  required "target" r.target
  required "assessor" r.assessor
  observed "observed_at" r.observed_at
  listed "status" resilience_statuses r.status
  refuse_if (r.backup_observed && is_zero r.backup_at) "backup_at"
  refuse_if (r.restore_test_observed && is_zero r.restore_test_at) "restore_test_at"

-- The checks of AssessResilience.
unfoldable pub check_input : ResilienceInput → Check
check_input i = do
  required "target" i.target
  required "assessor" i.assessor
  observed "observed_at" i.observed_at
  refuse_if (i.backup_observed && is_zero i.backup_at) "backup_at"
  refuse_if (i.restore_test_observed && is_zero i.restore_test_at) "restore_test_at"

-- The switch of AssessResilience.
unfoldable pub posture : ResilienceInput → String
posture i =
    if i.backup_observed && i.restore_test_observed && i.procedure_declared
    then "READY"
    else if i.backup_observed || i.restore_test_observed || i.procedure_declared
    then "DEGRADED"
    else "NOT_ASSESSED"

module _ (lib : Library) where
  -- The record that AssessResilience fills in.
  unfoldable pub assessed : ResilienceInput → ResilienceRecord
  assessed i = record {
    id = derived_id lib "grsl-" (
        "blueveil-grc-resilience-v1"
        ∷ i.target
        ∷ i.assessor
        ∷ lib.rfc3339 i.observed_at
        ∷ posture i
        ∷ []);
    target = i.target;
    assessor = i.assessor;
    observed_at = i.observed_at;
    status = posture i;
    backup_observed = i.backup_observed;
    backup_at = i.backup_at;
    restore_test_observed = i.restore_test_observed;
    restore_test_at = i.restore_test_at;
    procedure_declared = i.procedure_declared;
    dependencies = i.dependencies;
    evidence_ids = i.evidence_ids;
    retention_configured = i.retention_configured;
    encryption_observed = i.encryption_observed;
  }

  -- AssessResilience
  unfoldable pub assess_resilience : ResilienceInput → Result ContractError ResilienceRecord
  assess_resilience i = ensure_none (λ e. e) (check_input i) >>ᵣ ok (assessed i)
