-- ===== src/Response/Verifier.antt =====
-- response/verifier.go: verdicts on a finished execution.
use blueveil.Prelude.{not, String, some, [], ◌∷◌, ◌==◌, if◌then◌else◌}
use blueveil.Prelude.Time.{Time, is_zero, timestamp}
use blueveil.Prelude.Result.{Result, ok, ◌>>◌, ensure, ensure_none}
use blueveil.Contract.Enums.{VerificationOutcome, outcome_enumeration}
use blueveil.Contract.Messages.{ResponseRecommendation, ResponseExecution, ResponseVerification}
use blueveil.Contract.Response.{validate_execution, validate_verification}
use blueveil.Response.Error.{ResponseError, verification_refused, contract_error}
use blueveil.Prelude.Library.{Library, derived_id}
use blueveil.Response.Policy.{known}

-- UnknownVerifier.Verify
unfoldable pub unknown_verify :
    ResponseRecommendation → ResponseExecution → VerificationOutcome × String
unknown_verify rec exec =
    (VerificationOutcome.unknown, "no verification source attached: UNKNOWN, never verified")

-- StaticVerifier.Verify
unfoldable pub static_verify :
    VerificationOutcome
    → String
    → ResponseRecommendation
    → ResponseExecution
    → VerificationOutcome × String
static_verify outcome detail rec exec =
    (outcome, if detail == "" then "static test verdict" else detail)

module _ (lib : Library) where
  unfoldable pub verification_id : String → String
  verification_id exec_id = derived_id lib "verif-" ("blueveil-verification-v1" ∷ exec_id ∷ [])

  -- The record that BuildVerification fills in.
  unfoldable pub verification_of :
      ResponseExecution → VerificationOutcome → String → Time → ResponseVerification
  verification_of exec outcome detail now = record {
    id = verification_id exec.id;
    execution_id = exec.id;
    outcome = outcome;
    verified_at = some (timestamp now);
    detail = detail;
  }

  unfoldable pub build_verification :
      ResponseExecution
      → VerificationOutcome
      → String
      → Time
      → Result ResponseError ResponseVerification
  build_verification exec outcome detail now = do
    ensure_none (λ _. verification_refused) (validate_execution (some exec))
    ensure (known outcome) verification_refused
    ensure (not (detail == "")) verification_refused
    ensure (not (is_zero now)) verification_refused
    let ver = verification_of exec outcome detail now
    ensure_none contract_error (validate_verification (some ver))
    ok ver
