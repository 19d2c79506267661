-- ===== src/Grc/Tests.antt =====
-- The theorems on governance at an assessment and at a posture.
use blueveil.Contract.Fields.{listed}
use blueveil.Prelude.Space.{is_blank, trim_left, trim_right}
use blueveil.Contract.Fields.{observed, refuse_if, required}
use blueveil.Grc.Resilience.{check_input, posture}
use blueveil.Prelude.{◌≡◌, ◌↔◌, refl, true, false, none, some, [], ◌∷◌}
use blueveil.Prelude.Names.{contains}
use blueveil.Prelude.Result.{ok}
use blueveil.Contract.Check.{rejected, missing}
use blueveil.Response.Samples.{plain, noon}
use blueveil.Grc.Model.{Assessment, validate_assessment}
use blueveil.Grc.Basis.{IsFounded, validate_assessment_iff}
use blueveil.Grc.Resilience.{ResilienceInput, assessed, assess_resilience, validate_resilience}
use blueveil.Grc.Resilience.Posture.{assess_resilience-posture}

-- A decisive status without a basis.
abbrev bare : Assessment
bare = record {
  control_id = "c1";
  target = "web01";
  status = "COMPLIANT";
  assessor = "alice";
  observed_at = noon;
  evidence_ids = [];
  validation_ids = [];
  basis = "";
  notes = "";
  risk = "HIGH";
  risk_basis = "";
}

abbrev backed : Assessment
backed = record bare { basis = "observed"; risk_basis = "scan" }

bare_refused : validate_assessment bare ≡ some (rejected "basis" missing)
unfolding validate_assessment required is_blank trim_right trim_left listed observed refuse_if
bare_refused = refl

backed_accepted : validate_assessment backed ≡ none
unfolding validate_assessment required is_blank trim_right trim_left listed observed refuse_if
backed_accepted = refl

validate_assessment_iff_example : (validate_assessment backed ≡ none) ↔ IsFounded backed
validate_assessment_iff_example = validate_assessment_iff backed

abbrev half : ResilienceInput
half = record {
  target = "db01";
  assessor = "alice";
  observed_at = noon;
  backup_observed = true;
  backup_at = noon;
  restore_test_observed = false;
  restore_test_at = 0;
  procedure_declared = true;
  dependencies = [];
  evidence_ids = [];
  retention_configured = true;
  encryption_observed = false;
}

half_degraded : (assessed plain half).status ≡ "DEGRADED"
unfolding assessed posture
half_degraded = refl

half_accepted : assess_resilience plain half ≡ ok (assessed plain half)
unfolding assess_resilience check_input required is_blank trim_right trim_left observed refuse_if
half_accepted = refl

assess_resilience-posture_example :
    (validate_resilience (assessed plain half) ≡ none)
    × (((assessed plain half).status ≡ "READY") ↔ (
        (half.backup_observed ≡ true)
        × (half.restore_test_observed ≡ true)
        × (half.procedure_declared ≡ true)))
    × (((assessed plain half).status ≡ "NOT_ASSESSED") ↔ (
        (half.backup_observed ≡ false)
        × (half.restore_test_observed ≡ false)
        × (half.procedure_declared ≡ false)))
    × (contains ("READY" ∷ "DEGRADED" ∷ "NOT_ASSESSED" ∷ []) (assessed plain half).status ≡ true)
assess_resilience-posture_example =
    assess_resilience-posture plain half (assessed plain half) half_accepted
