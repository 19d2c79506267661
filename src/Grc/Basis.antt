-- ===== src/Grc/Basis.antt =====
-- What an accepted assessment says.
use blueveil.Prelude.{◌≡◌, ◌↔◌, Bool, true, false, ◌&&◌, not, none, ◌==◌, arith}
use blueveil.Prelude.Names.{contains}
use blueveil.Prelude.Space.{is_blank}
use blueveil.Prelude.Time.{is_zero}
use blueveil.Contract.Fields.{required, listed, observed, refuse_if}
use blueveil.Contract.Valid.{>>-eq-none}
use blueveil.Contract.Passed.{required_iff, listed_iff, observed_iff, refuse_if_iff}
use blueveil.Grc.Model.{
  Assessment, decisive_statuses, assessment_statuses, risk_levels, validate_assessment,
}

-- A status that decides needs a written basis, and so does a risk that is given and known.
pub record IsFounded (a : Assessment) : Type 0 where
  pub control_given : is_blank a.control_id ≡ false
  pub target_given : is_blank a.target ≡ false
  pub status_listed : contains assessment_statuses a.status ≡ true
  pub assessor_given : is_blank a.assessor ≡ false
  pub time_given : is_zero a.observed_at ≡ false
  pub basis_given : contains decisive_statuses a.status ≡ true → is_blank a.basis ≡ false
  pub risk_listed : contains risk_levels a.risk ≡ true
  pub risk_founded :
      (a.risk == "") ≡ false → (a.risk == "UNKNOWN") ≡ false → is_blank a.risk_basis ≡ false

abbrev unfounded : Assessment → Bool
unfounded a = contains decisive_statuses a.status && is_blank a.basis

abbrev unfounded_risk : Assessment → Bool
unfounded_risk a = not (a.risk == "") && not (a.risk == "UNKNOWN") && is_blank a.risk_basis

validate_assessment-IsFounded : (a : Assessment) → validate_assessment a ≡ none → IsFounded a
unfolding validate_assessment
validate_assessment-IsFounded a h0 =
    let (control, h1) = >>-eq-none (required "control_id" a.control_id) _ h0 in
    let (target, h2) = >>-eq-none (required "target" a.target) _ h1 in
    let (status, h3) = >>-eq-none (listed "status" assessment_statuses a.status) _ h2 in
    let (assessor, h4) = >>-eq-none (required "assessor" a.assessor) _ h3 in
    let (time, h5) = >>-eq-none (observed "observed_at" a.observed_at) _ h4 in
    let (basis, h6) = >>-eq-none (refuse_if (unfounded a) "basis") _ h5 in
    let (risk, last) = >>-eq-none (listed "risk" risk_levels a.risk) _ h6 in
    let founded : unfounded a ≡ false = (refuse_if_iff (unfounded a) "basis").0 basis in
    let backed : unfounded_risk a ≡ false =
      (refuse_if_iff (unfounded_risk a) "risk_basis").0 last in
    record {
      control_given = (required_iff "control_id" a.control_id).0 control;
      target_given = (required_iff "target" a.target).0 target;
      status_listed = (listed_iff "status" assessment_statuses a.status).0 status;
      assessor_given = (required_iff "assessor" a.assessor).0 assessor;
      time_given = (observed_iff "observed_at" a.observed_at).0 time;
      basis_given = λ d. ground (arith, founded, d);
      risk_listed = (listed_iff "risk" risk_levels a.risk).0 risk;
      risk_founded = λ u v. ground (arith, backed, u, v);
    }

IsFounded-validate_assessment : (a : Assessment) → IsFounded a → validate_assessment a ≡ none
unfolding validate_assessment
IsFounded-validate_assessment a f =
    let founded : unfounded a ≡ false = ground (arith, f.basis_given) in
    let backed : unfounded_risk a ≡ false = ground (arith, f.risk_founded) in
    rw (
      (required_iff "control_id" a.control_id).1 f.control_given,
      (required_iff "target" a.target).1 f.target_given,
      (listed_iff "status" assessment_statuses a.status).1 f.status_listed,
      (required_iff "assessor" a.assessor).1 f.assessor_given,
      (observed_iff "observed_at" a.observed_at).1 f.time_given,
      (refuse_if_iff (unfounded a) "basis").1 founded,
      (listed_iff "risk" risk_levels a.risk).1 f.risk_listed,
      (refuse_if_iff (unfounded_risk a) "risk_basis").1 backed,
    )

-- An assessment passes its validator exactly when its control, target and assessor are given, its time is
-- not zero, its status and risk are in the vocabulary, a decisive status has a basis, and a risk
-- other than "" and UNKNOWN has one.
pub validate_assessment_iff : (a : Assessment) → (validate_assessment a ≡ none) ↔ IsFounded a
validate_assessment_iff a = (validate_assessment-IsFounded a, IsFounded-validate_assessment a)
