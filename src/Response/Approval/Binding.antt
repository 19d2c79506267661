-- ===== src/Response/Approval/Binding.antt =====
-- What an approval authorizes, and that a granted one authorizes its recommendation until it expires.
use blueveil.Prelude.{
  ℕ, zero, suc, ◌+◌, ◌^◌, ◌<◌, ◌≡◌, ◌↔◌, ◌⊎◌, inl, inr, refl, sym, ◌∙◌, true, false, ◌&&◌, not,
  ◌==◌, String, Option, none, some, arith, eq_iff,
}
use blueveil.Prelude.Int.{pos, negsuc}
use blueveil.Prelude.Time.{
  ahead, behind, ahead-timestamp, Time, is_zero, Timestamp, as_time, timestamp, wrap_time,
  end_of_time, check_valid-timestamp,
}
use blueveil.Prelude.Result.{ok, ensure_passed, ensure_none_passed}
use blueveil.Contract.Enums.{operation_enumeration, risk_enumeration}
use blueveil.Contract.Check.{ContractError, non_empty, check_value}
use blueveil.Contract.Valid.{>>-eq-none, require_timestamp_iff}
use blueveil.Contract.Response.{validate_recommendation, validate_approval}
use blueveil.Response.Error.{ResponseError, approval_invalid}
use blueveil.Contract.Equality.{OperationType-discrete, RiskLevel-discrete, same_iff}
use blueveil.Contract.Messages.{ResponseRecommendation, ResponseApproval}
use blueveil.Prelude.Library.{Library}
use blueveil.Response.Approval.{
  Duration, is_negative, expiry, approval_of, grant, expired, covers, covers_fields,
}

-- The approval names this recommendation, with its operation, target and risk.
pub record Binds (a : ResponseApproval) (r : ResponseRecommendation) : Type 0 where
  pub same_recommendation : a.recommendation_id ≡ r.id
  pub same_operation : a.operation ≡ r.operation
  pub same_target : a.target ≡ r.target
  pub same_risk : a.risk ≡ r.risk

-- The expiry, if there is one, lies ahead, and its seconds since the year 1 are an int64.
abbrev pub IsUnexpired : Option Timestamp → Time → Type 0
IsUnexpired none t = Unit
IsUnexpired (some exp) t = (t + behind exp < ahead exp) × (ahead exp < wrap_time + behind exp)

expired_iff : (o : Option Timestamp) (t : Time) → (expired o t ≡ false) ↔ IsUnexpired o t
unfolding expired as_time
expired_iff none t = ground arith
expired_iff (some exp) t = ground arith

covers_fields-Binds :
    (a : ResponseApproval) (r : ResponseRecommendation) (t : Time)
    → covers_fields a r t ≡ true
    → Binds a r × (expired a.expires_at t ≡ false)
unfolding covers_fields
covers_fields-Binds a r t h = ground (
  arith,
  eq_iff a.recommendation_id r.id,
  eq_iff a.target r.target,
  same_iff OperationType-discrete a.operation r.operation,
  same_iff RiskLevel-discrete a.risk r.risk,
)

Binds-covers_fields :
    (a : ResponseApproval) (r : ResponseRecommendation) (t : Time)
    → Binds a r
    → expired a.expires_at t ≡ false
    → covers_fields a r t ≡ true
unfolding covers_fields
Binds-covers_fields a r t b e = rw (
  (eq_iff a.recommendation_id r.id).1 b.same_recommendation,
  (same_iff OperationType-discrete a.operation r.operation).1 b.same_operation,
  (eq_iff a.target r.target).1 b.same_target,
  (same_iff RiskLevel-discrete a.risk r.risk).1 b.same_risk,
  e,
)

-- An approval covers a recommendation at a time exactly when it names the recommendation's id,
-- operation, target and risk, and has no expiry or one that lies after that time. An expiry whose
-- seconds since the year 1 are no int64 counts as past: Go wraps it to a time before the year 1.
pub covers_iff :
    (a : ResponseApproval) (r : ResponseRecommendation) (t : Time)
    → (covers (some a) (some r) t ≡ true) ↔ (Binds a r × IsUnexpired a.expires_at t)
unfolding covers
covers_iff a r t = (
  λ h. let (b, e) = covers_fields-Binds a r t h in (b, (expired_iff a.expires_at t).0 e),
  λ h. Binds-covers_fields a r t h.0 ((expired_iff a.expires_at t).1 h.1),
)

granted :
    (lib : Library) (r : ResponseRecommendation) (approver reason : String) (now : Time)
    (ttl : Duration) {a : ResponseApproval}
    → grant lib r approver reason now ttl ≡ ok a
    → Binds a r × (a.expires_at ≡ expiry now ttl) × ((n : ℕ) × (ttl ≡ pos n))
unfolding grant approval_of
granted lib r approver reason now (pos n) h = ground arith
granted lib r approver reason now (negsuc n) h = ground arith

approved_in_time :
    (a : ResponseApproval) (now : Time)
    → a.approved_at ≡ some (timestamp now)
    → validate_approval (some a) ≡ none
    → now < end_of_time
unfolding validate_approval
approved_in_time a now f h0 =
    let (_, h1) = >>-eq-none (non_empty "id" a.id) _ h0 in
    let (_, h2) = >>-eq-none (non_empty "recommendation_id" a.recommendation_id) _ h1 in
    let (_, h3) = >>-eq-none (non_empty "target" a.target) _ h2 in
    let (_, h4) = >>-eq-none (non_empty "approver" a.approver) _ h3 in
    let (_, h5) = >>-eq-none (non_empty "reason" a.reason) _ h4 in
    let (_, h6) = >>-eq-none (check_value "operation" a.operation) _ h5 in
    let (_, h7) = >>-eq-none (check_value "risk" a.risk) _ h6 in
    let stamped = rw f at ((require_timestamp_iff "approved_at" a.approved_at).0 h7) in
    ground (arith, check_valid-timestamp now, stamped)

-- The time of a grant is before the year 10000, since the validator asks for it.
granted_in_time :
    (lib : Library) (r : ResponseRecommendation) (approver reason : String) (now : Time)
    (ttl : Duration) (a : ResponseApproval)
    → grant lib r approver reason now ttl ≡ ok a
    → now < end_of_time
unfolding grant
granted_in_time lib r approver reason now ttl a h0 =
    let wrap : ContractError → ResponseError = λ _. approval_invalid in
    let (_, h1) = ensure_none_passed wrap (validate_recommendation (some r)) _ a h0 in
    let (_, h2) =
      ensure_passed (not (approver == "") && not (reason == "")) approval_invalid _ a h1 in
    let (_, h3) = ensure_passed (not (is_zero now)) approval_invalid _ a h2 in
    let (_, h4) = ensure_passed (not (is_negative ttl)) approval_invalid _ a h3 in
    let appr = approval_of lib r approver reason now ttl in
    let (valid, _) = ensure_none_passed wrap (validate_approval (some appr)) (ok appr) a h4 in
    approved_in_time appr now (unfold approval_of in refl) valid

expiry_lem :
    (now : Time) (n : ℕ) (t : Time)
    → now + n < wrap_time
    → IsUnexpired (expiry now (pos n)) t ↔ ((n ≡ 0) ⊎ (t < now + n))
unfolding expiry
expiry_lem now zero t b = ((λ _. inl refl), λ _. tt)
expiry_lem now (suc n) t b = (
  λ h. inr (omega (arith, ahead-timestamp (now + suc n))),
  λ h. omega (arith, ahead-timestamp (now + suc n)),
)

-- An approval that was granted covers its recommendation exactly as long as its time to live says:
-- for ever if that is 0, and else until the grant's time plus it, for any number of nanoseconds
-- that a time.Duration holds. So an approval is good for the recommendation it was granted for, also
-- after the recommendation's status has changed.
pub grant-covers :
    (lib : Library) (r r' : ResponseRecommendation) (approver reason : String) (now : Time) (n : ℕ)
    (t : Time) (a : ResponseApproval)
    → n < 2 ^ 63
    → grant lib r approver reason now (pos n) ≡ ok a
    → (r'.id ≡ r.id) × (r'.operation ≡ r.operation) × (r'.target ≡ r.target) × (r'.risk ≡ r.risk)
    → (covers (some a) (some r') t ≡ true) ↔ ((n ≡ 0) ⊎ (t < now + n))
grant-covers lib r r' approver reason now n t a small g e =
    let (b, x, _) = granted lib r approver reason now (pos n) g in
    let early = granted_in_time lib r approver reason now (pos n) a g in
    let bound : now + n < wrap_time = omega (arith, early, small) in
    (
      λ h. (expiry_lem now n t bound).0 (rw x at ((covers_iff a r' t).0 h).1),
      λ h. (covers_iff a r' t).1 (
        record {
          same_recommendation = b.same_recommendation ∙ sym e.0;
          same_operation = b.same_operation ∙ sym e.1;
          same_target = b.same_target ∙ sym e.2;
          same_risk = b.same_risk ∙ sym e.3;
        },
        rw x ((expiry_lem now n t bound).1 h),
      ),
    )
