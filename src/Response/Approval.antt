-- ===== src/Response/Approval.antt =====
-- response/approval.go: approvals bound to one recommendation.
pub mod Binding
use blueveil.Prelude.{
  ℕ, zero, suc, ◌+◌, Bool, true, false, ◌&&◌, not, String, Option, none, some, ◌==◌, [], ◌∷◌,
  if◌then◌else◌,
}
use blueveil.Prelude.Int.{ℤ, pos, negsuc}
use blueveil.Prelude.Time.{Time, Timestamp, is_zero, before, timestamp, as_time}
use blueveil.Prelude.Result.{Result, ok, err, ◌>>=◌, ◌>>◌, ensure, ensure_none}
use blueveil.Contract.Equality.{OperationType-discrete, RiskLevel-discrete, same}
use blueveil.Contract.Messages.{ResponseRecommendation, ResponseApproval}
use blueveil.Contract.Response.{validate_recommendation, validate_approval}
use blueveil.Response.Error.{ResponseError, approval_invalid}
use blueveil.Prelude.Library.{Library, derived_id}

-- A time.Duration, in nanoseconds.
abbrev pub Duration : Type 0
Duration = ℤ

abbrev pub is_negative : Duration → Bool
is_negative (pos _) = false
is_negative (negsuc _) = true

-- `if ttl > 0 { appr.ExpiresAt = timestamppb.New(now.Add(ttl)) }`
unfoldable pub expiry : Time → Duration → Option Timestamp
expiry now (pos zero) = none
expiry now (pos (suc n)) = some (timestamp (now + suc n))
expiry now (negsuc _) = none

module _ (lib : Library) where
  unfoldable pub approval_id : String → String → Time → String
  approval_id rec_id approver now =
      derived_id lib "appr-" ("blueveil-approval-v1" ∷ rec_id ∷ approver ∷ lib.rfc3339 now ∷ [])

  -- The approval that Grant fills in.
  unfoldable pub approval_of :
      ResponseRecommendation → String → String → Time → Duration → ResponseApproval
  approval_of rec approver reason now ttl = record {
    id = approval_id rec.id approver now;
    recommendation_id = rec.id;
    operation = rec.operation;
    target = rec.target;
    risk = rec.risk;
    approver = approver;
    approved_at = some (timestamp now);
    expires_at = expiry now ttl;
    reason = reason;
  }

  unfoldable pub grant :
      ResponseRecommendation
      → String
      → String
      → Time
      → Duration
      → Result ResponseError ResponseApproval
  grant rec approver reason now ttl = do
    ensure_none (λ _. approval_invalid) (validate_recommendation (some rec))
    ensure (not (approver == "") && not (reason == "")) approval_invalid
    ensure (not (is_zero now)) approval_invalid
    ensure (not (is_negative ttl)) approval_invalid
    let appr = approval_of rec approver reason now ttl
    ensure_none (λ _. approval_invalid) (validate_approval (some appr))
    ok appr

-- `exp != nil && !now.Before(exp.AsTime())`
unfoldable pub expired : Option Timestamp → Time → Bool
expired none now = false
expired (some exp) now = not (before now (as_time exp))

unfoldable pub covers_fields : ResponseApproval → ResponseRecommendation → Time → Bool
covers_fields approval rec now =
    if not (approval.recommendation_id == rec.id)
    then false
    else if not (same OperationType-discrete approval.operation rec.operation)
    then false
    else if not (approval.target == rec.target)
    then false
    else if not (same RiskLevel-discrete approval.risk rec.risk)
    then false
    else if expired approval.expires_at now
    then false
    else true

unfoldable pub covers : Option ResponseApproval → Option ResponseRecommendation → Time → Bool
covers none rec now = false
covers (some approval) none now = false
covers (some approval) (some rec) now = covers_fields approval rec now
