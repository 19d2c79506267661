-- ===== src/Contract/Response.antt =====
-- contract/response.go: the four response contracts.
use blueveil.Prelude.{Option, none, some}
use blueveil.Contract.Messages.{
  ResponseRecommendation, ResponseApproval, ResponseExecution, ResponseVerification,
}
use blueveil.Contract.Enums.{
  operation_enumeration, risk_enumeration, status_enumeration, outcome_enumeration,
}
use blueveil.Contract.Check.{
  Check, ◌>>◌, rejected, is_nil, non_empty, check_value, require_timestamp,
}

unfoldable pub validate_recommendation : Option ResponseRecommendation → Check
validate_recommendation none = some (rejected "ResponseRecommendation" is_nil)
validate_recommendation (some r) = do
  non_empty "id" r.id
  non_empty "incident_id" r.incident_id
  non_empty "target" r.target
  non_empty "reason" r.reason
  non_empty "recommended_by" r.recommended_by
  check_value "operation" r.operation
  check_value "risk" r.risk
  check_value "status" r.status
  require_timestamp "recommended_at" r.recommended_at

unfoldable pub validate_approval : Option ResponseApproval → Check
validate_approval none = some (rejected "ResponseApproval" is_nil)
validate_approval (some a) = do
  non_empty "id" a.id
  non_empty "recommendation_id" a.recommendation_id
  non_empty "target" a.target
  non_empty "approver" a.approver
  non_empty "reason" a.reason
  check_value "operation" a.operation
  check_value "risk" a.risk
  require_timestamp "approved_at" a.approved_at

unfoldable pub validate_execution : Option ResponseExecution → Check
validate_execution none = some (rejected "ResponseExecution" is_nil)
validate_execution (some e) = do
  non_empty "id" e.id
  non_empty "recommendation_id" e.recommendation_id
  non_empty "target" e.target
  non_empty "detail" e.detail
  check_value "operation" e.operation
  require_timestamp "started_at" e.started_at
  require_timestamp "finished_at" e.finished_at

unfoldable pub validate_verification : Option ResponseVerification → Check
validate_verification none = some (rejected "ResponseVerification" is_nil)
validate_verification (some v) = do
  non_empty "id" v.id
  non_empty "execution_id" v.execution_id
  non_empty "detail" v.detail
  check_value "outcome" v.outcome
  require_timestamp "verified_at" v.verified_at
