-- ===== src/Response/Error.antt =====
-- response/response.go: the sentinel errors, and the errors that the package returns without one.
-- A wrapped error is its sentinel; texts are left out but for those that the audit log keeps.
use blueveil.Prelude.{String}
use blueveil.Contract.Check.{ContractError}

pub data ResponseError : Type 0 where
  response_build policy_denied approval_required approval_invalid : ResponseError
  safety_violation execution_failed response_state : ResponseError
  -- e.now(): the clock returned zero time
  clock_zero : ResponseError
  -- live: no such recommendation
  unknown_recommendation : ResponseError
  -- the policy's and the executor's own error
  policy_error executor_error : String → ResponseError
  -- BuildVerification
  verification_refused : ResponseError
  -- a validator's error, returned as it is
  contract_error : ContractError → ResponseError
