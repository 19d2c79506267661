-- ===== src/Response/Engine/Phase.antt =====
-- What the status of a recommendation says of its session.
pub mod Decide
pub mod Execute
use blueveil.Prelude.{
  ◌≡◌, refl, ap, not, ◌⊎◌, Bool, true, false, ◌&&◌, String, Option, none, some, arith,
}
use blueveil.Prelude.Time.{Time}
use blueveil.Contract.Enums.{ResponseStatus, VerificationOutcome}
use blueveil.Contract.Messages.{
  ResponseRecommendation, ResponseApproval, ResponseExecution, ResponseVerification,
}
use blueveil.Prelude.Library.{Library}
use blueveil.Response.Safety.{SafetyState, Gate, next_state, step_on, advance, required_gate}
use blueveil.Response.Approval.{Duration, grant, approval_of}
use blueveil.Prelude.Result.{Result, ok, err}
use blueveil.Prelude.Exec.{◌>>=◌}
use blueveil.Prelude.Exec.After.{
  after_lift_ok, After, after_bind, after_lift, after_gets, after_modify, after_require,
}
use blueveil.Response.Policy.{Decision}
use blueveil.Response.Executor.{build_execution, execution_of, ExecRequest, ExecResult}
use blueveil.Response.Approval.Binding.{Binds}
use blueveil.Response.Engine.State.{Session, Environment, Slot}
use blueveil.Response.Engine.Slots.{
  finish_execution, perform, run_executor, on_report, verify_slot, execute_slot,
  conclude_verification, close_verification, judge, at_verify, is_proposed, is_pending,
  at_recommend, at_confirm, is_approved, accept, conclude_execution, log, park, allow_through,
  settle, decide_slot, approve_slot, execute_slot, verify_slot,
}

abbrev pub BoundBy : Option ResponseApproval → ResponseRecommendation → Type 0
BoundBy none r = ⊥
BoundBy (some a) r = Binds a r

-- Either the gate is open to this recommendation, or a human approved it.
abbrev pub Authorized : ResponseRecommendation → Session → Type 0
Authorized r s =
    (required_gate r.operation r.risk s.approval_required ≡ Gate.automatic) ⊎ BoundBy s.approval r

abbrev pub outcome_of : Option ResponseExecution → Option Bool
outcome_of none = none
outcome_of (some e) = some e.success

-- Nothing has been executed, and the session is open.
pub record Unexecuted (s : Session) : Type 0 where
  pub not_executed : s.executed ≡ false
  pub not_verified : s.verified ≡ false
  pub no_execution : s.execution ≡ none

-- There is an execution, which reported `success`; the session has got so far.
pub record Executed (s : Session) (success closed : Bool) : Type 0 where
  pub was_executed : s.executed ≡ true
  pub is_verified : s.verified ≡ closed
  pub is_done : s.done ≡ closed
  pub reported : outcome_of s.execution ≡ some success

abbrev pub Phase : ResponseStatus → ResponseRecommendation → Session → Type 0
Phase ResponseStatus.proposed r s =
    ((s.safety ≡ SafetyState.recommend) ⊎ (s.safety ≡ SafetyState.confirm))
    × Unexecuted s
    × (s.done ≡ false)
    × (s.approval ≡ none)
Phase ResponseStatus.pending_approval r s =
    (s.safety ≡ SafetyState.confirm) × Unexecuted s × (s.done ≡ false) × (s.approval ≡ none)
Phase ResponseStatus.approved r s =
    (s.safety ≡ SafetyState.confirm) × Unexecuted s × (s.done ≡ false) × Authorized r s
Phase ResponseStatus.denied r s =
    (s.safety ≡ SafetyState.confirm) × Unexecuted s × (s.done ≡ true) × (s.approval ≡ none)
Phase ResponseStatus.executing r s =
    (s.safety ≡ SafetyState.execute) × Unexecuted s × (s.done ≡ false) × Authorized r s
Phase ResponseStatus.executed r s =
    (s.safety ≡ SafetyState.verify) × Executed s true false × Authorized r s
Phase ResponseStatus.execution_failed r s =
    (s.safety ≡ SafetyState.verify) × Executed s false false × Authorized r s
Phase ResponseStatus.verified r s =
    (s.safety ≡ SafetyState.audit) × Executed s true true × Authorized r s
Phase ResponseStatus.verification_failed r s =
    (s.safety ≡ SafetyState.audit)
    × (s.executed ≡ true)
    × (s.verified ≡ true)
    × (s.done ≡ true)
    × Authorized r s
Phase ResponseStatus.verification_unknown r s =
    (s.safety ≡ SafetyState.audit) × Executed s true true × Authorized r s
Phase _ r s = ⊥

abbrev pub is_failed : VerificationOutcome → Bool
is_failed VerificationOutcome.failed = true
is_failed _ = false

abbrev pub InPhase : ResponseRecommendation → Session → Type 0
InPhase r s = Phase r.status r s

abbrev pub IsInPhase : {X : Type 0} → Slot X → Type 0
IsInPhase s = InPhase s.rec s.session
