-- ===== src/Response/Engine/Phase/Execute.antt =====
-- Execute and Verify keep the phase.
use blueveil.Prelude.{
  ◌≡◌, refl, ap, not, Bool, true, false, ◌&&◌, String, Option, none, some, arith,
}
use blueveil.Prelude.Time.{Time}
use blueveil.Contract.Enums.{ResponseStatus, VerificationOutcome}
use blueveil.Contract.Messages.{ResponseRecommendation, ResponseExecution, ResponseVerification}
use blueveil.Prelude.Library.{Library}
use blueveil.Response.Safety.{SafetyState, Gate, next_state, step_on, advance}
use blueveil.Prelude.Result.{Result, ok, err}
use blueveil.Prelude.Exec.{◌>>=◌}
use blueveil.Prelude.Exec.After.{
  after_lift_ok, After, after_bind, after_lift, after_gets, after_modify, after_require,
}
use blueveil.Response.Executor.{build_execution, execution_of, ExecRequest, ExecResult}
use blueveil.Response.Engine.State.{Session, Environment, Slot}
use blueveil.Response.Engine.Slots.{
  finish_execution, perform, run_executor, on_report, verify_slot, execute_slot,
  conclude_verification, close_verification, judge, at_verify, at_confirm, is_approved,
  conclude_execution, log, execute_slot, verify_slot,
}
use blueveil.Response.Engine.Phase.{
  Authorized, outcome_of, Unexecuted, Executed, is_failed, InPhase, IsInPhase,
}

-- A session that has entered EXECUTE, before the executor has reported.
record Running (r : ResponseRecommendation) (s : Session) : Type 0 where
  at_execute : s.safety ≡ SafetyState.execute
  fresh : Unexecuted s
  still_open : s.done ≡ false
  authorized : Authorized r s
  executing : r.status ≡ ResponseStatus.executing

begin_execute :
    (r : ResponseRecommendation) (s : Session) {safety : SafetyState}
    → InPhase r s
    → (is_approved r.status && at_confirm s.safety) ≡ true
    → advance s.safety Gate.approved ≡ ok safety
    → Running (record r { status = ResponseStatus.executing }) (record s { safety = safety })
unfolding advance next_state step_on
begin_execute r s h g e = ground arith

Running-InPhase : (r : ResponseRecommendation) (s : Session) → Running r s → InPhase r s
Running-InPhase r s h = ground arith

advance-execute :
    (safety : SafetyState)
    → safety ≡ SafetyState.execute
    → advance safety Gate.automatic ≡ ok SafetyState.verify
unfolding advance next_state step_on
advance-execute safety e = rw e

build_execution-success :
    (lib : Library) (req : ExecRequest) (res : ExecResult) (started finished : Time)
    {exec : ResponseExecution}
    → build_execution lib req res started finished ≡ ok exec
    → exec.success ≡ res.success
unfolding build_execution execution_of
build_execution-success lib req res started finished h = ground arith

module _ {X : Type 0} (env : Environment X) where
  conclude_execution-InPhase :
      (success : Bool) (detail : String) (exec : ResponseExecution) (s : Slot X)
      → s.session.safety ≡ SafetyState.verify
      → Executed s.session success false
      → Authorized s.rec s.session
      → IsInPhase (conclude_execution env success detail exec s).1
  unfolding conclude_execution log ◌>>=◌
  conclude_execution-InPhase true detail exec s v e a = ground arith
  conclude_execution-InPhase false detail exec s v e a = ground arith

  finish_execution-InPhase :
      (req : ExecRequest) (t : Time) (res : ExecResult) (s : Slot X)
      → Running s.rec s.session
      → After (finish_execution env req t res) s IsInPhase
  unfolding finish_execution
  finish_execution-InPhase req t res s h =
      after_bind _ _ s (Running-InPhase s.rec s.session h) λ finished _.
        after_lift _ _ _ (Running-InPhase s.rec s.session h) λ exec built. after_modify _ _ _ (
          after_gets _ _ _ (
            after_lift_ok _ _ (advance-execute _ h.at_execute) (
              after_modify _ _ _ (record {
                holds =
                    conclude_execution-InPhase res.success res.detail exec _ refl
                      (record {
                        was_executed = refl;
                        is_verified = h.fresh.not_verified;
                        is_done = h.still_open;
                        reported =
                            ap some (build_execution-success env.library req res t finished built);
                      })
                      h.authorized;
              }))))

  on_report-InPhase :
      (req : ExecRequest) (t : Time) (r : Result String ExecResult) (s : Slot X)
      → Running s.rec s.session
      → After (on_report env r >>= finish_execution env req t) s IsInPhase
  unfolding ◌>>=◌ on_report log
  on_report-InPhase req t (ok res) s h = record {
    holds = (finish_execution-InPhase req t res s h).holds;
  }
  on_report-InPhase req t (err msg) s h = record { holds = ground arith }

  perform-InPhase :
      (req : ExecRequest) (t : Time) (s : Slot X)
      → Running s.rec s.session
      → After (perform env req t) s IsInPhase
  unfolding perform run_executor ◌>>=◌
  perform-InPhase req t s h =
      let (r, w) = env.execute req s.around.world in
      record {
        holds =
            (on_report-InPhase req t r (record s { around = record s.around { world = w } })
              h).holds;
      }

  pub execute_slot-InPhase :
      (t : Time) (s : Slot X) → IsInPhase s → After (execute_slot env t) s IsInPhase
  unfolding execute_slot
  execute_slot-InPhase t s h = after_gets _ _ s (
      after_require _ _ _ s h λ guard. after_require _ _ _ s h λ _.
        after_lift _ _ s h λ approval_id _. after_lift _ _ s h λ safety moved. after_modify _ _ _ (
          after_modify _ _ _ (perform-InPhase _ t _ (begin_execute s.rec s.session h guard moved))))

-- A verdict other than FAILED is the verifier's, on a success.
judge-success :
    {X : Type 0} (env : Environment X) (r : ResponseRecommendation)
    (exec : Option ResponseExecution)
    → is_failed (judge env r exec).0 ≡ false
    → outcome_of exec ≡ some true
unfolding judge
judge-success env r none h = cc h
judge-success env r (some exec) h = ground arith

begin_verify :
    (r : ResponseRecommendation) (s : Session)
    → InPhase r s
    → (s.executed && not s.verified && at_verify s.safety) ≡ true
    → (s.safety ≡ SafetyState.verify) × (s.executed ≡ true) × Authorized r s
begin_verify r s h g = ground arith

advance-verify :
    (safety : SafetyState)
    → safety ≡ SafetyState.verify
    → advance safety Gate.automatic ≡ ok SafetyState.audit
unfolding advance next_state step_on
advance-verify safety e = rw e

module _ {X : Type 0} (env : Environment X) where
  conclude_verification-InPhase :
      (outcome : VerificationOutcome) (detail : String) (ver : ResponseVerification) (s : Slot X)
      → s.session.safety ≡ SafetyState.audit
      → s.session.executed ≡ true
      → s.session.verified ≡ true
      → s.session.done ≡ true
      → Authorized s.rec s.session
      → (is_failed outcome ≡ false → outcome_of s.session.execution ≡ some true)
      → IsInPhase (conclude_verification env outcome detail ver s).1
  unfolding conclude_verification log ◌>>=◌
  conclude_verification-InPhase VerificationOutcome.verified detail ver s p x v d a h =
      ground (arith, h refl)
  conclude_verification-InPhase VerificationOutcome.failed detail ver s p x v d a h = ground arith
  conclude_verification-InPhase _ detail ver s p x v d a h = ground (arith, h refl)

  pub verify_slot-InPhase :
      (t : Time) (s : Slot X) → IsInPhase s → After (verify_slot env t) s IsInPhase
  unfolding verify_slot close_verification
  verify_slot-InPhase t s h = after_gets _ _ s (
      after_require _ _ _ s h λ guard.
        let (at, ran, auth) = begin_verify s.rec s.session h guard in
        after_lift _ _ s h λ ver _. after_gets _ _ s (
          after_lift_ok _ _ (advance-verify _ at) (
            after_modify _ _ _ (
              after_modify _ _ _ (record {
                holds =
                    conclude_verification-InPhase _ _ ver _ refl ran refl refl auth
                      (judge-success env s.rec s.session.execution);
              })))))
