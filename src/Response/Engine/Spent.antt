-- ===== src/Response/Engine/Spent.antt =====
-- What one execution spends: the approved status of its recommendation.
use blueveil.Prelude.{◌≡◌, refl, ◌∙◌, Bool, true, false, and_left, String}
use blueveil.Prelude.Time.{Time}
use blueveil.Prelude.Result.{Result, ok, err}
use blueveil.Prelude.Exec.{modify, ◌>>=◌}
use blueveil.Prelude.Exec.Keeps.{Keeps, keeps_rules}
use blueveil.Prelude.Exec.After.{After, after_lift, after_require, after_modify, after_gets}
use blueveil.Contract.Enums.{ResponseStatus, VerificationOutcome}
use blueveil.Contract.Messages.{ResponseExecution, ResponseVerification}
use blueveil.Response.Error.{ResponseError}
use blueveil.Response.Safety.{SafetyState, required_gate}
use blueveil.Response.Executor.{ExecRequest, ExecResult}
use blueveil.Response.Audit.{AuditDecision}
use blueveil.Response.Engine.State.{Session, Environment, Slot, now}
use blueveil.Response.Engine.Slots.{
  inside, log, set_status, is_approved, authorize, request_for, on_report, run_executor,
  conclude_execution, finish_execution, perform, execute_slot, conclude_verification,
  close_verification, verify_slot,
}
use blueveil.Response.Engine.Runs.{is_past_gate}
use blueveil.Response.Engine.Frame.{now_frame, audit_record-world}

-- The status is past the gate, and the executor is `w`.
pub record Spent {X : Type 0} (w : X) (s : Slot X) : Type 0 where
  pub status_spent : is_past_gate s.rec.status ≡ true
  pub same_world : s.around.world ≡ w

module _ {X : Type 0} {w : X} where
  spend :
      (status : ResponseStatus)
      → is_past_gate status ≡ true
      → Keeps (Spent w) (set_status {X = X} status)
  unfolding modify
  spend status p = record { at = λ s h. record { status_spent = p; same_world = h.same_world } }

  Spent-executed : Keeps (Spent w) (set_status ResponseStatus.executed)
  Spent-executed = spend _ refl

  Spent-execution_failed : Keeps (Spent w) (set_status ResponseStatus.execution_failed)
  Spent-execution_failed = spend _ refl

  Spent-verified : Keeps (Spent w) (set_status ResponseStatus.verified)
  Spent-verified = spend _ refl

  Spent-verification_failed : Keeps (Spent w) (set_status ResponseStatus.verification_failed)
  Spent-verification_failed = spend _ refl

  Spent-verification_unknown : Keeps (Spent w) (set_status ResponseStatus.verification_unknown)
  Spent-verification_unknown = spend _ refl

  Spent-session :
      (f : Slot X → Session)
      → Keeps (Spent w) (modify {E = ResponseError} (λ s. record s { session = f s }))
  unfolding modify
  Spent-session f = record {
    at = λ s h. record { status_spent = h.status_spent; same_world = h.same_world };
  }

  Spent-now : (env : Environment X) → Keeps (Spent w) (inside (now env))
  Spent-now env = record {
    at = λ s h. record {
      status_spent = h.status_spent;
      same_world = (now_frame env s.around).1 ∙ h.same_world;
    };
  }

  Spent-log :
      (env : Environment X) (actor : String) (decision : AuditDecision) (reason result : String)
      (phase : SafetyState)
      → Keeps (Spent w) (log env actor decision reason result phase)
  unfolding log
  Spent-log env actor decision reason result phase = record {
    at = λ s h. record {
      status_spent = h.status_spent;
      same_world =
          audit_record-world env actor s.rec.operation s.rec.risk decision reason result s.rec.id
            phase s.around
          ∙ h.same_world;
    };
  }

ruleset spent_rules = (
  keeps_rules, Spent-executed, Spent-execution_failed, Spent-verified, Spent-verification_failed,
  Spent-verification_unknown, Spent-session, Spent-now, Spent-log,
)

module _ {X : Type 0} (env : Environment X) {w : X} where
  Spent-conclude_execution :
      (success : Bool) (detail : String) (exec : ResponseExecution)
      → Keeps (Spent w) (conclude_execution env success detail exec)
  unfolding conclude_execution
  Spent-conclude_execution true detail exec = search spent_rules depth 20
  Spent-conclude_execution false detail exec = search spent_rules depth 20

  Spent-finish_execution :
      (req : ExecRequest) (t : Time) (res : ExecResult)
      → Keeps (Spent w) (finish_execution env req t res)
  unfolding finish_execution
  Spent-finish_execution req t res = search (spent_rules, Spent-conclude_execution) depth 20

  Spent-on_report : (res : Result String ExecResult) → Keeps (Spent w) (on_report env res)
  unfolding on_report
  Spent-on_report (ok res) = search spent_rules depth 20
  Spent-on_report (err msg) = search spent_rules depth 20

  Spent-report :
      (res : Result String ExecResult) (req : ExecRequest) (t : Time)
      → Keeps (Spent w) (on_report env res >>= finish_execution env req t)
  Spent-report res req t = search (keeps_rules, Spent-on_report, Spent-finish_execution) depth 20

  Spent-conclude_verification :
      (outcome : VerificationOutcome) (detail : String) (ver : ResponseVerification)
      → Keeps (Spent w) (conclude_verification env outcome detail ver)
  unfolding conclude_verification
  Spent-conclude_verification VerificationOutcome.verified detail ver = search spent_rules depth 20
  Spent-conclude_verification VerificationOutcome.failed detail ver = search spent_rules depth 20
  Spent-conclude_verification _ detail ver = search spent_rules depth 20

  pub Spent-verify_slot : (t : Time) → Keeps (Spent w) (verify_slot env t)
  unfolding verify_slot close_verification
  Spent-verify_slot t = search (spent_rules, Spent-conclude_verification) depth 20

-- The executor's part in a call of Execute: it is not called, and the recommendation stays as it
-- is; or it is called once, with the request of a recommendation in status APPROVED and the id of
-- the approval that the gate asks for, and the status is past the gate from then on.
pub data ExecutorUse {X : Type 0} (env : Environment X) (t : Time) (s s' : Slot X) : Type 0 where
  uncalled : s'.rec ≡ s.rec → s'.around.world ≡ s.around.world → ExecutorUse env t s s'
  called :
      (approval_id : String)
      → is_approved s.rec.status ≡ true
      → authorize
          (required_gate s.rec.operation s.rec.risk s.session.approval_required)
          s.session.approval
          s.rec
          t
        ≡ ok approval_id
      → is_past_gate s'.rec.status ≡ true
      → s'.around.world ≡ (env.execute (request_for s.rec approval_id) s.around.world).1
      → ExecutorUse env t s s'

module _ {X : Type 0} (env : Environment X) where
  perform-Spent :
      (req : ExecRequest) (t : Time) (s : Slot X)
      → is_past_gate s.rec.status ≡ true
      → Spent (env.execute req s.around.world).1 (perform env req t s).1
  unfolding perform run_executor ◌>>=◌
  perform-Spent req t s p =
      let (r, w) = env.execute req s.around.world in
      (Spent-report env r req t).at (record s { around = record s.around { world = w } })
        (record { status_spent = p; same_world = refl })

  pub execute_slot-use :
      (t : Time) (s : Slot X) → After (execute_slot env t) s (ExecutorUse env t s)
  unfolding execute_slot
  execute_slot-use t s =
      let idle = uncalled refl refl in
      after_gets _ _ s (
        after_require _ _ _ s idle λ guard. after_require _ _ _ s idle λ _.
          after_lift _ _ s idle λ approval_id granted. after_lift _ _ s idle λ safety _.
            after_modify _ _ s (
              after_modify _ _ _ (record {
                holds =
                    let spent = perform-Spent (request_for s.rec approval_id) t _ refl in
                    called approval_id (and_left _ _ guard) granted spent.status_spent
                      spent.same_world;
              })))
