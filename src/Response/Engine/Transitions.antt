-- ===== src/Response/Engine/Transitions.antt =====
-- The life of a recommendation as a step relation on its status, and that the methods of the engine
-- follow it.
use blueveil.Prelude.{
  ◌≡◌, refl, ◌⊎◌, inl, inr, Bool, true, false, not, ◌&&◌, and_left, String, arith,
}
use blueveil.Prelude.Time.{Time}
use blueveil.Prelude.Result.{Result, ok, err}
use blueveil.Prelude.Exec.{Exec, modify}
use blueveil.Prelude.Exec.Keeps.{Keeps, keeps_rules}
use blueveil.Prelude.Exec.After.{After, after_lift, after_require, after_modify, after_gets}
use blueveil.Contract.Enums.{ResponseStatus, VerificationOutcome}
use blueveil.Contract.Messages.{
  ResponseRecommendation, ResponseApproval, ResponseExecution, ResponseVerification,
}
use blueveil.Response.Error.{ResponseError}
use blueveil.Response.Approval.{Duration}
use blueveil.Response.Safety.{SafetyState, Gate}
use blueveil.Response.Policy.{Decision}
use blueveil.Response.Executor.{ExecRequest, ExecResult}
use blueveil.Response.Audit.{AuditDecision}
use blueveil.Response.Engine.State.{Session, Environment, Ambient, Slot}
use blueveil.Response.Engine.Slots.{
  inside, log, set_status, is_proposed, is_pending, is_approved, park, allow_through, settle,
  decide_slot, accept, approve_slot, on_report, run_executor, conclude_execution, finish_execution,
  perform, execute_slot, judge, conclude_verification, close_verification, verify_slot,
}
use blueveil.Response.Engine.Phase.{InPhase, IsInPhase}

-- One method's change of a status.
pub data Transition : ResponseStatus → ResponseStatus → Type 0 where
  parks : Transition ResponseStatus.proposed ResponseStatus.pending_approval
  admits : Transition ResponseStatus.proposed ResponseStatus.approved
  denies : Transition ResponseStatus.proposed ResponseStatus.denied
  approves : Transition ResponseStatus.pending_approval ResponseStatus.approved
  breaks : Transition ResponseStatus.approved ResponseStatus.executing
  succeeds : Transition ResponseStatus.approved ResponseStatus.executed
  fails : Transition ResponseStatus.approved ResponseStatus.execution_failed
  confirms : Transition ResponseStatus.executed ResponseStatus.verified
  refutes : Transition ResponseStatus.executed ResponseStatus.verification_failed
  doubts : Transition ResponseStatus.executed ResponseStatus.verification_unknown
  writes_off : Transition ResponseStatus.execution_failed ResponseStatus.verification_failed

pub data Reaches (a : ResponseStatus) : ResponseStatus → Type 0 where
  here : Reaches a a
  onward : {b c : ResponseStatus} → Reaches a b → Transition b c → Reaches a c

abbrev pub Moves : ResponseStatus → ResponseStatus → Type 0
Moves a b = (b ≡ a) ⊎ Transition a b

record From (a : ResponseStatus) {X : Type 0} (s : Slot X) : Type 0 where
  moved : Moves a s.rec.status

module _ {X : Type 0} {a : ResponseStatus} where
  From-set_status : (b : ResponseStatus) → Transition a b → Keeps (From a) (set_status {X = X} b)
  unfolding modify
  From-set_status b t = record { at = λ s h. record { moved = inr t } }

  From-session :
      (f : Slot X → Session)
      → Keeps (From a) (modify {E = ResponseError} (λ s. record s { session = f s }))
  unfolding modify
  From-session f = record { at = λ s h. record { moved = h.moved } }

  From-inside : {A : Type 0} (m : Exec (Ambient X) ResponseError A) → Keeps (From a) (inside m)
  From-inside m = record { at = λ s h. record { moved = h.moved } }

  From-log :
      (env : Environment X) (actor : String) (decision : AuditDecision) (reason result : String)
      (phase : SafetyState)
      → Keeps (From a) (log env actor decision reason result phase)
  unfolding log
  From-log env actor decision reason result phase = record {
    at = λ s h. record { moved = h.moved };
  }

ruleset from_rules = (
  keeps_rules, From-set_status, From-session, From-inside, From-log, parks, admits, denies,
  approves, breaks, succeeds, fails, confirms, refutes, doubts, writes_off,
)

module _ {X : Type 0} (env : Environment X) where
  From-allow_through :
      (gate : Gate) (actor : String)
      → Keeps (From ResponseStatus.proposed) (allow_through env gate actor)
  unfolding allow_through park
  From-allow_through Gate.automatic actor = search from_rules depth 20
  From-allow_through Gate.approved actor = search from_rules depth 20

  From-settle :
      (decision : Decision) (actor : String)
      → Keeps (From ResponseStatus.proposed) (settle env decision actor)
  unfolding settle park
  From-settle Decision.allow actor = search (from_rules, From-allow_through) depth 20
  From-settle Decision.deny actor = search from_rules depth 20
  From-settle Decision.require_approval actor = search from_rules depth 20
  From-settle (Decision.other n) actor = search from_rules depth 20

  From-accept :
      (approver reason : String) (a : ResponseApproval)
      → Keeps (From ResponseStatus.pending_approval) (accept env approver reason a)
  unfolding accept
  From-accept approver reason a = search from_rules depth 20

  From-conclude_execution :
      (success : Bool) (detail : String) (exec : ResponseExecution)
      → Keeps (From ResponseStatus.approved) (conclude_execution env success detail exec)
  unfolding conclude_execution
  From-conclude_execution true detail exec = search from_rules depth 20
  From-conclude_execution false detail exec = search from_rules depth 20

  From-finish_execution :
      (req : ExecRequest) (t : Time) (res : ExecResult)
      → Keeps (From ResponseStatus.approved) (finish_execution env req t res)
  unfolding finish_execution
  From-finish_execution req t res = search (from_rules, From-conclude_execution) depth 20

  From-on_report :
      (res : Result String ExecResult) → Keeps (From ResponseStatus.approved) (on_report env res)
  unfolding on_report
  From-on_report (ok res) = search from_rules depth 20
  From-on_report (err msg) = search from_rules depth 20

  From-run_executor :
      (req : ExecRequest) → Keeps (From ResponseStatus.approved) (run_executor env req)
  unfolding run_executor
  From-run_executor req = record {
    at = λ s h.
        let (res, w) = env.execute req s.around.world in
        (From-on_report res).at _ (record { moved = h.moved });
  }

  From-perform :
      (req : ExecRequest) (t : Time) → Keeps (From ResponseStatus.approved) (perform env req t)
  unfolding perform
  From-perform req t = search (from_rules, From-run_executor, From-finish_execution) depth 20

-- What a method started in `s` has done to its status.
abbrev pub MovedFrom : {X : Type 0} → Slot X → Slot X → Type 0
MovedFrom s s' = Moves s.rec.status s'.rec.status

from_start : {a b c : ResponseStatus} → a ≡ b → Moves b c → Moves a c
from_start e m = rw e m

is_proposed_lem :
    (status : ResponseStatus) → is_proposed status ≡ true → status ≡ ResponseStatus.proposed
is_proposed_lem status h = ground arith

is_pending_lem :
    (status : ResponseStatus) → is_pending status ≡ true → status ≡ ResponseStatus.pending_approval
is_pending_lem status h = ground arith

is_approved_lem :
    (status : ResponseStatus) → is_approved status ≡ true → status ≡ ResponseStatus.approved
is_approved_lem status h = ground arith

-- The verdict, from the status that the execution has left.
verdict_move :
    {X : Type 0} (env : Environment X) (r : ResponseRecommendation) (s : Session)
    → InPhase r s
    → s.executed ≡ true
    → s.verified ≡ false
    → (r.status ≡ ResponseStatus.executed)
      ⊎ ((r.status ≡ ResponseStatus.execution_failed)
          × ((judge env r s.execution).0 ≡ VerificationOutcome.failed))
unfolding judge
verdict_move env r s h x v = ground arith

module _ {X : Type 0} (env : Environment X) where
  pub decide_slot-moves :
      (actor : String) (s : Slot X) → After (decide_slot env actor) s (MovedFrom s)
  unfolding decide_slot
  decide_slot-moves actor s = after_gets _ _ s (
      after_require _ _ _ s (inl refl) λ guard. after_lift _ _ s (inl refl) λ decision _.
        after_lift _ _ s (inl refl) λ safety _. after_modify _ _ s (
          let begin = is_proposed_lem _ (and_left _ _ guard) in
          record {
            holds =
                from_start begin
                  ((From-settle env decision actor).at
                    (record s { session = record s.session { safety = safety } })
                    (record { moved = inl begin })).moved;
          }))

  pub approve_slot-moves :
      (approver reason : String) (ttl : Duration) (t : Time) (s : Slot X)
      → After (approve_slot env approver reason ttl t) s (MovedFrom s)
  unfolding approve_slot
  approve_slot-moves approver reason ttl t s = after_gets _ _ s (
      after_require _ _ _ s (inl refl) λ guard. after_lift _ _ s (inl refl) λ a _.
        let begin = is_pending_lem _ (and_left _ _ guard) in
        record {
          holds =
              from_start begin
                ((From-accept env approver reason a).at s (record { moved = inl begin })).moved;
        })

  pub execute_slot-moves : (t : Time) (s : Slot X) → After (execute_slot env t) s (MovedFrom s)
  unfolding execute_slot
  execute_slot-moves t s = after_gets _ _ s (
      after_require _ _ _ s (inl refl) λ guard. after_require _ _ _ s (inl refl) λ _.
        after_lift _ _ s (inl refl) λ approval_id _. after_lift _ _ s (inl refl) λ safety _.
          after_modify _ _ s (
            after_modify _ _ _ (
              let begin = is_approved_lem _ (and_left _ _ guard) in
              record {
                holds =
                    from_start begin
                      ((From-perform env _ t).at _ (record { moved = inr breaks })).moved;
              })))

  verdict :
      (outcome : VerificationOutcome) (detail : String) (ver : ResponseVerification)
      → Keeps (From ResponseStatus.executed) (conclude_verification env outcome detail ver)
  unfolding conclude_verification
  verdict VerificationOutcome.verified detail ver = search from_rules depth 20
  verdict VerificationOutcome.failed detail ver = search from_rules depth 20
  verdict _ detail ver = search from_rules depth 20

  failed_verdict :
      (outcome : VerificationOutcome) (detail : String) (ver : ResponseVerification)
      → outcome ≡ VerificationOutcome.failed
      → Keeps (From ResponseStatus.execution_failed) (conclude_verification env outcome detail ver)
  unfolding conclude_verification
  failed_verdict outcome detail ver f = rw f (search from_rules depth 20)

  conclude_verification-moves :
      (outcome : VerificationOutcome) (detail : String) (ver : ResponseVerification) (s : Slot X)
      → (s.rec.status ≡ ResponseStatus.executed)
        ⊎ ((s.rec.status ≡ ResponseStatus.execution_failed)
            × (outcome ≡ VerificationOutcome.failed))
      → MovedFrom s (conclude_verification env outcome detail ver s).1
  conclude_verification-moves outcome detail ver s (inl p) =
      from_start p ((verdict outcome detail ver).at s (record { moved = inl p })).moved
  conclude_verification-moves outcome detail ver s (inr (p, f)) =
      from_start p ((failed_verdict outcome detail ver f).at s (record { moved = inl p })).moved

  verify_guard :
      (s : Session) (b : Bool)
      → (s.executed && not s.verified && b) ≡ true
      → (s.executed ≡ true) × (s.verified ≡ false)
  verify_guard s b h = ground arith

  pub verify_slot-moves :
      (t : Time) (s : Slot X) → IsInPhase s → After (verify_slot env t) s (MovedFrom s)
  unfolding verify_slot close_verification
  verify_slot-moves t s h = after_gets _ _ s (
      after_require _ _ _ s (inl refl) λ guard. after_lift _ _ s (inl refl) λ ver _.
        after_gets _ _ s (
          after_lift _ _ s (inl refl) λ safety _. after_modify _ _ s (
            after_modify _ _ _ (
              let (x, v) = verify_guard s.session _ guard in
              record {
                holds =
                    conclude_verification-moves _ _ ver _ (verdict_move env s.rec s.session h x v);
              }))))
