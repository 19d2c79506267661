-- ===== src/Response/Engine/Slots.antt =====
-- The methods of response/engine.go from `live` on: what they do to the recommendation and the
-- session that its pointers name.
use blueveil.Prelude.{Bool, true, false, ◌&&◌, not, String, Option, none, some, if◌then◌else◌}
use blueveil.Prelude.Time.{Time}
use blueveil.Prelude.Result.{Result, ok, err}
use blueveil.Prelude.Exec.{Exec, pure, fail, lift, gets, modify, require, ◌>>=◌, ◌>>◌}
use blueveil.Contract.Enums.{ResponseStatus, VerificationOutcome}
use blueveil.Contract.Messages.{
  ResponseRecommendation, ResponseApproval, ResponseExecution, ResponseVerification,
}
use blueveil.Contract.Check.{Check}
use blueveil.Contract.Response.{validate_recommendation}
use blueveil.Response.Error.{
  ResponseError, policy_denied, approval_invalid, response_state, policy_error, executor_error,
  verification_refused, contract_error,
}
use blueveil.Response.Safety.{SafetyState, Gate, automatic, advance, required_gate}
use blueveil.Response.Policy.{Decision}
use blueveil.Response.Approval.{Duration, grant, covers}
use blueveil.Response.Executor.{ExecRequest, ExecResult, build_execution}
use blueveil.Response.Verifier.{build_verification}
use blueveil.Response.Audit.{AuditDecision}
use blueveil.Response.Engine.State.{Environment, Ambient, Slot, now, audit_record}

abbrev pub is_proposed : ResponseStatus → Bool
is_proposed ResponseStatus.proposed = true
is_proposed _ = false

abbrev pub is_pending : ResponseStatus → Bool
is_pending ResponseStatus.pending_approval = true
is_pending _ = false

abbrev pub is_approved : ResponseStatus → Bool
is_approved ResponseStatus.approved = true
is_approved _ = false

abbrev pub at_recommend : SafetyState → Bool
at_recommend SafetyState.recommend = true
at_recommend _ = false

abbrev pub at_confirm : SafetyState → Bool
at_confirm SafetyState.confirm = true
at_confirm _ = false

abbrev pub at_verify : SafetyState → Bool
at_verify SafetyState.verify = true
at_verify _ = false

abbrev unless_refused : Check → ResponseRecommendation → Result ResponseError ResponseRecommendation
unless_refused none r = ok r
unless_refused (some e) r = err (contract_error e)

abbrev pub SlotExec : Type 0 → Type 0 → Type 0
SlotExec X A = Exec (Slot X) ResponseError A

module _ {X : Type 0} where
  -- A call of one of the engine's own helpers, which see neither recommendation nor session.
  abbrev pub inside : {A : Type 0} → Exec (Ambient X) ResponseError A → SlotExec X A
  inside m s = let (r, a) = m s.around in (r, record s { around = a })

  abbrev pub set_status : ResponseStatus → SlotExec X (Unit {0})
  set_status st = modify (λ s. record s { rec = record s.rec { status = st } })

  abbrev pub set_safety : SafetyState → SlotExec X (Unit {0})
  set_safety st = modify (λ s. record s { session = record s.session { safety = st } })

  abbrev pub set_approval_required : Bool → SlotExec X (Unit {0})
  set_approval_required b =
      modify (λ s. record s { session = record s.session { approval_required = b } })

  abbrev pub set_done : SlotExec X (Unit {0})
  set_done = modify (λ s. record s { session = record s.session { done = true } })

  -- `if err := contract.ValidateResponseRecommendation(rec); err != nil { return nil, err }`, and
  -- the recommendation.
  abbrev pub validated : SlotExec X ResponseRecommendation
  validated = do
    s ← gets (λ s. s)
    lift (unless_refused (validate_recommendation (some s.rec)) s.rec)

abbrev pub answer : Decision × Option String → Result ResponseError Decision
answer (d, none) = ok d
answer (d, some msg) = err (policy_error msg)

-- The approval that the gate asks for: its id, or "" where policy authorized without one.
unfoldable pub authorize :
    Gate → Option ResponseApproval → ResponseRecommendation → Time → Result ResponseError String
authorize Gate.automatic approval rec t = ok ""
authorize Gate.approved none rec t = err ResponseError.approval_required
authorize Gate.approved (some a) rec t =
    if covers (some a) (some rec) t then ok a.id else err approval_invalid

abbrev pub request_for : ResponseRecommendation → String → ExecRequest
request_for rec approval_id = record {
  operation = rec.operation;
  target = rec.target;
  risk = rec.risk;
  recommendation_id = rec.id;
  approval_id = approval_id;
}

module _ {X : Type 0} (env : Environment X) where
  -- e.record for the recommendation of the slot.
  unfoldable pub log :
      String → AuditDecision → String → String → SafetyState → SlotExec X (Unit {0})
  log actor decision reason result phase s =
      inside
        (audit_record env actor s.rec.operation s.rec.risk decision reason result s.rec.id phase) s

  unfoldable pub park : String → String → SlotExec X ResponseRecommendation
  park actor reason = do
    set_status ResponseStatus.pending_approval
    set_approval_required true
    s ← gets (λ s. s)
    log actor AuditDecision.approval_required reason s.rec.id SafetyState.confirm
    validated

  -- The branch for a policy that allows, by what the gate asks for.
  unfoldable pub allow_through : Gate → String → SlotExec X ResponseRecommendation
  allow_through Gate.approved actor =
      park actor "gate requires approval for this operation/risk despite policy allow"
  allow_through Gate.automatic actor = do
    set_status ResponseStatus.approved
    set_approval_required false
    s ← gets (λ s. s)
    log actor AuditDecision.allowed "policy allowed without human approval" s.rec.id
        SafetyState.confirm
    validated

  -- The switch on the policy's decision.
  unfoldable pub settle : Decision → String → SlotExec X ResponseRecommendation
  settle Decision.allow actor = do
    s ← gets (λ s. s)
    allow_through (required_gate s.rec.operation s.rec.risk false) actor
  settle Decision.deny actor = do
    set_status ResponseStatus.denied
    set_done
    s ← gets (λ s. s)
    log actor AuditDecision.denied "policy denied" s.rec.id SafetyState.confirm
    validated
    fail policy_denied
  settle Decision.require_approval actor = park actor "policy requires human approval"
  settle (Decision.other n) actor = validated

  unfoldable pub decide_slot : String → SlotExec X ResponseRecommendation
  decide_slot actor = do
    s ← gets (λ s. s)
    require (is_proposed s.rec.status && at_recommend s.session.safety) response_state
    decision ← lift (
        answer (
          env.decide (record {
            actor = actor;
            operation = s.rec.operation;
            target = s.rec.target;
            risk = s.rec.risk;
          })))
    safety ← lift (advance s.session.safety automatic)
    set_safety safety
    settle decision actor

  -- Approve from the granted approval on.
  unfoldable pub accept : String → String → ResponseApproval → SlotExec X ResponseApproval
  accept approver reason appr = do
    modify (λ s. record s { session = record s.session { approval = some appr } })
    set_status ResponseStatus.approved
    validated
    log approver AuditDecision.approved reason appr.id SafetyState.confirm
    pure appr

  unfoldable pub approve_slot : String → String → Duration → Time → SlotExec X ResponseApproval
  approve_slot approver reason ttl t = do
    s ← gets (λ s. s)
    require (is_pending s.rec.status && at_confirm s.session.safety) response_state
    appr ← lift (grant env.library s.rec approver reason t ttl)
    accept approver reason appr

  unfoldable pub on_report : Result String ExecResult → SlotExec X ExecResult
  on_report (ok res) = pure res
  on_report (err msg) = do
    log "executor" AuditDecision.executor_error "executor errored without a Report" msg
        SafetyState.execute
    fail (executor_error msg)

  -- e.executor.Execute and the branch for its error.
  unfoldable pub run_executor : ExecRequest → SlotExec X ExecResult
  run_executor req s =
      let (r, w) = env.execute req s.around.world in
      on_report r (record s { around = record s.around { world = w } })

  -- The end of Execute, by the success that was reported.
  unfoldable pub conclude_execution :
      Bool → String → ResponseExecution → SlotExec X ResponseExecution
  conclude_execution true detail exec = do
    set_status ResponseStatus.executed
    log "executor" AuditDecision.executed detail exec.id SafetyState.verify
    validated
    pure exec
  conclude_execution false detail exec = do
    set_status ResponseStatus.execution_failed
    log "executor" AuditDecision.execution_failed detail exec.id SafetyState.verify
    validated
    fail ResponseError.execution_failed

  -- Execute from the executor's report on.
  unfoldable pub finish_execution : ExecRequest → Time → ExecResult → SlotExec X ResponseExecution
  finish_execution req t res = do
    finished ← inside (now env)
    exec ← lift (build_execution env.library req res t finished)
    modify (λ s. record s { session = record s.session { execution = some exec; executed = true } })
    s ← gets (λ s. s)
    safety ← lift (advance s.session.safety automatic)
    set_safety safety
    conclude_execution res.success res.detail exec

  -- Execute from the call of the executor on.
  unfoldable pub perform : ExecRequest → Time → SlotExec X ResponseExecution
  perform req t = do res ← run_executor req; finish_execution req t res

  unfoldable pub execute_slot : Time → SlotExec X ResponseExecution
  execute_slot t = do
    s ← gets (λ s. s)
    require (is_approved s.rec.status && at_confirm s.session.safety) response_state
    require (not s.session.executed) response_state
    approval_id ← lift (
        authorize (required_gate s.rec.operation s.rec.risk s.session.approval_required)
          s.session.approval s.rec t)
    safety ← lift (advance s.session.safety Gate.approved)
    set_safety safety
    set_status ResponseStatus.executing
    perform (request_for s.rec approval_id) t

  -- The verdict: the verifier's for a success, FAILED for anything else.
  unfoldable pub judge :
      ResponseRecommendation → Option ResponseExecution → VerificationOutcome × String
  judge rec none =
      (VerificationOutcome.failed, "execution failed: response intent demonstrably does not hold")
  judge rec (some exec) = if exec.success then env.verify rec exec else (
    VerificationOutcome.failed, "execution failed: response intent demonstrably does not hold",
  )

  unfoldable pub build_for :
      Option ResponseExecution
      → VerificationOutcome
      → String
      → Time
      → Result ResponseError ResponseVerification
  build_for none outcome detail t = err verification_refused
  build_for (some exec) outcome detail t = build_verification env.library exec outcome detail t

  -- The switch on the outcome.
  unfoldable pub conclude_verification :
      VerificationOutcome → String → ResponseVerification → SlotExec X ResponseVerification
  conclude_verification VerificationOutcome.verified detail ver = do
    set_status ResponseStatus.verified
    log "verifier" AuditDecision.verified detail ver.id SafetyState.audit
    validated
    pure ver
  conclude_verification VerificationOutcome.failed detail ver = do
    set_status ResponseStatus.verification_failed
    log "verifier" AuditDecision.verification_failed detail ver.id SafetyState.audit
    validated
    pure ver
  conclude_verification _ detail ver = do
    set_status ResponseStatus.verification_unknown
    log "verifier" AuditDecision.verification_unknown detail ver.id SafetyState.audit
    validated
    pure ver

  -- Verify from the record on.
  unfoldable pub close_verification :
      VerificationOutcome → String → ResponseVerification → SlotExec X ResponseVerification
  close_verification outcome detail ver = do
    s ← gets (λ s. s)
    safety ← lift (advance s.session.safety automatic)
    set_safety safety
    modify (λ s. record s { session = record s.session { verified = true; done = true } })
    conclude_verification outcome detail ver

  unfoldable pub verify_slot : Time → SlotExec X ResponseVerification
  verify_slot t = do
    s ← gets (λ s. s)
    require (s.session.executed && not s.session.verified && at_verify s.session.safety)
        response_state
    let (outcome, detail) = judge s.rec s.session.execution
    ver ← lift (build_for s.session.execution outcome detail t)
    close_verification outcome detail ver
