-- ===== src/Response/Engine/Frame.antt =====
-- What no method of the engine changes about a recommendation, and how the log moves.
use blueveil.Prelude.{◌≡◌, ◌∙◌, inl, inr, Bool-cases, refl, Bool, true, false, String, List, arith}
use blueveil.Prelude.Time.{Time, is_zero}
use blueveil.Prelude.Result.{Result, ok, err}
use blueveil.Prelude.Exec.{modify}
use blueveil.Prelude.Exec.Keeps.{Keeps, keeps_rules}
use blueveil.Contract.Enums.{VerificationOutcome, ResponseStatus, OperationType, RiskLevel}
use blueveil.Contract.Messages.{ResponseRecommendation, ResponseExecution, ResponseVerification}
use blueveil.Response.Error.{ResponseError}
use blueveil.Response.Approval.{Duration}
use blueveil.Response.Safety.{SafetyState, Gate}
use blueveil.Response.Policy.{Decision}
use blueveil.Response.Executor.{ExecRequest, ExecResult}
use blueveil.Response.Audit.{AuditDecision, AuditEntry}
use blueveil.Response.Audit.Log.{Extends, unchanged, appended}
use blueveil.Response.Engine.State.{Session, Environment, Ambient, Slot, now, audit_record}
use blueveil.Response.Engine.Slots.{
  set_status, inside, log, park, allow_through, settle, decide_slot, accept, approve_slot,
  run_executor, on_report, conclude_execution, finish_execution, perform, execute_slot,
  conclude_verification, close_verification, verify_slot,
}

-- The slot belongs to the recommendation `r`, its log extends `entries`, and its executor is one
-- of `W`.
pub record Continues (r : ResponseRecommendation) (entries : List AuditEntry) {X : Type 0}
    (W : X → Type 0) (s : Slot X) : Type 0 where
  pub same_id : s.rec.id ≡ r.id
  pub same_operation : s.rec.operation ≡ r.operation
  pub same_target : s.rec.target ≡ r.target
  pub same_risk : s.rec.risk ≡ r.risk
  pub grown : Extends entries s.around.entries
  pub world_kept : W s.around.world

pub Continues-refl :
    {X : Type 0} {W : X → Type 0} (s : Slot X)
    → W s.around.world
    → Continues s.rec s.around.entries W s
Continues-refl s h = record {
  same_id = refl;
  same_operation = refl;
  same_target = refl;
  same_risk = refl;
  grown = unchanged;
  world_kept = h;
}

module _ {X : Type 0} (env : Environment X) where
  pub now_frame :
      (a : Ambient X) → ((now env a).1.entries ≡ a.entries) × ((now env a).1.world ≡ a.world)
  unfolding now
  now_frame a = ground arith

  pub audit_record-world :
      (actor : String) (op : OperationType) (risk : RiskLevel) (decision : AuditDecision)
      (reason result id : String) (phase : SafetyState) (a : Ambient X)
      → (audit_record env actor op risk decision reason result id phase a).1.world ≡ a.world
  unfolding audit_record
  audit_record-world actor op risk decision reason result id phase a = ground arith

  pub audit_record-Extends :
      (actor : String) (op : OperationType) (risk : RiskLevel) (decision : AuditDecision)
      (reason result id : String) (phase : SafetyState) (a : Ambient X) {old : List AuditEntry}
      → Extends old a.entries
      → Extends old (audit_record env actor op risk decision reason result id phase a).1.entries
  unfolding audit_record
  audit_record-Extends actor op risk decision reason result id phase a h =
      elim (Bool-cases (is_zero (env.clock a.ticks))) [
        | inl p ↦ rw p h
        | inr p ↦ rw p (appended _ h)
      ]

module _ {X : Type 0} {r : ResponseRecommendation} {entries : List AuditEntry}
    {W : X → Type 0} where
  -- The parts that the predicate reads are as before.
  Continues-kept :
      (s s' : Slot X)
      → Continues r entries W s
      → s'.rec.id ≡ s.rec.id
      → s'.rec.operation ≡ s.rec.operation
      → s'.rec.target ≡ s.rec.target
      → s'.rec.risk ≡ s.rec.risk
      → Extends entries s'.around.entries
      → W s'.around.world
      → Continues r entries W s'
  Continues-kept s s' h i o t k g w = record {
    same_id = i ∙ h.same_id;
    same_operation = o ∙ h.same_operation;
    same_target = t ∙ h.same_target;
    same_risk = k ∙ h.same_risk;
    grown = g;
    world_kept = w;
  }

  Continues-set_status : (st : ResponseStatus) → Keeps (Continues r entries W) (set_status st)
  unfolding modify
  Continues-set_status st = record {
    at = λ s h. Continues-kept s _ h refl refl refl refl h.grown h.world_kept;
  }

  Continues-session :
      (f : Slot X → Session)
      → Keeps (Continues r entries W) (modify {E = ResponseError} (λ s. record s { session = f s }))
  unfolding modify
  Continues-session f = record {
    at = λ s h. Continues-kept s _ h refl refl refl refl h.grown h.world_kept;
  }

  Continues-now : (env : Environment X) → Keeps (Continues r entries W) (inside (now env))
  Continues-now env = record {
    at = λ s h.
        let (e, w) = now_frame env s.around in
        Continues-kept s _ h refl refl refl refl (rw e h.grown) (rw w h.world_kept);
  }

  Continues-log :
      (env : Environment X) (actor : String) (decision : AuditDecision) (reason result : String)
      (phase : SafetyState)
      → Keeps (Continues r entries W) (log env actor decision reason result phase)
  unfolding log
  Continues-log env actor decision reason result phase = record {
    at = λ s h.
        Continues-kept s _ h refl refl refl refl
          (audit_record-Extends env actor _ _ decision reason result _ phase s.around h.grown)
          (rw
            (audit_record-world env actor s.rec.operation s.rec.risk decision reason result s.rec.id
              phase s.around)
            h.world_kept);
  }

ruleset frame_rules =
    (keeps_rules, Continues-set_status, Continues-session, Continues-now, Continues-log)

module _ {X : Type 0} (env : Environment X) {r : ResponseRecommendation} {entries : List AuditEntry}
    {W : X → Type 0} where
  Continues-park : (actor reason : String) → Keeps (Continues r entries W) (park env actor reason)
  unfolding park
  Continues-park actor reason = search frame_rules depth 20

  Continues-allow_through :
      (gate : Gate) (actor : String) → Keeps (Continues r entries W) (allow_through env gate actor)
  unfolding allow_through
  Continues-allow_through Gate.automatic actor = search frame_rules depth 20
  Continues-allow_through Gate.approved actor = search (frame_rules, Continues-park) depth 20

  Continues-settle :
      (decision : Decision) (actor : String)
      → Keeps (Continues r entries W) (settle env decision actor)
  unfolding settle
  Continues-settle Decision.allow actor = search (frame_rules, Continues-allow_through) depth 20
  Continues-settle Decision.deny actor = search frame_rules depth 20
  Continues-settle Decision.require_approval actor = search (frame_rules, Continues-park) depth 20
  Continues-settle (Decision.other n) actor = search frame_rules depth 20

  pub Continues-decide_slot :
      (actor : String) → Keeps (Continues r entries W) (decide_slot env actor)
  unfolding decide_slot
  Continues-decide_slot actor = search (frame_rules, Continues-settle) depth 20

  pub Continues-approve_slot :
      (approver reason : String) (ttl : Duration) (t : Time)
      → Keeps (Continues r entries W) (approve_slot env approver reason ttl t)
  unfolding approve_slot accept
  Continues-approve_slot approver reason ttl t = search frame_rules depth 20

  Continues-conclude_execution :
      (success : Bool) (detail : String) (exec : ResponseExecution)
      → Keeps (Continues r entries W) (conclude_execution env success detail exec)
  unfolding conclude_execution
  Continues-conclude_execution true detail exec = search frame_rules depth 20
  Continues-conclude_execution false detail exec = search frame_rules depth 20

  Continues-finish_execution :
      (req : ExecRequest) (t : Time) (res : ExecResult)
      → Keeps (Continues r entries W) (finish_execution env req t res)
  unfolding finish_execution
  Continues-finish_execution req t res = search (frame_rules, Continues-conclude_execution) depth 20

  Continues-conclude_verification :
      (outcome : VerificationOutcome) (detail : String) (ver : ResponseVerification)
      → Keeps (Continues r entries W) (conclude_verification env outcome detail ver)
  unfolding conclude_verification
  Continues-conclude_verification VerificationOutcome.verified detail ver =
      search frame_rules depth 20
  Continues-conclude_verification _ detail ver = search frame_rules depth 20

  pub Continues-verify_slot : (t : Time) → Keeps (Continues r entries W) (verify_slot env t)
  unfolding verify_slot close_verification
  Continues-verify_slot t = search (frame_rules, Continues-conclude_verification) depth 20

-- The execution, for a set of executors that no call leaves.
module _ {X : Type 0} (env : Environment X) {r : ResponseRecommendation} {entries : List AuditEntry}
    {W : X → Type 0} (closed : (req : ExecRequest) (w : X) → W w → W (env.execute req w).1) where
  Continues-on_report :
      (res : Result String ExecResult) → Keeps (Continues r entries W) (on_report env res)
  unfolding on_report
  Continues-on_report (ok res) = search frame_rules depth 20
  Continues-on_report (err msg) = search frame_rules depth 20

  Continues-run_executor :
      (req : ExecRequest) → Keeps (Continues r entries W) (run_executor env req)
  unfolding run_executor
  Continues-run_executor req = record {
    at = λ s h.
        let (res, w) = env.execute req s.around.world in
        (Continues-on_report res).at _ (
          Continues-kept s _ h refl refl refl refl h.grown
            (closed req s.around.world h.world_kept));
  }

  pub Continues-execute_slot : (t : Time) → Keeps (Continues r entries W) (execute_slot env t)
  unfolding execute_slot perform
  Continues-execute_slot t =
      search (frame_rules, Continues-run_executor, Continues-finish_execution) depth 20
