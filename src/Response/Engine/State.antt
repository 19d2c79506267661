-- ===== src/Response/Engine/State.antt =====
-- The state of response/engine.go and its collaborators.
use blueveil.Prelude.{ℕ, ◌+◌, Bool, false, String, Option, none, some, List, [], if◌then◌else◌}
use blueveil.Prelude.Time.{Time, is_zero, timestamp}
use blueveil.Prelude.Dict
use blueveil.Prelude.Dict.{Dict}
use blueveil.Prelude.Result.{Result}
use blueveil.Prelude.Exec.{returned, raised, panicked, Exec}
use blueveil.Contract.Enums.{VerificationOutcome, OperationType, RiskLevel}
use blueveil.Contract.Messages.{ResponseRecommendation, ResponseApproval, ResponseExecution}
use blueveil.Response.Error.{ResponseError, clock_zero}
use blueveil.Prelude.Library.{Library}
use blueveil.Response.Safety.{SafetyState, state_name}
use blueveil.Response.Policy.{ActionRequest, Decision}
use blueveil.Response.Executor.{ExecRequest, ExecResult}
use blueveil.Response.Audit.{AuditDecision, AuditEntry, append}

pub record Session : Type 0 where
  pub safety : SafetyState
  pub approval : Option ResponseApproval
  pub approval_required : Bool
  pub executed : Bool
  pub verified : Bool
  pub done : Bool
  pub execution : Option ResponseExecution

-- The interfaces Policy, Executor and Verifier and the injected clock. The executor works on a
-- state of its own, `X`; the n-th call of the clock reads `clock n`.
pub record Environment (X : Type 0) : Type 0 where
  pub library : Library
  pub clock : ℕ → Time
  pub decide : ActionRequest → Decision × Option String
  pub execute : ExecRequest → X → Result String ExecResult × X
  pub verify : ResponseRecommendation → ResponseExecution → VerificationOutcome × String

-- What every method shares: the audit log, the executor, and how often the clock has been read.
pub record Ambient (X : Type 0) : Type 0 where
  pub entries : List AuditEntry
  pub world : X
  pub ticks : ℕ

pub record Engine (X : Type 0) : Type 0 where
  pub recs : Dict ResponseRecommendation
  pub sessions : Dict Session
  pub ambient : Ambient X

-- What the pointers that `live` returns point to, with the ambient state: the methods change the
-- recommendation and the session in place.
pub record Slot (X : Type 0) : Type 0 where
  pub rec : ResponseRecommendation
  pub session : Session
  pub around : Ambient X

abbrev pub new_session : SafetyState → Session
new_session safety = record {
  safety = safety;
  approval = none;
  approval_required = false;
  executed = false;
  verified = false;
  done = false;
  execution = none;
}

abbrev pub new_engine : {X : Type 0} → X → Engine X
new_engine world = record {
  recs = Dict.empty;
  sessions = Dict.empty;
  ambient = record { entries = []; world = world; ticks = 0 };
}

module _ {X : Type 0} (env : Environment X) where
  -- e.now()
  unfoldable pub now : Exec (Ambient X) ResponseError Time
  now a =
      let t = env.clock a.ticks in
      let a' = record a { ticks = a.ticks + 1 } in
      if is_zero t then (raised clock_zero, a') else (returned t, a')

  -- e.record: a zero clock panics, and nothing is appended.
  unfoldable pub audit_record :
      String
      → OperationType
      → RiskLevel
      → AuditDecision
      → String
      → String
      → String
      → SafetyState
      → Exec (Ambient X) ResponseError (Unit {0})
  audit_record actor op risk decision reason result rec_id phase a =
      let t = env.clock a.ticks in
      let a' = record a { ticks = a.ticks + 1 } in
      let entry : AuditEntry = record {
        id = "";
        decided_at = some (timestamp t);
        actor = actor;
        operation = op;
        risk = risk;
        decision = decision;
        reason = reason;
        result = result;
        response_id = rec_id;
        phase = state_name phase;
      } in
      if is_zero t
      then (panicked, a')
      else (returned tt, record a' { entries = append entry a'.entries })
