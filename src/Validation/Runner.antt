-- ===== src/Validation/Runner.antt =====
-- validation/runner.go: one case through the engine of the responses, and the summary of a campaign. The checks
-- of RunCase for a nil audit log, a nil evidence store and a nil clock are left out.
pub mod Answered
pub mod Traced
use blueveil.Prelude.{
  ℕ, ◌+◌, suc, zero, Bool, true, false, not, String, Option, none, some, List, [], ◌∷◌, ◌==◌,
  if◌then◌else◌,
}
use blueveil.Prelude.Int.{pos}
use blueveil.Prelude.Time.{Time}
use blueveil.Prelude.Dict.{Dict}
use blueveil.Prelude.Result.{Result, ok, err}
use blueveil.Prelude.Exec.{
  Outcome, returned, raised, panicked, Exec, pure, fail, lift, gets, require, ◌>>=◌, ◌>>◌,
}
use blueveil.Contract.Enums.{VerificationOutcome}
use blueveil.Contract.Messages.{
  TelemetryEvent, Detection, Alert, Incident, Evidence, ResponseApproval, ResponseExecution,
}
use blueveil.Contract.Validation.{ValidationVerdict, ValidationRequest, ValidationResult}
use blueveil.Response.Audit.{AuditEntry}
use blueveil.Response.Error.{ResponseError}
use blueveil.Response.Executor.{ExecResult}
use blueveil.Response.Policy.{default_decide}
use blueveil.Response.Verifier.{static_verify}
use blueveil.Response.Recommend.{Inputs}
use blueveil.Response.Engine.State.{Environment, Engine, new_engine}
use blueveil.Response.Engine.Slots.{is_pending}
use blueveil.Response.Engine.Methods
use blueveil.Response.Engine.Methods.{EngineExec}
use blueveil.Validation.Error.{ValidationError}
use blueveil.Validation.Provider.{Provider}
use blueveil.Validation.Executor as Executor
use blueveil.Validation.Executor.{Bound, Trace, Bench, new_executor}

pub record CaseParams : Type 0 where
  pub provider : Option Provider
  pub incident : Option Incident
  pub alert : Option Alert
  pub detection : Option Detection
  pub events : List (Option TelemetryEvent)
  pub actor : String
  pub reason : String

pub record CaseOutcome : Type 0 where
  pub request : ValidationRequest
  pub result : ValidationResult
  pub success : Bool

-- `provider_failed` is an error that is in ProviderErr of the outcome too.
pub data RunError : Type 0 where
  misuse unrecorded : RunError
  bind_error : ValidationError → RunError
  engine_error provider_failed : ResponseError → RunError

-- What a run uses: what the executor uses, the texts of errors, and the engine's own readings of the clock.
pub record Harness : Type 0 where
  pub bench : Bench
  pub message : ValidationError → String
  pub engine_clock : ℕ → Time

abbrev pub RunExec : Type 0 → Type 0
RunExec A = Exec (Engine Trace) RunError A

abbrev pub told :
    (ValidationError → String) → Result ValidationError ExecResult → Result String ExecResult
told message (ok report) = ok report
told message (err e) = err (message e)

-- The arguments of response.NewEngine.
abbrev pub gated : Harness → Bound → Environment Trace
gated h b = record {
  library = h.bench.library;
  clock = h.engine_clock;
  decide = default_decide;
  execute = λ req w. let (r, w') = Executor.execute h.bench b req w in (told h.message r, w');
  verify = static_verify VerificationOutcome.verified "campaign harness confirms execution";
}

-- The engine's error, returned as it is.
abbrev pub reported : {A : Type 0} → Outcome ResponseError A → Outcome RunError A
reported (returned a) = returned a
reported (raised e) = raised (engine_error e)
reported panicked = panicked

unfoldable pub from_engine : {A : Type 0} → EngineExec Trace A → RunExec A
from_engine m e = let (r, e') = m e in (reported r, e')

unfoldable pub both :
    Bool → Option ValidationRequest → Option ValidationResult → Result RunError CaseOutcome
both success (some req) (some res) = ok (record { request = req; result = res; success = success })
both success _ _ = err unrecorded

-- LastRequest and LastResult, and the outcome with them.
unfoldable pub conclude : Bool → RunExec CaseOutcome
conclude success e = lift (both success e.ambient.world.last_request e.ambient.world.last_result) e

module _ (h : Harness) (b : Bound) where
  -- The branches on the error of eng.Execute.
  unfoldable pub on_executed :
      String → Outcome ResponseError ResponseExecution → RunExec CaseOutcome
  on_executed id (returned exec) = do
    from_engine (Methods.verify (gated h b) id)
    conclude exec.success
  on_executed id (raised ResponseError.execution_failed) = conclude false
  on_executed id (raised e) = fail (provider_failed e)
  on_executed id panicked = λ e. (panicked, e)

  unfoldable pub execute_case : String → RunExec CaseOutcome
  execute_case id e = let (r, e') = Methods.execute (gated h b) id e in on_executed id r e'

  -- eng.Approve, with an hour to live.
  unfoldable pub approve_pending : Bool → String → String → String → RunExec (Unit {0})
  approve_pending true id actor reason = do
    from_engine (Methods.approve (gated h b) id actor reason (pos 3600000000000))
    pure tt
  approve_pending false id actor reason = pure tt

  -- RunCase from NewEngine on.
  unfoldable pub run_bound : Inputs → String → String → RunExec CaseOutcome
  run_bound i actor reason = do
    r ← from_engine (Methods.recommend (gated h b) i)
    dec ← from_engine (Methods.decide (gated h b) r.id "campaign/policy")
    approve_pending (is_pending dec.status) r.id actor reason
    execute_case r.id

abbrev is_given : {A : Type 0} → Option A → Bool
is_given none = false
is_given (some a) = true

-- The engine's and the executor's state at the start, over the caller's audit log and evidence.
abbrev pub start : List AuditEntry → Dict Evidence → Engine Trace
start entries evidence =
    let world : Trace = record {
      evidence = evidence;
      last_request = none;
      last_result = none;
      ticks = 0;
    } in
    let e = new_engine world in record e { ambient = record e.ambient { entries = entries } }

abbrev pub bound_or_error : Result ValidationError Bound → Result RunError Bound
bound_or_error (ok b) = ok b
bound_or_error (err e) = err (bind_error e)

-- RunCase
unfoldable pub run_case : Harness → CaseParams → RunExec CaseOutcome
run_case h p = do
  require (is_given p.provider) misuse
  require (is_given p.incident) misuse
  require (is_given p.alert) misuse
  require (is_given p.detection) misuse
  require (not (p.actor == "")) misuse
  b ← lift (bound_or_error (new_executor p.provider p.incident p.alert p.detection p.events))
  run_bound h b
      (record {
        incident = p.incident;
        alert = p.alert;
        detection = p.detection;
        events = p.events;
      })
      p.actor p.reason
