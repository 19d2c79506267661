-- ===== src/Validation/Runner/Answered.antt =====
-- What RunCase gives is what the provider has answered.
use blueveil.Prelude.{◌≡◌}
use blueveil.Prelude.Dict.{Dict}
use blueveil.Prelude.Result.{Result}
use blueveil.Prelude.Exec.{returned}
use blueveil.Prelude.Exec.Keeps.{Keeps}
use blueveil.Response.Engine.State.{Engine}
use blueveil.Response.Engine.Methods
use blueveil.Response.Engine.Methods.{EngineExec}
use blueveil.Validation.Error.{ValidationError}
use blueveil.Validation.Executor.{Bound, Trace, new_executor}
use blueveil.Validation.Executor.Recorded.{IsAnswered}
use blueveil.Validation.Runner.{Harness, CaseParams, CaseOutcome, RunExec}
use blueveil.Validation.Runner.Traced.{Good}

module _ (h : Harness) (b : Bound) where
  -- What `m` returns from a good state is an answer.
  record Told (m : RunExec CaseOutcome) : Type 0 where
    at :
        (e : Engine Trace)
        → Good b e
        → (out : CaseOutcome) → (m e).0 ≡ returned out
        → IsAnswered b out.request out.result

abbrev pub bound_by : CaseParams → Result ValidationError Bound
bound_by p = new_executor p.provider p.incident p.alert p.detection p.events
