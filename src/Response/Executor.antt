-- ===== src/Response/Executor.antt =====
-- response/executor.go: execution requests and reports, and the simulated executor.
use blueveil.Prelude.{
  Bool, true, false, ◌||◌, not, String, some, List, [], ◌∷◌, ◌++◌, ◌==◌, if◌then◌else◌,
}
use blueveil.Prelude.Names.{join}
use blueveil.Prelude.Time.{Time, is_zero, timestamp}
use blueveil.Prelude.Result.{Result, ok, err, ◌>>◌, ensure, ensure_none}
use blueveil.Contract.Enums.{OperationType, RiskLevel}
use blueveil.Contract.Labels.{operation_name, operation_number}
use blueveil.Contract.Messages.{ResponseExecution}
use blueveil.Contract.Response.{validate_execution}
use blueveil.Response.Error.{ResponseError, execution_failed}
use blueveil.Prelude.Library.{Library, derived_id}

pub record ExecRequest : Type 0 where
  pub operation : OperationType
  pub target : String
  pub risk : RiskLevel
  pub recommendation_id : String
  pub approval_id : String

pub record ExecResult : Type 0 where
  pub success : Bool
  pub detail : String

module _ (lib : Library) where
  unfoldable pub execution_id : ExecRequest → String
  execution_id req = derived_id lib "exec-" (
      "blueveil-execution-v1"
      ∷ req.recommendation_id
      ∷ operation_number req.operation
      ∷ req.target
      ∷ [])

  -- The report that BuildExecution fills in.
  unfoldable pub execution_of : ExecRequest → ExecResult → Time → Time → ResponseExecution
  execution_of req res started finished = record {
    id = execution_id req;
    recommendation_id = req.recommendation_id;
    approval_id = req.approval_id;
    operation = req.operation;
    target = req.target;
    started_at = some (timestamp started);
    finished_at = some (timestamp finished);
    success = res.success;
    detail = res.detail;
  }

  unfoldable pub build_execution :
      ExecRequest → ExecResult → Time → Time → Result ResponseError ResponseExecution
  build_execution req res started finished = do
    ensure (not (req.recommendation_id == "" || req.target == "")) execution_failed
    ensure (not (is_zero started || is_zero finished)) execution_failed
    let exec = execution_of req res started finished
    ensure_none (λ _. execution_failed) (validate_execution (some exec))
    ok exec

-- The state of a SimulatedExecutor: the operations that fail as programmed, and the requests so far.
pub record SimulatedExecutor : Type 0 where
  pub fail : OperationType → Bool
  pub executed : List ExecRequest

module _ (lib : Library) where
  unfoldable pub simulated_detail : ExecRequest → String → String
  simulated_detail req what = join "" (
      "simulated: "
      ∷ operation_name req.operation
      ∷ " on "
      ∷ lib.quote req.target
      ∷ " "
      ∷ what
      ∷ "; no real-world effect occurred"
      ∷ [])

  -- SimulatedExecutor.Execute: the result or the executor's own error, and the executor after it.
  unfoldable pub simulated_execute :
      ExecRequest → SimulatedExecutor → Result String ExecResult × SimulatedExecutor
  simulated_execute req s =
      if req.recommendation_id == "" || req.target == ""
      then (err "simulated executor: recommendation id and target are required", s)
      else if s.fail req.operation
      then (
        ok (record { success = false; detail = simulated_detail req "failed as programmed" }),
        record s { executed = s.executed ++ req ∷ [] },
      )
      else (
        ok (record { success = true; detail = simulated_detail req "recorded" }),
        record s { executed = s.executed ++ req ∷ [] },
      )
