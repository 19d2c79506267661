-- ===== src/Response/Safety.antt =====
-- response/safety.go: the safety lifecycle and its gates.
pub mod Human
use blueveil.Prelude.{Bool, true, false, String, Option, none, some, if◌then◌else◌}
use blueveil.Prelude.Result.{Result, ok, err}
use blueveil.Contract.Enums.{OperationType, RiskLevel}
use blueveil.Response.Error.{ResponseError, safety_violation}

pub data SafetyState : Type 0 where
  observe analyze recommend confirm execute verify audit : SafetyState

pub data Gate : Type 0 where
  automatic approved : Gate

-- SafetyState.String()
unfoldable pub state_name : SafetyState → String
state_name observe = "OBSERVE"
state_name analyze = "ANALYZE"
state_name recommend = "RECOMMEND"
state_name confirm = "CONFIRM"
state_name execute = "EXECUTE"
state_name verify = "VERIFY"
state_name audit = "AUDIT"

-- `none` is the `false` that comes back beside AUDIT.
unfoldable pub next_state : SafetyState → Option SafetyState
next_state observe = some analyze
next_state analyze = some recommend
next_state recommend = some confirm
next_state confirm = some execute
next_state execute = some verify
next_state verify = some audit
next_state audit = none

unfoldable pub step_on : Option SafetyState → Result ResponseError SafetyState
step_on none = err safety_violation
step_on (some s) = ok s

-- SafetyState.Advance, after the test for CONFIRM with the wrong gate.
unfoldable pub advance : SafetyState → Gate → Result ResponseError SafetyState
advance audit gate = err safety_violation
advance confirm automatic = err safety_violation
advance s gate = step_on (next_state s)

-- The switch of RequiredGate over the risk, and that over the operation, which comes before it.
unfoldable pub risk_gate : RiskLevel → Gate
risk_gate RiskLevel.high = approved
risk_gate RiskLevel.critical = approved
risk_gate _ = automatic

unfoldable pub operation_gate : OperationType → RiskLevel → Gate
operation_gate OperationType.block risk = approved
operation_gate OperationType.isolate risk = approved
operation_gate OperationType.delete risk = approved
operation_gate OperationType.execute risk = approved
operation_gate _ risk = risk_gate risk

unfoldable pub required_gate : OperationType → RiskLevel → Bool → Gate
required_gate op risk policy_approval_required =
    if policy_approval_required then approved else operation_gate op risk
