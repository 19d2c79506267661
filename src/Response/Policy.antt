-- ===== src/Response/Policy.antt =====
-- response/policy.go: allow, deny, or require approval.
pub mod Agreement
use blueveil.Prelude.{
  ℕ, Bool, true, false, not, ◌||◌, String, Option, none, some, ◌==◌, if◌then◌else◌,
}
use blueveil.Contract.Enums.{
  OperationType, RiskLevel, Standing, explicit, Enumeration, standing, operation_enumeration,
  risk_enumeration,
}

pub record ActionRequest : Type 0 where
  pub actor : String
  pub operation : OperationType
  pub target : String
  pub risk : RiskLevel

-- A Go int: a policy may answer with a number that is none of the three.
pub data Decision : Type 0 where
  allow deny require_approval : Decision
  other : ℕ → Decision

abbrev is_explicit : Standing → Bool
is_explicit explicit = true
is_explicit _ = false

-- knownOperation, knownRisk
abbrev pub known : {A : Type 0} ⦃e : Enumeration A⦄ → A → Bool
known v = is_explicit (standing v)

-- isDestructive
unfoldable pub is_destructive : OperationType → Bool
is_destructive OperationType.block = true
is_destructive OperationType.isolate = true
is_destructive OperationType.delete = true
is_destructive OperationType.execute = true
is_destructive _ = false

-- The switch of Decide over the risk.
unfoldable pub decide_risk : RiskLevel → Decision × Option String
decide_risk RiskLevel.high = (require_approval, none)
decide_risk RiskLevel.critical = (require_approval, none)
decide_risk _ = (allow, none)

-- DefaultPolicy.Decide: the decision and the error beside it.
unfoldable pub default_decide : ActionRequest → Decision × Option String
default_decide req =
    if req.actor == ""
    then (deny, some "response: policy actor is empty")
    else if not (known req.operation)
    then (deny, some "response: policy unknown operation")
    else if not (known req.risk)
    then (deny, some "response: policy unknown risk")
    else if is_destructive req.operation
    then (require_approval, none)
    else decide_risk req.risk

-- StaticPolicy.Decide
unfoldable pub static_decide : Decision → ActionRequest → Decision × Option String
static_decide decision req =
    if req.actor == ""
    then (deny, some "response: policy actor is empty")
    else if not (known req.operation) || not (known req.risk)
    then (deny, some "response: policy unknown operation/risk")
    else (decision, none)
