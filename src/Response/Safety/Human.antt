-- ===== src/Response/Safety/Human.antt =====
-- Where the gate asks for a human.
use blueveil.Prelude.{◌≡◌, Bool, true, false, ◌||◌, arith}
use blueveil.Contract.Enums.{OperationType, RiskLevel}
use blueveil.Response.Safety.{Gate, automatic, approved, risk_gate, operation_gate, required_gate}

-- The operations that take something away or run something, and the two upper risks.
abbrev pub is_drastic : OperationType → Bool
is_drastic OperationType.block = true
is_drastic OperationType.isolate = true
is_drastic OperationType.delete = true
is_drastic OperationType.execute = true
is_drastic _ = false

abbrev pub is_grave : RiskLevel → Bool
is_grave RiskLevel.high = true
is_grave RiskLevel.critical = true
is_grave _ = false

abbrev pub gate_for : Bool → Gate
gate_for true = approved
gate_for false = automatic

risk_gate-is_grave : (risk : RiskLevel) → risk_gate risk ≡ gate_for (is_grave risk)
unfolding risk_gate
risk_gate-is_grave risk = ground arith

operation_gate-is_drastic :
    (op : OperationType) (risk : RiskLevel)
    → operation_gate op risk ≡ gate_for (is_drastic op || is_grave risk)
unfolding operation_gate
operation_gate-is_drastic op risk = ground (arith, risk_gate-is_grave risk)

pub required_gate-is_drastic :
    (op : OperationType) (risk : RiskLevel)
    → required_gate op risk false ≡ gate_for (is_drastic op || is_grave risk)
unfolding required_gate
required_gate-is_drastic op risk = operation_gate-is_drastic op risk
