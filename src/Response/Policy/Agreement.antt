-- ===== src/Response/Policy/Agreement.antt =====
-- The default policy asks for a human exactly where the gate does.
use blueveil.Prelude.{◌≡◌, ◌≢◌, ◌↔◌, false, none, arith, eq_iff}
use blueveil.Contract.Enums.{explicit, standing, operation_enumeration, risk_enumeration}
use blueveil.Response.Safety.{Gate, automatic, approved, required_gate, operation_gate, risk_gate}
use blueveil.Response.Policy.{
  ActionRequest, Decision, allow, require_approval, is_destructive, decide_risk, default_decide,
}

-- An actor, and an operation and a risk that are listed and not UNSPECIFIED.
pub record IsWellFormed (req : ActionRequest) : Type 0 where
  pub actor_given : req.actor ≢ ""
  pub operation_explicit : standing req.operation ≡ explicit
  pub risk_explicit : standing req.risk ≡ explicit

-- The decision that goes with a gate.
abbrev pub by_gate : Gate → Decision
by_gate automatic = allow
by_gate approved = require_approval

-- The default policy gives the decision that goes with the gate, and no error, exactly when the
-- request has an actor and a listed operation and risk.
pub default_decide_iff :
    (req : ActionRequest)
    → (default_decide req ≡ (by_gate (required_gate req.operation req.risk false), none))
      ↔ IsWellFormed req
unfolding default_decide required_gate is_destructive decide_risk operation_gate risk_gate
default_decide_iff req = (
  λ h. record {
    actor_given = ground (arith, eq_iff req.actor "");
    operation_explicit = ground (arith, eq_iff req.actor "");
    risk_explicit = ground (arith, eq_iff req.actor "");
  },
  λ w. ground (arith, eq_iff req.actor "", w.actor_given, w.operation_explicit, w.risk_explicit),
)
