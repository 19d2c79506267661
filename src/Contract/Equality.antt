-- ===== src/Contract/Equality.antt =====
-- Go's `==` on enumerations.
use native.Mathlib.Decide.{ℕ_discrete}
use blueveil.Prelude.{◌≡◌, refl, ◌↔◌, Bool, true, false}
use blueveil.Prelude.Int.{ℤ}
use blueveil.Contract.Enums.{OperationType, RiskLevel, IncidentStatus}

unfoldable pub ℤ-discrete : Discrete ℤ
unfolding ℕ_discrete
ℤ-discrete = hlevel ℕ_discrete

unfoldable pub OperationType-discrete : Discrete OperationType
unfolding ℤ-discrete ℕ_discrete
OperationType-discrete = hlevel ℕ_discrete

unfoldable pub RiskLevel-discrete : Discrete RiskLevel
unfolding ℤ-discrete ℕ_discrete
RiskLevel-discrete = hlevel ℕ_discrete

unfoldable pub IncidentStatus-discrete : Discrete IncidentStatus
unfolding ℤ-discrete ℕ_discrete
IncidentStatus-discrete = hlevel ℕ_discrete

abbrev pub decided : {P : Type 0} → Dec P → Bool
decided (yes _) = true
decided (no _) = false

decided_iff : {P : Type 0} (d : Dec P) → (decided d ≡ true) ↔ P
decided_iff (yes p) = ((λ _. p), λ _. refl)
decided_iff (no np) = ((λ h. absurd (cc h)), λ p. absurd (np p))

-- The test a == b.
abbrev pub same : {A : Type 0} → Discrete A → A → A → Bool
same dec a b = decided (dec a b)

pub same_iff : {A : Type 0} (dec : Discrete A) (a b : A) → (same dec a b ≡ true) ↔ (a ≡ b)
same_iff dec a b = decided_iff (dec a b)
