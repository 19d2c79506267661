-- ===== src/Grc/Resilience/Posture.antt =====
-- The posture follows from what was observed.
use blueveil.Prelude.{
  ◌≡◌, ◌↔◌, refl, Bool, true, false, ◌&&◌, ◌||◌, String, none, [], ◌∷◌, if◌then◌else◌, arith,
  eq_iff,
}
use Prim.Native.Char.{char}
use blueveil.Prelude.Names.{contains}
use blueveil.Prelude.Space.{is_blank, is_space}
use blueveil.Prelude.Space.Blank.{is_blank-append}
use blueveil.Prelude.Library.{Library, derived_id}
use blueveil.Prelude.Result.{ok, ensure_none_passed, ok_injective}
use blueveil.Contract.Check.{ContractError}
use blueveil.Contract.Fields.{required, listed, observed, refuse_if}
use blueveil.Grc.Resilience.{
  ResilienceInput, ResilienceRecord, resilience_statuses, validate_resilience, check_input, posture,
  assessed, assess_resilience,
}

abbrev grade : Bool → Bool → Bool → String
grade b r p = if b && r && p then "READY" else if b || r || p then "DEGRADED" else "NOT_ASSESSED"

abbrev IsGraded : Bool → Bool → Bool → Type 0
IsGraded b r p =
    ((grade b r p ≡ "READY") ↔ ((b ≡ true) × (r ≡ true) × (p ≡ true)))
    × ((grade b r p ≡ "NOT_ASSESSED") ↔ ((b ≡ false) × (r ≡ false) × (p ≡ false)))
    × (contains ("READY" ∷ "DEGRADED" ∷ "NOT_ASSESSED" ∷ []) (grade b r p) ≡ true)

grade-IsGraded : (b r p : Bool) → IsGraded b r p
grade-IsGraded true true true = ground (arith, eq_iff "READY" "NOT_ASSESSED")
grade-IsGraded true true false =
    ground (arith, eq_iff "DEGRADED" "NOT_ASSESSED", eq_iff "DEGRADED" "READY")
grade-IsGraded true false p =
    ground (arith, eq_iff "DEGRADED" "NOT_ASSESSED", eq_iff "DEGRADED" "READY")
grade-IsGraded false true p =
    ground (arith, eq_iff "DEGRADED" "NOT_ASSESSED", eq_iff "DEGRADED" "READY")
grade-IsGraded false false true =
    ground (arith, eq_iff "DEGRADED" "NOT_ASSESSED", eq_iff "DEGRADED" "READY")
grade-IsGraded false false false = ground (arith, eq_iff "NOT_ASSESSED" "READY")

grade-listed : (b r p : Bool) → contains resilience_statuses (grade b r p) ≡ true
grade-listed true true true = refl
grade-listed true true false = refl
grade-listed true false p = refl
grade-listed false true p = refl
grade-listed false false true = refl
grade-listed false false false = refl

module _ (lib : Library) where
  id_given : (i : ResilienceInput) → is_blank (assessed lib i).id ≡ false
  unfolding assessed derived_id is_space
  id_given i = is_blank-append (char 103 tt) "rsl-" _ refl

  assessed-valid :
      (i : ResilienceInput) → check_input i ≡ none → validate_resilience (assessed lib i) ≡ none
  unfolding validate_resilience check_input required observed listed refuse_if assessed posture
  assessed-valid i h = ground (
    arith,
    id_given i,
    grade-listed i.backup_observed i.restore_test_observed i.procedure_declared,
  )

  -- A posture that AssessResilience gives passes its validator. It is READY exactly when a backup, a
  -- restore test and a procedure were all observed, NOT_ASSESSED exactly when none of them was, and it
  -- is always one of READY, DEGRADED and NOT_ASSESSED.
  pub assess_resilience-posture :
      (i : ResilienceInput) (r : ResilienceRecord)
      → assess_resilience lib i ≡ ok r
      → (validate_resilience r ≡ none)
        × ((r.status ≡ "READY") ↔ (
            (i.backup_observed ≡ true)
            × (i.restore_test_observed ≡ true)
            × (i.procedure_declared ≡ true)))
        × ((r.status ≡ "NOT_ASSESSED") ↔ (
            (i.backup_observed ≡ false)
            × (i.restore_test_observed ≡ false)
            × (i.procedure_declared ≡ false)))
        × (contains ("READY" ∷ "DEGRADED" ∷ "NOT_ASSESSED" ∷ []) r.status ≡ true)
  unfolding assess_resilience assessed posture
  assess_resilience-posture i r h =
      let (passed, same) =
        ensure_none_passed (λ (e : ContractError). e) (check_input i) (ok (assessed lib i)) r h in
      let e : assessed lib i ≡ r = ok_injective same in
      let (ready, idle, one) =
        grade-IsGraded i.backup_observed i.restore_test_observed i.procedure_declared in
      rw (← e) (assessed-valid i passed, ready, idle, one)
