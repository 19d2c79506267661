-- ===== src/SupplyChain/Checks/Violated.antt =====
-- When a check fails.
use blueveil.Prelude.{
  ◌≡◌, refl, ap, ◌∙◌, Bool, false, ◌||◌, List, [], ◌∷◌, is_empty, if◌then◌else◌, arith,
}
use blueveil.Prelude.Library.{Library}
use blueveil.SupplyChain.Component.{Component, component_id}
use blueveil.SupplyChain.Policy.{SupplyPolicy, evaluate_policy}
use blueveil.SupplyChain.Checks.{
  CheckOutcome, CheckConfig, check_enabled, when_enabled, policy_violation_id, insert_policy,
  sort_policies, is_violation, first_violated, check_policy_violation,
}

module _ (lib : Library) (c : Component) where
  -- Whether the component violates one of the policies.
  unfoldable pub any_violated : List SupplyPolicy → Bool
  any_violated [] = false
  any_violated (p ∷ ps) = is_violation (evaluate_policy lib c p).verdict || any_violated ps

  any_violated-insert_policy :
      (p : SupplyPolicy) (ps : List SupplyPolicy)
      → any_violated (insert_policy p ps) ≡ any_violated (p ∷ ps)
  unfolding any_violated insert_policy
  any_violated-insert_policy p [] = refl
  any_violated-insert_policy p (q ∷ ps) = ground (arith, any_violated-insert_policy p ps)

  any_violated-sort_policies :
      (ps : List SupplyPolicy) → any_violated (sort_policies ps) ≡ any_violated ps
  unfolding any_violated sort_policies
  any_violated-sort_policies [] = refl
  any_violated-sort_policies (p ∷ ps) =
      any_violated-insert_policy p (sort_policies ps)
      ∙ ap (λ b. is_violation (evaluate_policy lib c p).verdict || b)
          (any_violated-sort_policies ps)

  first_violated-outcome :
      (ps : List SupplyPolicy)
      → (first_violated lib c ps).outcome
        ≡ (if any_violated ps then CheckOutcome.failed else CheckOutcome.passed)
  unfolding first_violated any_violated
  first_violated-outcome [] = refl
  first_violated-outcome (p ∷ ps) = ground (arith, first_violated-outcome ps)

  first_violated-named :
      (ps : List SupplyPolicy)
      → ((first_violated lib c ps).rule_id ≡ policy_violation_id)
        × ((first_violated lib c ps).subject_id ≡ component_id lib c)
  unfolding first_violated
  first_violated-named [] = (refl, refl)
  first_violated-named (p ∷ ps) = ground (arith, first_violated-named ps)

  unfoldable pub expected_outcome : CheckConfig → CheckOutcome
  expected_outcome cfg =
      if check_enabled cfg policy_violation_id
      then if is_empty cfg.policies
        then CheckOutcome.not_applicable
        else if any_violated cfg.policies
        then CheckOutcome.failed
        else CheckOutcome.passed
      else CheckOutcome.disabled

  -- CheckPolicyViolation is DISABLED where it is switched off, and NOT_APPLICABLE without policies. Else it
  -- FAILs exactly when EvaluatePolicy finds a violation of some policy, in whatever order the policies
  -- are given; and its result always names its rule and the component.
  pub check_policy_violation-outcome :
      (cfg : CheckConfig)
      → ((check_policy_violation lib c cfg).outcome ≡ expected_outcome cfg)
        × ((check_policy_violation lib c cfg).rule_id ≡ policy_violation_id)
        × ((check_policy_violation lib c cfg).subject_id ≡ component_id lib c)
  unfolding check_policy_violation when_enabled expected_outcome
  check_policy_violation-outcome cfg =
      let ps = sort_policies cfg.policies in
      ground (
        arith,
        first_violated-outcome ps,
        any_violated-sort_policies cfg.policies,
        first_violated-named ps,
      )
