-- ===== src/SupplyChain/Checks.antt =====
-- supplychain/continuous.go: the five continuous checks on stored records. The layout of a duration in a text
-- is a parameter.
pub mod Violated
use Prim.Native.String.{◌++◌}
use blueveil.Prelude.{
  ℕ, suc, Bool, true, false, not, ◌&&◌, ◌||◌, String, Option, none, some, List, [], ◌∷◌, ◌==◌,
  is_empty, ltb, if◌then◌else◌,
}
use blueveil.Prelude.Int.{ℤ, pos, ltb_ℤ}
use blueveil.Prelude.Time.{Time, before}
use blueveil.Prelude.Names.{contains, precedes, sort}
use blueveil.Prelude.Dict.{Dict, get}
use blueveil.Prelude.Library.{Library}
use blueveil.SupplyChain.Component.{Component, component_id}
use blueveil.SupplyChain.Sbom.{Sbom}
use blueveil.SupplyChain.Vendor.{VendorAssessment, is_assessment_stale}
use blueveil.SupplyChain.Policy.{SupplyPolicy, PolicyVerdict, PolicyResult, evaluate_policy}

abbrev pub missing_sbom_id : String
missing_sbom_id = "supply-missing-sbom"

abbrev pub unverified_provenance_id : String
unverified_provenance_id = "supply-unverified-provenance"

abbrev pub policy_violation_id : String
policy_violation_id = "supply-policy-violation"

abbrev pub stale_vendor_id : String
stale_vendor_id = "supply-stale-vendor-assessment"

abbrev pub regression_id : String
regression_id = "supply-posture-regression"

pub data CheckOutcome : Type 0 where
  passed failed not_applicable disabled : CheckOutcome

pub record CheckResult : Type 0 where
  pub rule_id : String
  pub version : String
  pub subject_id : String
  pub outcome : CheckOutcome
  pub basis : String

pub record CheckConfig : Type 0 where
  pub require_sbom : Bool
  pub require_provenance : Bool
  pub allowed_provenance : List String
  pub policies : List SupplyPolicy
  pub vendor_window : ℤ
  pub enabled : Dict Bool

abbrev on_by_default : Option Bool → Bool
on_by_default (some false) = false
on_by_default _ = true

-- checkEnabled: a nil map holds nothing.
unfoldable pub check_enabled : CheckConfig → String → Bool
check_enabled cfg id = on_by_default (get cfg.enabled id)

abbrev pub result : String → String → CheckOutcome → String → CheckResult
result rule subject outcome basis = record {
  rule_id = rule;
  version = "1";
  subject_id = subject;
  outcome = outcome;
  basis = basis;
}

-- What a disabled check answers, or the check.
unfoldable pub when_enabled : CheckConfig → String → String → CheckResult → CheckResult
when_enabled cfg rule subject r =
    if check_enabled cfg rule
    then r
    else result rule subject CheckOutcome.disabled "check disabled by configuration"

unfoldable pub is_covered : List Sbom → String → Bool
is_covered [] id = false
is_covered (s ∷ sboms) id = contains s.component_ids id || is_covered sboms id

-- statusRank: nothing for a status without a rank.
unfoldable pub status_rank : String → Option ℕ
status_rank s =
    if s == "UNKNOWN" || s == "NOT_ASSESSED"
    then some 0
    else if s == "OBSERVED"
    then some 1
    else if s == "OUTDATED" || s == "UNSUPPORTED"
    then some 2
    else if s == "POLICY_VIOLATION"
    then some 3
    else if s == "VERIFIED"
    then some 4
    else none

-- The loop of CheckStaleVendor.
unfoldable pub newest_of :
    String → List VendorAssessment → Option VendorAssessment → Option VendorAssessment
newest_of id [] newest = newest
newest_of id (a ∷ rest) none =
    if a.vendor_id == id then newest_of id rest (some a) else newest_of id rest none
newest_of id (a ∷ rest) (some b) =
    if a.vendor_id == id && before b.observed_at a.observed_at
    then newest_of id rest (some a)
    else newest_of id rest (some b)

-- The sort by policy ids, which keeps policies with equal ids in their order; the source promises none.
unfoldable pub insert_policy : SupplyPolicy → List SupplyPolicy → List SupplyPolicy
insert_policy p [] = p ∷ []
insert_policy p (q ∷ ps) =
    let rest = insert_policy p ps in if precedes p.id q.id then p ∷ q ∷ ps else q ∷ rest

unfoldable pub sort_policies : List SupplyPolicy → List SupplyPolicy
sort_policies [] = []
sort_policies (p ∷ ps) = insert_policy p (sort_policies ps)

abbrev pub is_violation : PolicyVerdict → Bool
is_violation PolicyVerdict.violation = true
is_violation _ = false

abbrev first_reason : List String → String
first_reason [] = ""
first_reason (r ∷ rs) = ": " ++ r

-- The branches of CheckRegression on the two ranks.
unfoldable pub compared : String → String → String → Option ℕ → Option ℕ → CheckResult
compared id prev current (some (suc old)) (some new) =
    if ltb new (suc old)
    then result regression_id id CheckOutcome.failed
        ("status moved " ++ (prev ++ (" to " ++ current)))
    else result regression_id id CheckOutcome.passed "status not weaker than recorded"
compared id prev current _ _ =
    result regression_id id CheckOutcome.not_applicable "unranked state cannot regress"

abbrev from_previous : String → String → Option String → CheckResult
from_previous id current none =
    result regression_id id CheckOutcome.not_applicable "no previous status recorded"
from_previous id current (some prev) =
    compared id prev current (status_rank prev) (status_rank current)

unfoldable pub check_regression : String → Component → Dict String → CheckConfig → CheckResult
check_regression id c previous cfg =
    when_enabled cfg regression_id id (from_previous id c.status (get previous id))

module _ (lib : Library) where
  unfoldable pub check_missing_sbom : Component → List Sbom → CheckConfig → CheckResult
  check_missing_sbom c sboms cfg =
      let id = component_id lib c in
      when_enabled cfg missing_sbom_id id (
        if not cfg.require_sbom
        then result missing_sbom_id id CheckOutcome.not_applicable
            "SBOM coverage not required by configuration"
        else if is_covered sboms id
        then result missing_sbom_id id CheckOutcome.passed "component covered by observed SBOM"
        else result missing_sbom_id id CheckOutcome.failed
            "SBOM required but no SBOM references this component")

  unfoldable pub check_unverified_provenance : Component → CheckConfig → CheckResult
  check_unverified_provenance c cfg =
      let id = component_id lib c in
      let answer = result unverified_provenance_id id in
      when_enabled cfg unverified_provenance_id id (
        if not cfg.require_provenance && is_empty cfg.allowed_provenance
        then answer CheckOutcome.not_applicable "provenance policy not configured"
        else if is_empty cfg.allowed_provenance
        then answer CheckOutcome.passed "provenance recorded"
        else if contains cfg.allowed_provenance c.provenance
        then answer CheckOutcome.passed ("provenance " ++ (c.provenance ++ " allowed"))
        else answer CheckOutcome.failed ("provenance " ++ (c.provenance ++ " not in allowed set")))

  -- The loop over the sorted policies.
  unfoldable pub first_violated : Component → List SupplyPolicy → CheckResult
  first_violated c [] =
      result policy_violation_id (component_id lib c) CheckOutcome.passed
        "no configured policy violated"
  first_violated c (p ∷ ps) =
      let rest = first_violated c ps in
      let r = evaluate_policy lib c p in
      if is_violation r.verdict
      then result policy_violation_id (component_id lib c) CheckOutcome.failed
          ("policy " ++ (p.id ++ (" violated" ++ first_reason (sort r.reasons))))
      else rest

  unfoldable pub check_policy_violation : Component → CheckConfig → CheckResult
  check_policy_violation c cfg =
      let id = component_id lib c in
      when_enabled cfg policy_violation_id id (
        if is_empty cfg.policies
        then result policy_violation_id id CheckOutcome.not_applicable "no policies configured"
        else first_violated c (sort_policies cfg.policies))

  abbrev judged_assessment :
      (ℤ → String) → String → ℤ → Time → Option VendorAssessment → CheckResult
  judged_assessment show id window now none =
      result stale_vendor_id id CheckOutcome.not_applicable "no assessment recorded for vendor"
  judged_assessment show id window now (some a) =
      if is_assessment_stale a.observed_at window now
      then result stale_vendor_id id CheckOutcome.failed
          ("newest assessment " ++ (lib.rfc3339 a.observed_at ++ (" past window " ++ show window)))
      else result stale_vendor_id id CheckOutcome.passed "assessment within window"

  unfoldable pub check_stale_vendor :
      (ℤ → String) → String → List VendorAssessment → CheckConfig → Time → CheckResult
  check_stale_vendor show id assessments cfg now = when_enabled cfg stale_vendor_id id (
      if not (ltb_ℤ (pos 0) cfg.vendor_window)
      then result stale_vendor_id id CheckOutcome.not_applicable "vendor window not configured"
      else judged_assessment show id cfg.vendor_window now (newest_of id assessments none))
