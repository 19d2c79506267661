-- ===== src/SupplyChain/Tests.antt =====
-- The theorems on the supply chain at a component and a policy.
use blueveil.SupplyChain.Checks.{
  check_enabled, compared, first_violated, insert_policy, sort_policies, status_rank, when_enabled,
}
use blueveil.Prelude.Int.{pos}
use blueveil.SupplyChain.Checks.{
  CheckOutcome, CheckConfig, policy_violation_id, check_policy_violation, check_regression,
}
use blueveil.SupplyChain.Checks.Violated.{expected_outcome, check_policy_violation-outcome}
use blueveil.SupplyChain.Component.{component_id}
use blueveil.Prelude.Names.{insert, join, sort}
use blueveil.Prelude.Library.{derived_id, equal_fold, to_lower}
use blueveil.Prelude.Dict.{get}
use blueveil.Prelude.Space.{is_blank, is_space}
use blueveil.SupplyChain.Policy.{
  check_compared, check_digest, check_ecosystem, check_license, check_minimum, check_prohibited,
  check_provenance, is_allowed, is_denied, sorted, unknown, violates,
}
use blueveil.Prelude.Number.{digits_value, natural_of, unsigned}
use blueveil.SupplyChain.Versions.{compare_releases, release_numbers}
use blueveil.Prelude.Space.{split_dots, trim_left, trim_right, trim_space}
use Prim.Native.Nat.{Ordering}
use blueveil.Prelude.{String, Bool, List, ◌≡◌, refl, false, some, [], ◌∷◌, is_empty}
use blueveil.Prelude.Dict.{empty, put}
use blueveil.Response.Samples.{plain, noon}
use blueveil.SupplyChain.Component.{Component}
use blueveil.SupplyChain.Versions.{parse_version, compare_versions}
use blueveil.SupplyChain.Versions.Order.{compare_versions_order}
use blueveil.SupplyChain.Policy.{SupplyPolicy, PolicyVerdict, evaluate_policy}
use blueveil.SupplyChain.Policy.Verdict.{reference_verdict, is_passing}
use blueveil.SupplyChain.Policy.Judged.{evaluate_policy_iff}

abbrev openssl : Component
openssl = record {
  type = "LIBRARY";
  ecosystem = "deb";
  namespace = "";
  name = "openssl";
  version = "1.9";
  requested_version = "";
  resolved_version = "";
  digest = "";
  source_revision = "";
  license = "";
  license_source = "";
  provenance = "LOCKFILE";
  source = "ci";
  observed_at = noon;
  status = "OBSERVED";
  status_basis = "";
}

abbrev strict : SupplyPolicy
strict = record {
  id = "p1";
  name = "strict";
  source = "soc";
  allowed_ecosystems = "deb" ∷ [];
  allowed_licenses = "MIT" ∷ [];
  allowed_provenance = [];
  require_digest = false;
  min_versions = put empty "deb" "1.10";
  prohibited = [];
  require_sbom = false;
  approved_repos = [];
}

-- 1.9 is older than 1.10.
below_minimum : compare_versions "1.9" "1.10" ≡ some Ordering.lt
unfolding compare_versions parse_version trim_space trim_right trim_left release_numbers split_dots
    natural_of unsigned digits_value compare_releases
below_minimum = refl

violated : (evaluate_policy plain openssl strict).verdict ≡ PolicyVerdict.violation
unfolding evaluate_policy sorted check_provenance check_license is_blank trim_right trim_left
    unknown check_minimum get put to_lower check_compared compare_versions parse_version
    release_numbers split_dots derived_id equal_fold insert join sort digits_value natural_of
    unsigned is_space trim_space component_id check_digest check_ecosystem check_prohibited
    is_allowed is_denied violates compare_releases
violated = refl

compare_versions_order_example :
    (compare_versions "1.9" "2" ≡ some Ordering.lt)
    × (compare_versions "1.10" "1.9" ≡ some Ordering.gt)
    × (compare_versions "1.9" "1.9" ≡ some Ordering.eq)
unfolding compare_versions parse_version trim_space trim_right trim_left release_numbers split_dots
    natural_of unsigned digits_value compare_releases
compare_versions_order_example = compare_versions_order "1.9" "1.10" "2" refl refl

evaluate_policy_iff_example :
    ((evaluate_policy plain openssl strict).verdict ≡ reference_verdict plain openssl strict)
    × (is_empty (evaluate_policy plain openssl strict).reasons
        ≡ is_passing (evaluate_policy plain openssl strict).verdict)
    × ((required : Bool) (repos : List String)
        → evaluate_policy plain openssl
            (record strict { require_sbom = required; approved_repos = repos })
          ≡ evaluate_policy plain openssl strict)
evaluate_policy_iff_example = evaluate_policy_iff plain openssl strict

abbrev watched : CheckConfig
watched = record {
  require_sbom = false;
  require_provenance = false;
  allowed_provenance = [];
  policies = strict ∷ [];
  vendor_window = pos 0;
  enabled = empty;
}

openssl_failed : (check_policy_violation plain openssl watched).outcome ≡ CheckOutcome.failed
unfolding check_policy_violation when_enabled check_enabled get first_violated sort_policies
    insert_policy evaluate_policy sorted check_provenance check_license is_blank trim_right
    trim_left unknown check_minimum put derived_id equal_fold to_lower insert join sort digits_value
    natural_of unsigned is_space split_dots trim_space component_id check_compared check_digest
    check_ecosystem check_prohibited is_allowed is_denied violates compare_releases compare_versions
    parse_version release_numbers
openssl_failed = refl

-- A component that comes to violate a policy counts as stronger than before.
violation_passed :
    (check_regression "c1"
      (record openssl { status = "POLICY_VIOLATION" })
      (put empty "c1" "OBSERVED")
      watched).outcome
    ≡ CheckOutcome.passed
unfolding check_regression when_enabled check_enabled get put compared status_rank
violation_passed = refl

check_policy_violation-outcome_example :
    ((check_policy_violation plain openssl watched).outcome
      ≡ expected_outcome plain openssl watched)
    × ((check_policy_violation plain openssl watched).rule_id ≡ policy_violation_id)
    × ((check_policy_violation plain openssl watched).subject_id ≡ component_id plain openssl)
check_policy_violation-outcome_example = check_policy_violation-outcome plain openssl watched
