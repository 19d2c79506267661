-- ===== src/SupplyChain/Policy.antt =====
-- supplychain/dependency.go: policies and EvaluatePolicy.
pub mod Verdict
pub mod Judged
use Prim.Native.Nat.{Ordering}
use Prim.Native.String.{◌++◌ as ◌++ₛ◌}
use blueveil.Prelude.{
  Bool, true, false, ◌&&◌, ◌||◌, not, String, Option, none, some, List, [], ◌∷◌, ◌++◌, ◌==◌,
  if◌then◌else◌, is_empty,
}
use blueveil.Prelude.Names.{contains, sort}
use blueveil.Prelude.Space.{is_blank, trim_space}
use blueveil.Prelude.Dict.{Dict, get}
use blueveil.Prelude.Library.{Library, to_lower, equal_fold}
use blueveil.Contract.Check.{Check, ◌>>◌}
use blueveil.Contract.Fields.{required, no_blank}
use blueveil.SupplyChain.Component.{Component, component_id}
use blueveil.SupplyChain.Versions.{compare_versions}

pub record SupplyPolicy : Type 0 where
  pub id : String
  pub name : String
  pub source : String
  pub allowed_ecosystems : List String
  pub allowed_licenses : List String
  pub allowed_provenance : List String
  pub require_digest : Bool
  pub min_versions : Dict String
  pub prohibited : List String
  pub require_sbom : Bool
  pub approved_repos : List String

unfoldable pub validate_policy : SupplyPolicy → Check
validate_policy p = do
  required "id" p.id
  required "name" p.name
  required "source" p.source
  no_blank "prohibited" p.prohibited

pub data PolicyVerdict : Type 0 where
  passes violation unevaluable : PolicyVerdict

pub record PolicyResult : Type 0 where
  pub policy_id : String
  pub component_id : String
  pub verdict : PolicyVerdict
  pub reasons : List String

-- The closures violates and unknown, which change the result.
unfoldable pub violates : String → PolicyResult → PolicyResult
violates reason r = record r {
  verdict = PolicyVerdict.violation;
  reasons = r.reasons ++ (reason ∷ []);
}

abbrev weakened : PolicyVerdict → PolicyVerdict
weakened PolicyVerdict.passes = PolicyVerdict.unevaluable
weakened v = v

unfoldable pub unknown : String → PolicyResult → PolicyResult
unknown reason r = record r { verdict = weakened r.verdict; reasons = r.reasons ++ (reason ∷ []) }

abbrev pub violates_if : Bool → String → PolicyResult → PolicyResult
violates_if true reason r = violates reason r
violates_if false reason r = r

module _ (lib : Library) where
  -- The loops over the allowed ecosystems and licenses.
  unfoldable pub is_allowed : List String → String → Bool
  is_allowed [] s = false
  is_allowed (a ∷ rest) s = equal_fold lib (trim_space a) s || is_allowed rest s

  unfoldable pub check_ecosystem : Component → SupplyPolicy → PolicyResult → PolicyResult
  check_ecosystem c p r =
      violates_if
        (not (is_empty p.allowed_ecosystems) && not (is_allowed p.allowed_ecosystems c.ecosystem))
        ("ecosystem " ++ₛ c.ecosystem ++ₛ " not allowed") r

  unfoldable pub is_denied : Component → String → Bool
  is_denied c denied =
      not (denied == "")
      && (equal_fold lib denied (c.ecosystem ++ₛ "/" ++ₛ c.name)
          || equal_fold lib denied (component_id lib c))

  -- The loop over the prohibited entries.
  unfoldable pub check_prohibited : Component → List String → PolicyResult → PolicyResult
  check_prohibited c [] r = r
  check_prohibited c (d ∷ ds) r =
      check_prohibited c ds (
        violates_if (is_denied c (trim_space d)) ("component " ++ₛ trim_space d ++ₛ " prohibited")
          r)

  unfoldable pub check_digest : Component → SupplyPolicy → PolicyResult → PolicyResult
  check_digest c p r =
      violates_if (p.require_digest && is_blank c.digest) "digest required but absent" r

  -- The outcome of compareVersions.
  unfoldable pub check_compared : Component → String → Option Ordering → PolicyResult → PolicyResult
  check_compared c min none r = unknown ("version " ++ₛ c.version ++ₛ " not comparable") r
  check_compared c min (some Ordering.lt) r =
      violates ("version " ++ₛ c.version ++ₛ " below minimum " ++ₛ min) r
  check_compared c min (some Ordering.eq) r = r
  check_compared c min (some Ordering.gt) r = r

  unfoldable pub check_minimum : Component → Option String → PolicyResult → PolicyResult
  check_minimum c none r = r
  check_minimum c (some min) r =
      if is_blank c.version
      then unknown ("no version to compare against minimum " ++ₛ min) r
      else check_compared c min (compare_versions c.version min) r

  unfoldable pub check_license : Component → SupplyPolicy → PolicyResult → PolicyResult
  check_license c p r =
      if is_empty p.allowed_licenses
      then r
      else if is_blank c.license
      then unknown "no declared license to check" r
      else violates_if (not (is_allowed p.allowed_licenses c.license))
          ("license " ++ₛ c.license ++ₛ " not allowed") r

  unfoldable pub check_provenance : Component → SupplyPolicy → PolicyResult → PolicyResult
  check_provenance c p r =
      violates_if
        (not (is_empty p.allowed_provenance) && not (contains p.allowed_provenance c.provenance))
        ("provenance " ++ₛ c.provenance ++ₛ " not allowed") r

  unfoldable pub sorted : PolicyResult → PolicyResult
  sorted r = record r { reasons = sort r.reasons }

  -- EvaluatePolicy
  unfoldable pub evaluate_policy : Component → SupplyPolicy → PolicyResult
  evaluate_policy c p =
      let fresh : PolicyResult = record {
        policy_id = p.id;
        component_id = component_id lib c;
        verdict = PolicyVerdict.passes;
        reasons = [];
      } in
      let r1 = check_ecosystem c p fresh in
      let r2 = check_prohibited c p.prohibited r1 in
      let r3 = check_digest c p r2 in
      let r4 = check_minimum c (get p.min_versions (to_lower lib c.ecosystem)) r3 in
      let r5 = check_license c p r4 in sorted (check_provenance c p r5)
