-- ===== src/SupplyChain/Policy/Verdict.antt =====
-- The verdict of a policy is the worst of what its dimensions say one by one.
use Prim.Native.Nat.{Ordering}
use blueveil.Prelude.{
  ◌≡◌, refl, Bool, true, false, ◌&&◌, not, String, Option, none, some, List, [], ◌∷◌, ◌++◌,
  if◌then◌else◌, is_empty, arith,
}
use blueveil.Prelude.Names.{contains}
use blueveil.Prelude.Space.{is_blank, trim_space}
use blueveil.Prelude.Dict.{get}
use blueveil.Prelude.Library.{Library, to_lower}
use blueveil.SupplyChain.Component.{Component}
use blueveil.SupplyChain.Versions.{compare_versions}
use blueveil.SupplyChain.Policy.{
  SupplyPolicy, PolicyVerdict, PolicyResult, violates, unknown, is_allowed, is_denied, violates_if,
}

-- The worse of two verdicts: a violation is worse than what cannot be evaluated.
abbrev pub worse : PolicyVerdict → PolicyVerdict → PolicyVerdict
worse PolicyVerdict.violation v = PolicyVerdict.violation
worse PolicyVerdict.unevaluable PolicyVerdict.violation = PolicyVerdict.violation
worse PolicyVerdict.unevaluable v = PolicyVerdict.unevaluable
worse PolicyVerdict.passes v = v

abbrev pub worst : List PolicyVerdict → PolicyVerdict
worst [] = PolicyVerdict.passes
worst (v ∷ vs) = worse v (worst vs)

abbrev pub violation_if : Bool → PolicyVerdict
violation_if true = PolicyVerdict.violation
violation_if false = PolicyVerdict.passes

module _ (lib : Library) (c : Component) (p : SupplyPolicy) where
  -- What each dimension says by itself.
  unfoldable pub on_ecosystem : PolicyVerdict
  on_ecosystem =
      if is_empty p.allowed_ecosystems
      then PolicyVerdict.passes
      else violation_if (not (is_allowed lib p.allowed_ecosystems c.ecosystem))

  unfoldable pub on_prohibited : List String → PolicyVerdict
  on_prohibited [] = PolicyVerdict.passes
  on_prohibited (d ∷ ds) = worse (violation_if (is_denied lib c (trim_space d))) (on_prohibited ds)

  unfoldable pub on_digest : PolicyVerdict
  on_digest = violation_if (p.require_digest && is_blank c.digest)

  abbrev pub on_compared : Option Ordering → PolicyVerdict
  on_compared none = PolicyVerdict.unevaluable
  on_compared (some Ordering.lt) = PolicyVerdict.violation
  on_compared (some _) = PolicyVerdict.passes

  unfoldable pub on_minimum : Option String → PolicyVerdict
  on_minimum none = PolicyVerdict.passes
  on_minimum (some min) =
      if is_blank c.version
      then PolicyVerdict.unevaluable
      else on_compared (compare_versions c.version min)

  unfoldable pub on_license : PolicyVerdict
  on_license =
      if is_empty p.allowed_licenses
      then PolicyVerdict.passes
      else if is_blank c.license
      then PolicyVerdict.unevaluable
      else violation_if (not (is_allowed lib p.allowed_licenses c.license))

  unfoldable pub on_provenance : PolicyVerdict
  on_provenance =
      if is_empty p.allowed_provenance
      then PolicyVerdict.passes
      else violation_if (not (contains p.allowed_provenance c.provenance))

  unfoldable pub reference_verdict : PolicyVerdict
  reference_verdict = worst (
      on_ecosystem
      ∷ on_prohibited p.prohibited
      ∷ on_digest
      ∷ on_minimum (get p.min_versions (to_lower lib c.ecosystem))
      ∷ on_license
      ∷ on_provenance
      ∷ [])

-- The verdict and the reasons of a result, as they change together.
abbrev pub is_passing : PolicyVerdict → Bool
is_passing PolicyVerdict.passes = true
is_passing v = false

is_empty-snoc : (xs : List String) (x : String) → is_empty (xs ++ (x ∷ [])) ≡ false
is_empty-snoc [] x = refl
is_empty-snoc (y ∷ xs) x = refl

-- A step adds what a dimension says to the verdict, and gives a reason exactly where it is not passed.
pub record Adds (v : PolicyVerdict) (r r' : PolicyResult) : Type 0 where
  pub verdict_is : r'.verdict ≡ worse r.verdict v
  pub explained :
      is_empty r.reasons ≡ is_passing r.verdict → is_empty r'.reasons ≡ is_passing r'.verdict

pub worse_assoc : (u v w : PolicyVerdict) → worse (worse u v) w ≡ worse u (worse v w)
worse_assoc u v w = ground arith

pub worse-passes : (v : PolicyVerdict) → worse v PolicyVerdict.passes ≡ v
worse-passes v = ground arith

pub nothing-Adds : (r : PolicyResult) → Adds PolicyVerdict.passes r r
nothing-Adds r = record { verdict_is = ground arith; explained = λ h. h }

pub violates-Adds :
    (reason : String) (r : PolicyResult) → Adds PolicyVerdict.violation r (violates reason r)
unfolding violates
violates-Adds reason r = record {
  verdict_is = ground arith;
  explained = λ h. is_empty-snoc r.reasons reason;
}

pub unknown-Adds :
    (reason : String) (r : PolicyResult) → Adds PolicyVerdict.unevaluable r (unknown reason r)
unfolding unknown
unknown-Adds reason r = record {
  verdict_is = ground arith;
  explained = λ h. ground (arith, is_empty-snoc r.reasons reason);
}

pub violates_if-Adds :
    (t : Bool) (reason : String) (r : PolicyResult)
    → Adds (violation_if t) r (violates_if t reason r)
violates_if-Adds true reason r = violates-Adds reason r
violates_if-Adds false reason r = nothing-Adds r

pub Adds-then :
    {u v : PolicyVerdict} {r s t : PolicyResult} → Adds u r s → Adds v s t → Adds (worse u v) r t
Adds-then {u} {v} {r} {s} {t} a b = record {
  verdict_is = ground (arith, a.verdict_is, b.verdict_is);
  explained = λ h. b.explained (a.explained h);
}
