-- ===== src/SupplyChain/Policy/Judged.antt =====
-- EvaluatePolicy and the reference verdict agree.
use Prim.Native.Nat.{Ordering}
use Prim.Native.String.{◌++◌ as ◌++ₛ◌}
use blueveil.Prelude.{Bool}
use blueveil.Prelude.{
  ◌≡◌, refl, ◌∙◌, false, ◌&&◌, not, String, Option, none, some, List, [], ◌∷◌, is_empty, arith,
  Bool-cases, inl, inr,
}
use blueveil.Prelude.Names.{contains, sort, insert}
use blueveil.Prelude.Space.{is_blank, trim_space}
use blueveil.Prelude.Dict.{get}
use blueveil.Prelude.Library.{Library, to_lower}
use blueveil.SupplyChain.Component.{Component, component_id}
use blueveil.SupplyChain.Versions.{compare_versions}
use blueveil.SupplyChain.Policy.{
  SupplyPolicy, PolicyVerdict, PolicyResult, violates_if, is_allowed, check_ecosystem, is_denied,
  check_prohibited, check_digest, check_compared, check_minimum, check_license, check_provenance,
  sorted, evaluate_policy,
}
use blueveil.SupplyChain.Policy.Verdict.{
  Adds, Adds-then, nothing-Adds, violates-Adds, unknown-Adds, violates_if-Adds, worse-passes,
  is_passing, on_ecosystem, on_prohibited, on_digest, on_compared, on_minimum, on_license,
  on_provenance, reference_verdict,
}

is_empty-insert : (a : String) (xs : List String) → is_empty (insert a xs) ≡ false
unfolding insert
is_empty-insert a [] = refl
is_empty-insert a (x ∷ xs) = ground arith

is_empty-sort : (xs : List String) → is_empty (sort xs) ≡ is_empty xs
unfolding sort
is_empty-sort [] = refl
is_empty-sort (x ∷ xs) = is_empty-insert x (sort xs)

module _ (lib : Library) (c : Component) (p : SupplyPolicy) where
  ecosystem-Adds : (r : PolicyResult) → Adds (on_ecosystem lib c p) r (check_ecosystem lib c p r)
  unfolding check_ecosystem on_ecosystem
  ecosystem-Adds r = elim (Bool-cases (is_empty p.allowed_ecosystems)) [
    | inl e ↦ rw e (nothing-Adds r)
    | inr e ↦ rw e (
        violates_if-Adds (not (is_allowed lib p.allowed_ecosystems c.ecosystem))
          ("ecosystem " ++ₛ c.ecosystem ++ₛ " not allowed") r)
  ]

  prohibited-Adds :
      (ds : List String) (r : PolicyResult)
      → Adds (on_prohibited lib c p ds) r (check_prohibited lib c ds r)
  unfolding check_prohibited on_prohibited
  prohibited-Adds [] r = nothing-Adds r
  prohibited-Adds (d ∷ ds) r =
      let reason = "component " ++ₛ trim_space d ++ₛ " prohibited" in
      let denied = is_denied lib c (trim_space d) in
      Adds-then (violates_if-Adds denied reason r)
        (prohibited-Adds ds (violates_if denied reason r))

  digest-Adds : (r : PolicyResult) → Adds (on_digest lib c p) r (check_digest lib c p r)
  unfolding check_digest on_digest
  digest-Adds r =
      violates_if-Adds (p.require_digest && is_blank c.digest) "digest required but absent" r

  compared-Adds :
      (min : String) (o : Option Ordering) (r : PolicyResult)
      → Adds (on_compared lib c p o) r (check_compared lib c min o r)
  unfolding check_compared
  compared-Adds min none r = unknown-Adds ("version " ++ₛ c.version ++ₛ " not comparable") r
  compared-Adds min (some Ordering.lt) r =
      violates-Adds ("version " ++ₛ c.version ++ₛ " below minimum " ++ₛ min) r
  compared-Adds min (some Ordering.eq) r = nothing-Adds r
  compared-Adds min (some Ordering.gt) r = nothing-Adds r

  minimum-Adds :
      (o : Option String) (r : PolicyResult)
      → Adds (on_minimum lib c p o) r (check_minimum lib c o r)
  unfolding check_minimum on_minimum
  minimum-Adds none r = nothing-Adds r
  minimum-Adds (some min) r = elim (Bool-cases (is_blank c.version)) [
    | inl e ↦ rw e (unknown-Adds ("no version to compare against minimum " ++ₛ min) r)
    | inr e ↦ rw e (compared-Adds min (compare_versions c.version min) r)
  ]

  license-Adds : (r : PolicyResult) → Adds (on_license lib c p) r (check_license lib c p r)
  unfolding check_license on_license
  license-Adds r = elim (Bool-cases (is_empty p.allowed_licenses)) [
    | inl e ↦ rw e (nothing-Adds r)
    | inr e ↦ elim (Bool-cases (is_blank c.license)) [
      | inl b ↦ rw (e, b) (unknown-Adds "no declared license to check" r)
      | inr b ↦
          rw (e, b)
            (violates_if-Adds (not (is_allowed lib p.allowed_licenses c.license))
              ("license " ++ₛ c.license ++ₛ " not allowed") r)
    ]
  ]

  provenance-Adds : (r : PolicyResult) → Adds (on_provenance lib c p) r (check_provenance lib c p r)
  unfolding check_provenance on_provenance
  provenance-Adds r = elim (Bool-cases (is_empty p.allowed_provenance)) [
    | inl e ↦ rw e (nothing-Adds r)
    | inr e ↦ rw e (
        violates_if-Adds (not (contains p.allowed_provenance c.provenance))
          ("provenance " ++ₛ c.provenance ++ₛ " not allowed") r)
  ]

  unread :
      (required : Bool) (repos : List String)
      → evaluate_policy lib c (record p { require_sbom = required; approved_repos = repos })
        ≡ evaluate_policy lib c p
  unfolding evaluate_policy check_ecosystem check_digest check_license check_provenance
  unread required repos = refl

  -- EvaluatePolicy reads six dimensions of a policy: ecosystems, prohibited components, digest, minimum version,
  -- licenses and provenance. Its verdict is the worst of what these say one by one, a violation being
  -- worse than what cannot be evaluated; there are reasons exactly where the verdict is not a pass;
  -- and the two other dimensions, the required bill of materials and the approved repositories,
  -- change nothing.
  pub evaluate_policy_iff :
      ((evaluate_policy lib c p).verdict ≡ reference_verdict lib c p)
      × (is_empty (evaluate_policy lib c p).reasons ≡ is_passing (evaluate_policy lib c p).verdict)
      × ((required : Bool) (repos : List String)
          → evaluate_policy lib c (record p { require_sbom = required; approved_repos = repos })
            ≡ evaluate_policy lib c p)
  unfolding evaluate_policy sorted reference_verdict
  evaluate_policy_iff =
      let fresh : PolicyResult = record {
        policy_id = p.id;
        component_id = component_id lib c;
        verdict = PolicyVerdict.passes;
        reasons = [];
      } in
      let r1 = check_ecosystem lib c p fresh in
      let r2 = check_prohibited lib c p.prohibited r1 in
      let r3 = check_digest lib c p r2 in
      let min = get p.min_versions (to_lower lib c.ecosystem) in
      let r4 = check_minimum lib c min r3 in
      let r5 = check_license lib c p r4 in
      let all = Adds-then (ecosystem-Adds fresh) (
        Adds-then (prohibited-Adds p.prohibited r1) (
          Adds-then (digest-Adds r2) (
            Adds-then (minimum-Adds min r3) (Adds-then (license-Adds r4) (provenance-Adds r5))))) in
      (
        all.verdict_is ∙ (rw (worse-passes (on_provenance lib c p)) refl),
        is_empty-sort (check_provenance lib c p r5).reasons ∙ all.explained refl,
        unread,
      )
