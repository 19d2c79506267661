-- ===== src/SupplyChain/Versions.antt =====
-- supplychain/dependency.go: compareVersions.
pub mod Order
use Prim.Native.Nat.{Ordering, compare}
use blueveil.Prelude.{ℕ, String, Option, none, some, List, [], ◌∷◌, ◌==◌, if◌then◌else◌}
use blueveil.Prelude.Space.{trim_space, split_dots}
use blueveil.Prelude.Number.{natural_of}

abbrev cons_known : Option ℕ → Option (List ℕ) → Option (List ℕ)
cons_known none ns = none
cons_known (some n) none = none
cons_known (some n) (some ns) = some (n ∷ ns)

unfoldable pub release_numbers : List String → Option (List ℕ)
release_numbers [] = some []
release_numbers (p ∷ ps) = cons_known (natural_of p) (release_numbers ps)

-- The closure parse.
unfoldable pub parse_version : String → Option (List ℕ)
parse_version s = let t = trim_space s in if t == "" then none else release_numbers (split_dots t)

-- The loop over the common positions, and the switch on the lengths.
unfoldable pub compare_releases : List ℕ → List ℕ → Ordering
compare_releases [] [] = Ordering.eq
compare_releases [] (w ∷ ws) = Ordering.lt
compare_releases (h ∷ hs) [] = Ordering.gt
compare_releases (h ∷ hs) (w ∷ ws) = elim (compare h w) [
  | Ordering.lt ↦ Ordering.lt
  | Ordering.eq ↦ compare_releases hs ws
  | Ordering.gt ↦ Ordering.gt
]

abbrev compare_parsed : Option (List ℕ) → Option (List ℕ) → Option Ordering
compare_parsed none w = none
compare_parsed (some h) none = none
compare_parsed (some h) (some w) = some (compare_releases h w)

-- compareVersions; `none` where ok is false.
unfoldable pub compare_versions : String → String → Option Ordering
compare_versions have want = compare_parsed (parse_version have) (parse_version want)
