-- ===== src/SupplyChain/Versions/Order.antt =====
-- Versions are strictly ordered.
use Prim.Native.Nat.{Ordering}
use blueveil.Prelude.{◌≡◌, refl, ℕ, String, some, List, [], ◌∷◌, Option-cases, inl, inr, arith}
use blueveil.SupplyChain.Versions.{parse_version, compare_releases, compare_versions}

abbrev opposite : Ordering → Ordering
opposite Ordering.lt = Ordering.gt
opposite Ordering.eq = Ordering.eq
opposite Ordering.gt = Ordering.lt

compare_releases-opposite : (a b : List ℕ) → compare_releases b a ≡ opposite (compare_releases a b)
unfolding compare_releases
compare_releases-opposite [] [] = refl
compare_releases-opposite [] (y ∷ b) = refl
compare_releases-opposite (x ∷ a) [] = refl
compare_releases-opposite (x ∷ a) (y ∷ b) = ground (arith, compare_releases-opposite a b)

compare_releases_self : (a : List ℕ) → compare_releases a a ≡ Ordering.eq
unfolding compare_releases
compare_releases_self [] = refl
compare_releases_self (x ∷ a) = ground (arith, compare_releases_self a)

compare_releases-eq : (a b : List ℕ) → compare_releases a b ≡ Ordering.eq → a ≡ b
unfolding compare_releases
compare_releases-eq [] [] h = refl
compare_releases-eq [] (y ∷ b) h = cc h
compare_releases-eq (x ∷ a) [] h = cc h
compare_releases-eq (x ∷ a) (y ∷ b) h = ground (arith, compare_releases-eq a b)

compare_releases_trans :
    (a b c : List ℕ)
    → compare_releases a b ≡ Ordering.lt
    → compare_releases b c ≡ Ordering.lt
    → compare_releases a c ≡ Ordering.lt
unfolding compare_releases
compare_releases_trans [] [] c h k = cc h
compare_releases_trans [] (y ∷ b) [] h k = cc k
compare_releases_trans [] (y ∷ b) (z ∷ c) h k = refl
compare_releases_trans (x ∷ a) [] c h k = cc h
compare_releases_trans (x ∷ a) (y ∷ b) [] h k = cc k
compare_releases_trans (x ∷ a) (y ∷ b) (z ∷ c) h k = ground (arith, compare_releases_trans a b c)

-- A version that is less than another is comparable with itself and equal to itself, and the other is
-- greater than it; and what is less than a version that is less than a third is less than that.
pub compare_versions_order :
    (a b c : String)
    → compare_versions a b ≡ some Ordering.lt
    → compare_versions b c ≡ some Ordering.lt
    → (compare_versions a c ≡ some Ordering.lt)
      × (compare_versions b a ≡ some Ordering.gt)
      × (compare_versions a a ≡ some Ordering.eq)
unfolding compare_versions
compare_versions_order a b c h k = elim (Option-cases (parse_version a)) [
  | inl p ↦ absurd (cc (h, p))
  | inr (x, p) ↦ elim (Option-cases (parse_version b)) [
    | inl q ↦ absurd (ground arith)
    | inr (y, q) ↦ elim (Option-cases (parse_version c)) [
      | inl r ↦ absurd (ground arith)
      | inr (z, r) ↦ ground (
        arith,
        compare_releases_trans x y z,
        compare_releases-opposite x y,
        compare_releases_self x,
      )
    ]
  ]
]

-- Two versions compare as equal only where they are lists of the same numbers.
pub compare_versions-eq :
    (a b : String)
    → compare_versions a b ≡ some Ordering.eq
    → (x : List ℕ) × (parse_version a ≡ some x) × (parse_version b ≡ some x)
unfolding compare_versions
compare_versions-eq a b h = elim (Option-cases (parse_version a)) [
  | inl p ↦ absurd (cc (h, p))
  | inr (x, p) ↦ elim (Option-cases (parse_version b)) [
    | inl q ↦ absurd (ground arith)
    | inr (y, q) ↦ (x, p, (ground (arith, compare_releases-eq x y)))
  ]
]
