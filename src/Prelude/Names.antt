-- ===== src/Prelude/Names.antt =====
-- Sets of names, Go's `map[string]bool` with only `true` in it, their sorted listing, and joins.
pub mod Sorted
use Prim.Native.Nat.{Ordering}
use Prim.Native.String.{String, compare, ◌++◌}
use mathlib.Core.Path.{◌≡◌, refl}
use mathlib.Core.Bool.{Bool, true, false, ◌||◌}
use mathlib.Core.List.{List, [], ◌∷◌, ◌++◌ as ◌++ₗ◌}
use native.Mathlib.Omega.{arith}
use text.Mathlib.Text.{◌==◌}
use text.Mathlib.TextEquality.{eq_iff}
use blueveil.Prelude.Tests.{if◌then◌else◌}

abbrev pub contains : List String → String → Bool
contains [] a = false
contains (x ∷ xs) a = x == a || contains xs a

-- set[a] = true
unfoldable pub add : List String → String → List String
add xs a = if contains xs a then xs else a ∷ xs

abbrev pub precedes : String → String → Bool
precedes a b = elim (compare a b) [ Ordering.gt ↦ false | _ ↦ true ]

unfoldable pub insert : String → List String → List String
insert a [] = a ∷ []
insert a (x ∷ xs) = if precedes a x then a ∷ x ∷ xs else x ∷ insert a xs

-- sort.Strings: by bytes. What it does to equal names cannot be seen.
unfoldable pub sort : List String → List String
unfolding insert
sort [] = []
sort (x ∷ xs) = insert x (sort xs)

-- strings.Join(xs, sep)
unfoldable pub join : String → List String → String
join sep [] = ""
join sep (x ∷ []) = x
join sep (x ∷ y ∷ ys) = x ++ (sep ++ join sep (y ∷ ys))

pub contains-add :
    (xs : List String) (a b : String) → contains (add xs a) b ≡ (a == b || contains xs b)
unfolding add
contains-add xs a b = grind (arith, eq_iff)

pub contains-insert :
    (a b : String) (xs : List String) → contains (insert a xs) b ≡ (a == b || contains xs b)
unfolding insert
contains-insert a b [] = refl
contains-insert a b (x ∷ xs) = ground (arith, contains-insert a b xs)

-- Sorting keeps the members.
pub contains-sort : (xs : List String) (b : String) → contains (sort xs) b ≡ contains xs b
unfolding sort
contains-sort [] b = refl
contains-sort (x ∷ xs) b = ground (arith, contains-insert x b (sort xs), contains-sort xs b)

pub contains-append :
    (xs ys : List String) (a : String) → contains (xs ++ₗ ys) a ≡ (contains xs a || contains ys a)
contains-append [] ys a = refl
contains-append (x ∷ xs) ys a = ground (arith, contains-append xs ys a)

pub add-contains : (xs : List String) (a : String) → contains (add xs a) a ≡ true
add-contains xs a = rw (contains-add xs a a, (eq_iff a a).1 refl) refl
