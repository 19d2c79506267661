-- ===== src/Prelude/Dict.antt =====
-- Go's `map[string]V`: an association list, with laws in `if` form. The program never depends on
-- the order of a map: where it iterates over one, it sorts.
pub mod Listing
use Prim.Native.String.{String}
use mathlib.Core.Path.{◌≡◌, refl, subst}
use mathlib.Core.Bool.{Bool, true, false, ◌||◌}
use mathlib.Core.Logic.{inl, inr}
use mathlib.Core.Option.{Option, none, some}
use mathlib.Core.List.{List, [], ◌∷◌}
use native.Mathlib.Omega.{arith}
use text.Mathlib.Text.{◌==◌}
use text.Mathlib.TextEquality.{eq_iff}
use blueveil.Prelude.Names.{sort, contains}
use blueveil.Prelude.Names.Sorted.{NoDup}
use blueveil.Prelude.Tests.{Bool-cases, if◌then◌else◌}

pub record Dict {ℓ} (V : Type ℓ) : Type ℓ where
  entries : List (String × V)

module _ {ℓ} {V : Type ℓ} where
  find_entry : String → List (String × V) → Option V
  find_entry k [] = none
  find_entry k ((j, v) ∷ m) = if j == k then some v else find_entry k m

  put_entry : String → V → List (String × V) → List (String × V)
  put_entry k v [] = (k, v) ∷ []
  put_entry k v ((j, w) ∷ m) = if j == k then (k, v) ∷ m else (j, w) ∷ put_entry k v m

  entry_keys : List (String × V) → List String
  entry_keys [] = []
  entry_keys ((k, v) ∷ m) = k ∷ entry_keys m

  pub empty : Dict V
  empty = record { entries = [] }

  -- v, ok := m[k]
  unfoldable pub get : Dict V → String → Option V
  unfolding find_entry empty
  get d k = find_entry k d.entries

  -- m[k] = v
  unfoldable pub put : Dict V → String → V → Dict V
  unfolding put_entry
  put d k v = record { entries = put_entry k v d.entries }

  -- The keys of the map, in no particular order.
  unfoldable pub keys : Dict V → List String
  unfolding entry_keys
  keys d = entry_keys d.entries

  kept_entries : (String → Bool) → List (String × V) → List (String × V)
  kept_entries keep [] = []
  kept_entries keep ((k, v) ∷ m) =
      let rest = kept_entries keep m in if keep k then (k, v) ∷ rest else rest

  -- A loop that copies the entries whose key passes a test.
  unfoldable pub filter_keys : (String → Bool) → Dict V → Dict V
  unfolding kept_entries
  filter_keys keep d = record { entries = kept_entries keep d.entries }

  find_entry-kept_entries :
      (keep : String → Bool) (j : String) (m : List (String × V))
      → find_entry j (kept_entries keep m) ≡ (if keep j then find_entry j m else none)
  unfolding find_entry kept_entries
  find_entry-kept_entries keep j [] = ground arith
  find_entry-kept_entries keep j ((k, v) ∷ m) =
      ground (arith, eq_iff k j, find_entry-kept_entries keep j m)

  pub get-filter_keys :
      (keep : String → Bool) (d : Dict V) (j : String)
      → get (filter_keys keep d) j ≡ (if keep j then get d j else none)
  unfolding get filter_keys
  get-filter_keys keep d j = find_entry-kept_entries keep j d.entries

  abbrev is_there : Option V → Bool
  is_there none = false
  is_there (some v) = true

  -- _, ok := m[k]
  unfoldable pub has : Dict V → String → Bool
  has d k = is_there (get d k)

  abbrev onto : Option V → List V → List V
  onto none vs = vs
  onto (some v) vs = v ∷ vs

  -- The loop `for _, k := range ks { out = append(out, m[k]) }` over keys of the map.
  unfoldable pub values_at : Dict V → List String → List V
  values_at d [] = []
  values_at d (k ∷ ks) = onto (get d k) (values_at d ks)

  abbrev test_at : (String → V → Bool) → String → Option V → Bool
  test_at p k none = false
  test_at p k (some v) = p k v

  any_at : (String → V → Bool) → Dict V → List String → Bool
  any_at p d [] = false
  any_at p d (k ∷ ks) = test_at p k (get d k) || any_at p d ks

  -- The loop `for k, v := range m { if test { return ... } }`, whose order does not matter.
  unfoldable pub any_entry : (String → V → Bool) → Dict V → Bool
  unfolding any_at
  any_entry p d = any_at p d (keys d)

  -- The values in the order of their keys.
  unfoldable pub listing : Dict V → List V
  listing d = values_at d (sort (keys d))

  find_entry-put_entry :
      (k j : String) (v : V) (m : List (String × V))
      → find_entry j (put_entry k v m) ≡ (if k == j then some v else find_entry j m)
  unfolding find_entry put_entry
  find_entry-put_entry k j v [] = refl
  find_entry-put_entry k j v ((i, w) ∷ m) =
      ground (arith, eq_iff k j, eq_iff i k, eq_iff i j, find_entry-put_entry k j v m)

  pub get-put :
      (d : Dict V) (k j : String) (v : V) → get (put d k v) j ≡ (if k == j then some v else get d j)
  unfolding get put
  get-put d k j v = find_entry-put_entry k j v d.entries

  find_entry-entry_keys :
      (k : String) (v : V) (m : List (String × V))
      → find_entry k m ≡ some v
      → contains (entry_keys m) k ≡ true
  unfolding find_entry entry_keys
  find_entry-entry_keys k v [] h = cc h
  find_entry-entry_keys k v ((j, w) ∷ m) h = ground (arith, eq_iff j k, find_entry-entry_keys k v m)

  contains-put_entry :
      (k j : String) (v : V) (m : List (String × V))
      → contains (entry_keys (put_entry k v m)) j ≡ (k == j || contains (entry_keys m) j)
  unfolding put_entry entry_keys
  contains-put_entry k j v [] = refl
  contains-put_entry k j v ((i, w) ∷ m) =
      ground (arith, eq_iff k j, eq_iff i k, eq_iff i j, contains-put_entry k j v m)

  put_entry-NoDup :
      (k : String) (v : V) (m : List (String × V))
      → NoDup (entry_keys m)
      → NoDup (entry_keys (put_entry k v m))
  unfolding put_entry entry_keys
  put_entry-NoDup k v [] h = (refl, tt)
  put_entry-NoDup k v ((i, w) ∷ m) h =
      ground (arith, eq_iff i k, eq_iff k i, contains-put_entry k i v m, put_entry-NoDup k v m h.1)

  -- Writing keeps every key once.
  pub put-NoDup : (d : Dict V) (k : String) (v : V) → NoDup (keys d) → NoDup (keys (put d k v))
  unfolding put keys
  put-NoDup d k v h = put_entry-NoDup k v d.entries h

  -- A key with a value is listed.
  pub contains-keys :
      (d : Dict V) (k : String) (v : V) → get d k ≡ some v → contains (keys d) k ≡ true
  unfolding get keys
  contains-keys d k v h = find_entry-entry_keys k v d.entries h

  entry_keys-find_entry :
      (k : String) (m : List (String × V))
      → contains (entry_keys m) k ≡ true
      → (v : V) × (find_entry k m ≡ some v)
  unfolding find_entry entry_keys
  entry_keys-find_entry k [] h = absurd (cc h)
  entry_keys-find_entry k ((j, w) ∷ m) h = elim (Bool-cases (j == k)) [
    | inl e ↦ (w, (rw e refl))
    | inr e ↦ let (v, f) = entry_keys-find_entry k m (ground arith) in (v, (ground arith))
  ]

  -- A key that is listed has a value.
  pub get-keys :
      (d : Dict V) (k : String) → contains (keys d) k ≡ true → (v : V) × (get d k ≡ some v)
  unfolding get keys
  get-keys d k h = entry_keys-find_entry k d.entries h

  any_at-false :
      (p : String → V → Bool) (d : Dict V) (ks : List String) (k : String) (v : V)
      → contains ks k ≡ true
      → get d k ≡ some v
      → any_at p d ks ≡ false
      → p k v ≡ false
  unfolding any_at
  any_at-false p d [] k v c g h = cc c
  any_at-false p d (j ∷ ks) k v c g h = elim (Bool-cases (j == k)) [
    | inl e ↦
        let same : j ≡ k = (eq_iff j k).0 e in
        let first : test_at p k (get d k) ≡ false = ground (arith) in
        (subst (λ o. test_at p k o ≡ false) g first)
    | inr e ↦ any_at-false p d ks k v (ground arith) g (ground arith)
  ]

  -- Where the loop finds nothing, no entry passes the test.
  pub any_entry-false :
      (p : String → V → Bool) (d : Dict V) (k : String) (v : V)
      → get d k ≡ some v
      → any_entry p d ≡ false
      → p k v ≡ false
  unfolding any_entry
  any_entry-false p d k v g h = any_at-false p d (keys d) k v (contains-keys d k v g) g h

  pub get-put_same : (d : Dict V) (k : String) (v : V) → get (put d k v) k ≡ some v
  get-put_same d k v = rw (get-put d k k v, (eq_iff k k).1 refl) refl

pub get-empty {ℓ} : {V : Type ℓ} (k : String) → get (empty {V = V}) k ≡ none
unfolding get
get-empty k = refl

pub empty-NoDup {ℓ} : (V : Type ℓ) → NoDup (keys (empty {V = V}))
unfolding keys empty
empty-NoDup V = tt

pub ruleset dict_laws = (get-empty, get-put)
