-- ===== src/Store/Memory/Links/Kept.antt =====
-- Links are only added.
use blueveil.Prelude.{◌≡◌, refl, Bool, Bool-cases, inl, inr, List, [], ◌∷◌, ◌++◌, append_assoc}
use blueveil.Store.Table.Sound.{settled}
use blueveil.Store.Memory.Links.{LinkKey, has_key, append_link}

-- The links of r are in r', with others before them at most: a new link enters the list in front.
pub record Grows {V : Type 0} (r r' : List V) : Type 0 where
  pub added : List V
  pub whole : r' ≡ added ++ r

module _ {V : Type 0} where
  pub Grows-refl : (r : List V) → Grows r r
  Grows-refl r = record { added = []; whole = refl }

  pub Grows-trans : {r s t : List V} → Grows r s → Grows s t → Grows r t
  Grows-trans {r} {s} {t} a b = record {
    added = b.added ++ a.added;
    whole = rw (append_assoc b.added a.added r, ← a.whole) b.whole;
  }

  pub append_link-Grows :
      (key : V → LinkKey) (accepts : V → Bool) (r : List V) (v : V)
      → Grows r (settled r (append_link key accepts r v))
  unfolding append_link
  append_link-Grows key accepts r v = elim (Bool-cases (accepts v)) [
    | inl a ↦ elim (Bool-cases (has_key key r (key v))) [
      | inl d ↦ rw (a, d) (Grows-refl r)
      | inr d ↦ rw (a, d) (record { added = v ∷ []; whole = refl })
    ]
    | inr a ↦ rw a (Grows-refl r)
  ]
