-- ===== src/Store/Memory/Links/Distinct.antt =====
-- A link is stored once.
use blueveil.Prelude.{◌≡◌, inl, inr, Bool-cases, Bool, true, false, List, [], ◌∷◌}
use blueveil.Store.Table.Sound.{settled}
use blueveil.Store.Memory.Links.{LinkKey, has_key, append_link}

module _ {V : Type 0} (key : V → LinkKey) where
  -- No two links of the list have one key, and all are valid.
  abbrev pub AreDistinct : (V → Bool) → List V → Type 0
  AreDistinct accepts [] = Unit
  AreDistinct accepts (v ∷ vs) =
      (has_key key vs (key v) ≡ false) × (accepts v ≡ true) × AreDistinct accepts vs

  pub append_link-AreDistinct :
      (accepts : V → Bool) (r : List V) (v : V)
      → AreDistinct accepts r
      → AreDistinct accepts (settled r (append_link key accepts r v))
  unfolding append_link
  append_link-AreDistinct accepts r v h = elim (Bool-cases (accepts v)) [
    | inl a ↦ elim (Bool-cases (has_key key r (key v))) [
      | inl d ↦ rw (a, d) h
      | inr d ↦ rw (a, d) (d, a, h)
    ]
    | inr a ↦ rw a h
  ]
