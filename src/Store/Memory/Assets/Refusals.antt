-- ===== src/Store/Memory/Assets/Refusals.antt =====
-- An asset cannot take the type and name of another.
use blueveil.Prelude.{
  ◌≡◌, ◌≢◌, refl, sym, inl, inr, Bool-cases, Bool, true, String, some, arith, eq_iff,
}
use blueveil.Prelude.Dict.{Dict, get, has, any_entry, any_entry-false}
use blueveil.Prelude.Library.{Library}
use blueveil.Prelude.Result.{err}
use blueveil.Contract.Equality.{same_iff}
use blueveil.Asset.Message.{Asset}
use blueveil.Asset.Canonical.{Net}
use blueveil.Store.Table.{duplicate}
use blueveil.Store.Memory.Assets.{AssetType-discrete, same_identity, steals, kind, create, save}

same_identity-true : (a b : Asset) → a.type ≡ b.type → a.name ≡ b.name → same_identity a b ≡ true
unfolding same_identity
same_identity-true a b t n =
    rw ((same_iff AssetType-discrete b.type a.type).1 (sym t), (eq_iff b.name a.name).1 (sym n))
      refl

module _ (lib : Library) (net : Net) (r : Dict Asset) (a b : Asset) (id : String) where
  any_entry-true :
      (p : String → Asset → Bool) → get r id ≡ some b → p id b ≡ true → any_entry p r ≡ true
  any_entry-true p g h = elim (Bool-cases (any_entry p r)) [
    | inl e ↦ e
    | inr e ↦ absurd (cc (any_entry-false p r id b g e, h))
  ]

  -- A valid asset with the type and name of a stored asset is refused as a duplicate: by Create always, and
  -- by Save where it is stored itself, under another id.
  pub identity_refused :
      (kind lib net).accepts a ≡ true
      → get r id ≡ some b
      → a.type ≡ b.type
      → a.name ≡ b.name
      → (create lib net r (some a) ≡ err duplicate)
        × (has r a.id ≡ true → id ≢ a.id → save lib net r (some a) ≡ err duplicate)
  unfolding create save
  identity_refused v g t n =
      let same_one = same_identity-true a b t n in
      let clash = any_entry-true (λ i c. same_identity a c) g same_one in
      (
        elim (Bool-cases (has r a.id)) [ inl h ↦ rw (v, h) refl | inr h ↦ rw (v, h, clash) refl ],
        λ h d.
            let stolen =
              any_entry-true (steals a) g (ground (arith, eq_iff id a.id, d, same_one)) in
            rw (v, h, stolen) refl,
      )
