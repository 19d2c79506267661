-- ===== src/Store/Memory/Audits/Order.antt =====
-- The archive of decisions grows at its end.
use blueveil.Prelude.{
  append_nil, append_assoc, ◌≡◌, refl, sym, ◌∙◌, ap, ◌⊎◌, inl, inr, Bool-cases, Option-cases, false,
  List, [], ◌∷◌, ◌++◌,
}
use blueveil.Prelude.Dict.{put, has}
use blueveil.Prelude.Result.{ok}
use blueveil.Store.Table.Sound.{settled}
use blueveil.Store.Memory.Audits.{AuditEntry, Archive, validate_audit, append}

pub record IsPrefix (xs ys : List AuditEntry) : Type 0 where
  pub rest : List AuditEntry
  pub whole : ys ≡ xs ++ rest

pub IsPrefix-refl : (xs : List AuditEntry) → IsPrefix xs xs
IsPrefix-refl xs = record { rest = []; whole = sym (append_nil xs) }

pub IsPrefix-trans : {xs ys zs : List AuditEntry} → IsPrefix xs ys → IsPrefix ys zs → IsPrefix xs zs
IsPrefix-trans {xs} {ys} {zs} p q = record {
  rest = p.rest ++ q.rest;
  whole = q.whole ∙ (ap (λ l. l ++ q.rest) p.whole ∙ append_assoc xs p.rest q.rest);
}

-- What append does: nothing, or the entry comes last.
pub append_outcome :
    (r : Archive) (e : AuditEntry)
    → (settled r (append r e) ≡ r)
      ⊎ ((has r.by_id e.id ≡ false)
          × (append r e
              ≡ ok (record { entries = r.entries ++ (e ∷ []); by_id = put r.by_id e.id e })))
unfolding append
append_outcome r e = elim (Option-cases (validate_audit e)) [
  | inl v ↦ elim (Bool-cases (has r.by_id e.id)) [
    | inl h ↦ inl (rw (v, h) refl)
    | inr h ↦ inr (h, (rw (v, h) refl))
  ]
  | inr (x, v) ↦ inl (rw v refl)
]

pub append-IsPrefix :
    (r : Archive) (e : AuditEntry) → IsPrefix r.entries (settled r (append r e)).entries
append-IsPrefix r e = elim (append_outcome r e) [
  | inl h ↦ rw h (IsPrefix-refl r.entries)
  | inr (_, h) ↦ rw h (record { rest = e ∷ []; whole = refl })
]
