-- ===== src/Store/Memory/Audits/Index.antt =====
-- The two copies of the archive agree.
use blueveil.Prelude.{
  ◌≡◌, refl, inl, inr, false, String, Option, none, some, List, [], ◌∷◌, ◌++◌, ◌==◌, if◌then◌else◌,
  arith, eq_iff,
}
use blueveil.Prelude.Dict.{get, put, has, get-put, get-empty}
use blueveil.Store.Table.Sound.{settled}
use blueveil.Store.Memory.Audits.{AuditEntry, Archive, new_archive, append}
use blueveil.Store.Memory.Audits.Order.{append_outcome}

-- The first entry of the list with an id.
abbrev pub first_with : List AuditEntry → String → Option AuditEntry
first_with [] id = none
first_with (e ∷ es) id = if e.id == id then some e else first_with es id

abbrev pub NoRepeats : List AuditEntry → Type 0
NoRepeats [] = Unit
NoRepeats (e ∷ es) = (first_with es e.id ≡ none) × NoRepeats es

-- The map finds what the list has, and no two entries of the list have one id.
pub record IsIndexed (r : Archive) : Type 0 where
  pub found : (id : String) → get r.by_id id ≡ first_with r.entries id
  pub distinct : NoRepeats r.entries

abbrev or_else : Option AuditEntry → Option AuditEntry → Option AuditEntry
or_else none o = o
or_else (some e) o = some e

first_with-append :
    (es : List AuditEntry) (e : AuditEntry) (id : String)
    → first_with (es ++ (e ∷ [])) id
      ≡ or_else (first_with es id) (if e.id == id then some e else none)
first_with-append [] e id = refl
first_with-append (x ∷ es) e id = ground (arith, eq_iff x.id id, first_with-append es e id)

NoRepeats-append :
    (es : List AuditEntry) (e : AuditEntry)
    → first_with es e.id ≡ none
    → NoRepeats es
    → NoRepeats (es ++ (e ∷ []))
NoRepeats-append [] e h n = (refl, tt)
NoRepeats-append (x ∷ es) e h n =
    ground (
      arith,
      first_with-append es e x.id,
      eq_iff e.id x.id,
      eq_iff x.id e.id,
      NoRepeats-append es e,
    )

append_new :
    (r : Archive) (e : AuditEntry)
    → IsIndexed r
    → has r.by_id e.id ≡ false
    → IsIndexed (record { entries = r.entries ++ (e ∷ []); by_id = put r.by_id e.id e })
unfolding has
append_new r e h f = record {
  found = λ id. ground (
    arith,
    get-put r.by_id e.id id e,
    first_with-append r.entries e id,
    eq_iff e.id id,
    h.found id,
    h.found e.id,
  );
  distinct = NoRepeats-append r.entries e (ground (arith, h.found e.id)) h.distinct;
}

pub append-IsIndexed :
    (r : Archive) (e : AuditEntry) → IsIndexed r → IsIndexed (settled r (append r e))
append-IsIndexed r e h = elim (append_outcome r e) [
  | inl s ↦ rw s h
  | inr (f, s) ↦ rw s (append_new r e h f)
]

pub new_archive-IsIndexed : IsIndexed new_archive
new_archive-IsIndexed = record { found = λ id. get-empty {V = AuditEntry} id; distinct = tt }
