-- ===== src/Response/Audit/Log.antt =====
-- The log only grows, and its ids count its entries.
use blueveil.Prelude.{ℕ, ◌+◌, ◌≡◌, sym, ap, ◌∙◌, List, [], ◌∷◌, ◌++◌, length, arith}
use mathlib.Core.List.{append-nil, append_assoc}
use blueveil.Response.Audit.{AuditEntry, audit_id, append}

-- `new` is `old` after some calls of Append.
pub data Extends (old : List AuditEntry) : List AuditEntry → Type 0 where
  unchanged : Extends old old
  appended :
      {new : List AuditEntry} (entry : AuditEntry)
      → Extends old new
      → Extends old (append entry new)

-- The ids of the entries are those of the numbers after n.
abbrev pub IsNumbered : ℕ → List AuditEntry → Type 0
IsNumbered n [] = Unit
IsNumbered n (entry ∷ entries) = (entry.id ≡ audit_id (n + 1)) × IsNumbered (n + 1) entries

pub Extends-prefix :
    {old new : List AuditEntry} → Extends old new → (added : List AuditEntry) × (new ≡ old ++ added)
unfolding append
Extends-prefix {old} unchanged = ([], sym (append-nil old))
Extends-prefix {old} (appended {new = new} entry x) =
    let (added, e) = Extends-prefix x in
    let stamped : AuditEntry = record entry { id = audit_id (length new + 1) } in
    (
      added ++ stamped ∷ [],
      ap (λ (l : List AuditEntry). l ++ stamped ∷ []) e ∙ append_assoc old added (stamped ∷ []),
    )

append-IsNumbered :
    (n : ℕ) (entry : AuditEntry) (entries : List AuditEntry) (m : ℕ)
    → m ≡ n + length entries + 1
    → IsNumbered n entries
    → IsNumbered n (entries ++ record entry { id = audit_id m } ∷ [])
append-IsNumbered n entry [] m e h = (ap audit_id (omega arith), tt)
append-IsNumbered n entry (x ∷ xs) m e h =
    (h.0, append-IsNumbered (n + 1) entry xs m (omega arith) h.1)

pub Extends-IsNumbered :
    {old new : List AuditEntry} → Extends old new → IsNumbered 0 old → IsNumbered 0 new
unfolding append
Extends-IsNumbered unchanged h = h
Extends-IsNumbered (appended {new = new} entry x) h =
    append-IsNumbered 0 entry new (length new + 1) (omega arith) (Extends-IsNumbered x h)
