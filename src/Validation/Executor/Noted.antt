-- ===== src/Validation/Executor/Noted.antt =====
-- The evidence of an answer, and what becomes of the store.
use blueveil.Prelude.{
  ◌≡◌, refl, sym, ap, ◌∙◌, false, String, Option, none, some, arith, eq_iff, Option-cases, ◌≢◌, inl,
  inr,
}
use blueveil.Prelude.Time.{Time, timestamp}
use blueveil.Prelude.Dict.{Dict, get, has, put, get-put, get-put_same}
use blueveil.Prelude.Result.{Result, ok, err, bind_passed, ok_injective}
use blueveil.Contract.Messages.{Evidence}
use blueveil.Contract.Validation.{ValidationResult}
use blueveil.Evidence.Item.{EvidenceError, evidence_id, item_of}
use blueveil.Contract.Incident.{validate_evidence}
use blueveil.Contract.Enums.{EvidenceType}
use blueveil.Evidence.Faithful.{new_item_lem}
use blueveil.Evidence.Store as Store
use blueveil.Validation.Executor.{Bound, Bench, note_subject, note_of, marshalled, built}

put_other :
    (s : Dict Evidence) (k id : String) (item : Evidence)
    → id ≢ k
    → get (put s k item) id ≡ get s id
put_other s k id item d = ground (arith, get-put s k id item, eq_iff k id, d)

-- The store with one item more, unless it has one with that id: then that one stays.
pub record Gains (s s' : Dict Evidence) (item : Evidence) : Type 0 where
  pub fresh : has s item.id ≡ false → get s' item.id ≡ some item
  pub taken : (old : Evidence) → get s item.id ≡ some old → get s' item.id ≡ some old
  pub others : (id : String) → id ≢ item.id → get s' id ≡ get s id

pub add-Gains : (s : Dict Evidence) (item : Evidence) → Gains s (Store.add s item).1 item
unfolding Store.add has
add-Gains s item = elim (Option-cases (get s item.id)) [
  | inl n ↦ rw (n) (record {
    fresh = λ h. get-put_same s item.id item;
    taken = λ old h. absurd (cc (sym n ∙ h));
    others = λ id d. put_other s item.id id item d;
  })
  | inr (old, f) ↦
      rw (f) (record {
        fresh = λ h. absurd (cc (rw f at h));
        taken = λ old' h. h;
        others = λ id d. refl;
      })
]

module _ (bench : Bench) where
  -- The evidence of an answer: a note of the provider, filed under the incident at a time, whose content is the
  -- canonical text of the result.
  pub record IsNote (b : Bound) (result : ValidationResult) (now : Time) (item : Evidence)
      : Type 0 where
    pub identified : item.id ≡ evidence_id bench.library b.incident.id "validation" result.id
    pub filed : item.incident_id ≡ b.incident.id
    pub kind : item.type ≡ EvidenceType.note
    pub source : item.source ≡ result.provider
    pub stamped : item.collected_at ≡ some (timestamp now)
    pub faithful : bench.marshal result ≡ some item.content
    pub sealed : item.sha256 ≡ bench.codec.digest item.content
    pub valid : validate_evidence (some item) ≡ none

  built_ok :
      (o : Result EvidenceError Evidence) (item : Evidence) → built bench o ≡ ok item → o ≡ ok item
  built_ok (ok item') item h = ap (λ i. ok i) (ok_injective h)
  built_ok (err e) item h = absurd (cc h)

  marshalled_holds : (o : Option String) (c : String) → marshalled bench o ≡ ok c → o ≡ some c
  marshalled_holds none c h = absurd (cc h)
  marshalled_holds (some c') c h = ap (λ i. some i) (ok_injective h)

  -- The item is one of NewItem for the incident, with the marshalled result as its content.
  pub note_of-IsNote :
      (b : Bound) (res : ValidationResult) (now : Time) (item : Evidence)
      → note_of bench b res now ≡ ok item
      → IsNote b res now item
  unfolding note_of item_of note_subject
  note_of-IsNote b res now item h0 =
      let (content, given_content, h1) =
        bind_passed (marshalled bench (bench.marshal res)) _ item h0 in
      let (same, valid) =
        new_item_lem bench.library bench.codec b.incident.id (note_subject bench res) content now
          item (built_ok _ item h1) in
      let marshal = marshalled_holds (bench.marshal res) content given_content in
      record {
        identified = ap (λ i. i.id) same;
        filed = ap (λ i. i.incident_id) same;
        kind = ap (λ i. i.type) same;
        source = ap (λ i. i.source) same;
        stamped = ap (λ i. i.collected_at) same;
        faithful = marshal ∙ ap (λ i. some i.content) (sym same);
        sealed = ap (λ i. i.sha256) same ∙ ap (λ i. bench.codec.digest i.content) (sym same);
        valid = valid;
      }
