-- ===== src/Incident/Attached.antt =====
-- What Ingest promises of the incident that it returns.
use blueveil.Prelude.{
  ◌≡◌, refl, sym, ap, ◌∙◌, inl, inr, Bool-cases, Bool, true, false, not, String, Option, none, some,
  List, [], ◌∷◌, eq_iff,
}
use blueveil.Prelude.Time.{Time, is_zero}
use blueveil.Prelude.Dict
use blueveil.Prelude.Names.{contains, add-contains}
use blueveil.Prelude.Result.{Result, ok, err}
use blueveil.Prelude.Exec.{Outcome, returned, Exec, pure, lift, gets, require, ◌>>=◌, ◌>>◌}
use blueveil.Contract.Messages.{TelemetryEvent, Detection, Alert, Incident}
use blueveil.Prelude.Library.{Library}
use blueveil.Incident.Correlation.{correlation_key}
use blueveil.Incident.Records.{
  Record, IncidentError, Manager, merged, founded, incident_checked, admit,
}
use blueveil.Incident.Manager.{
  attach, fold_into, found_for, enter_new, fold_by, ingest_for, ingest, get,
}
use blueveil.Incident.Coherent.{IsCoherent, Stored, checked_same, fold_by-IsCoherent}

-- The alert is attached to the incident `i`, under the id that the key names.
pub record Attached (key : String) (alert : Alert) (i : Incident) (m : Manager) : Type 0 where
  pub named : Dict.get m.by_key key ≡ some i.id
  pub stored :
      (rec : Record) × (Dict.get m.by_id i.id ≡ some rec)
      × (rec.incident ≡ i)
      × (contains rec.alerts alert.id ≡ true)

-- The part of a method that may fail has returned.
lift_returned :
    {S E A B : Type 0} (r : Result E A) (k : A → Exec S E B) (s : S) {b : B}
    → ((lift r >>= k) s).0 ≡ returned b
    → (a : A) × (r ≡ ok a) × ((lift r >>= k) s ≡ k a s)
unfolding ◌>>=◌
lift_returned (ok a) k s h = (a, refl, refl)
lift_returned (err e) k s h = cc h

conclude :
    {key : String} {alert : Alert} {j i : Incident} {c d : Bool}
    (out : Outcome IncidentError (Incident × Bool) × Manager) (m : Manager)
    → out ≡ (returned (j, c), m)
    → out.0 ≡ returned (i, d)
    → Attached key alert j m
    → Attached key alert i out.1
conclude {j} {i} out m e h g = let same : j ≡ i = cc (e, h) in rw (e, ← same) g

contains_first : (x : String) → contains (x ∷ []) x ≡ true
contains_first x = rw ((eq_iff x x).1 refl) refl

module _ (now : Time) (alert : Alert) (det : Detection) (events : List TelemetryEvent) where
  attach-Attached :
      (key id : String) (rec : Record) (m : Manager) {i : Incident} {created : Bool}
      → Dict.get m.by_key key ≡ some id
      → rec.incident.id ≡ id
      → (attach now alert det events id rec m).0 ≡ returned (i, created)
      → Attached key alert i (attach now alert det events id rec m).1
  unfolding attach merged ◌>>=◌
  attach-Attached key id rec m k s h =
      let new = merged now alert det events rec in
      let m' : Manager = record m { by_id = Dict.put m.by_id id new } in
      let (j, built, ends) =
        lift_returned (incident_checked new.incident) (λ i. pure (i, false)) m' h in
      let same = checked_same new.incident j built in
      let own : j.id ≡ id = ap (λ (i : Incident). i.id) (sym same) ∙ s in
      conclude _ m' ends h (record {
        named = rw own k;
        stored = (
          new,
          rw (own, Dict.get-put_same m.by_id id new) refl,
          same,
          add-contains rec.alerts alert.id,
        );
      })

  found_for-Attached :
      (lib : Library) (key : String) (m : Manager) {i : Incident} {created : Bool}
      → (found_for lib now key alert det events m).0 ≡ returned (i, created)
      → Attached key alert i (found_for lib now key alert det events m).1
  unfolding found_for founded enter_new ◌>>=◌
  found_for-Attached lib key m h =
      let new = founded lib now key alert det events in
      let (j, built, ends) =
        lift_returned (incident_checked new.incident) (enter_new key new) m h in
      conclude _ _ ends h (record {
        named = Dict.get-put_same m.by_key key j.id;
        stored = (
          new,
          Dict.get-put_same m.by_id j.id new,
          checked_same new.incident j built,
          (contains_first alert.id),
        );
      })

  fold_into-Attached :
      (key id : String) (o : Option Record) (m : Manager) {i : Incident} {created : Bool}
      → Dict.get m.by_key key ≡ some id
      → Dict.get m.by_id id ≡ o
      → Stored id o
      → (fold_into now alert det events id o m).0 ≡ returned (i, created)
      → Attached key alert i (fold_into now alert det events id o m).1
  unfolding fold_into
  fold_into-Attached key id none m k f s h = cc h
  fold_into-Attached key id (some rec) m k f s h =
      elim (Bool-cases (contains rec.alerts alert.id)) [
        | inl p ↦
            conclude {c = false} _ m (rw p refl) h
              (record { named = rw s.0 k; stored = (rec, ap (Dict.get m.by_id) s.0 ∙ f, refl, p) })
        | inr p ↦ rw p (attach-Attached key id rec m k s.0 (rw p at h))
      ]

  fold_by-Attached :
      (lib : Library) (key : String) (o : Option String) (m : Manager) {i : Incident}
      {created : Bool}
      → IsCoherent m
      → Dict.get m.by_key key ≡ o
      → (fold_by lib now key alert det events o m).0 ≡ returned (i, created)
      → Attached key alert i (fold_by lib now key alert det events o m).1
  unfolding fold_by ◌>>=◌
  fold_by-Attached lib key none m c k h = found_for-Attached lib key m h
  fold_by-Attached lib key (some id) m c k h =
      fold_into-Attached key id (Dict.get m.by_id id) m k refl (c.stored id) h

require_returned :
    {S E B : Type 0} (test : Bool) (e : E) (k : Exec S E B) (s : S) {b : B}
    → ((require test e >> k) s).0 ≡ returned b
    → (test ≡ true) × ((require test e >> k) s ≡ k s)
unfolding ◌>>=◌
require_returned true e k s h = (refl, refl)
require_returned false e k s h = cc h

require_passed :
    {S E B : Type 0} (test : Bool) (e : E) (k : Exec S E B) (s : S)
    → test ≡ true
    → (require test e >> k) s ≡ k s
unfolding ◌>>=◌
require_passed true e k s h = refl
require_passed false e k s h = cc h

lift_passed :
    {S E A B : Type 0} {a : A} (r : Result E A) (k : A → Exec S E B) (s : S)
    → r ≡ ok a
    → (lift r >>= k) s ≡ k a s
unfolding ◌>>=◌
lift_passed r k s h = rw h refl

gets_then :
    {S E A B : Type 0} (f : S → A) (k : A → Exec S E B) (s : S) → (gets f >>= k) s ≡ k (f s) s
unfolding ◌>>=◌
gets_then f k s = refl

module _ (lib : Library) (now : Time) (alert : Alert) (det : Detection)
    (events : List (Option TelemetryEvent)) where
  -- Ingest under the lock.
  locked : List TelemetryEvent → Manager → Outcome IncidentError (Incident × Bool) × Manager
  locked present m =
      fold_by lib now (correlation_key alert present) alert det present
        (Dict.get m.by_key (correlation_key alert present)) m

  ingest-locked :
      (m : Manager) {b : Incident × Bool}
      → (ingest lib now (some alert) (some det) events m).0 ≡ returned b
      → (present : List TelemetryEvent) × (admit alert det events ≡ ok present)
        × (not (is_zero now) ≡ true)
        × (ingest lib now (some alert) (some det) events m ≡ locked present m)
  unfolding ingest ingest_for locked
  ingest-locked m h =
      let (present, admitted, step) = lift_returned (admit alert det events) _ m h in
      let (timed, rest) = require_returned (not (is_zero now)) _ _ m (rw step at h) in
      (present, admitted, timed, step ∙ rest ∙ gets_then _ _ m)

  locked-ingest :
      (present : List TelemetryEvent) (m : Manager)
      → admit alert det events ≡ ok present
      → not (is_zero now) ≡ true
      → ingest lib now (some alert) (some det) events m ≡ locked present m
  unfolding ingest ingest_for locked
  locked-ingest present m admitted timed =
      lift_passed (admit alert det events) _ m admitted
      ∙ require_passed (not (is_zero now)) _ _ m timed
      ∙ gets_then _ _ m

-- An alert that is attached is not attached again.
fold_into_again :
    (now : Time) (alert : Alert) (det : Detection) (events : List TelemetryEvent) (id : String)
    (o : Option Record) (rec : Record) (m : Manager)
    → o ≡ some rec
    → contains rec.alerts alert.id ≡ true
    → fold_into now alert det events id o m ≡ (returned (rec.incident, false), m)
unfolding fold_into
fold_into_again now alert det events id o rec m e c = rw (e, c) refl

fold_by_again :
    (lib : Library) (now : Time) (key : String) (alert : Alert) (det : Detection)
    (events : List TelemetryEvent) (i : Incident) (m : Manager)
    → Attached key alert i m
    → fold_by lib now key alert det events (Dict.get m.by_key key) m ≡ (returned (i, false), m)
unfolding fold_by
fold_by_again lib now key alert det events i m h =
    let (rec, found, same, attached) = h.stored in
    rw (h.named) (
      gets_then _ _ m
      ∙ fold_into_again now alert det events i.id (Dict.get m.by_id i.id) rec m found attached
      ∙ ap (λ (i : Incident). (returned (i, false), m)) same)

module _ (lib : Library) (alert : Alert) (det : Detection) (events : List (Option TelemetryEvent))
    (m : Manager) where
  -- An alert that Ingest has taken in belongs to the incident that was returned: the incident is
  -- stored under its id, lists the alert, and ingesting the same alert again, at any later time,
  -- returns that incident as one that is not new and changes nothing.
  pub ingest-again :
      (now later : Time) (i : Incident) (created : Bool)
      → IsCoherent m
      → (ingest lib now (some alert) (some det) events m).0 ≡ returned (i, created)
      → not (is_zero later) ≡ true
      → (get (ingest lib now (some alert) (some det) events m).1 i.id ≡ some i)
        × (contains i.alert_ids alert.id ≡ true)
        × (ingest lib later
              (some alert)
              (some det)
              events
              (ingest lib now (some alert) (some det) events m).1
            ≡ (returned (i, false), (ingest lib now (some alert) (some det) events m).1))
  unfolding get locked
  ingest-again now later i created c h timed =
      let (present, admitted, _, same) = ingest-locked lib now alert det events m h in
      let key = correlation_key alert present in
      let attached =
        fold_by-Attached now alert det present lib key (Dict.get m.by_key key) m c refl
          (rw same at h) in
      let (rec, found, own, listed) = attached.stored in
      let coherent = fold_by-IsCoherent now alert det present lib key (Dict.get m.by_key key) m c in
      let members : Stored i.id (some rec) = rw found at (coherent.holds.stored i.id) in
      rw same (
        rw found (ap some own),
        ap (λ (i : Incident). contains i.alert_ids alert.id) (sym own)
            ∙ members.1 alert.id
            ∙ listed,
        locked-ingest lib later alert det events present _ admitted timed
            ∙ fold_by_again lib later key alert det present i _ attached,
      )
