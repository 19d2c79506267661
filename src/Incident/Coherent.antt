-- ===== src/Incident/Coherent.antt =====
-- The two maps of the manager agree, and each record with its incident.
use blueveil.Prelude.{
  ◌≡◌, refl, ap, inl, inr, Bool-cases, Bool, true, false, String, Option, none, some, List, [], ◌∷◌,
  ◌++◌, arith, ◌==◌, eq_iff,
}
use blueveil.Prelude.Time.{Time}
use blueveil.Prelude.Dict
use blueveil.Prelude.Dict.{Dict, dict_laws}
use blueveil.Prelude.Names.{contains, contains-add, contains-sort, contains-append}
use blueveil.Prelude.Result.{ok}
use blueveil.Prelude.Exec.After.{
  After, after_lift, after_gets, after_modify, after_require, after_pure, after_fail,
}
use blueveil.Contract.Enums.{IncidentStatus}
use blueveil.Contract.Messages.{TelemetryEvent, Detection, Alert, Incident}
use blueveil.Prelude.Library.{Library}
use blueveil.Incident.Correlation.{correlation_key}
use blueveil.Incident.Records.{Record, Manager, new_manager, merged, founded, incident_checked}
use blueveil.Incident.Manager.{
  attach, fold_into, found_for, enter_new, fold_by, ingest_for, ingest, moved, transition_on,
  transition,
}

-- What is stored under an id: a record of the incident with this id, whose alert ids are those of
-- the record's set.
abbrev pub Stored : String → Option Record → Type 0
Stored id none = Unit
Stored id (some rec) =
    (rec.incident.id ≡ id)
    × ((x : String) → contains rec.incident.alert_ids x ≡ contains rec.alerts x)

abbrev pub is_some : {A : Type 0} → Option A → Bool
is_some none = false
is_some (some a) = true

-- What a key names: nothing, or a record that is there.
abbrev pub Names : Dict Record → Option String → Type 0
Names by_id none = Unit
Names by_id (some id) = is_some (Dict.get by_id id) ≡ true

pub record IsCoherent (m : Manager) : Type 0 where
  pub stored : (id : String) → Stored id (Dict.get m.by_id id)
  pub named : (key : String) → Names m.by_id (Dict.get m.by_key key)

pub new_manager-IsCoherent : IsCoherent new_manager
new_manager-IsCoherent = record {
  stored = λ id. simp dict_laws tt;
  named = λ key. simp dict_laws tt;
}

put-Stored :
    (d : Dict Record) (id : String) (rec : Record)
    → ((j : String) → Stored j (Dict.get d j))
    → Stored id (some rec)
    → (j : String) → Stored j (Dict.get (Dict.put d id rec) j)
put-Stored d id rec h g j = simp dict_laws (elim (Bool-cases (id == j)) [
  | inl p ↦ rw p (rw ((eq_iff id j).0 p) at g)
  | inr p ↦ rw p (h j)
])

put-Names :
    (d : Dict Record) (id : String) (rec : Record) (o : Option String)
    → Names d o
    → Names (Dict.put d id rec) o
put-Names d id rec none h = tt
put-Names d id rec (some j) h =
    simp dict_laws (elim (Bool-cases (id == j)) [ inl p ↦ rw p refl | inr p ↦ rw p h ])

-- A record is replaced.
put-IsCoherent :
    (m : Manager) (id : String) (rec : Record)
    → IsCoherent m
    → Stored id (some rec)
    → IsCoherent (record m { by_id = Dict.put m.by_id id rec })
put-IsCoherent m id rec h g = record {
  stored = put-Stored m.by_id id rec h.stored g;
  named = λ key. put-Names m.by_id id rec (Dict.get m.by_key key) (h.named key);
}

-- A record is entered under an id that a key names from then on.
name-IsCoherent :
    (m : Manager) (key id : String) (rec : Record)
    → IsCoherent m
    → Stored id (some rec)
    → IsCoherent (record { by_id = Dict.put m.by_id id rec; by_key = Dict.put m.by_key key id })
name-IsCoherent m key id rec h g = record {
  stored = put-Stored m.by_id id rec h.stored g;
  named = λ j. rw (Dict.get-put m.by_key key j id) (elim (Bool-cases (key == j)) [
    | inl p ↦ rw (p, Dict.get-put_same m.by_id id rec) refl
    | inr p ↦ rw p (put-Names m.by_id id rec (Dict.get m.by_key j) (h.named j))
  ]);
}

pub checked_same : (j i : Incident) → incident_checked j ≡ ok i → j ≡ i
unfolding incident_checked
checked_same j i h = ground arith

merged-Stored :
    (now : Time) (alert : Alert) (det : Detection) (events : List TelemetryEvent) (id : String)
    (rec : Record)
    → Stored id (some rec)
    → Stored id (some (merged now alert det events rec))
unfolding merged
merged-Stored now alert det events id rec h = (
  h.0,
  λ x.
      rw
        (
          contains-sort (rec.incident.alert_ids ++ alert.id ∷ []) x,
          contains-append rec.incident.alert_ids (alert.id ∷ []) x,
          contains-add rec.alerts alert.id x,
          h.1 x,
        )
        (ground arith),
)

moved-Stored :
    (now : Time) (to : IncidentStatus) (id : String) (rec : Record)
    → Stored id (some rec)
    → Stored id (some (moved now to rec))
unfolding moved
moved-Stored now to id rec h = h

module _ (now : Time) (alert : Alert) (det : Detection) (events : List TelemetryEvent) where
  attach-IsCoherent :
      (id : String) (rec : Record) (m : Manager)
      → IsCoherent m
      → Stored id (some rec)
      → After (attach now alert det events id rec) m IsCoherent
  unfolding attach
  attach-IsCoherent id rec m h g =
      let h' = put-IsCoherent m id _ h (merged-Stored now alert det events id rec g) in
      after_modify _ _ m (after_lift _ _ _ h' λ i _. after_pure _ _ h')

  fold_into-IsCoherent :
      (id : String) (o : Option Record) (m : Manager)
      → IsCoherent m
      → Stored id o
      → IsCoherent (fold_into now alert det events id o m).1
  unfolding fold_into
  fold_into-IsCoherent id none m h g = h
  fold_into-IsCoherent id (some rec) m h g = elim (Bool-cases (contains rec.alerts alert.id)) [
    | inl p ↦ rw p h
    | inr p ↦ rw p (attach-IsCoherent id rec m h g).holds
  ]

  module _ (lib : Library) where
    found_for-IsCoherent :
        (key : String) (m : Manager)
        → IsCoherent m
        → After (found_for lib now key alert det events) m IsCoherent
    unfolding found_for founded enter_new
    found_for-IsCoherent key m h = after_lift _ _ m h λ i built.
        let g : Stored i.id (some (founded lib now key alert det events)) =
          (ap (λ (i : Incident). i.id) (checked_same _ i built), λ x. refl) in
        let h' = name-IsCoherent m key i.id (founded lib now key alert det events) h g in
        after_modify _ _ m (after_pure _ _ h')

    pub fold_by-IsCoherent :
        (key : String) (o : Option String) (m : Manager)
        → IsCoherent m
        → After (fold_by lib now key alert det events o) m IsCoherent
    unfolding fold_by
    fold_by-IsCoherent key none m h = found_for-IsCoherent key m h
    fold_by-IsCoherent key (some id) m h =
        after_gets _ _ m
          (record { holds = fold_into-IsCoherent id (Dict.get m.by_id id) m h (h.stored id) })

module _ (lib : Library) where
  pub ingest-IsCoherent :
      (now : Time) (alert : Option Alert) (det : Option Detection)
      (events : List (Option TelemetryEvent)) (m : Manager)
      → IsCoherent m
      → After (ingest lib now alert det events) m IsCoherent
  unfolding ingest ingest_for
  ingest-IsCoherent now (some a) (some d) events m h = after_lift _ _ m h λ present _.
      after_require _ _ _ m h λ _.
        after_gets _ _ m (fold_by-IsCoherent now a d present lib (correlation_key a present) _ m h)
  ingest-IsCoherent now _ _ events m h = after_fail _ m h

transition_on-IsCoherent :
    (now : Time) (id : String) (to : IncidentStatus) (o : Option Record) (m : Manager)
    → IsCoherent m
    → Stored id o
    → After (transition_on now id to o) m IsCoherent
unfolding transition_on
transition_on-IsCoherent now id to none m h g = after_fail _ m h
transition_on-IsCoherent now id to (some rec) m h g = after_require _ _ _ m h λ _.
    after_require _ _ _ m h λ _.
      let h' = put-IsCoherent m id _ h (moved-Stored now to id rec g) in
      after_modify _ _ m (after_lift _ _ _ h' λ i _. after_pure _ _ h')

pub transition-IsCoherent :
    (now : Time) (id : String) (to : IncidentStatus) (m : Manager)
    → IsCoherent m
    → After (transition now id to) m IsCoherent
unfolding transition
transition-IsCoherent now id to m h =
    after_gets _ _ m (transition_on-IsCoherent now id to (Dict.get m.by_id id) m h (h.stored id))
