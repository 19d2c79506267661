-- ===== src/Incident/Steps.antt =====
-- The life cycle of an incident, one step at a time.
use blueveil.Prelude.{◌≡◌, ◌↔◌, refl, true, false, String, Option, none, some, arith}
use blueveil.Prelude.Time.{Time, is_zero, timestamp}
use blueveil.Prelude.Dict
use blueveil.Prelude.Exec.{returned, ◌>>=◌}
use blueveil.Contract.Enums.{IncidentStatus}
use blueveil.Contract.Equality.{IncidentStatus-discrete, same_iff}
use blueveil.Contract.Messages.{Incident}
use blueveil.Contract.Incident.{validate_incident}
use blueveil.Incident.Records.{Record, Manager, next_status, incident_checked}
use blueveil.Incident.Manager.{get, incident_in, moved, transition_on, transition, is_want}

-- The steps of the life cycle.
pub data Advances : IncidentStatus → IncidentStatus → Type 0 where
  taken_up : Advances IncidentStatus.opened IncidentStatus.investigating
  held : Advances IncidentStatus.investigating IncidentStatus.contained
  solved : Advances IncidentStatus.contained IncidentStatus.resolved
  shut : Advances IncidentStatus.resolved IncidentStatus.closed

is_want-Advances : (a b : IncidentStatus) → is_want (next_status a) b ≡ true → Advances a b
unfolding next_status
is_want-Advances IncidentStatus.opened b h =
    rw (← (same_iff IncidentStatus-discrete IncidentStatus.investigating b).0 h) taken_up
is_want-Advances IncidentStatus.investigating b h =
    rw (← (same_iff IncidentStatus-discrete IncidentStatus.contained b).0 h) held
is_want-Advances IncidentStatus.contained b h =
    rw (← (same_iff IncidentStatus-discrete IncidentStatus.resolved b).0 h) solved
is_want-Advances IncidentStatus.resolved b h =
    rw (← (same_iff IncidentStatus-discrete IncidentStatus.closed b).0 h) shut
is_want-Advances IncidentStatus.unspecified b h = cc h
is_want-Advances IncidentStatus.closed b h = cc h
is_want-Advances (IncidentStatus.out_of_range n) b h = cc h

Advances-is_want : (a b : IncidentStatus) → Advances a b → is_want (next_status a) b ≡ true
unfolding next_status
Advances-is_want a b taken_up = (same_iff IncidentStatus-discrete b b).1 refl
Advances-is_want a b held = (same_iff IncidentStatus-discrete b b).1 refl
Advances-is_want a b solved = (same_iff IncidentStatus-discrete b b).1 refl
Advances-is_want a b shut = (same_iff IncidentStatus-discrete b b).1 refl

-- The incident with a status, stamped.
abbrev pub stamped : Time → IncidentStatus → Incident → Incident
stamped now to i = record i { status = to; updated_at = some (timestamp now) }

-- The tests of a transition, one after the other.
tests_iff :
    (now : Time) (id : String) (to : IncidentStatus) (m : Manager) (rec : Record)
    → ((transition_on now id to (some rec) m).0 ≡ returned (stamped now to rec.incident)) ↔ (
        (is_want (next_status rec.incident.status) to ≡ true)
        × (is_zero now ≡ false)
        × (validate_incident (some (stamped now to rec.incident)) ≡ none))
unfolding transition_on incident_checked moved ◌>>=◌
tests_iff now id to m rec = ground arith

transition_on_iff :
    (now : Time) (id : String) (to : IncidentStatus) (m : Manager) (o : Option Record)
    (old : Incident)
    → incident_in o ≡ some old
    → ((transition_on now id to o m).0 ≡ returned (stamped now to old)) ↔ (
        Advances old.status to
        × (is_zero now ≡ false)
        × (validate_incident (some (stamped now to old)) ≡ none))
transition_on_iff now id to m none old found = absurd (cc found)
transition_on_iff now id to m (some rec) old found =
    let same : rec.incident ≡ old = cc found in
    let tests = tests_iff now id to m rec in
    rw (← same) (
      λ h. let (w, z, v) = tests.0 h in (is_want-Advances rec.incident.status to w, z, v),
      λ h. tests.1 (Advances-is_want rec.incident.status to h.0, h.1, h.2),
    )

-- A transition of a stored incident succeeds with the incident in the new status and stamped exactly
-- when the new status is the next one of the life cycle, the clock does not read zero, and the
-- result passes the validator.
pub transition_iff :
    (now : Time) (id : String) (to : IncidentStatus) (m : Manager) (old : Incident)
    → get m id ≡ some old
    → ((transition now id to m).0 ≡ returned (stamped now to old)) ↔ (
        Advances old.status to
        × (is_zero now ≡ false)
        × (validate_incident (some (stamped now to old)) ≡ none))
unfolding get transition ◌>>=◌
transition_iff now id to m old found = transition_on_iff now id to m (Dict.get m.by_id id) old found
