-- ===== src/Incident/Manager.antt =====
-- The manager of incident/incident.go: Ingest, Transition, Get and List.
-- A method reads the clock at most once; `now` is what it would read.
use blueveil.Response.Policy.{known}
use blueveil.Incident.Records.{
  IncidentError, Manager, Record, admit, founded, incident_build, incident_checked,
  incident_not_found, incident_transition, merged, next_status,
}
use blueveil.Prelude.{
  Bool, true, false, not, String, Option, none, some, List, [], ◌∷◌, if◌then◌else◌,
}
use blueveil.Prelude.Time.{Time, is_zero, timestamp}
use blueveil.Prelude.Dict
use blueveil.Prelude.Dict.{Dict, keys, put}
use blueveil.Prelude.Names.{contains, sort}
use blueveil.Prelude.Exec.{
  returned, panicked, Exec, pure, fail, lift, gets, modify, require, ◌>>=◌, ◌>>◌,
}
use blueveil.Contract.Enums.{IncidentStatus}
use blueveil.Contract.Equality.{IncidentStatus-discrete, same}
use blueveil.Contract.Messages.{TelemetryEvent, Detection, Alert, Incident}
use blueveil.Prelude.Library.{Library}
use blueveil.Incident.Correlation.{correlation_key}

abbrev pub ManagerExec : Type 0 → Type 0
ManagerExec A = Exec Manager IncidentError A

-- The branch of Ingest for a known key, for an alert that is not attached yet.
unfoldable pub attach :
    Time → Alert → Detection → List TelemetryEvent → String → Record → ManagerExec (Incident × Bool)
attach now alert det events id rec = do
  modify
      (λ (m : Manager). record m { by_id = Dict.put m.by_id id (merged now alert det events rec) })
  i ← lift (incident_checked (merged now alert det events rec).incident)
  pure (i, false)

-- The branch of Ingest for a known key; a missing record is a nil pointer.
unfoldable pub fold_into :
    Time
    → Alert
    → Detection
    → List TelemetryEvent
    → String
    → Option Record
    → ManagerExec (Incident × Bool)
fold_into now alert det events id none m = (panicked, m)
fold_into now alert det events id (some rec) m =
    if contains rec.alerts alert.id
    then (returned (rec.incident, false), m)
    else attach now alert det events id rec m

-- The new record goes into both maps.
unfoldable pub enter_new : String → Record → Incident → ManagerExec (Incident × Bool)
enter_new key rec i = do
  modify (λ m. record { by_id = Dict.put m.by_id i.id rec; by_key = Dict.put m.by_key key i.id })
  pure (i, true)

module _ (lib : Library) where
  -- The end of Ingest, for a key that is new.
  unfoldable pub found_for :
      Time → String → Alert → Detection → List TelemetryEvent → ManagerExec (Incident × Bool)
  found_for now key alert det events = do
    i ← lift (incident_checked (founded lib now key alert det events).incident)
    enter_new key (founded lib now key alert det events) i

  -- Ingest under the lock, by what the key names.
  unfoldable pub fold_by :
      Time
      → String
      → Alert
      → Detection
      → List TelemetryEvent
      → Option String
      → ManagerExec (Incident × Bool)
  fold_by now key alert det events none = found_for now key alert det events
  fold_by now key alert det events (some id) = do
    rec ← gets (λ (m : Manager). Dict.get m.by_id id)
    fold_into now alert det events id rec

  unfoldable pub ingest_for :
      Time → Alert → Detection → List (Option TelemetryEvent) → ManagerExec (Incident × Bool)
  ingest_for now alert det events = do
    present ← lift (admit alert det events)
    require (not (is_zero now)) incident_build
    known ← gets (λ (m : Manager). Dict.get m.by_key (correlation_key alert present))
    fold_by now (correlation_key alert present) alert det present known

  -- Manager.Ingest: the incident, and whether it is new.
  unfoldable pub ingest :
      Time
      → Option Alert
      → Option Detection
      → List (Option TelemetryEvent)
      → ManagerExec (Incident × Bool)
  ingest now (some alert) (some det) events = ingest_for now alert det events
  ingest now _ _ events = fail incident_build

abbrev pub is_want : Option IncidentStatus → IncidentStatus → Bool
is_want none to = false
is_want (some want) to = same IncidentStatus-discrete want to

-- The record with a status, stamped.
unfoldable pub moved : Time → IncidentStatus → Record → Record
moved now to rec = record rec {
  incident = record rec.incident { status = to; updated_at = some (timestamp now) };
}

unfoldable pub transition_on : Time → String → IncidentStatus → Option Record → ManagerExec Incident
transition_on now id to none = fail incident_not_found
transition_on now id to (some rec) = do
  require (is_want (next_status rec.incident.status) to) incident_transition
  require (not (is_zero now)) incident_build
  modify (λ m. record m { by_id = Dict.put m.by_id id (moved now to rec) })
  i ← lift (incident_checked (moved now to rec).incident)
  pure i

-- Manager.Transition
unfoldable pub transition : Time → String → IncidentStatus → ManagerExec Incident
transition now id to = do
  rec ← gets (λ (m : Manager). Dict.get m.by_id id)
  transition_on now id to rec

abbrev pub incident_in : Option Record → Option Incident
incident_in none = none
incident_in (some rec) = some rec.incident

-- Manager.Get
unfoldable pub get : Manager → String → Option Incident
get m id = incident_in (Dict.get m.by_id id)

abbrev and_also : Option Incident → Option (List Incident) → Option (List Incident)
and_also (some i) (some rest) = some (i ∷ rest)
and_also _ _ = none

-- The loop of List over the sorted ids; `none` would be a nil pointer.
unfoldable pub incidents_of : Manager → List String → Option (List Incident)
incidents_of m [] = some []
incidents_of m (id ∷ ids) = and_also (get m id) (incidents_of m ids)

-- Manager.List
unfoldable pub list : Manager → Option (List Incident)
list m = incidents_of m (sort (Dict.keys m.by_id))
