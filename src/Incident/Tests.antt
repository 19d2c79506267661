-- ===== src/Incident/Tests.antt =====
-- The theorems of the incident manager at the alert of a login.
use blueveil.Contract.Incident.{validate_incident}
use blueveil.Contract.Detection.{out_of_unit, validate_alert, validate_detection}
use blueveil.Incident.Attached.{ingest-again}
use blueveil.Prelude.Library.{derived_id}
use blueveil.Prelude.Text.{decimal}
use blueveil.Incident.Correlation.{correlation_key, incident_id, shared_from, summarize}
use blueveil.Contract.Check.{check_value, no_empty_id, require_ids, require_timestamp}
use blueveil.Prelude.Time.{check_valid, is_zero, timestamp}
use blueveil.Incident.Records.{
  add_assets, admit, all_provided, event_ids, events_of, founded, incident_checked, new_manager,
  Manager,
}
use blueveil.Prelude.Names.{add, contains, join, sort}
use blueveil.Incident.Coherent.{IsCoherent, new_manager-IsCoherent}
use blueveil.Contract.Enums.{IncidentStatus, Severity}
use blueveil.Contract.Messages.{Incident}
use blueveil.Prelude.Dict.{Dict, put}
use blueveil.Incident.Steps.{Advances, stamped, transition_iff}
use blueveil.Prelude.{◌+◌, ◌≡◌, ◌↔◌, refl, true, false, none, some, List, [], ◌∷◌}
use blueveil.Prelude.Exec.{returned, ◌>>=◌}
use blueveil.Response.Samples.{plain, noon, stamp, login_event, login_detection, login_alert}
use blueveil.Incident.Manager
use blueveil.Prelude.Dict
use blueveil.Incident.Manager.{get, enter_new, fold_by, found_for, ingest_for}
use blueveil.Incident.Runs.{Call, ingest, transition, run, panics, run-IsCoherent, run-panics}

abbrev found : Incident
found = record {
  id = "inc-blueveil-incident-v1\u{1f}alert:a1";
  alert_ids = "a1" ∷ [];
  status = IncidentStatus.opened;
  severity = Severity.high;
  created_at = some stamp;
  updated_at = some stamp;
  title = "Incident: logins";
  summary = "1 alert(s); rule(s): r1; asset(s): web01";
}

ingested :
    (Manager.ingest plain noon
      (some login_alert)
      (some login_detection)
      (some login_event ∷ [])
      new_manager).0
    ≡ returned (found, true)
unfolding Manager.ingest ingest_for admit events_of event_ids all_provided validate_alert
    validate_detection check_value require_timestamp require_ids no_empty_id out_of_unit check_valid
    correlation_key shared_from Dict.get fold_by found_for founded enter_new incident_checked
    validate_incident incident_id derived_id join add_assets add sort summarize decimal timestamp
    ◌>>=◌
ingested = refl

abbrev night : List Call
night =
    ingest noon (some login_alert) (some login_detection) (some login_event ∷ [])
    ∷ transition noon found.id IncidentStatus.investigating
    ∷ []

run-IsCoherent_example : IsCoherent (run plain night new_manager)
run-IsCoherent_example = run-IsCoherent plain night

run-panics_example :
    (panics plain (transition noon found.id IncidentStatus.contained) (run plain night new_manager)
      ≡ false)
    × ((all : List Incident) × (Manager.list (run plain night new_manager) ≡ some all))
run-panics_example = run-panics plain night (transition noon found.id IncidentStatus.contained)

ingest-again_example :
    (get
        (Manager.ingest plain noon
          (some login_alert)
          (some login_detection)
          (some login_event ∷ [])
          new_manager).1
        found.id
      ≡ some found)
    × (contains found.alert_ids "a1" ≡ true)
    × (Manager.ingest plain
          (noon + 1)
          (some login_alert)
          (some login_detection)
          (some login_event ∷ [])
          (Manager.ingest plain noon
            (some login_alert)
            (some login_detection)
            (some login_event ∷ [])
            new_manager).1
        ≡ (
          returned (found, false),
          (Manager.ingest plain noon
              (some login_alert)
              (some login_detection)
              (some login_event ∷ [])
              new_manager).1,
        ))
ingest-again_example =
    ingest-again plain login_alert login_detection (some login_event ∷ []) new_manager noon
      (noon + 1) found true new_manager-IsCoherent ingested refl

abbrev one : Manager
one = record {
  by_id =
      Dict.put Dict.empty found.id
        (record { incident = found; alerts = "a1" ∷ []; rules = "r1" ∷ []; assets = "web01" ∷ [] });
  by_key = Dict.put Dict.empty "alert:a1" found.id;
}

holds_one : get one found.id ≡ some found
unfolding get Dict.get Dict.put
holds_one = refl

transition_iff_example :
    ((Manager.transition noon found.id IncidentStatus.investigating one).0
      ≡ returned (stamped noon IncidentStatus.investigating found))
    ↔ (Advances IncidentStatus.opened IncidentStatus.investigating
        × (is_zero noon ≡ false)
        × (validate_incident (some (stamped noon IncidentStatus.investigating found)) ≡ none))
transition_iff_example =
    transition_iff noon found.id IncidentStatus.investigating one found holds_one
