-- ===== src/Store/Tests.antt =====
-- The theorems of the stores at small histories of calls.
use blueveil.Prelude.Time.{check_valid}
use blueveil.Contract.Check.{require_ids, require_timestamp}
use blueveil.Contract.Incident.{validate_incident}
use blueveil.Store.Backend.{step}
use blueveil.Prelude.{◌≡◌, ◌≢◌, refl, true, String, none, some, List, [], ◌∷◌}
use blueveil.Prelude.Dict.{empty, get, put, has, listing}
use blueveil.Prelude.Dict.Listing.{Lists}
use blueveil.Prelude.Result.{ok, err}
use blueveil.Contract.Enums.{Severity}
use blueveil.Contract.Messages.{Incident}
use blueveil.Asset.Message.{Asset, AssetType, AssetStatus}
use blueveil.Prelude.Time.{before_stamp}
use blueveil.Contract.Check.{check_value}
use blueveil.Contract.Asset.{validate_asset, check_identifiers, optional_value, check_sightings}
use blueveil.Asset.Canonical.{Net}
use blueveil.Asset.Discovery.{is_canonical, is_strict}
use blueveil.Response.Samples.{plain, stamp, login_event, login_incident}
use blueveil.Store.Table.{Kind, duplicate, create, lookup}
use blueveil.Store.Table.Sound.{Holds-Lists}
use blueveil.Store.Table.Refines.{Op, creates, saves, gets, answers, answers_spec, answers_refine}
use blueveil.Store.Memory.Incidents
use blueveil.Store.Memory.Assets
use blueveil.Store.Memory.Assets.Refusals.{identity_refused}
use blueveil.Store.Backend.{
  Backend, Call, create_incident, append_telemetry, create_asset, new_backend, run,
}
use blueveil.Store.Backend.Valid.{IsValid, run-IsValid}
use blueveil.Store.Backend.Retained.{Retains, run-Retains}
use blueveil.Store.Backend.Distinct.{IsDistinct, run-IsDistinct}

-- No address and no URL can be read.
abbrev offline : Net
offline = record { parse_addr = λ s. none; parse_url = λ s. none; split_host_port = λ s. none }

abbrev printer : Asset
printer = record {
  id = "ast-1";
  type = AssetType.other;
  name = "printer";
  identifiers = [];
  criticality = Severity.low;
  environment = "lab";
  status = AssetStatus.active;
  first_seen = some stamp;
  last_seen = some stamp;
  attributes = empty;
}

abbrev second_printer : Asset
second_printer = record printer { id = "ast-2" }

abbrev history : List Call
history =
    append_telemetry (some login_event)
    ∷ create_incident (some login_incident)
    ∷ create_asset (some printer)
    ∷ []

run-IsValid_example : IsValid plain offline (run plain offline history new_backend)
run-IsValid_example = run-IsValid plain offline history

run-Retains_example : Retains new_backend (run plain offline history new_backend)
run-Retains_example = run-Retains plain offline history new_backend

run-IsDistinct_example : IsDistinct (run plain offline history new_backend)
run-IsDistinct_example = run-IsDistinct plain offline history

abbrev after_history : Backend
after_history = run plain offline history new_backend

Holds-Lists_example :
    Lists (λ i. Kind.key Incidents.kind i) after_history.incidents (listing after_history.incidents)
Holds-Lists_example =
    Holds-Lists Incidents.kind after_history.incidents run-IsValid_example.incidents

abbrev incident_calls : List (Op Incident)
incident_calls = saves (some login_incident) ∷ creates (some login_incident) ∷ gets "inc1" ∷ []

answers_refine_example :
    answers Incidents.kind incident_calls empty
    ≡ answers_spec Incidents.kind incident_calls (λ id. none)
answers_refine_example = answers_refine Incidents.kind incident_calls

identity_refused_example :
    (Assets.create plain offline (put empty "ast-1" printer) (some second_printer) ≡ err duplicate)
    × (has (put empty "ast-1" printer) "ast-2" ≡ true
        → ◌≢◌ {A = String} "ast-1" "ast-2"
        → Assets.save plain offline (put empty "ast-1" printer) (some second_printer)
          ≡ err duplicate)
unfolding validate_asset check_value check_identifiers optional_value check_sightings before_stamp
    is_canonical is_strict get put
identity_refused_example =
    identity_refused plain offline (put empty "ast-1" printer) second_printer printer "ast-1" refl
      refl refl refl

-- The history stores the incident.
stored : Incidents.get after_history.incidents "i1" ≡ ok login_incident
unfolding Incidents.get lookup get run step Incidents.create create validate_incident require_ids
    check_value require_timestamp check_valid has new_backend put
stored = refl
