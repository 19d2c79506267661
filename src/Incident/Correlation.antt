-- ===== src/Incident/Correlation.antt =====
-- incident/incident.go, correlationKey, incidentID and summarize, and correlate/correlate.go.
use Prim.Native.String.{◌++◌}
use blueveil.Prelude.{
  Bool, true, false, ◌&&◌, ◌||◌, not, String, Option, none, some, List, [], ◌∷◌, ◌==◌,
  if◌then◌else◌, length,
}
use blueveil.Prelude.Dict
use blueveil.Prelude.Names.{sort, join}
use blueveil.Prelude.Text.{decimal}
use blueveil.Contract.Messages.{TelemetryEvent, Alert}
use blueveil.Prelude.Library.{Library, derived_id}

abbrev pub attribute_key : String
attribute_key = "blueveil.correlation_id"

-- event.GetAttributes()[key], "" where there is none
abbrev or_empty : Option String → String
or_empty none = ""
or_empty (some s) = s

abbrev pub correlation_of : TelemetryEvent → String
correlation_of e = or_empty (Dict.get e.attributes attribute_key)

-- correlate.KeyOf
unfoldable pub key_of : String → String → String → String
key_of source asset_id event_type = source ++ ("\u{1f}" ++ (asset_id ++ ("\u{1f}" ++ event_type)))

-- correlate.IDFor
unfoldable pub id_for : Library → String → String → String → String
id_for lib source asset_id event_type = lib.digest16 (key_of source asset_id event_type)

-- correlate.Apply: an id that the source has given stays.
unfoldable pub apply : Library → TelemetryEvent → TelemetryEvent
apply lib e = if not (correlation_of e == "") then e else record e {
  attributes = Dict.put e.attributes attribute_key (id_for lib e.source e.asset_id e.event_type);
}

-- The loop of correlationKey: the id that all events share; `none` where it returns early.
unfoldable pub shared_from : Bool → String → List TelemetryEvent → Option String
shared_from first shared [] = some shared
shared_from first shared (e ∷ events) =
    let c = correlation_of e in
    let rest = shared_from false c events in
    if c == "" || not first && not (c == shared) then none else rest

abbrev key_by : Alert → Option String → String
key_by alert none = "alert:" ++ alert.id
key_by alert (some shared) = if shared == "" then "alert:" ++ alert.id else "corr:" ++ shared

unfoldable pub correlation_key : Alert → List TelemetryEvent → String
correlation_key alert events = key_by alert (shared_from true "" events)

unfoldable pub incident_id : Library → String → String
incident_id lib key = derived_id lib "inc-" ("blueveil-incident-v1" ∷ key ∷ [])

-- For sets without repetitions.
unfoldable pub summarize : List String → List String → List String → String
summarize alerts rules assets = join "" (
    decimal (length alerts)
    ∷ " alert(s); rule(s): "
    ∷ join "," (sort rules)
    ∷ "; asset(s): "
    ∷ join "," (sort assets)
    ∷ [])
