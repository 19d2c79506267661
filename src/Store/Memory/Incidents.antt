-- ===== src/Store/Memory/Incidents.antt =====
-- memoryIncident of store/memory.go.
use blueveil.Prelude.{String, Option, List, some}
use blueveil.Prelude.Dict.{Dict, listing}
use blueveil.Prelude.Result.{Result}
use blueveil.Contract.Messages.{Incident}
use blueveil.Contract.Incident.{validate_incident}
use blueveil.Store.Table.{Kind, StoreError, passes, create as create_row, save as save_row, lookup}

abbrev pub kind : Kind Incident
kind = record { key = λ e. e.id; accepts = λ e. passes (validate_incident (some e)) }

-- Create
unfoldable pub create : Dict Incident → Option Incident → Result StoreError (Dict Incident)
create r e = create_row kind r e

-- Save
unfoldable pub save : Dict Incident → Option Incident → Result StoreError (Dict Incident)
save r e = save_row kind r e

-- Get
unfoldable pub get : Dict Incident → String → Result StoreError Incident
get r id = lookup r id

-- List
unfoldable pub list : Dict Incident → List Incident
list r = listing r
