-- ===== src/Store/Memory/Telemetry.antt =====
-- memoryTelemetry of store/memory.go.
use blueveil.Prelude.{String, Option, List, some}
use blueveil.Prelude.Dict.{Dict, listing}
use blueveil.Prelude.Result.{Result}
use blueveil.Contract.Messages.{TelemetryEvent}
use blueveil.Contract.Detection.{validate_telemetry_event}
use blueveil.Store.Table.{Kind, StoreError, passes, create as create_row, lookup}

abbrev pub kind : Kind TelemetryEvent
kind = record { key = λ e. e.id; accepts = λ e. passes (validate_telemetry_event (some e)) }

-- Append
unfoldable pub append :
    Dict TelemetryEvent → Option TelemetryEvent → Result StoreError (Dict TelemetryEvent)
append r e = create_row kind r e

-- Get
unfoldable pub get : Dict TelemetryEvent → String → Result StoreError TelemetryEvent
get r id = lookup r id

-- List
unfoldable pub list : Dict TelemetryEvent → List TelemetryEvent
list r = listing r
