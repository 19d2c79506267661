-- ===== src/Store/Memory/Alerts.antt =====
-- memoryAlert of store/memory.go.
use blueveil.Prelude.{String, Option, List, some}
use blueveil.Prelude.Dict.{Dict, listing}
use blueveil.Prelude.Result.{Result}
use blueveil.Contract.Messages.{Alert}
use blueveil.Contract.Detection.{validate_alert}
use blueveil.Store.Table.{Kind, StoreError, passes, create as create_row, lookup}

abbrev pub kind : Kind Alert
kind = record { key = λ e. e.id; accepts = λ e. passes (validate_alert (some e)) }

-- Append
unfoldable pub append : Dict Alert → Option Alert → Result StoreError (Dict Alert)
append r e = create_row kind r e

-- Get
unfoldable pub get : Dict Alert → String → Result StoreError Alert
get r id = lookup r id

-- List
unfoldable pub list : Dict Alert → List Alert
list r = listing r
