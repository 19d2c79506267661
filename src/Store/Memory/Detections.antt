-- ===== src/Store/Memory/Detections.antt =====
-- memoryDetection of store/memory.go.
use blueveil.Prelude.{String, Option, List, some}
use blueveil.Prelude.Dict.{Dict, listing}
use blueveil.Prelude.Result.{Result}
use blueveil.Contract.Messages.{Detection}
use blueveil.Contract.Detection.{validate_detection}
use blueveil.Store.Table.{Kind, StoreError, passes, create as create_row, lookup}

abbrev pub kind : Kind Detection
kind = record { key = λ e. e.id; accepts = λ e. passes (validate_detection (some e)) }

-- Append
unfoldable pub append : Dict Detection → Option Detection → Result StoreError (Dict Detection)
append r e = create_row kind r e

-- Get
unfoldable pub get : Dict Detection → String → Result StoreError Detection
get r id = lookup r id

-- List
unfoldable pub list : Dict Detection → List Detection
list r = listing r
