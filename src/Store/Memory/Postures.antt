-- ===== src/Store/Memory/Postures.antt =====
-- memoryResilience of store/memory.go.
use blueveil.Prelude.{String, List, some}
use blueveil.Prelude.Dict.{Dict, listing}
use blueveil.Prelude.Result.{Result}
use blueveil.Grc.Resilience.{ResilienceRecord, validate_resilience}
use blueveil.Store.Table.{Kind, StoreError, passes, create as create_row, lookup}

abbrev pub kind : Kind ResilienceRecord
kind = record { key = λ e. e.id; accepts = λ e. passes (validate_resilience e) }

-- Create
unfoldable pub create :
    Dict ResilienceRecord → ResilienceRecord → Result StoreError (Dict ResilienceRecord)
create r e = create_row kind r (some e)

-- Get
unfoldable pub get : Dict ResilienceRecord → String → Result StoreError ResilienceRecord
get r id = lookup r id

-- List
unfoldable pub list : Dict ResilienceRecord → List ResilienceRecord
list r = listing r
