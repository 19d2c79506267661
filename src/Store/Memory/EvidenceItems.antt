-- ===== src/Store/Memory/EvidenceItems.antt =====
-- memoryEvidence of store/memory.go.
use blueveil.Prelude.{String, Option, List, some, [], ◌∷◌, ◌==◌, if◌then◌else◌}
use blueveil.Prelude.Dict.{Dict, listing}
use blueveil.Prelude.Result.{Result}
use blueveil.Contract.Messages.{Evidence}
use blueveil.Contract.Incident.{validate_evidence}
use blueveil.Store.Table.{Kind, StoreError, passes, create as create_row, lookup}

abbrev pub kind : Kind Evidence
kind = record { key = λ e. e.id; accepts = λ e. passes (validate_evidence (some e)) }

-- Append
unfoldable pub append : Dict Evidence → Option Evidence → Result StoreError (Dict Evidence)
append r e = create_row kind r e

-- Get
unfoldable pub get : Dict Evidence → String → Result StoreError Evidence
get r id = lookup r id

-- List
unfoldable pub list : Dict Evidence → List Evidence
list r = listing r

of_incident : String → List Evidence → List Evidence
of_incident id [] = []
of_incident id (e ∷ es) =
    let rest = of_incident id es in if e.incident_id == id then e ∷ rest else rest

-- ListByIncident
unfoldable pub list_by_incident : Dict Evidence → String → List Evidence
unfolding of_incident
list_by_incident r id = of_incident id (listing r)
