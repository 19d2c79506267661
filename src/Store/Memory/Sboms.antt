-- ===== src/Store/Memory/Sboms.antt =====
-- memorySBOM of store/memory.go.
use blueveil.Prelude.{String, List, some}
use blueveil.Prelude.Dict.{Dict, listing}
use blueveil.Prelude.Result.{Result}
use blueveil.Prelude.Library.{Library}
use blueveil.SupplyChain.Sbom.{Sbom, validate_sbom, sbom_id}
use blueveil.Store.Table.{Kind, StoreError, passes, create as create_row, lookup}

module _ (lib : Library) where
  abbrev pub kind : Kind Sbom
  kind = record { key = λ e. sbom_id lib e; accepts = λ e. passes (validate_sbom e) }

  -- Create
  unfoldable pub create : Dict Sbom → Sbom → Result StoreError (Dict Sbom)
  create r e = create_row kind r (some e)

-- Get
unfoldable pub get : Dict Sbom → String → Result StoreError Sbom
get r id = lookup r id

-- List
unfoldable pub list : Dict Sbom → List Sbom
list r = listing r
