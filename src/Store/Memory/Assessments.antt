-- ===== src/Store/Memory/Assessments.antt =====
-- memoryAssessment of store/memory.go.
use blueveil.Prelude.{String, List, some}
use blueveil.Prelude.Dict.{Dict, listing}
use blueveil.Prelude.Result.{Result}
use blueveil.Prelude.Library.{Library}
use blueveil.Grc.Model.{Assessment, validate_assessment, assessment_id}
use blueveil.Store.Table.{Kind, StoreError, passes, create as create_row, lookup}

module _ (lib : Library) where
  abbrev pub kind : Kind Assessment
  kind = record { key = λ e. assessment_id lib e; accepts = λ e. passes (validate_assessment e) }

  -- Create
  unfoldable pub create : Dict Assessment → Assessment → Result StoreError (Dict Assessment)
  create r e = create_row kind r (some e)

-- Get
unfoldable pub get : Dict Assessment → String → Result StoreError Assessment
get r id = lookup r id

-- List
unfoldable pub list : Dict Assessment → List Assessment
list r = listing r
