-- ===== src/Store/Memory/Recommendations.antt =====
-- memoryResponse of store/memory.go.
use blueveil.Prelude.{String, Option, List, some}
use blueveil.Prelude.Dict.{Dict, listing}
use blueveil.Prelude.Result.{Result}
use blueveil.Contract.Messages.{ResponseRecommendation}
use blueveil.Contract.Response.{validate_recommendation}
use blueveil.Store.Table.{Kind, StoreError, passes, create as create_row, save as save_row, lookup}

abbrev pub kind : Kind ResponseRecommendation
kind = record { key = λ e. e.id; accepts = λ e. passes (validate_recommendation (some e)) }

-- Create
unfoldable pub create :
    Dict ResponseRecommendation
    → Option ResponseRecommendation
    → Result StoreError (Dict ResponseRecommendation)
create r e = create_row kind r e

-- Save
unfoldable pub save :
    Dict ResponseRecommendation
    → Option ResponseRecommendation
    → Result StoreError (Dict ResponseRecommendation)
save r e = save_row kind r e

-- Get
unfoldable pub get : Dict ResponseRecommendation → String → Result StoreError ResponseRecommendation
get r id = lookup r id

-- List
unfoldable pub list : Dict ResponseRecommendation → List ResponseRecommendation
list r = listing r
