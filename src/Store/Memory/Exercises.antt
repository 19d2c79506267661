-- ===== src/Store/Memory/Exercises.antt =====
-- memoryExercise of store/memory.go.
use blueveil.Prelude.{String, List, some}
use blueveil.Prelude.Dict.{Dict, listing}
use blueveil.Prelude.Result.{Result}
use blueveil.Validation.Exercise.{Exercise, validate_exercise}
use blueveil.Store.Table.{Kind, StoreError, passes, create as create_row, lookup}

abbrev pub kind : Kind Exercise
kind = record { key = λ e. e.id; accepts = λ e. passes (validate_exercise e) }

-- Create
unfoldable pub create : Dict Exercise → Exercise → Result StoreError (Dict Exercise)
create r e = create_row kind r (some e)

-- Get
unfoldable pub get : Dict Exercise → String → Result StoreError Exercise
get r id = lookup r id

-- List
unfoldable pub list : Dict Exercise → List Exercise
list r = listing r
