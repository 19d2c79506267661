-- ===== src/Evidence/Store.antt =====
-- evidence/evidence.go: the store of items by their ids.
use blueveil.Prelude.{ℕ, Bool, true, false, String, Option, List, if◌then◌else◌, length}
use blueveil.Prelude.Dict.{Dict, empty, get, put, has, keys, listing}
use blueveil.Contract.Messages.{Evidence}

abbrev pub new_store : Dict Evidence
new_store = empty

-- Add: whether the item was new, and the store after it.
unfoldable pub add : Dict Evidence → Evidence → Bool × Dict Evidence
add s e = if has s e.id then (false, s) else (true, put s e.id e)

-- Get
unfoldable pub find_item : Dict Evidence → String → Option Evidence
find_item s id = get s id

-- List
unfoldable pub list_items : Dict Evidence → List Evidence
list_items s = listing s

unfoldable pub count : Dict Evidence → ℕ
count s = length (keys s)
