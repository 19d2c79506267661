-- ===== src/SupplyChain/Dependency.antt =====
-- supplychain/dependency.go: the edges.
use blueveil.Prelude.{String, List, [], ◌∷◌, ◌==◌}
use blueveil.Prelude.Time.{Time}
use blueveil.Contract.Check.{Check, ◌>>◌}
use blueveil.Contract.Fields.{required, listed, observed, refuse_if}

abbrev pub dependency_kinds : List String
dependency_kinds = "DEPENDS_ON" ∷ "CONTAINS" ∷ "BUILT_FROM" ∷ "DERIVED_FROM" ∷ []

pub record Dependency : Type 0 where
  pub parent_id : String
  pub parent_kind : String
  pub child_id : String
  pub kind : String
  pub source : String
  pub observed_at : Time

unfoldable pub validate_dependency : Dependency → Check
validate_dependency d = do
  required "parent_id" d.parent_id
  required "child_id" d.child_id
  refuse_if (d.parent_id == d.child_id) "child_id"
  listed "kind" dependency_kinds d.kind
  required "source" d.source
  observed "observed_at" d.observed_at
