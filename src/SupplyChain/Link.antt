-- ===== src/SupplyChain/Link.antt =====
-- supplychain/link.go: the links from controls to components, vendors and bills of materials.
use blueveil.Prelude.{String, List, [], ◌∷◌}
use blueveil.Prelude.Library.{Library, derived_id}
use blueveil.Contract.Check.{Check, ◌>>◌}
use blueveil.Contract.Fields.{required, listed}

abbrev pub subject_kinds : List String
subject_kinds = "component" ∷ "vendor" ∷ "sbom" ∷ []

pub record SupplyLink : Type 0 where
  pub control_id : String
  pub subject_kind : String
  pub subject_id : String
  pub basis : String

unfoldable pub link_id : Library → SupplyLink → String
link_id lib l =
    derived_id lib "slink-"
      ("blueveil-supply-link-v1" ∷ l.control_id ∷ l.subject_kind ∷ l.subject_id ∷ [])

unfoldable pub validate_link : SupplyLink → Check
validate_link l = do
  required "control_id" l.control_id
  listed "subject_kind" subject_kinds l.subject_kind
  required "subject_id" l.subject_id
  required "basis" l.basis
