-- ===== src/Store/Memory/Links.antt =====
-- The two repositories of store/memory.go that are keyed by the ends and the kind of a link:
-- memoryDependency and memoryRelationships.
pub mod Distinct
pub mod Kept
use Prim.Native.Nat.{Ordering}
use Prim.Native.String.{compare}
use blueveil.Prelude.{
  Bool, true, false, ◌&&◌, ◌||◌, not, String, some, List, [], ◌∷◌, ◌==◌, if◌then◌else◌,
}
use blueveil.Prelude.Result.{Result, ok, err, ensure, ◌>>◌}
use blueveil.Asset.Discovery.{Relationship, validate_relationship}
use blueveil.SupplyChain.Dependency.{Dependency, validate_dependency}
use blueveil.Store.Table.{StoreError, invalid, duplicate, passes}

-- depKey and relKey
pub record LinkKey : Type 0 where
  pub parent : String
  pub child : String
  pub kind : String

unfoldable pub same_key : LinkKey → LinkKey → Bool
same_key a b = a.parent == b.parent && a.child == b.child && a.kind == b.kind

abbrev before_text : String → String → Bool
before_text a b = elim (compare a b) [ Ordering.lt ↦ true | _ ↦ false ]

-- The order of sortedRelKeys and of the sort in links.
unfoldable pub key_before : LinkKey → LinkKey → Bool
key_before a b =
    if not (a.parent == b.parent)
    then before_text a.parent b.parent
    else if not (a.child == b.child)
    then before_text a.child b.child
    else before_text a.kind b.kind

-- A map from keys to links, as the list of its links; a link carries its key.
module _ {V : Type 0} (key : V → LinkKey) where
  unfoldable pub has_key : List V → LinkKey → Bool
  has_key [] k = false
  has_key (v ∷ vs) k = same_key (key v) k || has_key vs k

  insert_link : V → List V → List V
  insert_link v [] = v ∷ []
  insert_link v (w ∷ ws) = if key_before (key w) (key v) then w ∷ insert_link v ws else v ∷ w ∷ ws

  unfoldable pub sort_links : List V → List V
  unfolding insert_link
  sort_links [] = []
  sort_links (v ∷ vs) = insert_link v (sort_links vs)

  -- The loop that keeps the links with an end.
  unfoldable pub with_end : (LinkKey → String) → String → List V → List V
  with_end end id [] = []
  with_end end id (v ∷ vs) =
      let rest = with_end end id vs in if end (key v) == id then v ∷ rest else rest

  -- Append: the links after it.
  unfoldable pub append_link : (V → Bool) → List V → V → Result StoreError (List V)
  append_link accepts r v = do
    ensure (accepts v) invalid
    ensure (not (has_key r (key v))) duplicate
    ok (v ∷ r)

-- depKeyOf
unfoldable pub dependency_key : Dependency → LinkKey
dependency_key d = record { parent = d.parent_id; child = d.child_id; kind = d.kind }

unfoldable pub relationship_key : Relationship → LinkKey
relationship_key r = record { parent = r.parent_id; child = r.child_id; kind = r.kind }

abbrev pub accepts_dependency : Dependency → Bool
accepts_dependency d = passes (validate_dependency d)

-- memoryDependency.Append, Children, Parents
unfoldable pub append_dependency :
    List Dependency → Dependency → Result StoreError (List Dependency)
append_dependency r d = append_link dependency_key accepts_dependency r d

unfoldable pub dependency_children : List Dependency → String → List Dependency
dependency_children r id = sort_links dependency_key (with_end dependency_key (λ k. k.parent) id r)

unfoldable pub dependency_parents : List Dependency → String → List Dependency
dependency_parents r id = sort_links dependency_key (with_end dependency_key (λ k. k.child) id r)

abbrev pub accepts_relationship : Relationship → Bool
accepts_relationship l = passes (validate_relationship l)

-- memoryRelationships.Append, Children, Parents
unfoldable pub append_relationship :
    List Relationship → Relationship → Result StoreError (List Relationship)
append_relationship r l = append_link relationship_key accepts_relationship r l

unfoldable pub relationship_children : List Relationship → String → List Relationship
relationship_children r id =
    with_end relationship_key (λ k. k.parent) id (sort_links relationship_key r)

unfoldable pub relationship_parents : List Relationship → String → List Relationship
relationship_parents r id =
    with_end relationship_key (λ k. k.child) id (sort_links relationship_key r)
