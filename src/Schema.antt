-- ===== src/Schema.antt =====
-- cmd/generate/internal/load/load.go and merge.go: the definitions of a schema and their references.
-- Duplicates has the definitions that the merge of two schemas copies; the other modules hold what
-- is shown of them.
pub mod Duplicates
pub mod Names
pub mod Loop
pub mod Fixpoint
pub mod Closure
pub mod DuplicateSet
pub mod Copies
pub mod Separation
use acp_go_sdk.Base.{
  Bool, true, false, not, ◌&&◌, List, [], ◌∷◌, ◌++◌, Option, none, some, if◌then◌else◌,
}
use acp_go_sdk.Bytes.{Bytes, codes, equal}
use acp_go_sdk.Bytes.Prefix.{starts_with, trim_prefix}
use acp_go_sdk.Message.{lookup, is_some}

-- The fields of a Definition that hold no other definition; `other` is all that merge.go only
-- compares and copies.
pub record Attributes : Type 0 where
  pub ref : Bytes
  pub x_side : Bytes
  pub x_method : Bytes
  pub other : Bytes

-- A Definition that was decoded is a tree. An absent Items is an empty list, the keys of lists
-- that are not Properties are empty, and a nil definition is left out of them.
mutual
  pub data Definition : Type 0 where
    node : Attributes → (items properties any_of one_of all_of : Definitions) → Definition

  pub data Definitions : Type 0 where
    nothing : Definitions
    entry : Bytes → Definition → Definitions → Definitions

abbrev pub attributes : Definition → Attributes
attributes (node a items properties any_of one_of all_of) = a

abbrev pub defs_prefix : Bytes
defs_prefix = codes "#/$defs/"

-- The name that a reference holds.
unfoldable pub ref_names : Bytes → List Bytes
ref_names ref =
    if starts_with defs_prefix ref && not (equal (trim_prefix ref defs_prefix) [])
    then trim_prefix ref defs_prefix ∷ []
    else []

-- collectDefinitionRefs, with visitDefinition.
unfoldable mutual
  pub collect_definition_refs : Definition → List Bytes
  collect_definition_refs (node a items properties any_of one_of all_of) =
      ref_names a.ref
      ++ collect_refs items
      ++ collect_refs properties
      ++ collect_refs any_of
      ++ collect_refs one_of
      ++ collect_refs all_of

  pub collect_refs : Definitions → List Bytes
  collect_refs nothing = []
  collect_refs (entry key d ds) = collect_definition_refs d ++ collect_refs ds

-- rewriteDefinitionRefs; the map gives the new name of a name.
unfoldable pub rewritten_ref : (Bytes → Option Bytes) → Bytes → Bytes
rewritten_ref new_name ref =
    if starts_with defs_prefix ref && not (equal (trim_prefix ref defs_prefix) [])
    then elim (new_name (trim_prefix ref defs_prefix)) [
      | none ↦ ref
      | some name ↦ defs_prefix ++ name
    ]
    else ref

unfoldable mutual
  pub rewrite_definition_refs : (Bytes → Option Bytes) → Definition → Definition
  rewrite_definition_refs new_name (node a items properties any_of one_of all_of) =
      node (record a { ref = rewritten_ref new_name a.ref }) (rewrite_refs new_name items)
        (rewrite_refs new_name properties) (rewrite_refs new_name any_of)
        (rewrite_refs new_name one_of) (rewrite_refs new_name all_of)

  pub rewrite_refs : (Bytes → Option Bytes) → Definitions → Definitions
  rewrite_refs new_name nothing = nothing
  rewrite_refs new_name (entry key d ds) =
      entry key (rewrite_definition_refs new_name d) (rewrite_refs new_name ds)

-- The map Defs of a schema, whose values may be nil.
abbrev pub Schema : Type 0
Schema = List (Bytes × Option Definition)

abbrev pub has_key : Schema → Bytes → Bool
has_key defs name = is_some (lookup name defs)

abbrev pub flattened : Option (Option Definition) → Option Definition
flattened none = none
flattened (some d) = d

-- The definition of a name, none where it is missing or nil.
unfoldable pub definition : Schema → Bytes → Option Definition
definition defs name = flattened (lookup name defs)

-- Membership in a set of names.
unfoldable pub has_name : Bytes → List Bytes → Bool
has_name name [] = false
has_name name (n ∷ ns) = if equal n name then true else has_name name ns
