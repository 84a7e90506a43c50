-- ===== src/Tests/Schema.antt =====
-- Two small schemas: a request of the unstable one refers to a new definition and to a shared one.
use acp_go_sdk.Base.{◌≡◌, ◌≢◌, ◌⊎◌, refl, true, false, Bool, List, [], ◌∷◌, ◌++◌, some}
use acp_go_sdk.Bytes.{Bytes, codes, equal}
use acp_go_sdk.Bytes.Prefix.{starts_with, after, trim_prefix, ends_with}
use acp_go_sdk.Message.{lookup}
use acp_go_sdk.Result.{ok, err}
use acp_go_sdk.Schema.{
  Attributes, Definition, node, nothing, entry, Schema, has_key, definition, has_name,
  collect_definition_refs, ref_names, rewrite_definition_refs, rewritten_ref,
}
use acp_go_sdk.Schema.Duplicates.{
  out_of_fuel, build_unstable_duplicate_set, find_roots, is_root, traverse, enqueue_refs,
  new_or_changed, add_changed, any_name, joins, round, rounds,
}
use acp_go_sdk.Schema.DuplicateSet.{build-fuel}
use acp_go_sdk.Schema.Copies.{new_name, unstable_copy}
use acp_go_sdk.Schema.Separation.{IsShared, unstable_copy-refs, shared_refs}

abbrev plain_attributes : Attributes
plain_attributes = record { ref = []; x_side = []; x_method = []; other = [] }

abbrev leaf : Definition
leaf = node plain_attributes nothing nothing nothing nothing nothing

abbrev reference : Bytes → Definition
reference ref = node (record plain_attributes { ref = ref }) nothing nothing nothing nothing nothing

abbrev shared : Definition
shared = reference (codes "#/$defs/Id")

abbrev a_request : Definition
a_request =
    node (record plain_attributes { x_side = codes "agent"; x_method = codes "a/b" }) nothing
      (entry (codes "x") (reference (codes "#/$defs/New"))
        (entry (codes "y") (reference (codes "#/$defs/Old")) nothing))
      nothing nothing nothing

abbrev stable : Schema
stable = (codes "Old", some shared) ∷ (codes "Id", some leaf) ∷ []

abbrev unstable : Schema
unstable =
    (codes "ARequest", some a_request)
    ∷ (codes "New", some leaf)
    ∷ (codes "Old", some shared)
    ∷ (codes "Id", some leaf)
    ∷ []

-- The definitions of one name are the same here.
abbrev always : Definition → Definition → Bool
always d e = true

abbrev wires : List Bytes
wires = codes "a/b" ∷ []

abbrev dups : List Bytes
dups = codes "ARequest" ∷ codes "New" ∷ codes "ARequest" ∷ []

built : build_unstable_duplicate_set always stable unstable wires ≡ ok dups
unfolding build_unstable_duplicate_set find_roots is_root traverse enqueue_refs new_or_changed
    add_changed any_name joins round rounds definition has_name collect_definition_refs ref_names
    lookup equal starts_with after trim_prefix ends_with
built = refl

build-fuel_example : build_unstable_duplicate_set always stable unstable wires ≢ err out_of_fuel
build-fuel_example = build-fuel always stable unstable wires

request_is_duplicated : has_name (codes "ARequest") dups ≡ true
unfolding has_name equal
request_is_duplicated = refl

request_is_defined : definition unstable (codes "ARequest") ≡ some a_request
unfolding definition lookup equal
request_is_defined = refl

refers_to_copy :
    has_name (codes "UnstableNew") (collect_definition_refs (unstable_copy dups [] a_request))
    ≡ true
unfolding unstable_copy new_name rewrite_definition_refs rewritten_ref collect_definition_refs
    ref_names has_name equal starts_with after trim_prefix
refers_to_copy = refl

unstable_copy-refs_example :
    ((r : Bytes) × (has_name r dups ≡ true) × (codes "UnstableNew" ≡ codes "Unstable" ++ r))
    ⊎ (IsShared always stable unstable wires (codes "UnstableNew")
        ⊎ (has_key unstable (codes "UnstableNew") ≡ false))
unstable_copy-refs_example =
    unstable_copy-refs always stable unstable wires [] (codes "ARequest") a_request
      (codes "UnstableNew") built request_is_duplicated request_is_defined refers_to_copy

refers_to_old : has_name (codes "Old") (collect_definition_refs a_request) ≡ true
unfolding collect_definition_refs ref_names has_name equal starts_with after trim_prefix
refers_to_old = refl

old_is_shared : has_name (codes "Old") dups ≡ false
unfolding has_name equal
old_is_shared = refl

old_is_known : has_key unstable (codes "Old") ≡ true
unfolding lookup equal
old_is_known = refl

old_is_defined : definition unstable (codes "Old") ≡ some shared
unfolding definition lookup equal
old_is_defined = refl

old_refers_to_id : has_name (codes "Id") (collect_definition_refs shared) ≡ true
unfolding collect_definition_refs ref_names has_name equal starts_with after trim_prefix
old_refers_to_id = refl

shared_refs_example : has_name (codes "Id") dups ≡ false
shared_refs_example =
    shared_refs always stable unstable wires (codes "ARequest") a_request (codes "Old") shared
      (codes "Id") built request_is_duplicated request_is_defined refers_to_old old_is_shared
      old_is_known old_is_defined old_refers_to_id
