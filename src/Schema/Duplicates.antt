-- ===== src/Schema/Duplicates.antt =====
-- merge.go: buildUnstableDuplicateSet. A range loop over a map is over its entries in some order,
-- the order of the lists that stand for the maps.
use acp_go_sdk.Base.{
  ◌+◌, ℕ, zero, suc, Bool, true, false, not, ◌&&◌, ◌||◌, List, [], ◌∷◌, ◌++◌, Option, none, some,
  length, if◌then◌else◌,
}
use acp_go_sdk.Bytes.{Bytes, codes, equal}
use acp_go_sdk.Bytes.Prefix.{ends_with}
use acp_go_sdk.Result.{Result, ok, err, ◌>>=◌}
use acp_go_sdk.Schema.{
  Definition, attributes, collect_definition_refs, Schema, has_key, definition, has_name,
}

pub data MergeError : Type 0 where
  out_of_fuel : MergeError
  missing_definition : Bytes → MergeError

-- Whether a definition is a root for one of the methods that only the unstable schema has.
unfoldable pub is_root : List Bytes → Bytes → Option Definition → Bool
is_root wires name none = false
is_root wires name (some d) =
    not (equal (attributes d).x_method [] || equal (attributes d).x_side [])
    && has_name (attributes d).x_method wires
    && (ends_with (codes "Request") name
        || ends_with (codes "Response") name
        || ends_with (codes "Notification") name)

unfoldable pub find_roots : List Bytes → Schema → List Bytes
find_roots wires [] = []
find_roots wires ((name, d) ∷ defs) =
    let rest = find_roots wires defs in if is_root wires name d then name ∷ rest else rest

-- The references of a definition: each that is a key and was not reached is queued.
unfoldable pub enqueue_refs : Schema → (refs queue reachable : List Bytes) → List Bytes × List Bytes
enqueue_refs defs [] queue reachable = (queue, reachable)
enqueue_refs defs (r ∷ rs) queue reachable =
    let is_new = has_key defs r && not (has_name r reachable) in
    enqueue_refs defs rs (if is_new then queue ++ r ∷ [] else queue)
      (if is_new then r ∷ reachable else reachable)

unfoldable pub traverse :
    ℕ → Schema → (queue reachable : List Bytes) → Result MergeError (List Bytes)
traverse fuel defs [] reachable = ok reachable
traverse zero defs (name ∷ queue) reachable = err out_of_fuel
traverse (suc fuel) defs (name ∷ queue) reachable = elim (definition defs name) [
  | none ↦ err (missing_definition name)
  | some d ↦
      let (queue', reachable') = enqueue_refs defs (collect_definition_refs d) queue reachable in
      traverse fuel defs queue' reachable'
]

-- reflect.DeepEqual is an argument.
unfoldable pub new_or_changed :
    (Definition → Definition → Bool) → (stable unstable : Schema) → Bytes → Bool
new_or_changed deep_equal stable unstable name =
    has_key unstable name && elim (definition stable name) [
      | none ↦ true
      | some s ↦ elim (definition unstable name) [ none ↦ true | some u ↦ not (deep_equal s u) ]
    ]

unfoldable pub add_changed : (Bytes → Bool) → List Bytes → List Bytes → List Bytes
add_changed changed [] dups = dups
add_changed changed (name ∷ names) dups =
    add_changed changed names (if changed name then name ∷ dups else dups)

unfoldable pub any_name : List Bytes → List Bytes → Bool
any_name [] dups = false
any_name (r ∷ rs) dups = if has_name r dups then true else any_name rs dups

-- Whether a definition refers to one of the set and is not in it.
unfoldable pub joins : Schema → Bytes → List Bytes → Result MergeError Bool
joins defs name dups = if has_name name dups then ok false else elim (definition defs name) [
  | none ↦ err (missing_definition name)
  | some d ↦ ok (any_name (collect_definition_refs d) dups)
]

-- One round of the last loop: the set, and whether it was changed.
unfoldable pub round :
    Schema → (reachable dups : List Bytes) → Result MergeError (List Bytes × Bool)
round defs [] dups = ok (dups, false)
round defs (name ∷ names) dups = joins defs name dups >>= λ joined.
    round defs names (if joined then name ∷ dups else dups) >>= λ r. ok (r.0, joined || r.1)

unfoldable pub rounds : ℕ → Schema → (reachable dups : List Bytes) → Result MergeError (List Bytes)
rounds zero defs reachable dups = err out_of_fuel
rounds (suc fuel) defs reachable dups =
    round defs reachable dups >>= λ r. if r.1 then rounds fuel defs reachable r.0 else ok r.0

-- The fuel of the first loop is a step for each root and each key, that of the last a round for
-- each name and one more.
unfoldable pub build_unstable_duplicate_set :
    (Definition → Definition → Bool)
    → (stable unstable : Schema) → (wires : List Bytes) → Result MergeError (List Bytes)
build_unstable_duplicate_set deep_equal stable unstable wires =
    let roots = find_roots wires unstable in
    traverse (length roots + length unstable) unstable roots roots >>= λ reachable.
    rounds (suc (length reachable)) unstable reachable
      (add_changed (new_or_changed deep_equal stable unstable) reachable roots)
