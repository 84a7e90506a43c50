-- ===== src/Schema/Copies.antt =====
-- merge.go: the copies of definitions under new names.
use acp_go_sdk.Base.{
  ◌≡◌, ◌⊎◌, inl, inr, refl, sym, subst, true, false, not, ◌&&◌, List, [], ◌∷◌, ◌++◌, Option, none,
  some, if◌then◌else◌, arith, Bool-cases,
}
use acp_go_sdk.Bytes.{Bytes, codes, equal}
use acp_go_sdk.Bytes.Prefix.{starts_with, trim_prefix, starts_with-append, after-append}
use acp_go_sdk.Schema.{
  Definition, Definitions, node, nothing, entry, defs_prefix, ref_names, collect_definition_refs,
  collect_refs, rewritten_ref, rewrite_definition_refs, rewrite_refs, has_name,
}
use acp_go_sdk.Schema.Names.{
  has_name-cons, has_name_head, has_name-append_cases, has_name-append_left, has_name-append_right,
}
use acp_go_sdk.Schema.Loop.{nothing_waits}

-- dupMap.
unfoldable pub new_name : List Bytes → Bytes → Option Bytes
new_name dups name = if has_name name dups then some (codes "Unstable" ++ name) else none

-- Copies do not take a method of the stable schema.
abbrev pub without_stable_method : List Bytes → Definition → Definition
without_stable_method stable_wires (node a items properties any_of one_of all_of) =
    node
      (if not (equal a.x_method []) && has_name a.x_method stable_wires
        then record a { x_method = []; x_side = [] }
        else a)
      items properties any_of one_of all_of

-- The copy of a definition that is duplicated.
unfoldable pub unstable_copy : (dups stable_wires : List Bytes) → Definition → Definition
unstable_copy dups stable_wires d =
    without_stable_method stable_wires (rewrite_definition_refs (new_name dups) d)

-- A name after the rewriting, and the one that it stands for.
abbrev pub IsRenamed : List Bytes → List Bytes → Bytes → Type 0
IsRenamed dups before n =
    ((r : Bytes) × (has_name r dups ≡ true)
      × (has_name r before ≡ true)
      × (n ≡ codes "Unstable" ++ r))
    ⊎ ((has_name n dups ≡ false) × (has_name n before ≡ true))

IsRenamed-weaken :
    (dups before more : List Bytes) (n : Bytes)
    → ((r : Bytes) → has_name r before ≡ true → has_name r more ≡ true)
    → IsRenamed dups before n
    → IsRenamed dups more n
IsRenamed-weaken dups before more n sub (inl (r, d, b, e)) = inl (r, d, sub r b, e)
IsRenamed-weaken dups before more n sub (inr (d, b)) = inr (d, sub n b)

ref_names-prefixed :
    (name : Bytes)
    → ref_names (defs_prefix ++ (codes "Unstable" ++ name)) ≡ (codes "Unstable" ++ name) ∷ []
unfolding ref_names trim_prefix
ref_names-prefixed name =
    rw
      (
        starts_with-append defs_prefix (codes "Unstable" ++ name),
        after-append defs_prefix (codes "Unstable" ++ name),
      )
      (unfold equal in refl)

one_name : (n m : Bytes) → has_name n (m ∷ []) ≡ true → m ≡ n
unfolding has_name
one_name n m h = elim (has_name-cons n m [] h) [ inl same ↦ same | inr later ↦ absurd cc ]

ref_names-IsRenamed :
    (dups : List Bytes) (ref n : Bytes)
    → has_name n (ref_names (rewritten_ref (new_name dups) ref)) ≡ true
    → IsRenamed dups (ref_names ref) n
unfolding rewritten_ref new_name
ref_names-IsRenamed dups ref n h =
    elim (Bool-cases
      (starts_with defs_prefix ref && not (equal (trim_prefix ref defs_prefix) []))) [
        | inr no_ref ↦ inr (unfold ref_names has_name in absurd (ground (arith, no_ref, h)))
        | inl is_ref ↦
            let named : ref_names ref ≡ trim_prefix ref defs_prefix ∷ [] =
              unfold ref_names in rw is_ref refl in
            elim (Bool-cases (has_name (trim_prefix ref defs_prefix) dups)) [
              | inl dup ↦
                  let renamed : has_name n (
                        ref_names
                          (defs_prefix ++ (codes "Unstable" ++ trim_prefix ref defs_prefix)))
                      ≡ true =
                    rw (is_ref, dup) at h in
                  inl (
                    trim_prefix ref defs_prefix,
                    dup,
                    rw named (has_name_head (trim_prefix ref defs_prefix) []),
                    sym (
                        one_name n _ (
                          subst (λ x. has_name n x ≡ true)
                            (ref_names-prefixed (trim_prefix ref defs_prefix)) renamed)),
                  )
              | inr other ↦
                  let kept : has_name n (ref_names ref) ≡ true = rw (is_ref, other) at h in
                  let same =
                    one_name n (trim_prefix ref defs_prefix)
                      (subst (λ x. has_name n x ≡ true) named kept) in
                  inr (subst (λ x. has_name x dups ≡ false) same other, kept)
            ]
      ]

abbrev pub AllRenamed : List Bytes → (before now : List Bytes) → Type 0
AllRenamed dups before now = (n : Bytes) → has_name n now ≡ true → IsRenamed dups before n

AllRenamed-append :
    (dups xs ys : List Bytes) (xs' ys' : List Bytes)
    → AllRenamed dups xs xs'
    → AllRenamed dups ys ys'
    → AllRenamed dups (xs ++ ys) (xs' ++ ys')
AllRenamed-append dups xs ys xs' ys' p q n h = elim (has_name-append_cases n xs' ys' h) [
  | inl a ↦ IsRenamed-weaken dups xs (xs ++ ys) n (λ r m. has_name-append_left r xs ys m) (p n a)
  | inr b ↦ IsRenamed-weaken dups ys (xs ++ ys) n (λ r m. has_name-append_right r xs ys m) (q n b)
]

mutual
  unfolding collect_definition_refs collect_refs rewrite_definition_refs rewrite_refs

  pub collect-AllRenamed :
      (dups : List Bytes) (d : Definition)
      → AllRenamed dups
          (collect_definition_refs d)
          (collect_definition_refs (rewrite_definition_refs (new_name dups) d))
  collect-AllRenamed dups (node a items properties any_of one_of all_of) =
      let with_items =
        AllRenamed-append dups _ _ _ _ (ref_names-IsRenamed dups a.ref)
          (collect_refs-AllRenamed dups items) in
      let with_properties =
        AllRenamed-append dups _ _ _ _ with_items (collect_refs-AllRenamed dups properties) in
      let with_any_of =
        AllRenamed-append dups _ _ _ _ with_properties (collect_refs-AllRenamed dups any_of) in
      let with_one_of =
        AllRenamed-append dups _ _ _ _ with_any_of (collect_refs-AllRenamed dups one_of) in
      AllRenamed-append dups _ _ _ _ with_one_of (collect_refs-AllRenamed dups all_of)

  collect_refs-AllRenamed :
      (dups : List Bytes) (ds : Definitions)
      → AllRenamed dups (collect_refs ds) (collect_refs (rewrite_refs (new_name dups) ds))
  collect_refs-AllRenamed dups nothing = λ n h. absurd (nothing_waits n h)
  collect_refs-AllRenamed dups (entry key d ds) =
      AllRenamed-append dups _ _ _ _ (collect-AllRenamed dups d) (collect_refs-AllRenamed dups ds)

pub collect-without_stable_method :
    (stable_wires : List Bytes) (d : Definition)
    → collect_definition_refs (without_stable_method stable_wires d) ≡ collect_definition_refs d
unfolding collect_definition_refs
collect-without_stable_method stable_wires (node a items properties any_of one_of all_of) =
    elim (Bool-cases (not (equal a.x_method []) && has_name a.x_method stable_wires)) [
      | inl e ↦ rw e refl
      | inr e ↦ rw e refl
    ]
