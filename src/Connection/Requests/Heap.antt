-- ===== src/Connection/Requests/Heap.antt =====
-- The heap of pending requests and the map of their keys: what a write and a deletion change.
use acp_go_sdk.Base.{
  ℕ, zero, suc, ◌+◌, ◌≤◌, ◌≡◌, ◌≢◌, refl, ap, ◌⊎◌, inl, inr, Bool, true, false, not, ◌&&◌, List, [],
  ◌∷◌, ◌++◌, none, some, length, if◌then◌else◌, get_elem?, arith,
}
use acp_go_sdk.Bytes.{Bytes, equal, equal_iff}
use acp_go_sdk.Message.{lookup}
use acp_go_sdk.Connection.Requests.State.{
  Completion, answered, PendingResponse, remove_key, put_key, modify,
}

pub get-modify_self :
    (os : List PendingResponse) (i : ℕ) (f : PendingResponse → PendingResponse)
    {o : PendingResponse}
    → get_elem? os i ≡ some o
    → get_elem? (modify os i f) i ≡ some (f o)
unfolding modify
get-modify_self [] i f h = absurd (cc)
get-modify_self (x ∷ os) zero f h = ground arith
get-modify_self (x ∷ os) (suc i) f h = get-modify_self os i f h

pub get-modify_ne :
    (os : List PendingResponse) (i j : ℕ) (f : PendingResponse → PendingResponse)
    → i ≢ j
    → get_elem? (modify os i f) j ≡ get_elem? os j
unfolding modify
get-modify_ne [] i j f h = refl
get-modify_ne (x ∷ os) zero zero f h = absurd (h refl)
get-modify_ne (x ∷ os) zero (suc j) f h = refl
get-modify_ne (x ∷ os) (suc i) zero f h = refl
get-modify_ne (x ∷ os) (suc i) (suc j) f h = get-modify_ne os i j f (λ e. h (ap suc e))

pub length-modify :
    (os : List PendingResponse) (i : ℕ) (f : PendingResponse → PendingResponse)
    → length (modify os i f) ≡ length os
unfolding modify
length-modify [] i f = refl
length-modify (x ∷ os) zero f = refl
length-modify (x ∷ os) (suc i) f = ap suc (length-modify os i f)

pub get-concat_new :
    (os : List PendingResponse) (o : PendingResponse)
    → get_elem? (os ++ o ∷ []) (length os) ≡ some o
get-concat_new [] o = refl
get-concat_new (x ∷ os) o = get-concat_new os o

pub get-concat_old :
    (os : List PendingResponse) (o : PendingResponse) (i : ℕ) {p : PendingResponse}
    → get_elem? os i ≡ some p
    → get_elem? (os ++ o ∷ []) i ≡ some p
get-concat_old [] o i h = absurd (cc)
get-concat_old (x ∷ os) o zero h = h
get-concat_old (x ∷ os) o (suc i) h = get-concat_old os o i h

pub get-concat_cases :
    (os : List PendingResponse) (o : PendingResponse) (i : ℕ) {p : PendingResponse}
    → get_elem? (os ++ o ∷ []) i ≡ some p
    → (get_elem? os i ≡ some p) ⊎ ((i ≡ length os) × (o ≡ p))
get-concat_cases [] o zero h = inr (refl, cc)
get-concat_cases [] o (suc i) h = absurd (cc)
get-concat_cases (x ∷ os) o zero h = inl h
get-concat_cases (x ∷ os) o (suc i) h = elim (get-concat_cases os o i h) [
  | inl old ↦ inl old
  | inr (e, same) ↦ inr (ap suc e, same)
]

-- A delivery that was neither closed nor put on the chain: it holds a slot of its own.
abbrev is_answered : Completion → Bool
is_answered (answered e) = true
is_answered _ = false

abbrev pub delivered : PendingResponse → Bool
delivered o = is_answered o.completion

abbrev pub holds : PendingResponse → ℕ
holds o = if o.gated && (not o.closed && not (delivered o)) then 1 else 0

abbrev pub count_holds : List PendingResponse → ℕ
count_holds [] = 0
count_holds (o ∷ os) = holds o + count_holds os

pub count_holds-modify :
    (os : List PendingResponse) (i : ℕ) (f : PendingResponse → PendingResponse)
    {o : PendingResponse}
    → get_elem? os i ≡ some o
    → count_holds (modify os i f) + holds o ≡ count_holds os + holds (f o)
unfolding modify
count_holds-modify [] i f h = absurd (cc)
count_holds-modify (x ∷ os) zero f {o} h = let e : x ≡ o = cc in rw e (omega arith)
count_holds-modify (x ∷ os) (suc i) f h = omega (arith, count_holds-modify os i f h)

pub count_holds-concat :
    (os : List PendingResponse) (o : PendingResponse)
    → count_holds (os ++ o ∷ []) ≡ count_holds os + holds o
count_holds-concat [] o = omega arith
count_holds-concat (x ∷ os) o = omega (arith, count_holds-concat os o)

pub lookup-remove_key :
    (k j : Bytes) (m : List (Bytes × ℕ))
    → lookup k (remove_key j m) ≡ (if equal j k then none else lookup k m)
unfolding lookup remove_key
lookup-remove_key k j [] = ground arith
lookup-remove_key k j ((h, i) ∷ m) =
    ground (arith, equal_iff h j, equal_iff h k, equal_iff j k, lookup-remove_key k j m)

pub length-remove_key : (j : Bytes) (m : List (Bytes × ℕ)) → length (remove_key j m) ≤ length m
unfolding remove_key
length-remove_key j [] = omega arith
length-remove_key j ((h, i) ∷ m) = ground (arith, length-remove_key j m)

pub lookup-put_key :
    (k j : Bytes) (i : ℕ) (m : List (Bytes × ℕ))
    → lookup k (put_key j i m) ≡ (if equal j k then some i else lookup k m)
unfolding lookup
lookup-put_key k j i m = ground (arith, lookup-remove_key k j m)
