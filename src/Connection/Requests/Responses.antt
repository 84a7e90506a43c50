-- ===== src/Connection/Requests/Responses.antt =====
-- connection.go, handleResponse: which responses are taken.
use acp_go_sdk.Base.{
  Bool, ℕ, ◌≡◌, ◌⊎◌, refl, sym, true, false, not, ◌&&◌, Option, none, some, ◌==◌, ==_iff, arith,
  Bool-cases, inl, inr, subst,
}
use acp_go_sdk.Bytes.{Bytes}
use acp_go_sdk.Message.{lookup}
use acp_go_sdk.Connection.Requests.State.{PendingResponse, Requests, modify, object}
use acp_go_sdk.Connection.Requests.Heap.{get-modify_self, get-modify_ne}
use acp_go_sdk.Connection.Requests.{claim_response, claim_object}

-- The request `i` is registered under the key, was admitted to the writer and has no response.
abbrev pub Awaits : Requests → Bytes → ℕ → Type 0
Awaits r key i =
    (lookup key r.pending ≡ some i)
    × ((o : PendingResponse) × (object r i ≡ some o) × (o.admitted ≡ true) × (o.responded ≡ false))

-- No request awaits it: none is registered under the key, or the one that is was not admitted or
-- has its response.
abbrev pub NoneAwaits : Requests → Bytes → Type 0
NoneAwaits r key =
    (lookup key r.pending ≡ none)
    ⊎ ((i : ℕ) × (lookup key r.pending ≡ some i)
        × ((object r i ≡ none)
            ⊎ ((o : PendingResponse) × (object r i ≡ some o)
                × ((o.admitted ≡ false) ⊎ (o.responded ≡ true)))))

-- The request `i` has its response, and nothing else is different.
abbrev pub Responds : Requests → ℕ → Requests → Type 0
Responds r i r' =
    (r' ≡ record r { objects = r'.objects })
    × ((o : PendingResponse) × (object r i ≡ some o)
        × (object r' i ≡ some (record o { responded = true })))
    × ((j : ℕ) → (j ≡ i) ⊎ (object r' j ≡ object r j))

abbrev pub IsClaim : Requests → Bytes → Requests × Option ℕ → Type 0
IsClaim r key (r', none) = NoneAwaits r key × (r' ≡ r)
IsClaim r key (r', some i) = Awaits r key i × Responds r i r'

module _ (r : Requests) (key : Bytes) where
  claim_object-IsClaim :
      (i : ℕ) (found : Option PendingResponse)
      → lookup key r.pending ≡ some i
      → object r i ≡ found
      → IsClaim r key (claim_object r i found)
  unfolding claim_object
  claim_object-IsClaim i none e at = (inr (i, e, inl at), refl)
  claim_object-IsClaim i (some o) e at = elim (Bool-cases (o.admitted && not o.responded)) [
    | inr idle ↦
        let c : claim_object r i (some o) ≡ (r, none) = rw idle refl in
        subst (IsClaim r key) (sym c) (inr (i, e, inr (o, at, why o.admitted idle)), refl)
    | inl ready ↦
        let answered = λ (p : PendingResponse). record p { responded = true } in
        let c : claim_object r i (some o)
            ≡ (record r { objects = modify r.objects i answered }, some i) =
          rw ready refl in
        subst (IsClaim r key) (sym c) (
          (e, (o, at, ground arith, ground arith)),
          (
            refl,
            (o, at, get-modify_self r.objects i answered at),
            λ j. elim (Bool-cases (i == j)) [
              | inl same ↦ inl (sym ((==_iff i j).0 same))
              | inr other ↦ inr (
                  get-modify_ne r.objects i j answered
                    (λ q. absurd (ground (arith, (==_iff i j).1 q))))
            ],
          ),
        )
  ]
    where
      why :
          (admitted : Bool)
          → admitted && not o.responded ≡ false
          → (admitted ≡ false) ⊎ (o.responded ≡ true)
      why false h = inl refl
      why true h = inr (ground arith)

  lookup-IsClaim :
      (found : Option ℕ) → lookup key r.pending ≡ found → IsClaim r key (claim_response r key)
  unfolding claim_response
  lookup-IsClaim none e =
      let c : claim_response r key ≡ (r, none) = rw (e, claim_response) refl in
      subst (IsClaim r key) (sym c) (inl e, refl)
  lookup-IsClaim (some i) e =
      let c : claim_response r key ≡ claim_object r i (object r i) = rw (e, claim_response) refl in
      subst (IsClaim r key) (sym c) (claim_object-IsClaim i (object r i) e refl)

-- A response is taken exactly by a request that is registered under its id, was admitted to the
-- writer and has no response yet; that request then has one, and all else is as it was. Any other
-- response, for an id that is not registered too, leaves the state as it is.
pub claim_response-IsClaim : (r : Requests) (key : Bytes) → IsClaim r key (claim_response r key)
claim_response-IsClaim r key = lookup-IsClaim r key (lookup key r.pending) refl
