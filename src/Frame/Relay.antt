-- ===== src/Frame/Relay.antt =====
-- frame.go: what a parsed frame looks like, and that a relay may parse, encode and parse again.
use acp_go_sdk.Base.{
  subst, Bool, ℕ, length, Bool-cases, ◌≤◌, ◌≡◌, refl, sym, ap, ◌∙◌, ◌⊎◌, inl, inr, true, false,
  List, [], ◌∷◌, Option, none, some, map, arith, ◌==◌,
}
use acp_go_sdk.Bytes.{Bytes, trim_space}
use acp_go_sdk.Bytes.Trim.{IsTrimmed, trim_space-IsTrimmed, trim_space_id, trim_space-newline}
use acp_go_sdk.Error.{new_parse_error, no_data, new_invalid_request}
use acp_go_sdk.Message.{Json, AnyMessage, unmarshal_message}
use acp_go_sdk.Frame.{
  malformed, FrameKind, kind_single, kind_batch, kind_malformed, unknown_kind, BatchEntry,
  TransportFrame, decoded_entry, refused_entry, trimmed_entry, parse_batch_entry, decoded_single,
  decoded_batch, trimmed_frame, parse_transport_frame, encode_raw, encode,
}
use acp_go_sdk.Result.{ok}

decoded_single-raw : (s : Bytes) (m : Option AnyMessage) → (decoded_single s m).raw ≡ s
unfolding decoded_single
decoded_single-raw s none = refl
decoded_single-raw s (some m) = refl

decoded_batch-raw :
    (json : Json) (s : Bytes) (es : Option (List Bytes)) → (decoded_batch json s es).raw ≡ s
unfolding decoded_batch
decoded_batch-raw json s none = refl
decoded_batch-raw json s (some []) = refl
decoded_batch-raw json s (some (e ∷ es)) = refl

trimmed_frame-raw : (json : Json) (s : Bytes) → (trimmed_frame json s).raw ≡ s
unfolding trimmed_frame
trimmed_frame-raw json [] = refl
trimmed_frame-raw json (c ∷ cs) = ground (
  arith,
  decoded_single-raw (c ∷ cs) (unmarshal_message json (c ∷ cs)),
  decoded_batch-raw json (c ∷ cs) (json.decode_elements (c ∷ cs)),
)

encode_raw-trim :
    (s : Bytes) {line : Bytes} → IsTrimmed s → encode_raw s ≡ ok line → trim_space line ≡ s
unfolding encode_raw
encode_raw-trim [] t h = absurd (cc)
encode_raw-trim (c ∷ cs) t h =
    ground (arith, trim_space_id (c ∷ cs) t, trim_space-newline (c ∷ cs) t)

parse_transport_frame-line :
    (json : Json) (s : Bytes) {line : Bytes}
    → IsTrimmed s
    → encode (trimmed_frame json s) ≡ ok line
    → parse_transport_frame json line ≡ trimmed_frame json s
unfolding parse_transport_frame encode
parse_transport_frame-line json s t h =
    ap (trimmed_frame json)
      (encode_raw-trim s t (sym (ap encode_raw (trimmed_frame-raw json s)) ∙ h))

-- A frame that is read, written as a line and read again is the same frame, of any kind and with
-- the same bytes.
pub parse_transport_frame-encode :
    (json : Json) (raw : Bytes) {line : Bytes}
    → encode (parse_transport_frame json raw) ≡ ok line
    → parse_transport_frame json line ≡ parse_transport_frame json raw
unfolding parse_transport_frame
parse_transport_frame-encode json raw h =
    parse_transport_frame-line json (trim_space raw) (trim_space-IsTrimmed raw) h

abbrev pub starts_with : Bytes → ℕ → Bool
starts_with [] c = false
starts_with (d ∷ ds) c = d == c

-- The entry of a trimmed element: an object that can be decoded, with what it is decoded to, or
-- anything else with the error of an invalid request.
abbrev pub IsEntry : Json → Bytes → BatchEntry → Type 0
IsEntry json t e =
    (e.raw ≡ t)
    × (((starts_with t b'{' ≡ true)
          × (unmarshal_message json t ≡ some e.msg)
          × (e.is_ok ≡ true)
          × (e.error ≡ none))
        ⊎ (((starts_with t b'{' ≡ false) ⊎ (unmarshal_message json t ≡ none))
            × (e.is_ok ≡ false)
            × (e.error ≡ some (new_invalid_request no_data))))

abbrev pub AreEntries : Json → List Bytes → List BatchEntry → Type 0
AreEntries json [] [] = Unit {0}
AreEntries json (t ∷ ts) (e ∷ es) = IsEntry json (trim_space t) e × AreEntries json ts es
AreEntries json [] (e ∷ es) = ⊥
AreEntries json (t ∷ ts) [] = ⊥

-- Why a text is no frame: it is not valid JSON or cannot be decoded, which is a parse error, or it
-- is the empty batch or neither an object nor an array, which is an invalid request.
abbrev pub CannotParse : Json → Bytes → Type 0
CannotParse json t =
    (t ≡ [])
    ⊎ (json.valid t ≡ false)
    ⊎ ((starts_with t b'{' ≡ true) × (unmarshal_message json t ≡ none))
    ⊎ ((starts_with t b'[' ≡ true) × (json.decode_elements t ≡ none))

abbrev pub IsNoFrame : Json → Bytes → Type 0
IsNoFrame json t =
    (json.valid t ≡ true)
    × (((starts_with t b'[' ≡ true) × (json.decode_elements t ≡ some []))
        ⊎ ((starts_with t b'{' ≡ false) × (starts_with t b'[' ≡ false)))

abbrev pub IsSingle : Json → Bytes → TransportFrame → Type 0
IsSingle json t f =
    (json.valid t ≡ true)
    × (starts_with t b'{' ≡ true)
    × (unmarshal_message json t ≡ some f.single)
    × (f.error ≡ none)
    × (f.entries ≡ [])

abbrev pub IsBatch : Json → Bytes → TransportFrame → Type 0
IsBatch json t f =
    (json.valid t ≡ true)
    × (starts_with t b'[' ≡ true)
    × (1 ≤ length f.entries)
    × (f.error ≡ none)
    × ((elements : List Bytes) × (json.decode_elements t ≡ some elements)
        × AreEntries json elements f.entries)

abbrev pub IsMalformed : Json → Bytes → TransportFrame → Type 0
IsMalformed json t f =
    (f.entries ≡ [])
    × (((f.error ≡ some (new_parse_error no_data)) × CannotParse json t)
        ⊎ ((f.error ≡ some (new_invalid_request no_data)) × IsNoFrame json t))

-- What a frame is of the text without the white space around it.
abbrev pub IsFrame : Json → Bytes → TransportFrame → Type 0
IsFrame json t f = (f.raw ≡ t) × IsKind f.kind
  where
    IsKind : FrameKind → Type 0
    IsKind kind_single = IsSingle json t f
    IsKind kind_batch = IsBatch json t f
    IsKind kind_malformed = IsMalformed json t f
    IsKind unknown_kind = ⊥

module _ (json : Json) where
  decoded_entry-IsEntry :
      (t : Bytes) (m : Option AnyMessage)
      → starts_with t b'{' ≡ true
      → unmarshal_message json t ≡ m
      → IsEntry json t (decoded_entry t m)
  unfolding decoded_entry refused_entry
  decoded_entry-IsEntry t none h d = (refl, inr (inr d, refl, refl))
  decoded_entry-IsEntry t (some m) h d = (refl, inl (h, d, refl, refl))

  trimmed_entry-IsEntry : (t : Bytes) → IsEntry json t (trimmed_entry json t)
  unfolding trimmed_entry refused_entry
  trimmed_entry-IsEntry [] = (refl, inr (inl refl, refl, refl))
  trimmed_entry-IsEntry (c ∷ cs) = elim (Bool-cases (c == b'{')) [
    | inl object ↦
        subst (IsEntry json (c ∷ cs)) (rw object refl)
          (decoded_entry-IsEntry (c ∷ cs) (unmarshal_message json (c ∷ cs)) object refl)
    | inr other ↦ subst (IsEntry json (c ∷ cs)) (rw other refl) (the_refused (c ∷ cs) other)
  ]
    where
      the_refused : (t : Bytes) → starts_with t b'{' ≡ false → IsEntry json t (refused_entry t)
      the_refused t h = (refl, inr (inl h, refl, refl))

  entries-AreEntries : (ts : List Bytes) → AreEntries json ts (map (parse_batch_entry json) ts)
  unfolding parse_batch_entry
  entries-AreEntries [] = tt
  entries-AreEntries (t ∷ ts) = (trimmed_entry-IsEntry (trim_space t), entries-AreEntries ts)

  module _ (t : Bytes) (good : json.valid t ≡ true) where
    decoded_single-IsFrame :
        (m : Option AnyMessage)
        → starts_with t b'{' ≡ true
        → unmarshal_message json t ≡ m
        → IsFrame json t (decoded_single t m)
    unfolding decoded_single
    decoded_single-IsFrame none h d = (refl, (refl, inl (refl, inr (inr (inl (h, d))))))
    decoded_single-IsFrame (some m) h d = (refl, (good, h, d, refl, refl))

    decoded_batch-IsFrame :
        (elements : Option (List Bytes))
        → starts_with t b'[' ≡ true
        → json.decode_elements t ≡ elements
        → IsFrame json t (decoded_batch json t elements)
    unfolding decoded_batch
    decoded_batch-IsFrame none h d = (refl, (refl, inl (refl, inr (inr (inr (h, d))))))
    decoded_batch-IsFrame (some []) h d = (refl, (refl, inr (refl, (good, inl (h, d)))))
    decoded_batch-IsFrame (some (e ∷ es)) h d =
        (refl, (good, h, omega arith, refl, (e ∷ es, d, entries-AreEntries (e ∷ es))))

  trimmed_frame-IsFrame : (t : Bytes) → IsFrame json t (trimmed_frame json t)
  unfolding trimmed_frame
  trimmed_frame-IsFrame [] = (refl, (refl, inl (refl, inl refl)))
  trimmed_frame-IsFrame (c ∷ cs) = elim (Bool-cases (json.valid (c ∷ cs))) [
    | inr bad ↦
        to_goal {f = malformed (c ∷ cs) (new_parse_error no_data)} (rw bad refl)
          (refl, (refl, inl (refl, inr (inl bad))))
    | inl good ↦ elim (Bool-cases (c == b'{')) [
      | inl object ↦
          to_goal (rw (good, object) refl)
            (decoded_single-IsFrame (c ∷ cs) good (unmarshal_message json (c ∷ cs)) object refl)
      | inr no_object ↦ elim (Bool-cases (c == b'[')) [
        | inl array ↦
            to_goal (rw (good, no_object, array) refl)
              (decoded_batch-IsFrame (c ∷ cs) good (json.decode_elements (c ∷ cs)) array refl)
        | inr no_array ↦
            to_goal {f = malformed (c ∷ cs) (new_invalid_request no_data)}
              (rw (good, no_object, no_array) refl)
              (refl, (refl, inr (refl, (good, inr (no_object, no_array)))))
      ]
    ]
  ]
    where
      to_goal :
          {f : TransportFrame}
          → f ≡ trimmed_frame json (c ∷ cs)
          → IsFrame json (c ∷ cs) f
          → IsFrame json (c ∷ cs) (trimmed_frame json (c ∷ cs))
      to_goal e h = subst (IsFrame json (c ∷ cs)) e h

-- Every text parses to a frame of a known kind, with the text that is left without the white space
-- around it. A single message is a valid object with what it is decoded to, and a batch a valid
-- array with at least one entry, each decoded to its message or refused as an invalid request,
-- by its own text. Any other text is malformed: with a parse error where it is empty, not valid or
-- cannot be decoded, and as an invalid request where it is an empty array or neither.
pub parse_transport_frame-IsFrame :
    (json : Json) (raw : Bytes) → IsFrame json (trim_space raw) (parse_transport_frame json raw)
unfolding parse_transport_frame
parse_transport_frame-IsFrame json raw = trimmed_frame-IsFrame json (trim_space raw)
