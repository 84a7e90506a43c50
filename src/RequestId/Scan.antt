-- ===== src/RequestId/Scan.antt =====
-- request_id.go, parseJSONRPCNumericID: the text of a number is read into a sign, digits and a power
-- of ten. A position in the text is held as the rest of the text from there.
use acp_go_sdk.Base.{
  ℕ, ◌+◌, ◌-◌, ◌*◌, ◌/◌, Bool, true, false, ◌||◌, [], ◌∷◌, ◌++◌, length, ltb, ◌==◌, if◌then◌else◌,
}
use acp_go_sdk.Base.Int.{ℤ, pos, ◌-ℤ◌, sub_ℕ}
use acp_go_sdk.Bytes.{Bytes, within}
use acp_go_sdk.Result.{Result, ok, err, ◌>>=◌, ◌>>◌, guard}

-- maxCanonicalJSONRPCIDKeyLen and maxCanonicalJSONRPCIDAbsExp10.
abbrev pub max_key_len : ℕ
max_key_len = 4096

abbrev pub max_abs_exp10 : ℕ
max_abs_exp10 = 4096

-- `index_panic` stands for an index out of range, which Go reports by a panic.
pub data IdError : Type 0 where
  empty_id undecodable trailing_data trailing_failure not_scalar unencodable : IdError
  invalid_number number_too_large index_panic : IdError

abbrev pub is_ascii_digit : ℕ → Bool
is_ascii_digit c = within b'0' b'9' c

unfoldable pub parse_bounded_loop : ℕ → ℕ → Bytes → Result IdError ℕ
parse_bounded_loop max value [] = ok value
parse_bounded_loop max value (c ∷ cs) =
    let digit = c - b'0' in
    let rest = parse_bounded_loop max (value * 10 + digit) cs in
    if is_ascii_digit c
    then (if ltb ((max - digit) / 10) value then err number_too_large else rest)
    else err invalid_number

unfoldable pub parse_bounded_int : Bytes → ℕ → Result IdError ℕ
parse_bounded_int [] max = err invalid_number
parse_bounded_int (c ∷ cs) max = parse_bounded_loop max 0 (c ∷ cs)

-- The digits at the front, and what follows them.
unfoldable pub span_digits : Bytes → Bytes × Bytes
span_digits [] = ([], [])
span_digits (c ∷ cs) =
    let (ds, rest) = span_digits cs in if is_ascii_digit c then (c ∷ ds, rest) else ([], c ∷ cs)

abbrev starts_with_digit : Bytes → Bool
starts_with_digit [] = false
starts_with_digit (c ∷ cs) = is_ascii_digit c

-- The optional minus sign.
unfoldable pub scan_sign : Bytes → Result IdError (Bool × Bytes)
scan_sign [] = err index_panic
scan_sign (c ∷ []) = if c == b'-' then err invalid_number else ok (false, c ∷ [])
scan_sign (c ∷ d ∷ cs) = if c == b'-' then ok (true, d ∷ cs) else ok (false, c ∷ d ∷ cs)

-- The integer part: a lone 0, or digits that begin with another.
unfoldable pub scan_int : Bytes → Result IdError (Bytes × Bytes)
scan_int [] = err index_panic
scan_int (c ∷ cs) =
    if c == b'0'
    then (if starts_with_digit cs then err invalid_number else ok (c ∷ [], cs))
    else if within b'1' b'9' c
    then ok (span_digits (c ∷ cs))
    else err invalid_number

unfoldable pub nonempty_digits : Bytes × Bytes → Result IdError (Bytes × Bytes)
nonempty_digits ([], rest) = err invalid_number
nonempty_digits (d ∷ ds, rest) = ok (d ∷ ds, rest)

-- The optional fraction.
unfoldable pub scan_frac : Bytes → Result IdError (Bytes × Bytes)
scan_frac [] = ok ([], [])
scan_frac (c ∷ cs) = if c == b'.' then nonempty_digits (span_digits cs) else ok ([], c ∷ cs)

-- The optional sign of an exponent, true for a minus.
unfoldable pub scan_exp_sign : Bytes → Result IdError (Bool × Bytes)
scan_exp_sign [] = err invalid_number
scan_exp_sign (c ∷ []) = if c == b'+' || c == b'-' then err invalid_number else ok (false, c ∷ [])
scan_exp_sign (c ∷ d ∷ cs) =
    if c == b'+' || c == b'-' then ok (c == b'-', d ∷ cs) else ok (false, c ∷ d ∷ cs)

abbrev pub signed : Bool → ℕ → ℤ
signed true n = sub_ℕ 0 n
signed false n = pos n

unfoldable pub scan_magnitude : Bool → Bytes → Result IdError (ℤ × Bytes)
scan_magnitude minus cs = do
  (ds, rest) ← nonempty_digits (span_digits cs)
  magnitude ← parse_bounded_int ds max_abs_exp10
  ok (signed minus magnitude, rest)

-- The optional exponent, 0 if there is none.
unfoldable pub scan_exp : Bytes → Result IdError (ℤ × Bytes)
scan_exp [] = ok (pos 0, [])
scan_exp (c ∷ cs) =
    if c == b'e' || c == b'E'
    then (do (minus, digits) ← scan_exp_sign cs; scan_magnitude minus digits)
    else ok (pos 0, c ∷ cs)

unfoldable pub at_end : Bytes → Bool
at_end [] = true
at_end (c ∷ cs) = false

-- strings.TrimLeft(_, "0").
unfoldable pub trim_left_zeros : Bytes → Bytes
trim_left_zeros [] = []
trim_left_zeros (c ∷ cs) = if c == b'0' then trim_left_zeros cs else c ∷ cs

pub record Decimal : Type 0 where
  pub negative : Bool
  pub digits : Bytes
  pub exp10 : ℤ

unfoldable pub to_decimal : Bool → Bytes → ℕ → ℤ → Result IdError Decimal
to_decimal negative [] places exponent =
    ok (record { negative = false; digits = []; exp10 = pos 0 })
to_decimal negative (d ∷ ds) places exponent =
    if ltb max_key_len (length (d ∷ ds))
    then err number_too_large
    else ok (record { negative = negative; digits = d ∷ ds; exp10 = exponent -ℤ pos places })

unfoldable pub parse_numeric_id : Bytes → Result IdError Decimal
parse_numeric_id raw = do
  (negative, after_sign) ← scan_sign raw
  (int_digits, after_int) ← scan_int after_sign
  (frac_digits, after_frac) ← scan_frac after_int
  (exponent, rest) ← scan_exp after_frac
  guard (at_end rest) invalid_number
  to_decimal negative (trim_left_zeros (int_digits ++ frac_digits)) (length frac_digits) exponent
