-- ===== src/RequestId/Bounds.antt =====
-- request_id.go: how long a key can be, and when an exponent is taken.
use acp_go_sdk.Base.{
  ℕ, suc, ◌+◌, ◌-◌, ◌*◌, ◌≤◌, ◌≡◌, Bool, true, [], ◌∷◌, ◌++◌, length, replicate, ltb, if◌then◌else◌,
  arith, length-append, length-replicate, take, drop,
}
use acp_go_sdk.Base.Int.{ℤ, pos, negsuc}
use acp_go_sdk.Bytes.{Bytes}
use acp_go_sdk.Result.{ok, err}
use acp_go_sdk.RequestId.Scan.{
  number_too_large, Decimal, max_key_len, parse_bounded_loop, parse_bounded_int, is_ascii_digit,
}
use acp_go_sdk.RequestId.Render.{
  sign_text, render_key, render_stripped, strip_zeros, format_numeric_id,
}

render_key-length :
    (negative : Bool) (digits : Bytes) (e : ℤ) {key : Bytes}
    → render_key negative digits e ≡ ok key
    → length key ≤ max_key_len + length (sign_text negative)
unfolding render_key
render_key-length negative digits (pos e) h = ground arith
render_key-length negative digits (negsuc n) h =
    let k = length digits - suc n in
    let z = suc n - length digits in
    ground (
      arith,
      length-append (sign_text negative) (take k digits ++ (b'.' ∷ drop k digits)),
      length-append (take k digits) (b'.' ∷ drop k digits),
      length-append (sign_text negative) (b'0' ∷ b'.' ∷ (replicate z b'0' ++ digits)),
      length-append (replicate z b'0') digits,
      length-replicate {A = ℕ} z b'0',
    )

render_stripped-length :
    (negative : Bool) (r : Bytes × ℤ) {key : Bytes}
    → render_stripped negative r ≡ ok key
    → length key ≤ max_key_len + length (sign_text negative)
unfolding render_stripped
render_stripped-length negative ([], e) h = ground arith
render_stripped-length negative (d ∷ ds, e) h = render_key-length negative (d ∷ ds) e h

-- A key has at most 4096 bytes, and one more for a minus sign.
pub format_numeric_id-length :
    (d : Decimal) {key : Bytes}
    → format_numeric_id d ≡ ok key
    → length key ≤ max_key_len + length (sign_text d.negative)
unfolding format_numeric_id
format_numeric_id-length d h = render_stripped-length d.negative (strip_zeros d.digits d.exp10) h

-- The number that digits denote, `acc` being what stands before them.
abbrev pub digits_value : ℕ → Bytes → ℕ
digits_value acc [] = acc
digits_value acc (c ∷ cs) = digits_value (acc * 10 + (c - b'0')) cs

abbrev pub AllDigits : Bytes → Type 0
AllDigits [] = Unit {0}
AllDigits (c ∷ cs) = (is_ascii_digit c ≡ true) × AllDigits cs

digits_value-ge : (acc : ℕ) (cs : Bytes) → acc ≤ digits_value acc cs
digits_value-ge acc [] = omega arith
digits_value-ge acc (c ∷ cs) = omega (arith, digits_value-ge (acc * 10 + (c - b'0')) cs)

parse_bounded_loop-value :
    (max acc : ℕ) (cs : Bytes)
    → 9 ≤ max
    → acc ≤ max
    → AllDigits cs
    → parse_bounded_loop max acc cs
      ≡ (if ltb max (digits_value acc cs) then err number_too_large else ok (digits_value acc cs))
unfolding parse_bounded_loop
parse_bounded_loop-value max acc [] h k a = ground arith
parse_bounded_loop-value max acc (c ∷ cs) h k a = ground (
  arith,
  parse_bounded_loop-value max (acc * 10 + (c - b'0')) cs,
  digits_value-ge (acc * 10 + (c - b'0')) cs,
)

-- Digits are read as the number that they denote, and refused exactly when it is above the limit,
-- for any limit of at least 9. The guard `value > (max-digit)/10` loses nothing.
pub parse_bounded_int-value :
    (max c : ℕ) (cs : Bytes)
    → 9 ≤ max
    → AllDigits (c ∷ cs)
    → parse_bounded_int (c ∷ cs) max ≡ (
        if ltb max (digits_value 0 (c ∷ cs))
        then err number_too_large
        else ok (digits_value 0 (c ∷ cs)))
unfolding parse_bounded_int
parse_bounded_int-value max c cs h a = parse_bounded_loop-value max 0 (c ∷ cs) h (omega arith) a
