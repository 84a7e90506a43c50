-- ===== src/RequestId/Render.antt =====
-- request_id.go, formatCanonicalJSONRPCNumericID: the text of a decimal without exponent.
use acp_go_sdk.Base.{
  ℕ, suc, ◌+◌, ◌-◌, Bool, true, false, [], ◌∷◌, ◌++◌, reverse, length, take, drop, replicate, ltb,
  ◌==◌, if◌then◌else◌,
}
use acp_go_sdk.Base.Int.{ℤ, pos, negsuc, ◌+ℤ◌}
use acp_go_sdk.Bytes.{Bytes, codes}
use acp_go_sdk.Result.{◌>>=◌, Result, ok, err}
use acp_go_sdk.RequestId.Scan.{index_panic, IdError, number_too_large, Decimal, max_key_len}

-- The loop that takes zeros off the end, on the digits held last first.
unfoldable pub strip_loop : Bytes → ℤ → Bytes × ℤ
strip_loop [] e = ([], e)
strip_loop (c ∷ cs) e =
    let rest = strip_loop cs (e +ℤ pos 1) in if c == b'0' then rest else (c ∷ cs, e)

unfoldable pub strip_zeros : Bytes → ℤ → Bytes × ℤ
strip_zeros digits e = let (r, e') = strip_loop (reverse digits) e in (reverse r, e')

abbrev pub sign_text : Bool → Bytes
sign_text true = b'-' ∷ []
sign_text false = []

-- strings.Repeat("0", n).
abbrev pub zeros : ℕ → Bytes
zeros n = replicate n b'0'

-- digits[:len(digits)-scale] and digits[len(digits)-scale:]; a negative index panics.
abbrev pub split_digits : Bytes → ℕ → Result IdError (Bytes × Bytes)
split_digits digits scale =
    if ltb (length digits) scale
    then err index_panic
    else ok (take (length digits - scale) digits, drop (length digits - scale) digits)

-- strings.Repeat("0", leadingZeros), which panics for a negative count; leadingZeros is
-- scale - len(digits).
abbrev pub zeros_before : Bytes → ℕ → Result IdError Bytes
zeros_before digits scale =
    if ltb scale (length digits) then err index_panic else ok (zeros (scale - length digits))

-- The text of digits that end in no zero. A test `a > b - c` of signed numbers is written
-- `b < a + c`, where `leadingZeros + len(digits)` is `scale`.
unfoldable pub render_key : Bool → Bytes → ℤ → Result IdError Bytes
render_key negative digits (pos e) =
    let result = sign_text negative ++ (digits ++ zeros e) in
    if ltb max_key_len (e + length digits)
    then err number_too_large
    else if ltb (max_key_len + length (sign_text negative)) (length result)
    then err number_too_large
    else ok result
render_key negative digits (negsuc n) =
    let scale = suc n in
    if ltb max_key_len scale
    then err number_too_large
    else if ltb scale (length digits)
    then (split_digits digits scale >>= λ parts.
        if ltb max_key_len (length parts.0 + 1 + length parts.1)
        then err number_too_large
        else ok (sign_text negative ++ (parts.0 ++ (b'.' ∷ parts.1))))
    else if ltb max_key_len (scale + 2)
    then err number_too_large
    else (zeros_before digits scale >>= λ front.
        ok (sign_text negative ++ (b'0' ∷ b'.' ∷ (front ++ digits))))

unfoldable pub render_stripped : Bool → Bytes × ℤ → Result IdError Bytes
render_stripped negative ([], e) = ok (codes "0")
render_stripped negative (d ∷ ds, e) = render_key negative (d ∷ ds) e

unfoldable pub format_numeric_id : Decimal → Result IdError Bytes
format_numeric_id d = render_stripped d.negative (strip_zeros d.digits d.exp10)
