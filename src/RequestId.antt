-- ===== src/RequestId.antt =====
-- request_id.go: the canonical key by which the connection tells JSON-RPC request ids apart. Scan
-- reads the text of a number, Render writes it; the other children prove what the keys are good for.
pub mod Scan
pub mod Render
pub mod Bounds
pub mod Digits
pub mod Grammar
pub mod Denotation
pub mod ReadBack
pub mod Canonical
pub mod SameNumber
pub mod Key
pub mod NoPanic
use acp_go_sdk.Base.{◌≡◌, refl, [], ◌∷◌, Option, none, some}
use acp_go_sdk.Base.Int.{◌+ℤ◌, ◌-ℤ◌}
use acp_go_sdk.Bytes.{Bytes, codes, trim_space, trim_with, space_width, last_space_width}
use acp_go_sdk.Json.{
  Scalar, Trailing, IdCodec, null, text, number, other, eof, another_value, failure,
}
use acp_go_sdk.Result.{Result, ok, err, ◌>>=◌}
use Scan.{
  IdError, empty_id, undecodable, trailing_data, trailing_failure, not_scalar, unencodable,
  invalid_number, parse_numeric_id, scan_sign, scan_int, scan_frac, scan_exp, scan_exp_sign,
  scan_magnitude, span_digits, nonempty_digits, parse_bounded_int, parse_bounded_loop, at_end,
  trim_left_zeros, to_decimal,
}
use Render.{format_numeric_id, strip_zeros, strip_loop, render_stripped, render_key}

unfoldable pub format_or_fail : Bytes → Result IdError Bytes
format_or_fail [] = err invalid_number
format_or_fail (c ∷ cs) = do d ← parse_numeric_id (c ∷ cs); format_numeric_id d

unfoldable pub canonical_numeric_id_key : Bytes → Result IdError Bytes
unfolding format_or_fail trim_space trim_with space_width last_space_width parse_numeric_id
    scan_sign scan_int scan_frac scan_exp scan_exp_sign scan_magnitude span_digits nonempty_digits
    parse_bounded_int parse_bounded_loop at_end trim_left_zeros to_decimal format_numeric_id
    strip_zeros strip_loop render_stripped render_key
canonical_numeric_id_key v = format_or_fail (trim_space v)

some_or_fail : Option Bytes → IdError → Result IdError Bytes
some_or_fail none e = err e
some_or_fail (some b) e = ok b

scalar_key : IdCodec → Scalar → Result IdError Bytes
unfolding canonical_numeric_id_key some_or_fail
scalar_key json null = ok (codes "null")
scalar_key json (text s) = some_or_fail (json.marshal_text s) unencodable
scalar_key json (number v) = canonical_numeric_id_key v
scalar_key json other = err not_scalar

decoded_key : IdCodec → Option (Scalar × Trailing) → Result IdError Bytes
unfolding scalar_key
decoded_key json none = err undecodable
decoded_key json (some (id, another_value)) = err trailing_data
decoded_key json (some (id, failure)) = err trailing_failure
decoded_key json (some (id, eof)) = scalar_key json id

nonempty_key : IdCodec → Bytes → Result IdError Bytes
unfolding decoded_key
nonempty_key json [] = err empty_id
nonempty_key json (c ∷ cs) = decoded_key json (json.decode (c ∷ cs))

unfoldable pub canonical_id_key : IdCodec → Bytes → Result IdError Bytes
unfolding nonempty_key trim_space trim_with space_width last_space_width
canonical_id_key json raw = nonempty_key json (trim_space raw)

key_of_decimal : canonical_numeric_id_key (codes "-012.340e+2") ≡ err invalid_number
unfolding canonical_numeric_id_key
key_of_decimal = refl

key_of_scaled :
    (canonical_numeric_id_key (codes "-12.340e-2") ≡ ok (codes "-0.1234"))
    × (canonical_numeric_id_key (codes "1.50E2") ≡ ok (codes "150"))
    × (canonical_numeric_id_key (codes "-0.0e9") ≡ ok (codes "0"))
unfolding canonical_numeric_id_key ◌+ℤ◌ ◌-ℤ◌
key_of_scaled = (refl, refl, refl)
