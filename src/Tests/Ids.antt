-- ===== src/Tests/Ids.antt =====
-- Request ids, frames and options at concrete inputs.
use acp_go_sdk.Base.{
  ◌≤◌, ◌≡◌, ◌≢◌, refl, ◌↔◌, true, false, [], none, some, ◌+◌, length, arith, inr, inl,
}
use acp_go_sdk.Base.Int.{pos, negsuc, ◌+ℤ◌, ◌-ℤ◌}
use acp_go_sdk.Bytes.{codes, trim_space, trim_with, space_width, last_space_width, equal}
use acp_go_sdk.Message.{Json, no_message, unmarshal_message}
use acp_go_sdk.Result.{ok, err}
use acp_go_sdk.RequestId.Scan.{
  index_panic, Decimal, max_key_len, parse_numeric_id, to_decimal, trim_left_zeros,
}
use acp_go_sdk.RequestId.Render.{
  format_numeric_id, sign_text, strip_zeros, strip_loop, render_stripped, render_key,
}
use acp_go_sdk.RequestId.Bounds.{format_numeric_id-length}
use acp_go_sdk.RequestId.Grammar.{Number, exponent, minus, IsNumber, parse_numeric_id-number_text}
use acp_go_sdk.RequestId.ReadBack.{IsDecimal}
use acp_go_sdk.RequestId.Denotation.{Denotes, parse_numeric_id-Denotes}
use acp_go_sdk.RequestId.SameNumber.{SameNumber, format_numeric_id-SameNumber}
use acp_go_sdk.RequestId.Key.{canonical_numeric_id_key_idem}
use acp_go_sdk.RequestId.NoPanic.{canonical_numeric_id_key-NoPanic}
use acp_go_sdk.RequestId.{canonical_numeric_id_key}
use acp_go_sdk.Frame.{
  parse_transport_frame, encode, encode_raw, ends_in_newline, trimmed_frame, decoded_single,
}
use acp_go_sdk.Frame.Relay.{IsFrame, parse_transport_frame-encode, parse_transport_frame-IsFrame}
use acp_go_sdk.Connection.Options.{
  IsUsable, normalize_connection_options-IsUsable, ConnectionOptions, default_connection_options,
  normalize_connection_options, normalize_connection_options_lem, any_negative, with_defaults,
  or_default,
}

-- 1.50, as the reader returns it, and 1.5.
abbrev padded : Decimal
padded = record { negative = false; digits = codes "150"; exp10 = negsuc 1 }

abbrev short : Decimal
short = record { negative = false; digits = codes "15"; exp10 = negsuc 0 }

abbrev tiny : Number
tiny = record {
  negative = true;
  int_part = codes "12";
  fraction = codes "50";
  exp = exponent b'e' minus (codes "3");
}

tiny-IsNumber : IsNumber tiny
tiny-IsNumber = record {
  int_ok = inr (refl, (refl, tt));
  fraction_ok = (refl, (refl, tt));
  exp_ok = (inl refl, tt, (refl, tt));
}

padded-IsDecimal : IsDecimal padded
padded-IsDecimal = record {
  digits_ok = (refl, (refl, (refl, tt)));
  leading_ok = refl;
  bounded = omega arith;
}

short-IsDecimal : IsDecimal short
short-IsDecimal = record {
  digits_ok = (refl, (refl, tt));
  leading_ok = refl;
  bounded = omega arith;
}

format_numeric_id-padded : format_numeric_id padded ≡ ok (codes "1.5")
unfolding format_numeric_id strip_zeros strip_loop render_stripped render_key ◌+ℤ◌
format_numeric_id-padded = refl

format_numeric_id-length_example : length (codes "1.5") ≤ max_key_len + length (sign_text false)
format_numeric_id-length_example = format_numeric_id-length padded format_numeric_id-padded

parse_numeric_id-tiny :
    parse_numeric_id (codes "-12.50e-3")
    ≡ ok (record { negative = true; digits = codes "1250"; exp10 = negsuc 4 })
unfolding to_decimal trim_left_zeros ◌-ℤ◌
parse_numeric_id-tiny = parse_numeric_id-number_text tiny tiny-IsNumber

parse_numeric_id-Denotes_example : Denotes tiny (parse_numeric_id (codes "-12.50e-3"))
parse_numeric_id-Denotes_example = parse_numeric_id-Denotes tiny tiny-IsNumber

format_numeric_id-SameNumber_example :
    (format_numeric_id short ≡ ok (codes "1.5")) ↔ SameNumber padded short
format_numeric_id-SameNumber_example =
    format_numeric_id-SameNumber padded short padded-IsDecimal short-IsDecimal
      format_numeric_id-padded

canonical_numeric_id_key-run : canonical_numeric_id_key (codes "1.50e1") ≡ ok (codes "15")
unfolding canonical_numeric_id_key ◌+ℤ◌ ◌-ℤ◌
canonical_numeric_id_key-run = refl

canonical_numeric_id_key_idem_example : canonical_numeric_id_key (codes "15") ≡ ok (codes "15")
canonical_numeric_id_key_idem_example =
    canonical_numeric_id_key_idem (codes "1.50e1") canonical_numeric_id_key-run

canonical_numeric_id_key-NoPanic_example : canonical_numeric_id_key (codes "-") ≢ err index_panic
canonical_numeric_id_key-NoPanic_example = canonical_numeric_id_key-NoPanic (codes "-")

-- A decoder that takes the one text {} for an empty object.
abbrev braces : Json
braces = record {
  valid = equal (codes "{}");
  decode_wire = λ s. some no_message;
  decode_fields = λ s. some [];
  decode_elements = λ s. none;
}

encode-run : encode (parse_transport_frame braces (codes " {}\r\n")) ≡ ok (codes "{}\n")
unfolding encode encode_raw ends_in_newline parse_transport_frame trimmed_frame decoded_single
    trim_space trim_with space_width last_space_width equal unmarshal_message
encode-run = refl

parse_transport_frame-encode_example :
    parse_transport_frame braces (codes "{}\n") ≡ parse_transport_frame braces (codes " {}\r\n")
parse_transport_frame-encode_example =
    parse_transport_frame-encode braces (codes " {}\r\n") encode-run

parse_transport_frame-IsFrame_example :
    IsFrame braces (trim_space (codes "[1]")) (parse_transport_frame braces (codes "[1]"))
parse_transport_frame-IsFrame_example = parse_transport_frame-IsFrame braces (codes "[1]")

abbrev mostly_default : ConnectionOptions
mostly_default = record default_connection_options {
  max_frame_size = pos 0;
  max_queued_requests = pos 2;
}

abbrev small_queue : ConnectionOptions
small_queue = record default_connection_options { max_queued_requests = pos 2 }

normalize_connection_options-run : normalize_connection_options mostly_default ≡ ok small_queue
unfolding any_negative with_defaults or_default
normalize_connection_options-run = normalize_connection_options_lem mostly_default

normalize_connection_options-IsUsable_example : IsUsable small_queue
normalize_connection_options-IsUsable_example =
    normalize_connection_options-IsUsable mostly_default normalize_connection_options-run
