-- ===== src/Json.antt =====
-- What the code relies on of encoding/json, a library outside the repository. Its decoder and
-- encoder are parameters of the definitions that use them.
use acp_go_sdk.Base.{Option}
use acp_go_sdk.Bytes.{Bytes}

-- What an `any` holds after a decoder with UseNumber has read one value: a nil, a string, the text
-- of a number, or a value of another kind (bool, array, object).
pub data Scalar : Type 0 where
  null : Scalar
  text : Bytes → Scalar
  number : Bytes → Scalar
  other : Scalar

-- The outcome of the next call of Decode: io.EOF, another value, or a failure.
pub data Trailing : Type 0 where
  eof another_value failure : Trailing

pub record IdCodec : Type 0 where
  -- The first value of the input with the outcome of a second Decode, or a failure.
  pub decode : Bytes → Option (Scalar × Trailing)
  -- json.Marshal of a string.
  pub marshal_text : Bytes → Option Bytes
