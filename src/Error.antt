-- ===== src/Error.antt =====
-- errors.go: JSON-RPC error objects.
use acp_go_sdk.Base.{ℕ, List}
use acp_go_sdk.Base.Int.{ℤ, negsuc}
use acp_go_sdk.Bytes.{Bytes, codes}

-- `Data any`: nil, a map of one key to a string, the versions that a peer asked for and those that
-- are supported, or a value that a peer or a handler has chosen.
pub data ErrorData : Type 0 where
  no_data : ErrorData
  entry : Bytes → Bytes → ErrorData
  versions : (requested : ℕ) (supported : List ℕ) → ErrorData
  value : Bytes → ErrorData

pub record RequestError : Type 0 where
  pub code : ℤ
  pub message : Bytes
  pub details : ErrorData

-- `negsuc n` is -(n + 1).
abbrev pub new_parse_error : ErrorData → RequestError
new_parse_error d = record { code = negsuc 32699; message = codes "Parse error"; details = d }

abbrev pub new_invalid_request : ErrorData → RequestError
new_invalid_request d = record {
  code = negsuc 32599;
  message = codes "Invalid request";
  details = d;
}

abbrev pub new_method_not_found : Bytes → RequestError
new_method_not_found method = record {
  code = negsuc 32600;
  message = codes "Method not found";
  details = entry (codes "method") method;
}

abbrev pub new_invalid_params : ErrorData → RequestError
new_invalid_params d = record { code = negsuc 32601; message = codes "Invalid params"; details = d }

abbrev pub new_internal_error : ErrorData → RequestError
new_internal_error d = record { code = negsuc 32602; message = codes "Internal error"; details = d }

abbrev pub new_request_cancelled : ErrorData → RequestError
new_request_cancelled d = record {
  code = negsuc 32799;
  message = codes "Request cancelled";
  details = d;
}

abbrev pub new_auth_required : ErrorData → RequestError
new_auth_required d = record {
  code = negsuc 31999;
  message = codes "Authentication required";
  details = d;
}

abbrev pub new_server_overloaded : ErrorData → RequestError
new_server_overloaded d = record {
  code = negsuc 32000;
  message = codes "Server overloaded";
  details = d;
}

abbrev pub error_entry : Bytes → ErrorData
error_entry text = entry (codes "error") text
