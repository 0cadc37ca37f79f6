-- ===== src/Rpc/Message.antt =====
-- What protobuf generates from proto/datanode_rpc.proto, as far as the servers and callers use it.
use pancake_store.Base.{ℕ, ◌≡◌, Bool, List}
use pancake_store.Comm.ErrorCode.{ErrorCode}
use pancake_store.Rpc.Method.{Method}

-- A message type: `SerializeAsString`, and `ParseFromString` into a message, which answers whether
-- it could parse and leaves what it could.
pub record Codec (M : Type 0) : Type 0 where
  pub serialize_as_string : M → List ℕ
  pub parse_from_string : List ℕ → Bool × M

-- The types of request and response of each method. `fresh` is a new response, `error_code` and
-- `set_error_code` access `response_common().error_code()`.
pub record Messages : Type 1 where
  pub Request : Method → Type 0
  pub Response : Method → Type 0
  pub request_codec : (m : Method) → Codec (Request m)
  pub response_codec : (m : Method) → Codec (Response m)
  pub fresh : (m : Method) → Response m
  pub error_code : (m : Method) → Response m → ErrorCode
  pub set_error_code : (m : Method) → ErrorCode → Response m → Response m
  pub error_code_lem :
      (m : Method) (c : ErrorCode) (r : Response m) → error_code m (set_error_code m c r) ≡ c
