-- ===== src/Protocol/Message.antt =====
-- crates/protocol/src/message.rs: the messages, their serialization, and the length-prefixed frame.
-- The crate bincode is a parameter, a record of the four functions that the source calls.
pub mod Framing
use fake_notify.Base.{
  ℕ, ◌+◌, ◌*◌, ◌%◌, ◌≡◌, Option, none, some, List, ◌++◌, length, take, ltb, if◌then◌else◌, Text,
  ascii, FilePath, Result, ok, err, map_err, u32_mod, to_le_bytes, from_le_bytes,
}

-- A foreign error is the text that it displays.
pub data ProtocolError : Type 0 where
  serialization : Text → ProtocolError
  io : Text → ProtocolError
  invalid_message : Text → ProtocolError

-- The texts of `#[error]`.
unfoldable pub display_error : ProtocolError → Text
display_error (serialization e) = ascii "serialization error: " ++ e
display_error (io e) = ascii "io error: " ++ e
display_error (invalid_message e) = ascii "invalid message: " ++ e

pub data Request : Type 0 where
  register_client : Request
  add_watch : FilePath → ℕ → Request
  remove_watch : ℕ → Request
  ping : Request

pub data Response : Type 0 where
  client_registered : ℕ → Response
  watch_added : ℕ → Response
  watch_removed : Response
  error : Text → Response
  pong : Response

-- `bincode::serialize` and `bincode::deserialize` at the two types.
pub record Bincode : Type 0 where
  pub serialize_request : Request → Result (List ℕ) Text
  pub deserialize_request : List ℕ → Result Request Text
  pub serialize_response : Response → Result (List ℕ) Text
  pub deserialize_response : List ℕ → Result Response Text

-- bincode's documented promise: what was serialized deserializes to the same value.
pub record IsFaithful (b : Bincode) : Type 0 where
  pub request :
      (r : Request) (bs : List ℕ) → b.serialize_request r ≡ ok bs → b.deserialize_request bs ≡ ok r
  pub response :
      (r : Response) (bs : List ℕ)
      → b.serialize_response r ≡ ok bs
      → b.deserialize_response bs ≡ ok r

module _ (b : Bincode) where
  unfoldable pub request_to_bytes : Request → Result (List ℕ) ProtocolError
  request_to_bytes r = map_err serialization (b.serialize_request r)

  unfoldable pub request_from_bytes : List ℕ → Result Request ProtocolError
  request_from_bytes bytes = map_err serialization (b.deserialize_request bytes)

  unfoldable pub response_to_bytes : Response → Result (List ℕ) ProtocolError
  response_to_bytes r = map_err serialization (b.serialize_response r)

  unfoldable pub response_from_bytes : List ℕ → Result Response ProtocolError
  response_from_bytes bytes = map_err serialization (b.deserialize_response bytes)

-- `Response::error`
unfoldable pub error_response : Text → Response
error_response message = error message

-- `FramedMessage::MAX_SIZE`
abbrev pub max_size : ℕ
max_size = 1024 * 1024

-- `payload.len() as u32` keeps the low 32 bits.
unfoldable pub frame : List ℕ → List ℕ
frame payload = to_le_bytes (length payload % u32_mod) ++ payload

unfoldable pub read_length : List ℕ → Option ℕ
read_length buf = if ltb (length buf) 4 then none else from_le_bytes (take 4 buf)
