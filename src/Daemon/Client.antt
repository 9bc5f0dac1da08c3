-- ===== src/Daemon/Client.antt =====
-- crates/daemon/src/server.rs, `send_daemon_request`: the client that the commands use. `before` is what
-- the daemon sends of its own accord, and `after` what it sends for the bytes of the request.
pub mod Replies
use fake_notify.Base.{ℕ, Option, none, some, List, ◌++◌, map_some, Result, ok, err, from_le_bytes}
use fake_notify.Protocol.Message.{
  Bincode, Request, Response, request_to_bytes, response_from_bytes, frame,
}
use fake_notify.Protocol.Message.Framing.{read_exact}

-- A response at the front of the input, and what follows it.
unfoldable pub response_at : Bincode → List ℕ → Option (Response × List ℕ)
response_at b input = elim (read_exact 4 input) [
  | none ↦ none
  | some (len_buf, rest) ↦ elim (from_le_bytes len_buf) [
    | none ↦ none
    | some len ↦ elim (read_exact len rest) [
      | none ↦ none
      | some (payload, rest') ↦ elim (response_from_bytes b payload) [
        | ok response ↦ some (response, rest')
        | err e ↦ none
      ]
    ]
  ]
]

unfoldable pub send_daemon_request :
    Bincode → List ℕ → (List ℕ → List ℕ) → Request → Option Response
send_daemon_request b before after request = elim (response_at b before) [
  | none ↦ none
  | some (_, rest) ↦ elim (request_to_bytes b request) [
    | err e ↦ none
    | ok request_bytes ↦ map_some (λ r. r.0) (response_at b (rest ++ after (frame request_bytes)))
  ]
]
