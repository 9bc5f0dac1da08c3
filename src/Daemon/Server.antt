-- ===== src/Daemon/Server.antt =====
-- crates/daemon/src/server.rs: a client's connection, from its registration to its end. The bytes
-- that arrive before the client hangs up, or before the daemon shuts down, are a list. What the file
-- system says of a path, and the text that `display` gives of it, are parameters.
pub mod Session
pub mod Connection
pub mod Answers
pub mod Typing
use fake_notify.Base.{
  ℕ, zero, suc, ◌+◌, Bool, true, false, not, Option, none, some, List, [], ◌∷◌, ◌++◌, ltb, length,
  if◌then◌else◌, get, FilePath, Text, ascii, show_i32, Result, ok, err, from_le_bytes, nat_eq,
  map_some,
}
use fake_notify.Protocol.Event.{from_bits_truncate}
use fake_notify.Protocol.Message.{
  Bincode, ProtocolError, Request, register_client, add_watch, remove_watch, ping, Response,
  client_registered, watch_added, watch_removed, error, pong, display_error, request_from_bytes,
  response_to_bytes, max_size, frame,
}
use fake_notify.Protocol.Message.Framing.{read_exact}
use fake_notify.Daemon.State
use fake_notify.Daemon.State.{DaemonState, ClientId, Writer, deliver, unregister_client}

-- `exists` at the moment of a request, and `display`.
pub record Platform : Type 0 where
  pub bincode : Bincode
  pub exists : ℕ → FilePath → Bool
  pub display : FilePath → Text

-- The message at the front of the input, and what follows it. `none` ends the loop: the client is
-- gone, or announces more than `max_size` bytes.
unfoldable pub next_message : List ℕ → Option (List ℕ × List ℕ)
next_message input = elim (read_exact 4 input) [
  | none ↦ none
  | some (len_buf, rest) ↦ elim (from_le_bytes len_buf) [
    | none ↦ none
    | some len ↦ if ltb max_size len then none else read_exact len rest
  ]
]

module _ (os : Platform) where
  -- One request, at a moment of the file system.
  unfoldable pub handle_request : ℕ → DaemonState → ClientId → Request → DaemonState × Response
  handle_request now s client_id register_client = (s, client_registered client_id)
  handle_request now s client_id (add_watch path mask) =
      let event_mask = from_bits_truncate mask in
      if not (os.exists now path)
      then (s, error (ascii "Path does not exist: " ++ os.display path))
      else (let (s', wd) = State.add_watch s client_id path event_mask true in (s', watch_added wd))
  handle_request now s client_id (remove_watch wd) =
      let (s', removed) = State.remove_watch s client_id wd in
      (
        s',
        if removed
            then watch_removed
            else error (ascii "Watch descriptor " ++ (show_i32 wd ++ ascii " not found")),
      )
  handle_request now s client_id ping = (s, pong)

  -- The state after it, and whether the response went out.
  unfoldable pub send_response : DaemonState → ClientId → Response → DaemonState × Bool
  send_response s client_id response = elim (response_to_bytes os.bincode response) [
    | err e ↦ (s, false)
    | ok payload ↦
        let (clients, sent) = deliver s.clients client_id (frame payload) in
        (record s { clients = clients }, sent)
  ]

  -- What a request that parsed, or did not, leads to: the state, and whether the loop goes on.
  unfoldable pub answer :
      ℕ → DaemonState → ClientId → Result Request ProtocolError → DaemonState × Bool
  answer now s client_id (ok request) =
      let (s', response) = handle_request now s client_id request in
      send_response s' client_id response
  answer now s client_id (err e) =
      let (s', sent) =
        send_response s client_id (error (ascii "Invalid request: " ++ display_error e)) in
      (s', true)

  -- The read loop; `none` means that the fuel ran out. Each round takes four bytes at least, so more
  -- fuel than there are bytes is enough.
  unfoldable pub serve : ℕ → DaemonState → ClientId → List ℕ → Option DaemonState
  serve zero s client_id input = none
  serve (suc fuel) s client_id input = elim (next_message input) [
    | none ↦ some s
    | some (payload, rest) ↦
        let (s', more) = answer fuel s client_id (request_from_bytes os.bincode payload) in
        elim more [ true ↦ serve fuel s' client_id rest | false ↦ some s' ]
  ]

  -- If the greeting fails, the function returns there.
  unfoldable pub handle_client : DaemonState → Writer → List ℕ → Option DaemonState
  handle_client s writer input =
      let (registered, client_id) = State.register_client s writer in
      let (greeted, sent) = send_response registered client_id (client_registered client_id) in
      if sent
      then map_some (λ t. unregister_client t client_id)
          (serve (suc (length input)) greeted client_id input)
      else some greeted
