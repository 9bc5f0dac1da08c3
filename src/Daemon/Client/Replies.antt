-- ===== src/Daemon/Client/Replies.antt =====
-- crates/daemon/src/server.rs: `send_daemon_request` against `handle_client`.
use fake_notify.Base.{
  ℕ, ◌+◌, ◌%◌, ◌<◌, ◌≡◌, refl, sym, ap, ◌∙◌, inl, inr, true, some, List, [], ◌++◌, length, get,
  get-modify, nat_eq, Bool-cases, Option-cases, ok, arith, append-nil, from_le_bytes-to_le_bytes,
  map_some,
}
use fake_notify.Protocol.Message.{
  Bincode, IsFaithful, Request, register_client, add_watch, remove_watch, ping, Response,
  client_registered, request_to_bytes, request_from_bytes, response_to_bytes, frame,
}
use fake_notify.Protocol.Message.Framing.{
  request_back, read_exact-append, read_exact-frame, response_back,
}
use fake_notify.Protocol.Event.{from_bits_truncate}
use fake_notify.Daemon.State
use fake_notify.Daemon.State.{DaemonState, Client, Writer, push_watch, drop_watch}
use fake_notify.Daemon.Server.{Platform, handle_request, answer}
use fake_notify.Daemon.Server.Session.{add_watch_frame}
use fake_notify.Daemon.Server.Answers.{send_response_appends}
use fake_notify.Daemon.Client.{response_at, send_daemon_request}

-- A client that is connected through a writer.
abbrev pub Connected : DaemonState → ℕ → Writer → Type 0
Connected s id writer = (cl : Client) × (get s.clients id ≡ some cl) × (cl.writer ≡ writer)

module _ (os : Platform) where
  remove_watch-Connected :
      (s : DaemonState) (id wd : ℕ) (writer : Writer)
      → Connected s id writer
      → Connected (State.remove_watch s id wd).0 id writer
  unfolding State.remove_watch drop_watch
  remove_watch-Connected s id wd writer (cl, at, same) = elim (Option-cases (get s.watches wd)) [
    | inl absent ↦ rw (absent, State.remove_watch) (cl, at, same)
    | inr (w, found) ↦ (
      drop_watch wd cl,
      ground (arith, found, at, get-modify s.clients id (drop_watch wd) id),
      same,
    )
  ]

  -- No request changes the socket of the client that sends it.
  handle_request-Connected :
      (now : ℕ) (s : DaemonState) (id : ℕ) (writer : Writer) (r : Request)
      → s.next_wd + 1 < 4294967296
      → Connected s id writer
      → Connected (handle_request os now s id r).0 id writer
  unfolding handle_request push_watch
  handle_request-Connected now s id writer register_client room h = h
  handle_request-Connected now s id writer (add_watch path mask) room (cl, at, same) =
      elim (Bool-cases (os.exists now path)) [
        | inl there ↦
            let added = State.add_watch s id path (from_bits_truncate mask) true in
            let (cs, wds, ids) = add_watch_frame os s id path (from_bits_truncate mask) true room in
            rw there (
              push_watch added.1 cl,
              rw cs (ground (arith, at, get-modify s.clients id (push_watch added.1) id)),
              same,
            )
        | inr missing ↦ rw missing (cl, at, same)
      ]
  handle_request-Connected now s id writer (remove_watch wd) room h =
      remove_watch-Connected s id wd writer h
  handle_request-Connected now s id writer ping room h = h

  -- The reply to a request is the frame of the response to it, behind what the client was sent, and
  -- the loop goes on.
  pub answer_replies :
      (now : ℕ) (s : DaemonState) (id : ℕ) (writer : Writer) (request : Request) (payload : List ℕ)
      → s.next_wd + 1 < 4294967296
      → Connected s id writer
      → writer.is_open ≡ true
      → response_to_bytes os.bincode (handle_request os now s id request).1 ≡ ok payload
      → Connected
          (answer os now s id (ok request)).0
          id
          (record writer { written = writer.written ++ frame payload })
        × ((answer os now s id (ok request)).1 ≡ true)
  unfolding answer
  answer_replies now s id writer request payload room h up e =
      let (cl, at, same) = handle_request-Connected now s id writer request room h in
      let (sent, went) =
        send_response_appends os (handle_request os now s id request).0 id
          (handle_request os now s id request).1 payload cl e at (ap (λ w. w.is_open) same ∙ up) in
      ((_, sent, ap (λ (x : Writer). record x { written = x.written ++ frame payload }) same), went)

response_at-frame :
    (b : Bincode) (r : Response) (payload rest : List ℕ)
    → IsFaithful b
    → response_to_bytes b r ≡ ok payload
    → length payload < 4294967296
    → response_at b (frame payload ++ rest) ≡ some (r, rest)
unfolding response_at
response_at-frame b r payload rest f e h =
    rw (read_exact-frame payload rest, response_at)
      (ground (
        arith,
        h,
        from_le_bytes-to_le_bytes (length payload % 4294967296),
        read_exact-append payload rest,
        response_back b r payload f e,
      ))

response_at-frame_alone :
    (b : Bincode) (r : Response) (payload : List ℕ)
    → IsFaithful b
    → response_to_bytes b r ≡ ok payload
    → length payload < 4294967296
    → response_at b (frame payload) ≡ some (r, [])
response_at-frame_alone b r payload f e h =
    ap (response_at b) (sym (append-nil (frame payload))) ∙ response_at-frame b r payload [] f e h

module _ (os : Platform) where
  -- A client that has been greeted sends its request: the response that `send_daemon_request`
  -- returns is the one of `handle_request`, since it passes over the greeting. What the daemon writes behind
  -- the greeting for the request is a frame, and that frame answers the bytes that are sent if these are
  -- the frame of the request. The codec is faithful and encodes the messages, their lengths are 32-bit
  -- words, and the counter of descriptors has room.
  pub send_daemon_request_answered :
      (now : ℕ) (s : DaemonState) (id : ℕ) (request : Request)
      → (greeting asked payload : List ℕ) (after : List ℕ → List ℕ) → IsFaithful os.bincode
      → s.next_wd + 1 < 4294967296
      → Connected s id (record { written = frame greeting; is_open = true; spare = 0 })
      → response_to_bytes os.bincode (client_registered id) ≡ ok greeting
      → length greeting < 4294967296
      → request_to_bytes os.bincode request ≡ ok asked
      → response_to_bytes os.bincode (handle_request os now s id request).1 ≡ ok payload
      → length payload < 4294967296
      → after (frame asked) ≡ frame payload
      → let r = answer os now s id (request_from_bytes os.bincode asked) in
        Connected r.0 id
          (record { written = frame greeting ++ frame payload; is_open = true; spare = 0 })
        × (send_daemon_request os.bincode (frame greeting) after request
            ≡ some (handle_request os now s id request).1)
  unfolding send_daemon_request
  send_daemon_request_answered now s id request greeting asked payload after f room h greets short
        asks replies fits answers =
      (
        rw (request_back os.bincode request asked f asks) (
            (answer_replies os now s id
              (record { written = frame greeting; is_open = true; spare = 0 }) request payload room
              h refl replies).0),
        rw
            (
              response_at-frame_alone os.bincode (client_registered id) greeting f greets short,
              asks,
              answers,
              send_daemon_request,
            )
            (ap (map_some (λ x. x.0)) (
              response_at-frame_alone os.bincode (handle_request os now s id request).1 payload f
                replies fits)),
      )
