-- ===== src/Daemon/Server/Answers.antt =====
-- crates/daemon/src/server.rs: what goes out on the socket of a client while it is served.
use fake_notify.Base.{
  ℕ, ◌%◌, ◌≤◌, ◌≡◌, refl, true, some, List, ◌++◌, length, get, get-modify, get-insert, ok, arith,
  nat_eq, list_eq, component_eq,
}
use fake_notify.Protocol.Message.{
  register_client, Response, client_registered, response_to_bytes, max_size, frame,
}
use fake_notify.Daemon.State
use fake_notify.Daemon.State.{
  DaemonState, Client, ClientId, Writer, deliver, send_event, subscribes, subscribed_in,
  unregister_client, push_watch, drop_watch,
}
use fake_notify.Daemon.Server.{Platform, handle_request, send_response, answer, next_message}
use fake_notify.Base.{from_le_bytes-to_le_bytes}
use fake_notify.Protocol.Message.Framing.{read_exact-append, read_exact-frame}

-- The message at the front of a stream that begins with the frame of a payload of at most the
-- limit's size is that payload, and the rest follows the frame.
pub next_message-frame :
    (payload rest : List ℕ)
    → length payload ≤ max_size
    → next_message (frame payload ++ rest) ≡ some (payload, rest)
unfolding next_message
next_message-frame payload rest h =
    rw (read_exact-frame payload rest, next_message)
      (ground (
        arith,
        h,
        from_le_bytes-to_le_bytes (length payload % 4294967296),
        read_exact-append payload rest,
      ))

-- A socket that takes the bytes has them behind what it had.
pub deliver_appends :
    (s : DaemonState) (id : ℕ) (bytes : List ℕ) (cl : Client)
    → get s.clients id ≡ some cl
    → cl.writer.is_open ≡ true
    → (get (deliver s.clients id bytes).0 id
        ≡ some (record cl { writer = record cl.writer { written = cl.writer.written ++ bytes } }))
      × ((deliver s.clients id bytes).1 ≡ true)
unfolding deliver send_event
deliver_appends s id bytes cl at up = (
  ground (arith, at, up, get-modify s.clients id (λ (x : Client). (send_event x bytes).0) id),
  ground (arith, at, up),
)

module _ (os : Platform) where
  -- So has it a response that is sent.
  pub send_response_appends :
      (s : DaemonState) (id : ℕ) (r : Response) (payload : List ℕ) (cl : Client)
      → response_to_bytes os.bincode r ≡ ok payload
      → get s.clients id ≡ some cl
      → cl.writer.is_open ≡ true
      → (get (send_response os s id r).0.clients id
          ≡ some (record cl {
            writer = record cl.writer { written = cl.writer.written ++ frame payload };
          }))
        × ((send_response os s id r).1 ≡ true)
  unfolding send_response
  send_response_appends s id r payload cl e at up =
      rw (e, send_response) (deliver_appends s id (frame payload) cl at up)

  -- A new client that is connected and answers its greeting with `RegisterClient` is sent the very
  -- same frame again: its socket then has the greeting twice, and the loop goes on. The codec
  -- encodes the greeting.
  pub answer_greets_again :
      (now : ℕ) (s : DaemonState) (writer : Writer) (payload : List ℕ)
      → writer.is_open ≡ true
      → response_to_bytes os.bincode (client_registered s.next_client_id) ≡ ok payload
      → let id = s.next_client_id in
        let registered = (State.register_client s writer).0 in
        let greeted = (send_response os registered id (client_registered id)).0 in
        let r = answer os now greeted id (ok register_client) in
        (r.1 ≡ true)
        × ((cl : Client) × (get r.0.clients id ≡ some cl)
            × (cl.writer.written ≡ (writer.written ++ frame payload) ++ frame payload))
  unfolding answer handle_request State.register_client State.new_client
  answer_greets_again now s writer payload up e =
      let id = s.next_client_id in
      let fresh = State.new_client id writer in
      let (one, sent_one) =
        send_response_appends (State.register_client s writer).0 id (client_registered id) payload
          fresh e (ground (arith, get-insert s.clients id fresh id)) up in
      let (two, sent_two) =
        send_response_appends
          (send_response os (State.register_client s writer).0 id (client_registered id)).0 id
          (client_registered id) payload _ e one up in
      (sent_two, (_, two, refl))
