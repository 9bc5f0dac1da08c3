-- ===== src/Preload/Overtaken.antt =====
-- crates/daemon/src/watcher.rs and server.rs against crates/preload/src/lib.rs: an event that is sent while a
-- client waits for a response.
use fake_notify.Base.{
  ℕ, ◌+◌, ◌≤◌, ◌≡◌, refl, ◌∙◌, ap, Bool, true, Option, none, some, List, [], ◌∷◌, ◌++◌, length,
  drop, get, nat_eq, ok, Endian, append_assoc, drop-append,
}
use fake_notify.Protocol.Message.{
  Request, Response, request_to_bytes, response_to_bytes, frame, max_size,
}
use fake_notify.Daemon.State.{DaemonState, ClientId, Client, deliver}
use fake_notify.Daemon.State.Invariant.Joining.{HasRoom}
use fake_notify.Daemon.Server.{Platform, send_response}
use fake_notify.Daemon.Server.Answers.{deliver_appends, send_response_appends}
use fake_notify.Daemon.Client.Replies.{Connected}
use fake_notify.Daemon.System.{
  System, Task, reading, replying, resume, state, with_state, set_task, send_next,
}
use fake_notify.Daemon.System.Runs.{Run, here, next, sends, resumes}
use fake_notify.Preload.{Peer, Stream, send_request}
use fake_notify.Preload.Responses.{received, send_request-front, drop_add, length-frame}

module _ (os : Platform) (ne : Endian) where
  -- The dispatcher sends to a client whose task is about to send a response.
  overtaking :
      (y : System) (id : ClientId) (task : Task) (r : Response) (ends : Bool)
      (framed reply : List ℕ)
      → (rest : List (ClientId × List ℕ)) (cl : Client) → get y.tasks id ≡ some task
      → task.id ≡ id
      → task.phase ≡ replying r ends
      → y.outgoing ≡ (id, framed) ∷ rest
      → HasRoom (state y)
      → get (state y).clients id ≡ some cl
      → cl.writer.is_open ≡ true
      → response_to_bytes os.bincode r ≡ ok reply
      → (z : System) × (actors : List (Option ClientId)) × Run os ne y z actors
        × Connected
            (state z)
            id
            (record cl.writer { written = (cl.writer.written ++ framed) ++ frame reply })
  unfolding send_next with_state set_task resume
  overtaking y id task r ends framed reply rest cl there named due queued room at up bytes =
      let s1 : DaemonState = record (state y) {
        clients = (deliver (state y).clients id framed).0;
      } in
      let (at1, _) = deliver_appends (state y) id framed cl at up in
      let (at2, sent) = send_response_appends os s1 id r reply _ bytes at1 up in
      let s2 = (send_response os s1 id r).0 in
      let task' : Task = record task { phase = reading } in
      let y1 = send_next y id framed rest in
      let replied : resume os 0 s1 task ≡ some (s2, some task') =
        rw (due, named, sent, resume) refl in
      (
        set_task (with_state y1 s2) id (some task'),
        some id ∷ none ∷ [],
        next (next here (sends id framed rest queued refl))
            (resumes 0 id task s2 (some task') there replied refl),
        (_, at2, rw up refl),
      )

  -- Let a client's task be about to send a response while the dispatcher is about to send that client
  -- an event, and let the library, with that client's socket as its own, have read all that was sent
  -- to it before. Then the daemon can come to have sent the event and, behind it, the response; and
  -- with that in the socket, the request returns what the codec makes of the event, and leaves the
  -- response unread. The socket is open both ways, the counters have room, the event is no longer
  -- than max_size, and the codec encodes the two messages.
  pub event_for_response :
      (y : System) (id : ClientId) (task : Task) (r : Response) (ends : Bool) (event reply : List ℕ)
      → (rest : List (ClientId × List ℕ)) (cl : Client) (peer : Peer) (s : Stream) (q : Request)
      → (asked : List ℕ) → get y.tasks id ≡ some task
      → task.id ≡ id
      → task.phase ≡ replying r ends
      → y.outgoing ≡ (id, frame event) ∷ rest
      → HasRoom (state y)
      → get (state y).clients id ≡ some cl
      → cl.writer.is_open ≡ true
      → response_to_bytes os.bincode r ≡ ok reply
      → request_to_bytes os.bincode q ≡ ok asked
      → length event ≤ max_size
      → peer.accepts ≡ true
      → s.taken ≡ length cl.writer.written
      → peer.output (s.written ++ frame asked) ≡ (cl.writer.written ++ frame event) ++ frame reply
      → let after : Stream = record {
        written = s.written ++ frame asked;
        taken = s.taken + (4 + length event);
      } in
        ((z : System) × (actors : List (Option ClientId)) × Run os ne y z actors
          × Connected
              (state z)
              id
              (record cl.writer { written = (cl.writer.written ++ frame event) ++ frame reply }))
        × (send_request os.bincode peer s q ≡ (after, received os.bincode event))
        × (drop after.taken (peer.output after.written) ≡ frame reply)
  event_for_response y id task r ends event reply rest cl peer s q asked there named due queued room
        at up bytes sent short accepts read output =
      let old = cl.writer.written in
      let behind : drop s.taken (peer.output (s.written ++ frame asked))
          ≡ frame event ++ frame reply =
        rw (output, read)
          (ap (drop (length old)) (append_assoc old (frame event) (frame reply))
            ∙ drop-append old (frame event ++ frame reply)) in
      (
        overtaking y id task r ends (frame event) reply rest cl there named due queued room at up
            bytes,
        send_request-front os.bincode peer s q asked event (frame reply) accepts sent short behind,
        rw (length-frame event) (
            drop_add s.taken (length (frame event)) (peer.output (s.written ++ frame asked))
            ∙ ap (drop (length (frame event))) behind
            ∙ drop-append (frame event) (frame reply)),
      )
