-- ===== src/Tests/OvertakenTests.antt =====
-- crates/preload/src/lib.rs against crates/daemon/src/watcher.rs: an event in the place of a response, at a
-- sample.
use fake_notify.Base.{
  none, ℕ, ◌≡◌, ◌+◌, refl, true, false, Option, some, List, [], ◌∷◌, ◌++◌, get, insert, modify,
  nat_eq, arith, little, ok, drop, length, list_eq, component_eq,
}
use fake_notify.Protocol.Message.{ping, pong, request_to_bytes, response_to_bytes, frame}
use fake_notify.Daemon.State
use fake_notify.Daemon.State.{Client, ClientId, new, new_client}
use fake_notify.Daemon.State.Invariant.Joining.{HasRoom}
use fake_notify.Daemon.Client.Replies.{Connected}
use fake_notify.Daemon.System.{System, Task, replying, state}
use fake_notify.Daemon.System.Runs.{Run}
use fake_notify.Preload.{Peer, Stream, send_request}
use fake_notify.Preload.Responses.{received}
use fake_notify.Preload.Overtaken.{event_for_response}
use fake_notify.Tests.Samples.{socket, watched, codec, os}

-- A client that waits for a pong, while an event is on its way to it.
abbrev waiting : Task
waiting = record {
  id = 1;
  phase = replying pong true;
  unread = [];
  ended = false;
  signalled = false;
}

abbrev event : List ℕ
event = 1 ∷ 9 ∷ []

abbrev busy : System
busy = record {
  dispatcher = record { state = watched; pending_renames = []; cookie_counter = 1 };
  found = none;
  outgoing = (1, frame event) ∷ [];
  queue = [];
  tasks = (1, waiting) ∷ [];
  listening = true;
  signalled = false;
}

abbrev client : Client
client = record (new_client 1 socket) { watches = 1 ∷ [] }

client_there : get watched.clients 1 ≡ some client
unfolding new State.register_client State.add_watch State.existing get insert modify
    State.push_watch new_client
client_there = refl

client_open : client.writer.is_open ≡ true
unfolding new_client
client_open = refl

waiting_there : get busy.tasks 1 ≡ some waiting
unfolding get
waiting_there = refl

watched-HasRoom : HasRoom watched
unfolding new State.register_client State.add_watch State.existing get
watched-HasRoom = omega arith

pong_bytes : response_to_bytes codec pong ≡ ok (4 ∷ [])
unfolding response_to_bytes
pong_bytes = refl

ping_bytes : request_to_bytes codec ping ≡ ok (3 ∷ [])
unfolding request_to_bytes
ping_bytes = refl

abbrev peer : Peer
peer = record {
  output = λ sent. (client.writer.written ++ frame event) ++ frame (4 ∷ []);
  accepts = true;
}

abbrev stream : Stream
stream = record { written = []; taken = 0 }

nothing_read : stream.taken ≡ length client.writer.written
unfolding new_client
nothing_read = refl

event_for_response_example :
    let after : Stream = record { written = [] ++ frame (3 ∷ []); taken = 0 + (4 + 2) } in
    ((z : System) × (actors : List (Option ClientId)) × Run os little busy z actors
      × Connected (state z) 1 (record {
        written = (client.writer.written ++ frame event) ++ frame (4 ∷ []);
        is_open = true;
        spare = 0;
      }))
    × (send_request codec peer stream ping ≡ (after, received codec event))
    × (drop after.taken (peer.output after.written) ≡ frame (4 ∷ []))
unfolding new_client
event_for_response_example =
    event_for_response os little busy 1 waiting pong true event (4 ∷ []) [] client peer stream ping
      (3 ∷ []) waiting_there refl refl refl watched-HasRoom client_there client_open pong_bytes
      ping_bytes (omega arith) refl nothing_read refl
