-- ===== src/Tests/LogTests.antt =====
-- crates/daemon/src/server.rs and watcher.rs: the theorems on what a connection is told, at samples.
use fake_notify.Base.{
  Option, ◌+◌, ◌<◌, ◌≢◌, ok, All, ℕ, ◌≡◌, ◌++◌, refl, true, false, none, some, List, [], ◌∷◌, get,
  insert, modify, nat_eq, arith, little, to_le_bytes, from_le_bytes, list_eq, component_eq,
}
use fake_notify.Protocol.Message.{
  Response, ping, pong, response_to_bytes, request_from_bytes, frame,
}
use fake_notify.Protocol.Message.Framing.{read_exact}
use fake_notify.Daemon.State
use fake_notify.Daemon.State.{ClientId, Client, new, new_client, deliver, send_event}
use fake_notify.Daemon.State.Invariant.Joining.{HasRoom}
use fake_notify.Daemon.Server.{send_response, handle_request, next_message}
use fake_notify.Daemon.System.{
  System, Task, reading, replying, state, with_state, set_task, accept, resume, receive,
  take_request, take_event,
}
use fake_notify.Daemon.System.Soundness.{connects}
use fake_notify.Daemon.System.Invariant.{IsConsistent, Run-IsConsistent}
use fake_notify.Daemon.System.Runs.{HasNumbers, Run, receives, resumes, takes, here, next}
use fake_notify.Daemon.System.Replying.{replies}
use fake_notify.Daemon.Client.Replies.{Connected}
use fake_notify.Daemon.System.Log.{Merge, owed_by, pending, encoded, log}
use fake_notify.Daemon.System.Log.Exact.{dues-planned-written}
use fake_notify.Daemon.System.Log.Written.{said-sent-written}
use fake_notify.Tests.Samples.{socket, watched, watched-IsValid, codec, os}
use fake_notify.Tests.SystemTests.{
  daemon, serving, serving-IsConsistent, first_task, one_task, greeted, first_steps, first_numbers,
  removal,
}

-- The first connection asks for a pong.
abbrev pub greeted_task : Task
greeted_task = record first_task { phase = reading }

abbrev pub waiting : System
waiting = set_task (with_state one_task greeted) 1 (some greeted_task)

abbrev ping_frame : List ℕ
ping_frame = 1 ∷ 0 ∷ 0 ∷ 0 ∷ 3 ∷ []

abbrev asked_task : Task
asked_task = record greeted_task { unread = greeted_task.unread ++ ping_frame }

abbrev asked : System
asked = set_task waiting 1 (some asked_task)

abbrev pong_task : Task
pong_task = record greeted_task { phase = replying pong true; unread = [] }

abbrev answering : System
answering = set_task (with_state asked greeted) 1 (some pong_task)

pub greeted_there : get waiting.tasks 1 ≡ some greeted_task
unfolding accept get insert new State.register_client set_task with_state
greeted_there = refl

asked_there : get asked.tasks 1 ≡ some asked_task
unfolding accept get insert new State.register_client set_task with_state
asked_there = refl

greeted_room : HasRoom (state asked)
unfolding set_task with_state send_response new State.register_client get insert modify deliver
    send_event response_to_bytes new_client frame to_le_bytes
greeted_room = omega arith

ping_taken : resume os 0 greeted asked_task ≡ some (greeted, some pong_task)
unfolding resume receive take_request handle_request read_exact from_le_bytes request_from_bytes
ping_taken = refl

unfoldable asked_run : Run os little serving asked (none ∷ some 1 ∷ none ∷ [])
unfolding set_task with_state
asked_run = next first_steps (receives 1 greeted_task ping_frame greeted_there refl refl)

unfoldable session : Run os little serving answering (some 1 ∷ none ∷ some 1 ∷ none ∷ [])
unfolding set_task with_state
session =
    next asked_run (resumes 0 1 asked_task greeted (some pong_task) asked_there ping_taken refl)

asked_numbers_left : HasNumbers os little asked_run
unfolding asked_run set_task with_state
asked_numbers_left = (first_numbers, tt)

session_numbers : HasNumbers os little session
unfolding session set_task with_state
session_numbers = (asked_numbers_left, greeted_room)

-- The client of the first connection.
abbrev pub greeted_client : Client
greeted_client = (send_event (new_client 1 socket) (frame (0 ∷ 1 ∷ []))).0

greeted_client_there : get (state answering).clients 1 ≡ some greeted_client
unfolding set_task with_state send_response new State.register_client get insert modify deliver
    send_event response_to_bytes new_client frame to_le_bytes
greeted_client_there = refl

pub greeted_client_open : greeted_client.writer.is_open ≡ true
unfolding send_event new_client
greeted_client_open = refl

nobody : connects (state serving) 1 ≡ false
unfolding new get
nobody = refl

said-sent-written_example :
    Merge
      (encoded codec (log os little session 1).said)
      (log os little session 1).sent
      greeted_client.writer.written
said-sent-written_example =
    said-sent-written os little 1 greeted_client serving-IsConsistent nobody session session_numbers
      greeted_client_there greeted_client_open

dues-planned-written_example :
    (responses : List Response) × (frames : List (List ℕ)) × ((log os little session 1).dues
      ≡ responses ++ owed_by (get answering.tasks 1))
    × ((log os little session 1).planned ≡ frames ++ pending 1 answering.outgoing)
    × Merge (encoded codec responses) frames greeted_client.writer.written
dues-planned-written_example =
    dues-planned-written os little 1 greeted_client serving-IsConsistent nobody session
      session_numbers greeted_client_there greeted_client_open

-- A file is removed under a directory that the first client watches.
abbrev noticed : System
noticed = daemon watched [] (removal ∷ [])

noticed-IsConsistent : IsConsistent noticed
unfolding get
noticed-IsConsistent = record {
  valid = watched-IsValid;
  served = λ id task h. absurd (ground (arith, h));
}

event_taken : Run os little noticed (take_event little noticed removal []) (none ∷ [])
event_taken = next here (takes removal [] refl refl refl refl)

asked-IsConsistent : IsConsistent asked
asked-IsConsistent = Run-IsConsistent os little serving-IsConsistent asked_run asked_numbers_left

ping_next : next_message asked_task.unread ≡ some (3 ∷ [], [])
unfolding next_message read_exact from_le_bytes
ping_next = refl

ping_parsed : request_from_bytes codec (3 ∷ []) ≡ ok ping
unfolding request_from_bytes
ping_parsed = refl

pong_bytes : response_to_bytes codec (handle_request os 0 (state asked) 1 ping).1 ≡ ok (4 ∷ [])
unfolding response_to_bytes handle_request
pong_bytes = refl

asked_client_there : get (state asked).clients 1 ≡ some greeted_client
unfolding set_task with_state send_response new State.register_client get insert modify deliver
    send_event response_to_bytes new_client frame to_le_bytes
asked_client_there = refl

asked_numbers :
    ((state asked).next_wd + 2 < 4294967296)
    × ((state asked).next_client_id + 1 < 18446744073709551616)
unfolding set_task with_state send_response new State.register_client get insert modify deliver
    send_event response_to_bytes new_client frame to_le_bytes
asked_numbers = (omega arith, omega arith)

replies_example :
    (z : System) × (actors : List (Option ClientId)) × Run os little asked z actors
    × All (λ actor. actor ≡ some 1) actors
    × Connected
        (state z)
        1
        (record greeted_client.writer { written = greeted_client.writer.written ++ frame (4 ∷ []) })
    × (get z.tasks 1 ≡ some (record asked_task { phase = reading; unread = [] }))
    × ((d : ClientId) → d ≢ 1 → get z.tasks d ≡ get asked.tasks d)
replies_example =
    replies os little 0 asked asked_task (3 ∷ []) [] ping greeted_client (4 ∷ []) asked-IsConsistent
      asked_there refl ping_next ping_parsed asked_client_there greeted_client_open pong_bytes
      asked_numbers.0 asked_numbers.1
