-- ===== src/Tests/ServerTests.antt =====
-- crates/daemon/src/server.rs: the theorems at samples.
use fake_notify.Base.{
  ℕ, ◌≡◌, ◌+◌, refl, true, none, some, List, [], ◌∷◌, ◌++◌, get, insert, modify, nat_eq, FilePath,
  arith, ok,
}
use fake_notify.Protocol.Message.{client_registered, response_to_bytes, frame}
use fake_notify.Daemon.State
use fake_notify.Protocol.Event.{from_bits_truncate}
use fake_notify.Protocol.Message.{
  request_to_bytes, request_from_bytes, Request, add_watch, remove_watch,
}
use fake_notify.Daemon.State.Invariant.Joining.{HasRoom}
use fake_notify.Daemon.Server.Typing.{Suits, handle_request-Suits}
use fake_notify.Daemon.Server.{handle_request}
use fake_notify.Daemon.Client.{send_daemon_request}
use fake_notify.Daemon.Client.Replies.{Connected, send_daemon_request_answered}
use fake_notify.Tests.Samples.{codec-IsFaithful, os}
use fake_notify.Base.{normal, ascii, ◌<◌}
use fake_notify.Daemon.State.{DaemonState, Client, subscribes, new, deliver, send_event, new_client}
use fake_notify.Daemon.State.Invariant.{IsValid}
use fake_notify.Daemon.Server.Answers.{next_message-frame}
use fake_notify.Daemon.Server.{next_message, send_response, handle_client, answer}
use fake_notify.Daemon.Server.Connection.{handle_client_leaves, handle_client_leaks}
use fake_notify.Base.{to_le_bytes}
use fake_notify.Tests.Samples.{socket, hung_up, watched, watched-IsValid, codec}

-- A client that adds a watch.
abbrev input : List ℕ
input = 3 ∷ 0 ∷ 0 ∷ 0 ∷ 1 ∷ 2 ∷ 109 ∷ []

greeting_sent :
    (send_response os (State.register_client watched socket).0 3 (client_registered 3)).1 ≡ true
unfolding new State.register_client State.add_watch State.existing get insert modify
    State.push_watch send_response deliver send_event response_to_bytes new_client frame to_le_bytes
greeting_sent = refl

handle_client_leaves_example :
    (t : DaemonState) × (handle_client os watched socket input ≡ some t)
    × IsValid t
    × (get t.clients 3 ≡ none)
    × ((d : ℕ) (p : FilePath) → subscribes t d p ≡ subscribes watched d p)
unfolding new State.register_client State.add_watch State.existing get
handle_client_leaves_example =
    handle_client_leaves os watched socket input watched-IsValid (omega arith) (omega arith)
      greeting_sent

handle_client_leaks_example :
    (t : DaemonState) × (handle_client os watched hung_up input ≡ some t)
    × ((cl : Client) × (get t.clients watched.next_client_id ≡ some cl))
handle_client_leaks_example = handle_client_leaks os watched hung_up input refl

abbrev greeted : DaemonState
greeted = (send_response os (State.register_client watched socket).0 3 (client_registered 3)).0

abbrev asks : Request
asks = add_watch (normal (ascii "m") ∷ []) 2

asks_bytes : request_to_bytes codec asks ≡ ok (1 ∷ 2 ∷ 109 ∷ [])
unfolding request_to_bytes
asks_bytes = refl

greeted_bytes : response_to_bytes codec (client_registered 3) ≡ ok (0 ∷ 3 ∷ [])
unfolding response_to_bytes
greeted_bytes = refl

greeted-Connected :
    Connected greeted 3 (record { written = frame (0 ∷ 3 ∷ []); is_open = true; spare = 0 })
unfolding new State.register_client State.add_watch State.existing get insert modify
    State.push_watch send_response deliver send_event response_to_bytes new_client
greeted-Connected = (_, refl, refl)

reply_bytes : response_to_bytes codec (handle_request os 0 greeted 3 asks).1 ≡ ok (1 ∷ 2 ∷ [])
unfolding new State.register_client State.add_watch State.existing get insert modify
    State.push_watch send_response deliver send_event response_to_bytes new_client handle_request
    from_bits_truncate frame to_le_bytes
reply_bytes = refl

greeted_room : greeted.next_wd + 1 < 4294967296
unfolding new State.register_client State.add_watch State.existing get send_response deliver
    response_to_bytes insert send_event new_client
greeted_room = omega arith

next_message-frame_example :
    next_message (frame (1 ∷ 2 ∷ 109 ∷ []) ++ (7 ∷ [])) ≡ some (1 ∷ 2 ∷ 109 ∷ [], 7 ∷ [])
next_message-frame_example = next_message-frame (1 ∷ 2 ∷ 109 ∷ []) (7 ∷ []) (omega arith)

send_daemon_request_answered_example :
    Connected
      (answer os 0 greeted 3 (request_from_bytes codec (1 ∷ 2 ∷ 109 ∷ []))).0
      3
      (record { written = frame (0 ∷ 3 ∷ []) ++ frame (1 ∷ 2 ∷ []); is_open = true; spare = 0 })
    × (send_daemon_request codec (frame (0 ∷ 3 ∷ [])) (λ framed. frame (1 ∷ 2 ∷ [])) asks
        ≡ some (handle_request os 0 greeted 3 asks).1)
send_daemon_request_answered_example =
    send_daemon_request_answered os 0 greeted 3 asks (0 ∷ 3 ∷ []) (1 ∷ 2 ∷ 109 ∷ []) (1 ∷ 2 ∷ [])
      (λ framed. frame (1 ∷ 2 ∷ [])) codec-IsFaithful greeted_room greeted-Connected greeted_bytes
      (omega arith) asks_bytes reply_bytes (omega arith) refl

-- The first client, which has the watch.
abbrev watching : Client
watching = record (new_client 1 socket) { watches = 1 ∷ [] }

watching_there : get watched.clients 1 ≡ some watching
unfolding new State.register_client State.add_watch State.existing get insert modify
    State.push_watch new_client
watching_there = refl

watched-HasRoom : HasRoom watched
unfolding new State.register_client State.add_watch State.existing get
watched-HasRoom = omega arith

handle_request-Suits_example :
    Suits os 0 watched 1 (remove_watch 1) (handle_request os 0 watched 1 (remove_watch 1)).1
handle_request-Suits_example =
    handle_request-Suits os 0 watched 1 watching (remove_watch 1) watched-IsValid watched-HasRoom
      watching_there
