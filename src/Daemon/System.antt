-- ===== src/Daemon/System.antt =====
-- crates/daemon/src/server.rs and watcher.rs: the tasks of the daemon on their shared state. A task runs
-- from one `await` to the next in one step, the dispatcher from one access to the shared state to the
-- next. Each connection has the task of `handle_client`, the
-- dispatcher has its own, and bytes, events, hang-ups and the shutdown come at any time.
pub mod Runs
pub mod Soundness
pub mod Resuming
pub mod Invariant
pub mod Subscriptions
pub mod Progress
pub mod Loop
pub mod Streams
pub mod Whole
pub mod Departing
pub mod Replying
pub mod Stopping
pub mod Sequential
pub mod Log
use fake_notify.Base.{
  ℕ, ◌≡◌, Bool, true, false, not, ◌||◌, ◌++◌, Option, none, some, List, [], ◌∷◌, map, ltb, Map, get,
  insert, remove, modify, nat_eq, FilePath, Text, ascii, Result, ok, err, from_le_bytes,
  if◌then◌else◌, Endian,
}
use fake_notify.Protocol.Event.{EventMask, intersects}
use fake_notify.Protocol.Message.{
  Request, ProtocolError, Response, client_registered, error, display_error, request_from_bytes,
  max_size, frame,
}
use fake_notify.Protocol.Message.Framing.{read_exact}
use fake_notify.Protocol.Event
use fake_notify.Daemon.State
use fake_notify.Daemon.State.{
  DaemonState, ClientId, WatchDescriptor, Client, Writer, WatchInfo, deliver, unregister_client,
}
use fake_notify.Daemon.State.Queries.{find_watch_for_path, get_clients_for_watch}
use fake_notify.Daemon.Server.{Platform, handle_request, send_response}
use fake_notify.Daemon.Watcher.{Dispatcher, WatcherEvent, plan}

-- Where `handle_client` stands: before its greeting, at the top of its loop, before a response (and
-- whether a failure to send it ends the loop), or behind its loop.
pub data Phase : Type 0 where
  greeting : Phase
  reading : Phase
  replying : (response : Response) → (ends_on_failure : Bool) → Phase
  leaving : Phase

-- The task of a connection: what has come and is not yet read, whether the client has hung up, and
-- whether the shutdown waits for the task.
pub record Task : Type 0 where
  pub id : ClientId
  pub phase : Phase
  pub unread : List ℕ
  pub ended : Bool
  pub signalled : Bool

-- What the two reads of a round come to: the task waits for bytes, has a message, or leaves its loop.
pub data Received : Type 0 where
  waits : Received
  message : (payload rest : List ℕ) → Received
  breaks : Received

-- Too few bytes are waited for, unless the client has hung up.
abbrev starved : Bool → Received
starved ended = if ended then breaks else waits

unfoldable pub receive : List ℕ → Bool → Received
receive unread ended = elim (read_exact 4 unread) [
  | none ↦ starved ended
  | some (len_buf, rest) ↦ elim (from_le_bytes len_buf) [
    | none ↦ breaks
    | some len ↦ if ltb max_size len then breaks else elim (read_exact len rest) [
      | none ↦ starved ended
      | some (payload, rest') ↦ message payload rest'
    ]
  ]
]

-- Whether the task has the header of a message and waits for the rest of its payload.
unfoldable pub in_payload : List ℕ → Bool
unfolding receive
in_payload unread = elim (read_exact 4 unread) [
  | none ↦ false
  | some (len_buf, rest) ↦ elim (receive unread false) [
    | waits ↦ true
    | breaks ↦ false
    | message payload rest' ↦ false
  ]
]

module _ (os : Platform) where
  -- A request, up to the response that it is due.
  unfoldable pub take_request : ℕ → DaemonState → ClientId → List ℕ → DaemonState × Phase
  take_request now s id payload = elim (request_from_bytes os.bincode payload) [
    | ok request ↦
        let (t, response) = handle_request os now s id request in (t, replying response true)
    | err e ↦ (s, replying (error (ascii "Invalid request: " ++ display_error e)) false)
  ]

  -- A step of the task: the state, and the task unless it is over. `none` means that it waits.
  unfoldable pub resume : ℕ → DaemonState → Task → Option (DaemonState × Option Task)
  unfolding receive take_request
  resume now s task = elim task.phase [
    | greeting ↦
        let (t, sent) = send_response os s task.id (client_registered task.id) in
        some (t, if sent then some (record task { phase = reading }) else none)
    | reading ↦ elim (receive task.unread task.ended) [
      | waits ↦ none
      | breaks ↦ some (s, some (record task { phase = leaving }))
      | message payload rest ↦
          let (t, phase) = take_request now s task.id payload in
          some (t, some (record task { phase = phase; unread = rest }))
    ]
    | replying response ends_on_failure ↦
        let (t, sent) = send_response os s task.id response in
        some (
          t,
          some (record task { phase = if sent || not ends_on_failure then reading else leaving }),
        )
    | leaving ↦ some (unregister_client s task.id, none)
  ]

-- The daemon while it serves: the dispatcher with the shared state, of the event at hand the watch with the
-- frame before its clients are looked up, and what is left to send, the queue of events, the tasks of the connections, and the accept loop.
pub record System : Type 0 where
  pub dispatcher : Dispatcher
  pub found : Option (WatchDescriptor × List ℕ)
  pub outgoing : List (ClientId × List ℕ)
  pub queue : List WatcherEvent
  pub tasks : Map ClientId Task
  pub listening : Bool
  pub signalled : Bool

abbrev pub state : System → DaemonState
state y = y.dispatcher.state

unfoldable pub with_state : System → DaemonState → System
with_state y s = record y { dispatcher = record y.dispatcher { state = s } }

unfoldable pub set_task : System → ClientId → Option Task → System
set_task y id after = record y {
  tasks = elim after [ none ↦ remove y.tasks id | some task ↦ insert y.tasks id task ];
}

-- A connection is accepted: `handle_client` registers it and comes to its greeting. A receiver of the
-- shutdown that is made now misses what was sent before.
unfoldable pub accept : System → Writer → System
unfolding with_state set_task
accept y writer =
    let (s, id) = State.register_client (state y) writer in
    set_task (with_state y s) id
      (some (record { id = id; phase = greeting; unread = []; ended = false; signalled = false }))

-- The dispatcher takes the next event, looks up the clients of its watch, and sends to one client at a
-- time. What it sends to a client that has left the table in the meantime is not followed.
unfoldable pub take_event : Endian → System → WatcherEvent → List WatcherEvent → System
unfolding plan
take_event ne y event later =
    let (d, found) = plan ne y.dispatcher event in
    record y { dispatcher = d; found = found; queue = later }

unfoldable pub look_up : System → WatchDescriptor → List ℕ → System
look_up y wd framed = record y {
  found = none;
  outgoing = map (λ (c : Client). (c.id, framed)) (get_clients_for_watch (state y) wd);
}

unfoldable pub send_next : System → ClientId → List ℕ → List (ClientId × List ℕ) → System
unfolding with_state
send_next y id framed rest =
    let s = state y in
    record (with_state y (record s { clients = (deliver s.clients id framed).0 })) {
      outgoing = rest;
    }

-- The client is gone: its stream ends, and nothing more can be sent to it.
unfoldable pub hang_up : System → Task → System
unfolding with_state set_task
hang_up y task =
    let s = state y in
    let clients =
      modify s.clients task.id (λ c. record c { writer = record c.writer { is_open = false } }) in
    set_task (with_state y (record s { clients = clients })) task.id
      (some (record task { ended = true }))

-- `shutdown_tx.send`: the accept loop and every task there is are signalled.
unfoldable pub shut_down : System → System
shut_down y = record y {
  signalled = true;
  tasks = map (λ e. (e.0, record e.1 { signalled = true })) y.tasks;
}
