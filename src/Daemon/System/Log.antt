-- ===== src/Daemon/System/Log.antt =====
-- crates/daemon/src/server.rs and watcher.rs: what one connection is told in a run of the daemon. The
-- log keeps the responses and the events apart, each in the order in which they come about. It starts
-- anew where its number is given to a connection.
pub mod Owed
pub mod Answers
pub mod Events
pub mod Took
pub mod Sockets
pub mod Written
pub mod Exact
use fake_notify.Base.{
  ℕ, Option, none, some, List, [], ◌∷◌, ◌++◌, Map, get, ◌==◌, if◌then◌else◌, Result, ok, err, ascii,
  Endian, nat_eq, ◌&&◌, contains,
}
use fake_notify.Protocol.Message.{
  Bincode, Request, ProtocolError, Response, client_registered, error, display_error,
  request_from_bytes, response_to_bytes, frame,
}
use fake_notify.Daemon.State.{DaemonState, ClientId, WatchDescriptor}
use fake_notify.Daemon.Server.{Platform, handle_request}
use fake_notify.Daemon.System.{
  System, Task, greeting, reading, replying, leaving, waits, message, breaks, receive, state,
}
use fake_notify.Daemon.State.Queries.{find_watch_for_path}
use fake_notify.Daemon.Watcher.{Dispatcher, WatcherEvent, notify_to_inotify_mask}
use fake_notify.Daemon.Watcher.Delivery.{frame_for}
use fake_notify.Daemon.System.Soundness.{connects}
use fake_notify.Protocol.Event.{intersects}
use fake_notify.Daemon.System.Runs.{
  Step, Run, accepts, resumes, interrupted, receives, finishes, hangs_up, notices, takes, looks_up,
  sends, signals, stops, here, next,
}

-- What the connection is to be told, and what it has been told: responses, and frames of events.
pub record Log : Type 0 where
  pub dues : List Response
  pub said : List Response
  pub planned : List (List ℕ)
  pub sent : List (List ℕ)

-- The response that a task has at hand.
unfoldable pub owed : Task → List Response
owed task = elim task.phase [
  | greeting ↦ client_registered task.id ∷ []
  | reading ↦ []
  | replying response ends_on_failure ↦ response ∷ []
  | leaving ↦ []
]

unfoldable pub owed_by : Option Task → List Response
unfolding owed
owed_by none = []
owed_by (some task) = owed task

-- The frames on their way to a connection.
unfoldable pub pending : ClientId → List (ClientId × List ℕ) → List (List ℕ)
pending id [] = []
pending id ((d, framed) ∷ rest) = if d == id then framed ∷ pending id rest else pending id rest

-- The frames that a connection is to be sent of an event whose watch is found: one, if the connection's
-- client is one of the watch and still there.
unfoldable pub clients_due : DaemonState → WatchDescriptor → List ℕ → ClientId → List (List ℕ)
clients_due s wd framed id = elim (get s.watches wd) [
  | none ↦ []
  | some watch ↦ if contains watch.clients id && connects s id then framed ∷ [] else []
]

-- The frames that the responses come to; one that the codec refuses is left out.
unfoldable pub encoded : Bincode → List Response → List (List ℕ)
encoded b [] = []
encoded b (response ∷ later) = elim (response_to_bytes b response) [
  | err e ↦ encoded b later
  | ok payload ↦ frame payload ∷ encoded b later
]

-- Two sequences of chunks in one stream, each in its own order.
pub data Merge : List (List ℕ) → List (List ℕ) → List ℕ → Type 0 where
  nothing : Merge [] [] []
  left :
      {xs ys : List (List ℕ)} {stream : List ℕ} (x : List ℕ)
      → Merge xs ys stream
      → Merge (xs ++ (x ∷ [])) ys (stream ++ x)
  right :
      {xs ys : List (List ℕ)} {stream : List ℕ} (y : List ℕ)
      → Merge xs ys stream
      → Merge xs (ys ++ (y ∷ [])) (stream ++ y)

module _ (os : Platform) where
  -- The response that a message calls for when it is read.
  unfoldable pub response_for : ℕ → DaemonState → ClientId → List ℕ → Response
  response_for now s id payload = elim (request_from_bytes os.bincode payload) [
    | ok request ↦ (handle_request os now s id request).1
    | err e ↦ error (ascii "Invalid request: " ++ display_error e)
  ]

  -- What falls due in a step of a task.
  unfoldable pub falls_due : ℕ → DaemonState → Task → List Response
  unfolding response_for
  falls_due now s task = elim task.phase [
    | greeting ↦ []
    | reading ↦ elim (receive task.unread task.ended) [
      | waits ↦ []
      | breaks ↦ []
      | message payload rest ↦ response_for now s task.id payload ∷ []
    ]
    | replying response ends_on_failure ↦ []
    | leaving ↦ []
  ]

module _ (os : Platform) (ne : Endian) where
  unfoldable pub log_step :
      {y z : System} {actor : Option ClientId} → Step os ne y z actor → ClientId → Log → Log
  unfolding owed pending falls_due clients_due
  log_step {y} (accepts writer unused up e) id l =
      if (state y).next_client_id == id
      then record {
        dues = client_registered id ∷ [];
        said = [];
        planned = pending id y.outgoing;
        sent = [];
      }
      else l
  log_step {y} (resumes now d task s after at h e) id l =
      if d == id
      then record l { dues = l.dues ++ falls_due os now (state y) task; said = l.said ++ owed task }
      else l
  log_step (interrupted d task at top between signal e) id l = l
  log_step (receives d task bytes at up e) id l = l
  log_step (finishes d task at e) id l = l
  log_step (hangs_up d task at e) id l = l
  log_step (notices events e) id l = l
  log_step (takes event later idle sent queued e) id l = l
  log_step {y} (looks_up wd framed there idle e) id l = record l {
    planned = l.planned ++ clients_due (state y) wd framed id;
  }
  log_step (sends d framed rest queued e) id l =
      if d == id then record l { sent = l.sent ++ (framed ∷ []) } else l
  log_step (signals early e) id l = l
  log_step (stops up e) id l = l

  -- At the start the log holds what is due and what is on its way.
  unfoldable pub log :
      {y z : System} {actors : List (Option ClientId)} → Run os ne y z actors → ClientId → Log
  unfolding owed_by pending log_step
  log {y} here id = record {
    dues = owed_by (get y.tasks id);
    said = [];
    planned = pending id y.outgoing;
    sent = [];
  }
  log (next r step) id = log_step step id (log r id)
