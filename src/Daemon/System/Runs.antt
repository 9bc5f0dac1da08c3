-- ===== src/Daemon/System/Runs.antt =====
-- crates/daemon/src/server.rs and watcher.rs: the orders in which the tasks of the daemon may run. The
-- shutdown interrupts a task that waits for a header, not one that waits for the rest of a payload: bytes
-- that come just before a shutdown which the task takes first count as received behind it.
use fake_notify.Base.{
  ℕ, ◌≡◌, true, false, Option, none, some, List, [], ◌∷◌, ◌++◌, get, nat_eq, Endian,
}
use fake_notify.Daemon.State.{DaemonState, ClientId, WatchDescriptor, Writer}
use fake_notify.Daemon.State.Invariant.Joining.{HasRoom}
use fake_notify.Daemon.Server.{Platform}
use fake_notify.Daemon.Watcher.{WatcherEvent}
use fake_notify.Daemon.System.{
  System, Task, reading, leaving, state, with_state, set_task, resume, accept, take_event, look_up,
  look_up, send_next, hang_up, shut_down, in_payload,
}

module _ (os : Platform) (ne : Endian) where
  -- A step, with the connection whose task makes it, if it is one of those.
  pub data Step (y z : System) : Option ClientId → Type 0 where
    accepts :
        (writer : Writer)
        → writer.written ≡ []
        → y.listening ≡ true
        → z ≡ accept y writer
        → Step y z none
    resumes :
        (now : ℕ) (id : ClientId) (task : Task) (s : DaemonState) (after : Option Task)
        → get y.tasks id ≡ some task
        → resume os now (state y) task ≡ some (s, after)
        → z ≡ set_task (with_state y s) id after
        → Step y z (some id)
    interrupted :
        (id : ClientId) (task : Task)
        → get y.tasks id ≡ some task
        → task.phase ≡ reading
        → in_payload task.unread ≡ false
        → task.signalled ≡ true
        → z ≡ set_task y id (some (record task { phase = leaving }))
        → Step y z (some id)
    receives :
        (id : ClientId) (task : Task) (bytes : List ℕ)
        → get y.tasks id ≡ some task
        → task.ended ≡ false
        → z ≡ set_task y id (some (record task { unread = task.unread ++ bytes }))
        → Step y z none
    finishes :
        (id : ClientId) (task : Task)
        → get y.tasks id ≡ some task
        → z ≡ set_task y id (some (record task { ended = true }))
        → Step y z none
    hangs_up :
        (id : ClientId) (task : Task)
        → get y.tasks id ≡ some task
        → z ≡ hang_up y task
        → Step y z none
    notices :
        (events : List WatcherEvent) → z ≡ record y { queue = y.queue ++ events } → Step y z none
    takes :
        (event : WatcherEvent) (later : List WatcherEvent)
        → y.found ≡ none
        → y.outgoing ≡ []
        → y.queue ≡ event ∷ later
        → z ≡ take_event ne y event later
        → Step y z none
    looks_up :
        (wd : WatchDescriptor) (framed : List ℕ)
        → y.found ≡ some (wd, framed)
        → y.outgoing ≡ []
        → z ≡ look_up y wd framed
        → Step y z none
    sends :
        (id : ClientId) (framed : List ℕ) (rest : List (ClientId × List ℕ))
        → y.outgoing ≡ (id, framed) ∷ rest
        → z ≡ send_next y id framed rest
        → Step y z none
    signals : y.signalled ≡ false → z ≡ shut_down y → Step y z none
    stops : y.signalled ≡ true → z ≡ record y { listening = false } → Step y z none

  -- Where a step may give out a number, both counters have one left.
  abbrev pub Needs : {y z : System} {actor : Option ClientId} → Step y z actor → Type 0
  Needs {y} (accepts writer unused up e) = HasRoom (state y)
  Needs {y} (resumes now id task s after at h e) = HasRoom (state y)
  Needs (interrupted id task at top between signal e) = Unit
  Needs (receives id task bytes at up e) = Unit
  Needs (finishes id task at e) = Unit
  Needs (hangs_up id task at e) = Unit
  Needs (notices events e) = Unit
  Needs (takes event later idle sent queued e) = Unit
  Needs (looks_up wd framed there idle e) = Unit
  Needs (sends id framed rest queued e) = Unit
  Needs (signals early e) = Unit
  Needs (stops up e) = Unit

  -- A run, with the connections whose tasks make a step in it.
  pub data Run (y : System) : System → List (Option ClientId) → Type 0 where
    here : Run y y []
    next :
        {z x : System} {actors : List (Option ClientId)} {actor : Option ClientId}
        → Run y z actors
        → Step z x actor
        → Run y x (actor ∷ actors)

  -- The counters of the daemon do not come round in the run.
  abbrev pub HasNumbers : {y z : System} {actors : List (Option ClientId)} → Run y z actors → Type 0
  HasNumbers here = Unit
  HasNumbers (next r step) = HasNumbers r × Needs step

  -- A run behind a run.
  pub Run-append :
      {x y z : System} {before later : List (Option ClientId)}
      → Run x y before
      → Run y z later
      → Run x z (later ++ before)
  Run-append r here = r
  Run-append r (next q step) = next (Run-append r q) step
