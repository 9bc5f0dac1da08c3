-- ===== src/Daemon/Boot.antt =====
-- crates/daemon/src/main.rs, `cmd_start`: what it does once it stays in the foreground, with the task
-- that waits for a signal, `start_watcher` and `Server::run`.
pub mod Ends
use fake_notify.Base.{
  ℕ, Bool, true, false, Option, none, some, List, [], ◌∷◌, Text, Result, ok, err, if◌then◌else◌,
}
use fake_notify.Daemon.Config.{WatchConfig}
use fake_notify.Daemon.Start.{Signal, handle_signals, default_interval}
use fake_notify.Daemon.State
use fake_notify.Daemon.Manager.{Poller, start_watcher}
use fake_notify.Daemon.Listener.{
  Files, Faults, Connection, Event, accepted, accept_failed, shutdown, Run, run,
}

-- What comes to the daemon from outside, in order. What comes before the accept loop waits for it.
pub data Happening : Type 0 where
  arrives : Connection → Happening
  not_accepted : Text → Happening
  signalled : Signal → Happening

-- The signals among them.
abbrev pub signals_of : List Happening → List Signal
signals_of [] = []
signals_of (arrives c ∷ later) = signals_of later
signals_of (not_accepted e ∷ later) = signals_of later
signals_of (signalled s ∷ later) = s ∷ signals_of later

-- What the accept loop is told, given whether the task still waits for a signal. The task returns after
-- its first signal; the handlers stay, so that a later one has no effect.
unfoldable pub events : Bool → List Happening → List Event
events waiting [] = []
events waiting (arrives c ∷ later) = accepted c ∷ events waiting later
events waiting (not_accepted e ∷ later) = accept_failed e ∷ events waiting later
events false (signalled s ∷ later) = events false later
events true (signalled s ∷ later) =
    let rest = events false later in if handle_signals (s ∷ []) then shutdown ∷ rest else rest

-- What the daemon finds: the watcher's crate, the files of the socket, and the calls that fail.
pub record Machine {ℓ} (W : Type ℓ) : Type ℓ where
  pub poller : Poller W
  pub files : Files
  pub faults : Faults

-- The end of the daemon; `none` while it serves.
unfoldable pub start_daemon {ℓ} :
    {W : Type ℓ} → Machine W → List WatchConfig → List Happening → Option Run
unfolding events
start_daemon k watches happenings =
    elim (start_watcher k.poller State.new 1 watches (default_interval watches)) [
      | err e ↦ some (record { files = k.files; failure = some e; connections = [] })
      | ok (manager, dispatcher) ↦ run k.faults k.files (events true happenings)
    ]
