-- ===== src/Daemon/Boot/Ends.antt =====
-- crates/daemon/src/main.rs, `cmd_start`: when the daemon ends.
use fake_notify.Base.{
  ◌≡◌, refl, Bool, true, false, not, ◌&&◌, ◌||◌, Option, none, some, List, [], ◌∷◌, Text, Result,
  ok, err, arith, Option-cases, inl, inr,
}
use fake_notify.Daemon.Config.{WatchConfig}
use fake_notify.Daemon.Start.{Signal, handle_signals, default_interval}
use fake_notify.Daemon.Manager.{start_watcher}
use fake_notify.Daemon.Listener.{Files, Faults, Event, accept_loop, prepare, run}
use fake_notify.Daemon.Listener.SocketFile.{is_error, prepare_lem}
use fake_notify.Daemon.Boot.{
  Happening, arrives, not_accepted, signalled, signals_of, events, Machine, start_daemon,
}

abbrev pub is_none {ℓ} : {A : Type ℓ} → Option A → Bool
is_none none = true
is_none (some a) = false

abbrev pub succeeds {ℓ} : {A : Type ℓ} → Result A Text → Bool
succeeds (ok a) = true
succeeds (err e) = false

-- Whether the first signal is one that ends the daemon.
abbrev pub first_ends : List Signal → Bool
first_ends [] = false
first_ends (Signal.terminate ∷ later) = true
first_ends (Signal.interrupt ∷ later) = true
first_ends (Signal.hangup ∷ later) = false

-- Without the task, no shutdown comes.
events-unheard : (hs : List Happening) → is_none (accept_loop (events false hs)) ≡ true
unfolding accept_loop events
events-unheard [] = refl
events-unheard (arrives c ∷ hs) = ground (arith, events-unheard hs)
events-unheard (not_accepted e ∷ hs) = events-unheard hs
events-unheard (signalled s ∷ hs) = events-unheard hs

events-heard :
    (hs : List Happening)
    → is_none (accept_loop (events true hs)) ≡ not (first_ends (signals_of hs))
unfolding accept_loop events handle_signals
events-heard [] = refl
events-heard (arrives c ∷ hs) = ground (arith, events-heard hs)
events-heard (not_accepted e ∷ hs) = events-heard hs
events-heard (signalled Signal.terminate ∷ hs) = refl
events-heard (signalled Signal.interrupt ∷ hs) = refl
events-heard (signalled Signal.hangup ∷ hs) = events-unheard hs

-- Whether a call before the accept loop fails.
abbrev pub is_blocked : Faults → Files → Bool
is_blocked faults fs =
    fs.socket && is_error faults.remove_file
    || (fs.has_parent && not fs.directory && is_error faults.create_dir_all
        || (is_error faults.bind || is_error faults.set_permissions))

run-none :
    (faults : Faults) (fs : Files) (es : List Event)
    → is_none (run faults fs es) ≡ (not (is_blocked faults fs) && is_none (accept_loop es))
unfolding run
run-none faults fs es = elim (Option-cases (prepare faults fs).1) [
  | inl ready ↦ elim (Option-cases (accept_loop es)) [
    | inl serving ↦ ground (arith, ready, serving, prepare_lem faults fs)
    | inr (cs, over) ↦ ground (arith, ready, over, prepare_lem faults fs)
  ]
  | inr (e, failed) ↦ ground (arith, failed, prepare_lem faults fs)
]

-- After what has come so far the daemon still serves exactly if its watcher can be made with the interval
-- of the first watch, none of the calls that it makes before its accept loop fails, and the first
-- signal, if one has come, is a hang-up. So after a hang-up no SIGTERM or SIGINT ends the daemon.
pub start_daemon-none {ℓ} :
    {W : Type ℓ} (k : Machine W) (watches : List WatchConfig) (hs : List Happening)
    → is_none (start_daemon k watches hs) ≡ (
        succeeds (k.poller.new (default_interval watches))
        && (not (is_blocked k.faults k.files) && not (first_ends (signals_of hs))))
unfolding start_daemon start_watcher
start_daemon-none {W} k watches hs = go (k.poller.new (default_interval watches)) refl
  where
    go :
        (x : Result W Text)
        → k.poller.new (default_interval watches) ≡ x
        → is_none (start_daemon k watches hs) ≡ (
            succeeds (k.poller.new (default_interval watches))
            && (not (is_blocked k.faults k.files) && not (first_ends (signals_of hs))))
    go (err e) h = rw (h, start_daemon) refl
    go (ok fresh) h =
        rw (h, start_daemon) rw (run-none k.faults k.files (events true hs)) rw (events-heard hs)
          refl
