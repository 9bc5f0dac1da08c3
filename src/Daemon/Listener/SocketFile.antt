-- ===== src/Daemon/Listener/SocketFile.antt =====
-- crates/daemon/src/server.rs: when `Server::run` fails, and what it leaves of the file of the socket.
use fake_notify.Base.{
  ◌≡◌, refl, Bool, true, false, not, ◌&&◌, ◌||◌, Option, none, some, List, [], ◌∷◌, ◌++◌, Text,
  arith, All, ◌≢◌, ◌⊎◌, inl, inr, Option-cases,
}
use fake_notify.Daemon.Listener.{
  Files, Faults, Connection, Event, accepted, accept_failed, shutdown, prepare, accept_loop, run,
  Run, clean_up,
}

abbrev pub is_error : Option Text → Bool
is_error none = false
is_error (some e) = true

-- What `run` has done when its loop begins, or why it has not begun.
pub prepare_lem :
    (faults : Faults) (fs : Files)
    → (is_error (prepare faults fs).1 ≡ (
        fs.socket && is_error faults.remove_file
        || (fs.has_parent && not fs.directory && is_error faults.create_dir_all
            || (is_error faults.bind || is_error faults.set_permissions))))
      × ((is_error (prepare faults fs).1 ≡ true) ⊎ ((prepare faults fs).0.socket ≡ true))
unfolding prepare
prepare_lem faults fs = ground arith

-- The connections among some events.
abbrev pub accepted_of : List Event → List Connection
accepted_of [] = []
accepted_of (accepted c ∷ es) = c ∷ accepted_of es
accepted_of (accept_failed e ∷ es) = accepted_of es
accepted_of (shutdown ∷ es) = accepted_of es

abbrev pub NoShutdown : List Event → Type 0
NoShutdown = All (λ e. e ≢ shutdown)

accept_loop-append :
    (before later : List Event)
    → NoShutdown before
    → accept_loop (before ++ (shutdown ∷ later)) ≡ some (accepted_of before)
unfolding accept_loop
accept_loop-append [] later h = refl
accept_loop-append (accepted c ∷ es) later h = rw (accept_loop-append es later h.1) refl
accept_loop-append (accept_failed e ∷ es) later h = accept_loop-append es later h.1
accept_loop-append (shutdown ∷ es) later h = absurd (h.0 refl)

-- When a shutdown comes, `run` ends, and with an error exactly if a call that it made before its loop
-- failed: `remove_file` where the file of an earlier daemon was there, `create_dir_all` where the
-- directory was missing, and the two others always. Without an error, every connection that was
-- accepted before the shutdown was taken on, in order, failed accepts notwithstanding, and none
-- after it; and the file of the socket is gone, unless its removal failed.
pub run_lem :
    (faults : Faults) (fs : Files) (before later : List Event)
    → NoShutdown before
    → (r : Run) × (run faults fs (before ++ (shutdown ∷ later)) ≡ some r)
      × (is_error r.failure ≡ (
          fs.socket && is_error faults.remove_file
          || (fs.has_parent && not fs.directory && is_error faults.create_dir_all
              || (is_error faults.bind || is_error faults.set_permissions))))
      × ((is_error r.failure ≡ true)
          ⊎ ((r.connections ≡ accepted_of before)
              × (r.files.socket ≡ is_error faults.remove_at_end)))
unfolding run clean_up
run_lem faults fs before later h = elim (Option-cases (prepare faults fs).1) [
  | inr (e, failed) ↦ (
    record { files = (prepare faults fs).0; failure = some e; connections = [] },
    ground (arith, failed),
    ground (arith, failed, prepare_lem faults fs),
    inl refl,
  )
  | inl ready ↦ (
    record {
      files = clean_up faults (prepare faults fs).0;
      failure = none;
      connections = accepted_of before;
    },
    ground (arith, ready, accept_loop-append before later h),
    ground (arith, ready, prepare_lem faults fs),
    inr (refl, ground (arith, ready, prepare_lem faults fs)),
  )
]
