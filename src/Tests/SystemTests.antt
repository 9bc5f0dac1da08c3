-- ===== src/Tests/SystemTests.antt =====
-- crates/daemon/src/server.rs and watcher.rs: the theorems on interleaved tasks, at samples.
use fake_notify.Base.{
  All, ℕ, ◌≡◌, ◌≢◌, ◌+◌, ◌<◌, refl, true, false, Bool-cases, inl, inr, Option, none, some, List, [],
  ◌∷◌, get, insert, modify, nat_eq, ◌==◌, arith, little, FilePath, to_le_bytes, list_eq,
  component_eq,
}
use fake_notify.Protocol.Message.{client_registered, response_to_bytes, frame}
use fake_notify.Daemon.State
use fake_notify.Daemon.State.{
  DaemonState, ClientId, new, new_client, deliver, send_event, subscribes, unregister_client,
  release_all, release,
}
use fake_notify.Daemon.State.Steps
use fake_notify.Daemon.State.Steps.{Reach-IsValid}
use fake_notify.Daemon.Server.{send_response, handle_client}
use fake_notify.Daemon.Watcher
use fake_notify.Daemon.Watcher.{Dispatcher, WatcherEvent, RemoveKind}
use fake_notify.Daemon.System.{
  System, Task, greeting, reading, state, with_state, set_task, accept, resume,
}
use fake_notify.Daemon.System.Runs.{HasNumbers, Run, accepts, resumes, here, next}
use fake_notify.Daemon.System.Soundness.{connects}
use fake_notify.Daemon.System.Invariant.{IsConsistent, Run-IsConsistent}
use fake_notify.Daemon.System.Subscriptions.{Keeps, Run-Keeps}
use fake_notify.Daemon.System.Whole.{IsFramed, Run-IsFramed}
use fake_notify.Daemon.System.Departing.{departs}
use fake_notify.Tests.Samples.{
  socket, film, watched, watched-IsValid, os, new-HasRoom, one_client, one_client-HasRoom,
}

-- A daemon with a state and some tasks.
abbrev pub daemon : DaemonState → List (ClientId × Task) → List WatcherEvent → System
daemon s tasks queue = record {
  dispatcher = record { state = s; pending_renames = []; cookie_counter = 1 };
  found = none;
  outgoing = [];
  queue = queue;
  tasks = tasks;
  listening = true;
  signalled = false;
}

abbrev pub serving : System
serving = daemon new [] []

pub serving-IsConsistent : IsConsistent serving
unfolding get
serving-IsConsistent = record {
  valid = Reach-IsValid Steps.Reach.here (omega arith);
  served = λ id task h. absurd (ground (arith, h));
}

-- The first connection, before its greeting and after it.
abbrev pub first_task : Task
first_task = record { id = 1; phase = greeting; unread = []; ended = false; signalled = false }

abbrev pub one_task : System
one_task = accept serving socket

abbrev pub greeted : DaemonState
greeted = (send_response os one_client 1 (client_registered 1)).0

pub first_there : get one_task.tasks 1 ≡ some first_task
unfolding accept get insert new State.register_client set_task with_state
first_there = refl

pub first_greeted :
    resume os 0 one_client first_task ≡ some (greeted, some (record first_task { phase = reading }))
unfolding resume new State.register_client get insert modify send_response deliver send_event
    response_to_bytes new_client frame to_le_bytes
first_greeted = refl

unfoldable pub first_steps :
    Run os little serving
      (set_task (with_state one_task greeted) 1 (some (record first_task { phase = reading })))
      (some 1 ∷ none ∷ [])
unfolding accept set_task with_state State.register_client
first_steps = next (next here (accepts socket refl refl refl)) (
    resumes 0 1 first_task greeted (some (record first_task { phase = reading })) first_there
      first_greeted refl)

pub first_numbers : HasNumbers os little first_steps
unfolding first_steps accept set_task with_state State.register_client
first_numbers = ((tt, new-HasRoom), one_client-HasRoom)

Run-IsConsistent_example :
    IsConsistent
      (set_task (with_state one_task greeted) 1 (some (record first_task { phase = reading })))
Run-IsConsistent_example = Run-IsConsistent os little serving-IsConsistent first_steps first_numbers

serving-IsFramed : IsFramed serving
unfolding get new
serving-IsFramed = record {
  sockets = λ d cl h. absurd (ground (arith, h));
  found = tt;
  pending = tt;
}

Run-IsFramed_example :
    IsFramed
      (set_task (with_state one_task greeted) 1 (some (record first_task { phase = reading })))
Run-IsFramed_example = Run-IsFramed os little serving-IsFramed first_steps first_numbers

Run-Keeps_example : Keeps 2 new greeted
unfolding set_task with_state
Run-Keeps_example =
    Run-Keeps os little 2 serving-IsConsistent first_steps first_numbers
      ((λ e. absurd (ground (arith, e))), ((λ e. absurd (ground (arith, e))), tt))

-- A file is removed under a directory that is watched.
abbrev pub removal : WatcherEvent
removal = record { path = film; kind = Watcher.EventKind.remove RemoveKind.file; is_dir = false }

-- The first client of a watch has asked to leave it, and sends no more.
abbrev last_task : Task
last_task = record {
  id = 1;
  phase = reading;
  unread = 3 ∷ 0 ∷ 0 ∷ 0 ∷ 2 ∷ 1 ∷ [];
  ended = true;
  signalled = false;
}

abbrev ending : System
ending = daemon watched ((1, last_task) ∷ []) []

first_connects : connects watched 1 ≡ true
unfolding new State.register_client State.add_watch State.existing get insert modify
    State.push_watch new_client
first_connects = refl

ending-IsConsistent : IsConsistent ending
unfolding get
ending-IsConsistent = record {
  valid = watched-IsValid;
  served = λ id task h. elim (Bool-cases (1 == id)) [
    | inl same ↦ ground (arith, same, h, first_connects)
    | inr other ↦ absurd (ground (arith, other, h))
  ];
}

last_there : get ending.tasks 1 ≡ some last_task
unfolding get
last_there = refl

watched_room :
    (watched.next_wd + 8 < 4294967296) × (watched.next_client_id + 1 < 18446744073709551616)
unfolding new State.register_client State.add_watch State.existing get
watched_room = (omega arith, omega arith)

departs_example :
    (z : System) × (actors : List (Option ClientId)) × Run os little ending z actors
    × All (λ actor. actor ≡ some 1) actors
    × (get z.tasks 1 ≡ none)
    × (connects (state z) 1 ≡ false)
    × ((p : FilePath) → subscribes (state z) 1 p ≡ false)
    × ((d : ClientId) → d ≢ 1 → get z.tasks d ≡ get ending.tasks d)
departs_example =
    departs os little ending last_task ending-IsConsistent last_there refl refl watched_room.0
      watched_room.1

-- A session that adds a watch.
abbrev input : List ℕ
input = 3 ∷ 0 ∷ 0 ∷ 0 ∷ 1 ∷ 2 ∷ 109 ∷ []

abbrev after_session : DaemonState
after_session = elim (handle_client os new socket input) [ none ↦ new | some t ↦ t ]

first_room : (new.next_client_id + 2 < 18446744073709551616) × (new.next_wd + 9 < 4294967296)
unfolding new
first_room = (omega arith, omega arith)
