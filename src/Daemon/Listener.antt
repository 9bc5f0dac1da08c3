-- ===== src/Daemon/Listener.antt =====
-- crates/daemon/src/server.rs: `Server::run`, from the file of the socket to the loop that accepts
-- connections. The answers of the file system and of the listener are parameters.
pub mod SocketFile
use fake_notify.Base.{
  ℕ, Bool, true, false, not, ◌&&◌, Option, none, some, List, [], ◌∷◌, Text, if◌then◌else◌,
}
use fake_notify.Daemon.State.{Writer}

-- Whether the file of the socket is there, its directory, and whether the path has one.
pub record Files : Type 0 where
  pub socket : Bool
  pub directory : Bool
  pub has_parent : Bool

-- The errors of the calls, where they fail.
pub record Faults : Type 0 where
  pub remove_file : Option Text
  pub create_dir_all : Option Text
  pub bind : Option Text
  pub set_permissions : Option Text
  pub remove_at_end : Option Text

abbrev pub Step : Type 0
Step = Files → Files × Option Text

-- A call that fails leaves the files alone.
abbrev call : Option Text → (Files → Files) → Step
call none effect fs = (effect fs, none)
call (some e) effect fs = (fs, some e)

-- `?`: what follows is skipped after an error.
infixl 5 ◌>>◌
abbrev ◌>>◌ : Step → Step → Step
◌>>◌ m k fs = elim (m fs).1 [ none ↦ k (m fs).0 | some e ↦ m fs ]

unfoldable pub remove_old : Faults → Step
remove_old faults fs =
    if fs.socket then call faults.remove_file (λ s. record s { socket = false }) fs else (fs, none)

unfoldable pub create_parent : Faults → Step
create_parent faults fs =
    if fs.has_parent && not fs.directory
    then call faults.create_dir_all (λ s. record s { directory = true }) fs
    else (fs, none)

unfoldable pub bind_socket : Faults → Step
bind_socket faults fs = call faults.bind (λ s. record s { socket = true }) fs

unfoldable pub set_permissions : Faults → Step
set_permissions faults fs = call faults.set_permissions (λ s. s) fs

-- What `run` does before its loop.
unfoldable pub prepare : Faults → Step
unfolding remove_old create_parent bind_socket set_permissions
prepare faults =
    remove_old faults >> create_parent faults >> bind_socket faults >> set_permissions faults

-- A connection with what its client sends.
pub record Connection : Type 0 where
  pub writer : Writer
  pub input : List ℕ

pub data Event : Type 0 where
  accepted : Connection → Event
  accept_failed : Text → Event
  shutdown : Event

-- The connections that are given a task; `none` while no shutdown has come.
unfoldable pub accept_loop : List Event → Option (List Connection)
accept_loop [] = none
accept_loop (accepted c ∷ events) = elim (accept_loop events) [
  | none ↦ none
  | some cs ↦ some (c ∷ cs)
]
accept_loop (accept_failed e ∷ events) = accept_loop events
accept_loop (shutdown ∷ events) = some []

unfoldable pub clean_up : Faults → Files → Files
clean_up faults fs =
    if fs.socket then (call faults.remove_at_end (λ s. record s { socket = false }) fs).0 else fs

-- The whole of `run`: the files, the error it returns, and the connections it took on.
pub record Run : Type 0 where
  pub files : Files
  pub failure : Option Text
  pub connections : List Connection

unfoldable pub run : Faults → Files → List Event → Option Run
unfolding accept_loop clean_up
run faults fs events =
    let (fs', failure) = prepare faults fs in
    elim failure [
      | some e ↦ some (record { files = fs'; failure = some e; connections = [] })
      | none ↦ elim (accept_loop events) [
        | none ↦ none
        | some cs ↦ some (record { files = clean_up faults fs'; failure = none; connections = cs })
      ]
    ]
