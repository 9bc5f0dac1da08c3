-- ===== src/Tests/CommandTests.antt =====
-- crates/daemon/src/main.rs, config.rs and server.rs: the theorems on the start of the daemon and on the
-- commands, at samples.
use fake_notify.Base.{
  ℕ, ◌≡◌, ◌+◌, ◌<◌, ◌⊎◌, refl, true, false, none, some, [], ◌∷◌, length, FilePath, ok, ascii,
  normal, arith, get, insert, modify, to_le_bytes, suc, list_eq, nat_eq,
}
use fake_notify.Protocol.Event.{in_all_events}
use fake_notify.Protocol.Message.{
  pong, add_watch, client_registered, frame, request_to_bytes, response_to_bytes,
}
use fake_notify.Daemon.Config.{Config, Surroundings, default_config}
use fake_notify.Daemon.Cli.{Cli, Command, socket_of, socket_path, unwrap_or}
use fake_notify.Daemon.Commands.{Link, cmd_add}
use fake_notify.Daemon.Commands.Adding.{cmd_add_forgotten}
use fake_notify.Daemon.Listener.{
  Files, Faults, Connection, accepted, accept_failed, shutdown, Run, run,
}
use fake_notify.Daemon.Listener.SocketFile.{is_error, run_lem}
use fake_notify.Daemon.Main.{overridden}
use fake_notify.Daemon.Main.Effective.{configured_socket_ignored}
use fake_notify.Daemon.State
use fake_notify.Daemon.State.{DaemonState, subscribes, new, deliver, send_event, new_client}
use fake_notify.Daemon.State.Invariant.{IsValid}
use fake_notify.Daemon.Server.{handle_request, send_response, handle_client}
use fake_notify.Tests.Samples.{socket, media, watched, watched-IsValid, codec, os}

-- A host with a configuration in the user's directory only.
abbrev host : Surroundings
host = record { env = λ name. none; config_dir = some media; exists = λ p. true }

abbrev cli : Cli
cli = record { config = none; log_level = some (ascii "debug"); command = Command.status none }

configured_socket_ignored_example :
    unwrap_or (socket_of cli.command) (overridden host cli (default_config host)).daemon.socket
    ≡ socket_path host.env cli
configured_socket_ignored_example = configured_socket_ignored host cli (default_config host)

abbrev config : Config
config = default_config host

abbrev link : Link
link = record {
  running = λ p. true;
  request = λ p request. ok pong;
  canonicalize = λ p. ok p;
  display = λ p. ascii "path";
  debug = λ r. ascii "response";
}

abbrev fine : Faults
fine = record {
  remove_file = none;
  create_dir_all = none;
  bind = none;
  set_permissions = none;
  remove_at_end = none;
}

abbrev leftover : Files
leftover = record { socket = true; directory = true; has_parent = true }

abbrev first : Connection
first = record { writer = socket; input = [] }

run_lem_example :
    (r : Run) × (run fine leftover (accepted first ∷ accept_failed (ascii "limit") ∷ shutdown ∷ [])
      ≡ some r)
    × (is_error r.failure ≡ false)
    × ((is_error r.failure ≡ true) ⊎ ((r.connections ≡ first ∷ []) × (r.files.socket ≡ false)))
run_lem_example =
    run_lem fine leftover (accepted first ∷ accept_failed (ascii "limit") ∷ []) []
      ((λ h. absurd (ground (arith, h))), ((λ h. absurd (ground (arith, h))), tt))

-- The daemon after its greeting to the command, and the request of the command.
abbrev greeted : DaemonState
greeted = (send_response os (State.register_client watched socket).0 3 (client_registered 3)).0

abbrev film : FilePath
film = normal (ascii "m") ∷ []

abbrev answering : Link
answering = record {
  running = λ p. true;
  request = λ p request. ok (handle_request os 0 greeted 3 request).1;
  canonicalize = λ p. ok p;
  display = λ p. ascii "path";
  debug = λ r. ascii "response";
}

greeting_sent :
    (send_response os (State.register_client watched socket).0 3 (client_registered 3)).1 ≡ true
unfolding new State.register_client State.add_watch State.existing get insert modify
    State.push_watch send_response deliver send_event response_to_bytes new_client frame to_le_bytes
greeting_sent = refl

asked_bytes :
    request_to_bytes codec (add_watch film in_all_events) ≡ ok (1 ∷ in_all_events ∷ 109 ∷ [])
unfolding request_to_bytes
asked_bytes = refl

frame_room : watched.next_wd + suc (length (frame (1 ∷ in_all_events ∷ 109 ∷ []))) < 4294967296
unfolding new State.register_client State.add_watch State.existing get frame to_le_bytes
frame_room = omega arith

cmd_add_forgotten_example :
    ((cmd_add answering config (some media) film 5 true).failure ≡ none)
    × ((t : DaemonState) × (handle_client os watched socket (frame (1 ∷ in_all_events ∷ 109 ∷ []))
          ≡ some t)
        × IsValid t
        × ((d : ℕ) (p : FilePath) → subscribes t d p ≡ subscribes watched d p))
unfolding new State.register_client State.add_watch State.existing get
cmd_add_forgotten_example =
    cmd_add_forgotten os answering config (some media) film film 5 true 0 watched socket
      (1 ∷ in_all_events ∷ 109 ∷ []) watched-IsValid (omega arith) frame_room greeting_sent
      asked_bytes refl refl refl refl
