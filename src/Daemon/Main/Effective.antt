-- ===== src/Daemon/Main/Effective.antt =====
-- crates/daemon/src/main.rs: where the socket of a command comes from.
use fake_notify.Base.{◌≡◌, arith}
use fake_notify.Daemon.Config.{Config, Surroundings, with_socket, with_log_level}
use fake_notify.Daemon.Cli.{Cli, socket_of, socket_path, unwrap_or}
use fake_notify.Daemon.Main.{overridden}

-- The socket that a command uses is the one of its arguments, or else the default: it is the same for
-- every configuration that was loaded, so the setting `socket` of a configuration has no effect.
pub configured_socket_ignored :
    (around : Surroundings) (cli : Cli) (loaded : Config)
    → unwrap_or (socket_of cli.command) (overridden around cli loaded).daemon.socket
      ≡ socket_path around.env cli
unfolding overridden with_socket with_log_level socket_path
configured_socket_ignored around cli loaded = ground arith
