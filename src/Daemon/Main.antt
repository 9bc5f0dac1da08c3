-- ===== src/Daemon/Main.antt =====
-- crates/daemon/src/main.rs: `main`, from the arguments to the command. Setting up the log is a
-- parameter that may fail.
pub mod Effective
use fake_notify.Base.{Option, none, some, FilePath, Text, ascii, Result, ok, err, List}
use fake_notify.Daemon.Config.{Config, Surroundings, Source, load, with_socket, with_log_level}
use fake_notify.Daemon.Cli
use fake_notify.Daemon.Cli.{Cli, Command, socket_path}
use fake_notify.Daemon.Commands.{
  Link, Outcome, bail, cmd_stop, cmd_status, cmd_add, cmd_remove, cmd_list,
}
use fake_notify.Daemon.Start.{Host, Launch, fails, cmd_start}

pub record World : Type 0 where
  pub around : Surroundings
  pub extract : List Source → Result Config Text
  pub init_logging : Text → Option Text
  pub link : Link
  pub host : Host

-- The configuration that the commands see.
unfoldable pub overridden : Surroundings → Cli → Config → Config
overridden around cli config =
    with_log_level (with_socket config (some (socket_path around.env cli))) cli.log_level

abbrev plain : Outcome → Option Launch
plain o = some (record { outcome = o; child = none; daemon = none })

unfoldable pub dispatch : World → Config → Command → Option Launch
dispatch w config (Command.start socket daemonize pid_file) =
    cmd_start w.host config socket daemonize pid_file
dispatch w config (Command.stop socket) = plain (cmd_stop w.link config socket)
dispatch w config (Command.status socket) = plain (cmd_status w.link config socket)
dispatch w config (Command.add path poll_interval recursive socket) =
    plain (cmd_add w.link config socket path poll_interval recursive)
dispatch w config (Command.remove path socket) = plain (cmd_remove w.link config socket path)
dispatch w config (Command.list socket) = plain (cmd_list w.link config socket)

unfoldable pub log_level_for : Config → Command → Text
log_level_for config (Command.start socket daemonize pid_file) = config.daemon.log_level
log_level_for config _ = ascii "warn"

unfoldable pub main : World → Cli → Option Launch
unfolding overridden dispatch log_level_for
main w cli = elim (load w.around w.extract cli.config) [
  | err e ↦ some (fails e)
  | ok loaded ↦
      let config = overridden w.around cli loaded in
      elim (w.init_logging (log_level_for config cli.command)) [
        | some e ↦ some (fails e)
        | none ↦ dispatch w config cli.command
      ]
]
