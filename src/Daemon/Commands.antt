-- ===== src/Daemon/Commands.antt =====
-- crates/daemon/src/main.rs: the commands that speak to a running daemon. What they print is a list of
-- lines. The connection to the daemon is a parameter, and so are the file system and the texts that
-- `display` and `Debug` give.
pub mod Requests
pub mod Adding
use fake_notify.Base.{
  ℕ, Bool, true, false, not, Option, none, some, List, [], ◌∷◌, ◌++◌, FilePath, Text, ascii,
  show_i32, Result, ok, err, if◌then◌else◌,
}
use fake_notify.Protocol.Event.{in_all_events}
use fake_notify.Protocol.Message.{Request, add_watch, ping, Response, watch_added, error, pong}
use fake_notify.Daemon.Cli.{unwrap_or}
use fake_notify.Daemon.Config.{Config}

-- `is_daemon_running` and `send_daemon_request`, at the moment of the command.
pub record Link : Type 0 where
  pub running : FilePath → Bool
  pub request : FilePath → Request → Result Response Text
  pub canonicalize : FilePath → Result FilePath Text
  pub display : FilePath → Text
  pub debug : Response → Text

-- The lines on the standard output, and the error that the command returns, if it does.
pub record Outcome : Type 0 where
  pub printed : List Text
  pub failure : Option Text

abbrev pub prints : List Text → Outcome
prints lines = record { printed = lines; failure = none }

abbrev pub bail : Text → Outcome
bail message = record { printed = []; failure = some message }

module _ (link : Link) where
  unfoldable pub cmd_stop : Config → Option FilePath → Outcome
  cmd_stop config socket_override =
      let socket_path = unwrap_or socket_override config.daemon.socket in
      if not (link.running socket_path)
      then prints (ascii "Daemon is not running" ∷ [])
      else elim (link.request socket_path ping) [
        | ok _ ↦ prints (
            (ascii "Daemon is running at "
              ++ (link.display socket_path ++ ascii ". Use kill or systemctl to stop."))
            ∷ ascii "(Shutdown command not implemented - use SIGTERM)"
            ∷ [])
        | err e ↦ prints ((ascii "Failed to communicate with daemon: " ++ e) ∷ [])
      ]

  unfoldable pub cmd_status : Config → Option FilePath → Outcome
  cmd_status config socket_override =
      let socket_path = unwrap_or socket_override config.daemon.socket in
      if not (link.running socket_path)
      then prints (ascii "Daemon is not running" ∷ [])
      else elim (link.request socket_path ping) [
        | ok pong ↦
            prints (
              (ascii "Daemon is running at " ++ link.display socket_path) ∷ ascii "Status: OK" ∷ [])
        | ok resp ↦ prints ((ascii "Unexpected response: " ++ link.debug resp) ∷ [])
        | err e ↦ prints ((ascii "Failed to communicate with daemon: " ++ e) ∷ [])
      ]

  -- The interval and the flag are not used.
  unfoldable pub cmd_add : Config → Option FilePath → FilePath → ℕ → Bool → Outcome
  cmd_add config socket_override path poll_interval recursive =
      let socket_path = unwrap_or socket_override config.daemon.socket in
      if not (link.running socket_path)
      then bail (ascii "Daemon is not running")
      else elim (link.canonicalize path) [
        | err e ↦ bail e
        | ok abs_path ↦ elim (link.request socket_path (add_watch abs_path in_all_events)) [
          | ok (watch_added wd) ↦ prints (
              (ascii "Watch added: wd="
                ++ (show_i32 wd ++ (ascii " path=" ++ link.display abs_path)))
              ∷ [])
          | ok (error message) ↦ bail (ascii "Failed to add watch: " ++ message)
          | ok resp ↦ bail (ascii "Unexpected response: " ++ link.debug resp)
          | err e ↦ bail (ascii "Failed to communicate with daemon: " ++ e)
        ]
      ]

  unfoldable pub cmd_remove : Config → Option FilePath → FilePath → Outcome
  cmd_remove config socket_override path =
      let socket_path = unwrap_or socket_override config.daemon.socket in
      if not (link.running socket_path)
      then bail (ascii "Daemon is not running")
      else prints (
          (ascii "Remove by path not fully implemented. Path: " ++ link.display path)
          ∷ ascii "Use the watch descriptor from 'list' command with the RemoveWatch request."
          ∷ [])

  unfoldable pub cmd_list : Config → Option FilePath → Outcome
  cmd_list config socket_override =
      let socket_path = unwrap_or socket_override config.daemon.socket in
      if not (link.running socket_path)
      then prints (ascii "Daemon is not running" ∷ [])
      else elim (link.request socket_path ping) [
        | ok pong ↦ prints (
            (ascii "Daemon is running at " ++ link.display socket_path)
            ∷ ascii "(List watches command not yet implemented)"
            ∷ [])
        | ok resp ↦ prints ((ascii "Unexpected response: " ++ link.debug resp) ∷ [])
        | err e ↦ bail (ascii "Failed to communicate with daemon: " ++ e)
      ]
