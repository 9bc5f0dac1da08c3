-- ===== src/Daemon/Cli.antt =====
-- crates/daemon/src/cli.rs: the arguments, as the crate clap gives them.
use fake_notify.Base.{ℕ, Bool, Option, none, some, FilePath, Text}
use fake_notify.Protocol.Socket.{get_socket_path_with_xdg_fallback}

pub data Command : Type 0 where
  start : (socket : Option FilePath) → (daemonize : Bool) → (pid_file : Option FilePath) → Command
  stop : (socket : Option FilePath) → Command
  status : (socket : Option FilePath) → Command
  add :
      (path : FilePath)
      → (poll_interval : ℕ) → (recursive : Bool) → (socket : Option FilePath) → Command
  remove : (path : FilePath) → (socket : Option FilePath) → Command
  list : (socket : Option FilePath) → Command

pub record Cli : Type 0 where
  pub config : Option FilePath
  pub log_level : Option Text
  pub command : Command

-- The socket that the arguments name.
unfoldable pub socket_of : Command → Option FilePath
socket_of (start socket daemonize pid_file) = socket
socket_of (stop socket) = socket
socket_of (status socket) = socket
socket_of (add path poll_interval recursive socket) = socket
socket_of (remove path socket) = socket
socket_of (list socket) = socket

-- `unwrap_or_else`
abbrev pub unwrap_or : Option FilePath → FilePath → FilePath
unwrap_or none d = d
unwrap_or (some p) d = p

unfoldable pub socket_path : (Text → Option Text) → Cli → FilePath
unfolding socket_of
socket_path env cli = unwrap_or (socket_of cli.command) (get_socket_path_with_xdg_fallback env)
