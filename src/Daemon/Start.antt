-- ===== src/Daemon/Start.antt =====
-- crates/daemon/src/main.rs: `cmd_start`, the arguments of the process that it leaves in the background,
-- and the task that waits for a signal. What the process finds of itself and what `spawn` and `write`
-- answer are parameters.
pub mod Child
use fake_notify.Base.{
  ℕ, Bool, true, false, not, ◌||◌, Option, none, some, List, [], ◌∷◌, ◌++◌, retain, ◌==◌, list_eq,
  nat_eq, FilePath, Text, ascii, decimal, Result, ok, err, if◌then◌else◌,
}
use fake_notify.Daemon.Config.{Config, WatchConfig}
use fake_notify.Daemon.Cli.{unwrap_or}
use fake_notify.Daemon.Commands.{Outcome, bail, prints}

pub record Host : Type 0 where
  pub running : FilePath → Bool
  pub display : FilePath → Text
  pub current_exe : Result FilePath Text
  pub args : List Text
  pub spawn : FilePath → List Text → Result ℕ Text
  pub write : FilePath → Text → Option Text

-- The spelling that the child must not see.
unfoldable pub is_daemonize : Text → Bool
is_daemonize arg = (arg == ascii "--daemonize") || (arg == ascii "-d")

-- `args.retain`, and `&args[1..]`, which panics on an empty list.
unfoldable pub child_args : List Text → Option (List Text)
unfolding is_daemonize
child_args args = elim (retain (λ arg. not (is_daemonize arg)) args) [
  | [] ↦ none
  | name ∷ rest ↦ some rest
]

-- What the command comes to: what it prints and returns, the process that it left behind, and the
-- daemon that it becomes, with its socket, its interval and its watches.
pub record Launch : Type 0 where
  pub outcome : Outcome
  pub child : Option (FilePath × List Text)
  pub daemon : Option (FilePath × ℕ × List WatchConfig)

abbrev pub fails : Text → Launch
fails message = record { outcome = bail message; child = none; daemon = none }

-- The interval of the first watch, or five seconds.
unfoldable pub default_interval : List WatchConfig → ℕ
default_interval [] = 5
default_interval (w ∷ ws) = w.poll_interval

-- After the child runs: its process id is written and printed.
unfoldable pub report_child : Host → FilePath → List Text → ℕ → Option FilePath → Launch
report_child host exe args pid pid_file =
    let reported : Launch = record {
      outcome = prints ((ascii "Daemon started with PID " ++ decimal 10 pid) ∷ []);
      child = some (exe, args);
      daemon = none;
    } in
    elim pid_file [
      | none ↦ reported
      | some pid_path ↦ elim (host.write pid_path (decimal 10 pid)) [
        | none ↦ reported
        | some e ↦ record { outcome = bail e; child = some (exe, args); daemon = none }
      ]
    ]

-- `none` is the panic of `child_args`.
unfoldable pub daemonize_child : Host → Option FilePath → Option Launch
unfolding report_child
daemonize_child host pid_file = elim host.current_exe [
  | err e ↦ some (fails e)
  | ok exe ↦ elim (child_args host.args) [
    | none ↦ none
    | some args ↦ elim (host.spawn exe args) [
      | err e ↦ some (fails e)
      | ok pid ↦ some (report_child host exe args pid pid_file)
    ]
  ]
]

unfoldable pub cmd_start : Host → Config → Option FilePath → Bool → Option FilePath → Option Launch
unfolding daemonize_child default_interval
cmd_start host config socket_override daemonize pid_file =
    let socket_path = unwrap_or socket_override config.daemon.socket in
    if host.running socket_path
    then some (fails (ascii "Daemon is already running at " ++ host.display socket_path))
    else if daemonize
    then daemonize_child host pid_file
    else some (record {
      outcome = prints [];
      child = none;
      daemon = some (socket_path, default_interval config.watch, config.watch);
    })

pub data Signal : Type 0 where
  terminate interrupt hangup : Signal

-- Whether the task sends the shutdown, given the signals in the order in which they come. It handles
-- one signal.
unfoldable pub handle_signals : List Signal → Bool
handle_signals [] = false
handle_signals (Signal.terminate ∷ later) = true
handle_signals (Signal.interrupt ∷ later) = true
handle_signals (Signal.hangup ∷ later) = false
