-- ===== src/Daemon/Commands/Requests.antt =====
-- crates/daemon/src/main.rs: what the commands answer, for each answer of the daemon.
use fake_notify.Base.{
  ℕ, ◌≡◌, Bool, true, false, not, ◌&&◌, Option, none, some, FilePath, Text, Result, ok, err, arith,
}
use fake_notify.Protocol.Event.{in_all_events}
use fake_notify.Protocol.Message.{add_watch, ping, Response, watch_added}
use fake_notify.Daemon.Cli.{unwrap_or}
use fake_notify.Daemon.Config.{Config}
use fake_notify.Daemon.Commands.{Link, Outcome, cmd_stop, cmd_status, cmd_add, cmd_remove, cmd_list}

abbrev pub succeeds : Outcome → Bool
succeeds o = elim o.failure [ none ↦ true | some e ↦ false ]

abbrev is_ok {ℓ κ} : {A : Type ℓ} {E : Type κ} → Result A E → Bool
is_ok (ok a) = true
is_ok (err e) = false

abbrev adds : Result Response Text → Bool
adds (ok (watch_added wd)) = true
adds _ = false

module _ (link : Link) (config : Config) (socket : Option FilePath) where
  abbrev at : FilePath
  at = unwrap_or socket config.daemon.socket

  -- Which commands succeed: `stop` and `status` always, whatever the daemon answers; `list` unless
  -- the exchange with a running daemon fails; `remove` exactly if a daemon runs; and `add` exactly
  -- if a daemon runs, the path resolves and the daemon answers with a descriptor.
  pub commands_succeed :
      (path : FilePath) (poll_interval : ℕ) (recursive : Bool)
      → (succeeds (cmd_stop link config socket) ≡ true)
        × (succeeds (cmd_status link config socket) ≡ true)
        × (succeeds (cmd_list link config socket)
            ≡ not (link.running at && not (is_ok (link.request at ping))))
        × (succeeds (cmd_remove link config socket path) ≡ link.running at)
        × (succeeds (cmd_add link config socket path poll_interval recursive) ≡ (
            link.running at && elim (link.canonicalize path) [
              | ok abs_path ↦ adds (link.request at (add_watch abs_path in_all_events))
              | err e ↦ false
            ]))
  unfolding cmd_stop cmd_status cmd_list cmd_remove cmd_add
  commands_succeed path poll_interval recursive =
      (ground arith, ground arith, ground arith, ground arith, ground arith)
