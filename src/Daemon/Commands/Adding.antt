-- ===== src/Daemon/Commands/Adding.antt =====
-- crates/daemon/src/main.rs, `cmd_add`, against crates/daemon/src/server.rs: what is left of a watch that
-- the command adds.
use fake_notify.Base.{
  ℕ, suc, ◌+◌, ◌<◌, ◌≡◌, refl, Bool, true, Option, none, some, List, FilePath, ok, arith, nat_eq,
  length,
}
use fake_notify.Protocol.Event.{in_all_events, from_bits_truncate}
use fake_notify.Protocol.Message.{
  add_watch, client_registered, watch_added, request_to_bytes, frame,
}
use fake_notify.Daemon.Cli.{unwrap_or}
use fake_notify.Daemon.Config.{Config}
use fake_notify.Daemon.Commands.{Link, cmd_add}
use fake_notify.Daemon.State
use fake_notify.Daemon.State.{DaemonState, Writer, subscribes}
use fake_notify.Daemon.State.Invariant.{IsValid}
use fake_notify.Daemon.Server.{Platform, handle_request, send_response, handle_client}
use fake_notify.Daemon.Server.Connection.{handle_client_leaves}

module _ (os : Platform) where
  -- What the daemon answers to a request that adds a path that is there.
  handle_request-add :
      (now : ℕ) (s : DaemonState) (id : ℕ) (path : FilePath) (mask : ℕ)
      → os.exists now path ≡ true
      → (wd : ℕ) × ((handle_request os now s id (add_watch path mask)).1 ≡ watch_added wd)
  unfolding handle_request
  handle_request-add now s id path mask there =
      ((State.add_watch s id path (from_bits_truncate mask) true).1, rw there refl)

  -- `add` with a path that is there: the command succeeds, since the daemon adds the watch; but the
  -- command hangs up, and when its session ends every subscription in the daemon is as it was before
  -- the command. A daemon runs, is valid and has room for the session, its greeting goes out, the
  -- path resolves, the codec encodes the request, and the command is given the response that
  -- `handle_request` makes in the state after the greeting.
  pub cmd_add_forgotten :
      (link : Link) (config : Config) (socket : Option FilePath) (path abs_path : FilePath)
      → (poll_interval : ℕ) (recursive : Bool) (now : ℕ) (s : DaemonState) (writer : Writer)
      → (asked : List ℕ) → IsValid s
      → s.next_client_id + 2 < 18446744073709551616
      → s.next_wd + suc (length (frame asked)) < 4294967296
      → let id = s.next_client_id in
        let greeted =
          send_response os (State.register_client s writer).0 id (client_registered id) in
        let at = unwrap_or socket config.daemon.socket in
        let request = add_watch abs_path in_all_events in
        greeted.1 ≡ true
        → request_to_bytes os.bincode request ≡ ok asked
        → os.exists now abs_path ≡ true
        → link.running at ≡ true
        → link.canonicalize path ≡ ok abs_path
        → link.request at request ≡ ok (handle_request os now greeted.0 id request).1
        → ((cmd_add link config socket path poll_interval recursive).failure ≡ none)
          × ((t : DaemonState) × (handle_client os s writer (frame asked) ≡ some t)
              × IsValid t
              × ((d : ℕ) (p : FilePath) → subscribes t d p ≡ subscribes s d p))
  unfolding cmd_add
  cmd_add_forgotten link config socket path abs_path poll_interval recursive now s writer asked v
        ids wds sent bytes there up found answered =
      let id = s.next_client_id in
      let greeted = send_response os (State.register_client s writer).0 id (client_registered id) in
      let (wd, added) = handle_request-add now greeted.0 id abs_path in_all_events there in
      let (t, ends, v', gone, same) =
        handle_client_leaves os s writer (frame asked) v ids wds sent in
      (ground (arith, up, found, answered, added), (t, ends, v', same))
