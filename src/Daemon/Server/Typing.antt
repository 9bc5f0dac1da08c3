-- ===== src/Daemon/Server/Typing.antt =====
-- crates/daemon/src/server.rs, `handle_request`: which responses a request may have, with the numbers
-- that they carry.
use fake_notify.Base.{
  ℕ, ◌<◌, ◌≡◌, refl, true, false, none, some, Option-cases, get, nat_eq, arith, Bool-cases, inl,
  inr, FilePath,
}
use fake_notify.Protocol.Event.{from_bits_truncate}
use fake_notify.Protocol.Message.{
  Request, register_client, add_watch, remove_watch, ping, Response, client_registered, watch_added,
  watch_removed, error, pong,
}
use fake_notify.Daemon.State
use fake_notify.Daemon.State.{DaemonState, ClientId, Client, WatchInfo}
use fake_notify.Daemon.State.Invariant.{IsValid}
use fake_notify.Daemon.State.Invariant.Joining.{HasRoom}
use fake_notify.Daemon.State.Steps.{add_watch-IsValid, add_watch_covers}
use fake_notify.Daemon.Server.{Platform, handle_request}
use fake_notify.Daemon.Server.Session.{add_watch_frame}

module _ (os : Platform) (now : ℕ) (s : DaemonState) (id : ClientId) where
  -- The response is one of the request's own, in its case; it names the client by its number, and its
  -- numbers fit the fields of the message: 64 bits and 32 bits.
  abbrev pub Suits : Request → Response → Type 0
  Suits register_client (client_registered n) = (n ≡ id) × (n < 18446744073709551616)
  Suits (add_watch path mask) (watch_added wd) = (os.exists now path ≡ true) × (wd < 4294967296)
  Suits (add_watch path mask) (error message) = os.exists now path ≡ false
  Suits (remove_watch wd) watch_removed = (w : WatchInfo) × (get s.watches wd ≡ some w)
  Suits (remove_watch wd) (error message) = get s.watches wd ≡ none
  Suits ping pong = Unit
  Suits _ _ = ⊥

module _ (os : Platform) where
  added_wd :
      (s : DaemonState) (id : ClientId) (cl : Client) (path : FilePath) (mask : ℕ)
      → get s.clients id ≡ some cl
      → IsValid s
      → HasRoom s
      → (State.add_watch s id path mask true).1 < 4294967296
  added_wd s id cl path mask there v room =
      let (w, to, at, on, listed, bits) = add_watch_covers s id path mask true cl there v room in
      let fresh =
        (add_watch-IsValid s id path mask true cl there v room).fresh_wd
          (State.add_watch s id path mask true).1 w at in
      omega (arith, fresh, (add_watch_frame os s id path mask true room.wds_left).1, room.wds_left)

  -- For a connected client, in a valid state with room in its counters: `RegisterClient` is answered by
  -- the number of the client, which fits 64 bits; `AddWatch` by a descriptor that fits 32 bits if the
  -- path exists, and else by an error; `RemoveWatch` by `WatchRemoved` if the daemon has the watch, and
  -- else by an error; `Ping` by `Pong`; and by nothing else.
  pub handle_request-Suits :
      (now : ℕ) (s : DaemonState) (id : ClientId) (cl : Client) (r : Request)
      → IsValid s
      → HasRoom s
      → get s.clients id ≡ some cl
      → Suits os now s id r (handle_request os now s id r).1
  unfolding handle_request State.remove_watch
  handle_request-Suits now s id cl register_client v room there =
      (refl, omega (arith, v.fresh_client id cl there, room.clients_left))
  handle_request-Suits now s id cl (add_watch path mask) v room there =
      elim (Bool-cases (os.exists now path)) [
        | inr missing ↦ rw missing missing
        | inl found ↦ rw found (found, added_wd s id cl path (from_bits_truncate mask) there v room)
      ]
  handle_request-Suits now s id cl (remove_watch wd) v room there =
      elim (Option-cases (get s.watches wd)) [
        | inl absent ↦ rw (absent, State.remove_watch) absent
        | inr (w, found) ↦ rw (found, State.remove_watch) (w, found)
      ]
  handle_request-Suits now s id cl ping v room there = tt
