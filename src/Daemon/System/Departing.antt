-- ===== src/Daemon/System/Departing.antt =====
-- crates/daemon/src/server.rs: connections from their last byte to their end, among the others.
use fake_notify.Base.{
  suc, ◌+◌, ◌<◌, ◌≡◌, ◌≢◌, refl, sym, subst, true, false, Option, none, some, List, [], length, get,
  get-remove, nat_eq, arith, Option-cases, inl, inr, Endian, FilePath, ℕ, zero, All,
}
use fake_notify.Daemon.State.{DaemonState, ClientId, subscribes, unregister_client}
use fake_notify.Daemon.State.Invariant.Leaving.{subscribes-unregister_client}
use fake_notify.Daemon.Server.{Platform}
use fake_notify.Daemon.Server.Session.{IsServing}
use fake_notify.Daemon.System.{System, Task, reading, state}
use fake_notify.Daemon.System.Runs.{Run, here}
use fake_notify.Daemon.System.Soundness.{connects, connects-some}
use fake_notify.Daemon.System.Invariant.{IsConsistent}
use fake_notify.Daemon.System.Progress.{own, Reached}
use fake_notify.Daemon.System.Loop.{wound_up}

pub connects-unregister_client :
    (s : DaemonState) (id : ClientId) → connects (unregister_client s id) id ≡ false
unfolding unregister_client
connects-unregister_client s id = elim (Option-cases (get s.clients id)) [
  | inl absent ↦ rw (absent, unregister_client) (ground (arith, absent))
  | inr (c, found) ↦ rw (found, unregister_client) (ground (arith, get-remove s.clients id id))
]

pub own-All : (n : ℕ) (id : ClientId) → All (λ actor. actor ≡ some id) (own n id [])
own-All zero id = tt
own-All (suc n) id = (refl, own-All n id)

module _ (os : Platform) (ne : Endian) where
  -- In a consistent daemon, let the client of a task that is reading have stopped sending, with
  -- numbers left for two more watches than it has bytes unread and for one more client. Then the
  -- steps of that task alone are a run in which the task is over, its client is gone from the table and
  -- subscribed to nothing, and the tasks of the other connections are as they were.
  pub departs :
      (y : System) (task : Task)
      → IsConsistent y
      → get y.tasks task.id ≡ some task
      → task.phase ≡ reading
      → task.ended ≡ true
      → (state y).next_wd + suc (suc (length task.unread)) < 4294967296
      → (state y).next_client_id + 1 < 18446744073709551616
      → (z : System) × (actors : List (Option ClientId)) × Run os ne y z actors
        × All (λ actor. actor ≡ some task.id) actors
        × (get z.tasks task.id ≡ none)
        × (connects (state z) task.id ≡ false)
        × ((p : FilePath) → subscribes (state z) task.id p ≡ false)
        × ((d : ClientId) → d ≢ task.id → get z.tasks d ≡ get y.tasks d)
  departs y task v at top ended wds ids =
      let serving : IsServing (state y) task.id (suc (suc (length task.unread))) = record {
        valid = v.valid;
        connected = connects-some (state y) task.id (v.served task.id task at).1;
        wds_left = wds;
        clients_left = ids;
      } in
      let start : Reached os ne y y [] task.id (state y) task = record {
        at = y;
        count = 0;
        run = here;
        holds = refl;
        there = at;
        others = λ d ne'. refl;
      } in
      let (t, ends, valid, g) = wound_up os ne y y (state y) task serving top ended start in
      (
        g.at,
        own g.count task.id [],
        g.run,
        own-All g.count task.id,
        g.gone,
        subst (λ s. connects s task.id ≡ false) (sym g.holds)
            (connects-unregister_client t task.id),
        λ p.
            subst (λ s. subscribes s task.id p ≡ false) (sym g.holds)
              (ground (arith, subscribes-unregister_client t task.id task.id p valid)),
        g.others,
      )
