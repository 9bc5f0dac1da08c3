-- ===== src/Daemon/System/Log/Exact.antt =====
-- crates/daemon/src/server.rs, state.rs and watcher.rs: what a connection is due against the bytes of its
-- socket.
use fake_notify.Base.{ℕ, ◌≡◌, true, false, Option, some, List, ◌++◌, get, nat_eq, Endian}
use fake_notify.Protocol.Message.{Response}
use fake_notify.Daemon.State.{ClientId, Client}
use fake_notify.Daemon.Server.{Platform}
use fake_notify.Daemon.System.{System, state}
use fake_notify.Daemon.System.Soundness.{connects}
use fake_notify.Daemon.System.Invariant.{IsConsistent}
use fake_notify.Daemon.System.Runs.{Run, HasNumbers}
use fake_notify.Daemon.System.Log.{Merge, owed_by, pending, encoded, log}
use fake_notify.Daemon.System.Log.Answers.{dues-said}
use fake_notify.Daemon.System.Log.Events.{planned-sent}
use fake_notify.Daemon.System.Log.Written.{said-sent-written}

module _ (os : Platform) (ne : Endian) where
  -- From a consistent daemon without the client `id`, however its tasks interleave, while both counters
  -- have a number left whenever a connection is accepted or a task goes on: let the socket of the
  -- connection `id` be open. What the connection is due is its greeting and the response that each
  -- message calls for when the task reads it; planned for it are the frames that the dispatcher holds
  -- when the connection is accepted, and then the frame of each event whose watch has the connection's
  -- client when the dispatcher looks up the clients of the watch. Then the bytes that the socket has
  -- taken are the frames of these responses, as far as the codec encodes them and without the one that
  -- the task still has at hand, interleaved with these frames of events, without those that the
  -- dispatcher still holds, each of the two in its own order and each frame in one piece.
  pub dues-planned-written :
      {y z : System} {actors : List (Option ClientId)} (id : ClientId) (cl : Client)
      → IsConsistent y
      → connects (state y) id ≡ false
      → (r : Run os ne y z actors) → HasNumbers os ne r
      → get (state z).clients id ≡ some cl
      → cl.writer.is_open ≡ true
      → (responses : List Response) × (frames : List (List ℕ)) × ((log os ne r id).dues
          ≡ responses ++ owed_by (get z.tasks id))
        × ((log os ne r id).planned ≡ frames ++ pending id z.outgoing)
        × Merge (encoded os.bincode responses) frames cl.writer.written
  dues-planned-written id cl v absent r room at up = (
    (log os ne r id).said,
    (log os ne r id).sent,
    dues-said os ne id v r room,
    planned-sent os ne id v r room,
    said-sent-written os ne id cl v absent r room at up,
  )
