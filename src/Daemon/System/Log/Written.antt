-- ===== src/Daemon/System/Log/Written.antt =====
-- crates/daemon/src/server.rs, state.rs and watcher.rs: what an open socket has taken in a run.
use fake_notify.Base.{
  ◌≡◌, refl, subst, true, false, Option, some, List, [], ◌++◌, get, nat_eq, arith, Bool-cases, inl,
  inr, ◌==◌, if◌then◌else◌, Endian,
}
use fake_notify.Daemon.State.{ClientId, Client, deliver}
use fake_notify.Daemon.Server.{Platform}
use fake_notify.Daemon.System.{
  System, state, with_state, set_task, accept, take_event, look_up, send_next, hang_up, shut_down,
}
use fake_notify.Daemon.Watcher.Delivery.{plan-state}
use fake_notify.Daemon.System.Soundness.{connects}
use fake_notify.Daemon.System.Invariant.{IsConsistent, Run-IsConsistent}
use fake_notify.Daemon.System.Runs.{
  Step, Run, Needs, HasNumbers, accepts, resumes, interrupted, receives, finishes, hangs_up,
  notices, takes, looks_up, sends, signals, stops, here, next,
}
use fake_notify.Daemon.System.Log.{Log, Merge, owed, encoded, falls_due, log_step, log}
use fake_notify.Daemon.System.Log.Sockets.{
  Merges, TookOf, Took-resume, merged_quiet, merged_said, merged_sent, Merges-accept,
}
use fake_notify.Daemon.System.Log.Took.{Took, joined, Took-modify, Took-deliver}

module _ (os : Platform) (ne : Endian) where
  Merges-step :
      {y z : System} {actor : Option ClientId} (step : Step os ne y z actor)
      → Needs os ne step
      → (id : ClientId) (l : Log) → IsConsistent y
      → Merges os id l (state y).clients
      → Merges os id (log_step os ne step id l) (state z).clients
  unfolding log_step accept with_state hang_up shut_down take_event look_up send_next set_task
  Merges-step {y} (accepts writer unused up e) room id l v m =
      rw e (Merges-accept os y writer id l unused m)
  Merges-step {y} (resumes now d task s after at h e) room id l v m =
      let named = (v.served d task at).0 in
      let took =
        subst
          (λ (x : ClientId).
            Took id (if x == id then joined (encoded os.bincode (owed task)) else [])
              (state y).clients s.clients)
          named
          (subst (TookOf os id (state y) task) h
            (Took-resume os now (state y) task id room.wds_left)) in
      elim (Bool-cases (d == id)) [
        | inl same ↦ rw e rw same (
            merged_said os id (record l { dues = l.dues ++ falls_due os now (state y) task })
              (owed task) (state y).clients s.clients
              (subst
                (λ b.
                  Took id (if b then joined (encoded os.bincode (owed task)) else [])
                    (state y).clients s.clients)
                same took)
              m)
        | inr other ↦ rw e rw other (
            merged_quiet os id l (state y).clients s.clients
              (subst
                (λ b.
                  Took id (if b then joined (encoded os.bincode (owed task)) else [])
                    (state y).clients s.clients)
                other took)
              m)
      ]
  Merges-step {y} (interrupted d task at top between signal e) room id l v m = rw e m
  Merges-step {y} (receives d task bytes at up e) room id l v m = rw e m
  Merges-step {y} (finishes d task at e) room id l v m = rw e m
  Merges-step {y} (hangs_up d task at e) room id l v m = rw e (
      merged_quiet os id l (state y).clients _
        (Took-modify (state y).clients task.id
          (λ c. record c { writer = record c.writer { is_open = false } }) id []
          (λ same c up. absurd (ground (arith, up))) (λ apart. refl))
        m)
  Merges-step {y} (notices events e) room id l v m = rw e m
  Merges-step {y} (takes event later idle sent queued e) room id l v m =
      rw e rw (plan-state ne y.dispatcher event) m
  Merges-step {y} (looks_up wd framed there idle e) room id l v m = rw e m
  Merges-step {y} (sends d framed rest queued e) room id l v m =
      let took = Took-deliver (state y).clients d framed id in
      elim (Bool-cases (d == id)) [
        | inl same ↦ rw e rw same (
            merged_sent os id l framed (state y).clients (deliver (state y).clients d framed).0
              (subst
                (λ b.
                  Took id (if b then framed else []) (state y).clients
                    (deliver (state y).clients d framed).0)
                same took)
              m)
        | inr other ↦ rw e rw other (
            merged_quiet os id l (state y).clients (deliver (state y).clients d framed).0
              (subst
                (λ b.
                  Took id (if b then framed else []) (state y).clients
                    (deliver (state y).clients d framed).0)
                other took)
              m)
      ]
  Merges-step {y} (signals early e) room id l v m = rw e m
  Merges-step {y} (stops up e) room id l v m = rw e m

  Run-Merges :
      {y z : System} {actors : List (Option ClientId)} (id : ClientId)
      → IsConsistent y
      → connects (state y) id ≡ false
      → (r : Run os ne y z actors) → HasNumbers os ne r
      → Merges os id (log os ne r id) (state z).clients
  unfolding log
  Run-Merges id v absent here room = λ cl at up. absurd (ground (arith, absent, at))
  Run-Merges id v absent (next r step) room =
      Merges-step step room.1 id (log os ne r id) (Run-IsConsistent os ne v r room.0)
        (Run-Merges id v absent r room.0)

  -- From a consistent daemon without the client `id`, however its tasks interleave, while both counters
  -- have a number left whenever a connection is accepted or a task goes on: while the socket of the
  -- connection `id` is open, the bytes that it has taken are the frames of the responses that its task
  -- has said, as far as the codec encodes them, interleaved with the frames of events that the
  -- dispatcher has handed to it, each of the two in its own order and each frame in one piece.
  pub said-sent-written :
      {y z : System} {actors : List (Option ClientId)} (id : ClientId) (cl : Client)
      → IsConsistent y
      → connects (state y) id ≡ false
      → (r : Run os ne y z actors) → HasNumbers os ne r
      → get (state z).clients id ≡ some cl
      → cl.writer.is_open ≡ true
      → Merge (encoded os.bincode (log os ne r id).said) (log os ne r id).sent cl.writer.written
  said-sent-written id cl v absent r room at up = Run-Merges id v absent r room cl at up
