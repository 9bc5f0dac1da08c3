-- ===== src/Daemon/System/Subscriptions.antt =====
-- crates/daemon/src/server.rs and watcher.rs: whose steps change a client's subscriptions.
use fake_notify.Base.{
  ◌≡◌, ◌≢◌, refl, sym, ◌∙◌, ap, subst, true, false, Option, some, List, All, arith, FilePath,
  Endian, nat_eq, get-insert,
}
use fake_notify.Daemon.State
use fake_notify.Daemon.State.{DaemonState, ClientId, Client, subscribes}
use fake_notify.Daemon.Server.{Platform}
use fake_notify.Daemon.System.{
  System, state, with_state, set_task, accept, take_event, look_up, send_next, hang_up, shut_down,
}
use fake_notify.Daemon.Watcher.Delivery.{plan-state}
use fake_notify.Daemon.System.Resuming.{resume-IsStep}
use fake_notify.Daemon.System.Runs.{
  Step, Run, Needs, HasNumbers, accepts, resumes, interrupted, receives, finishes, hangs_up,
  notices, takes, looks_up, sends, signals, stops, here, next,
}
use fake_notify.Daemon.System.Soundness.{connects, known-modify, known-deliver}
use fake_notify.Daemon.System.Invariant.{IsConsistent, Run-IsConsistent}

-- A client keeps its place in the table and its subscriptions.
pub record Keeps (d : ClientId) (s t : DaemonState) : Type 0 where
  pub subscriptions : (p : FilePath) → subscribes t d p ≡ subscribes s d p
  pub connected : connects s d ≡ true → connects t d ≡ true

same-Keeps : (d : ClientId) (s t : DaemonState) → t ≡ s → Keeps d s t
same-Keeps d s t e = rw e (record { subscriptions = λ p. refl; connected = λ h. h })

module _ (os : Platform) (ne : Endian) (d : ClientId) where
  Step-Keeps :
      {y z : System} {actor : Option ClientId}
      → IsConsistent y
      → (step : Step os ne y z actor) → Needs os ne step
      → actor ≢ some d
      → Keeps d (state y) (state z)
  unfolding with_state set_task accept take_event look_up send_next hang_up shut_down
      State.register_client
  Step-Keeps {y} v (accepts writer unused up e) room other = rw e (record {
    subscriptions = λ p. refl;
    connected = λ h. ground (
      arith,
      h,
      get-insert (state y).clients (state y).next_client_id
          (State.new_client (state y).next_client_id writer) d,
    );
  })
  Step-Keeps {y} v (resumes now id task s after at h e) room other =
      let (named, there) = v.served id task at in
      let step =
        (resume-IsStep os now (state y) s task after v.valid room
          (subst (λ x. connects (state y) x ≡ true) (sym named) there) h).0 in
      let apart : d ≢ task.id = λ same. other (ap (λ x. some x) (sym (same ∙ named))) in
      rw e (record {
        subscriptions = λ p. step.others d p apart;
        connected = λ h. step.stay d apart ∙ h;
      })
  Step-Keeps {y} v (interrupted id task at top between signal e) room other =
      rw e (same-Keeps d (state y) _ refl)
  Step-Keeps {y} v (receives id task bytes at up e) room other =
      rw e (same-Keeps d (state y) _ refl)
  Step-Keeps {y} v (finishes id task at e) room other = rw e (same-Keeps d (state y) _ refl)
  Step-Keeps {y} v (hangs_up id task at e) room other = rw e (record {
    subscriptions = λ p. refl;
    connected = λ h.
        known-modify (state y).clients task.id
          (λ (c : Client). record c { writer = record c.writer { is_open = false } }) d
        ∙ h;
  })
  Step-Keeps {y} v (notices events e) room other = rw e (same-Keeps d (state y) _ refl)
  Step-Keeps {y} v (takes event later idle sent queued e) room other =
      rw e (same-Keeps d (state y) _ (plan-state ne y.dispatcher event))
  Step-Keeps {y} v (looks_up wd framed there idle e) room other =
      rw e (same-Keeps d (state y) _ refl)
  Step-Keeps {y} v (sends id framed rest queued e) room other = rw e (record {
    subscriptions = λ p. refl;
    connected = λ h. known-deliver (state y).clients id framed d ∙ h;
  })
  Step-Keeps {y} v (signals early e) room other = rw e (same-Keeps d (state y) _ refl)
  Step-Keeps {y} v (stops up e) room other = rw e (same-Keeps d (state y) _ refl)

  -- In a run from a consistent daemon in which the task of a client takes no step, and in which both
  -- counters have a number left whenever a connection is accepted or another task goes on, the client
  -- keeps its subscriptions, all of them and no others, and its place in the table, whatever the other
  -- clients, the dispatcher and the shutdown do in the meantime.
  pub Run-Keeps :
      {y z : System} {actors : List (Option ClientId)}
      → IsConsistent y
      → (r : Run os ne y z actors) → HasNumbers os ne r
      → All (λ actor. actor ≢ some d) actors
      → Keeps d (state y) (state z)
  Run-Keeps v here room quiet = record { subscriptions = λ p. refl; connected = λ h. h }
  Run-Keeps {y} v (next {z} {x} r step) room quiet =
      let early = Run-Keeps v r room.0 quiet.1 in
      let late = Step-Keeps (Run-IsConsistent os ne v r room.0) step room.1 quiet.0 in
      record {
        subscriptions = λ p. late.subscriptions p ∙ early.subscriptions p;
        connected = λ h. late.connected (early.connected h);
      }
