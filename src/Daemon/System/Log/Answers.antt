-- ===== src/Daemon/System/Log/Answers.antt =====
-- crates/daemon/src/server.rs: a connection's responses, in order.
use fake_notify.Base.{
  ℕ, ◌≡◌, refl, sym, ◌∙◌, ap, subst, inl, inr, true, Bool-cases, Option, some, List, ◌++◌, get,
  insert, nat_eq, ◌==◌, arith, Endian, Map,
}
use fake_notify.Daemon.State.{DaemonState, ClientId}
use fake_notify.Daemon.Server.{Platform}
use fake_notify.Daemon.System.{
  System, Task, leaving, resume, state, with_state, set_task, take_event, look_up, send_next,
  hang_up, shut_down,
}
use fake_notify.Daemon.System.Runs.{
  Step, Run, HasNumbers, accepts, resumes, interrupted, receives, finishes, hangs_up, notices,
  takes, looks_up, sends, signals, stops, here, next,
}
use fake_notify.Daemon.System.Invariant.{IsConsistent, Run-IsConsistent}
use fake_notify.Daemon.System.Log.{Log, owed, owed_by, falls_due, log_step, log}
use fake_notify.Daemon.System.Log.Owed.{
  get-set_task, Pays, resume-Pays, owed-signalled, owed-set_task, owed-reading, owed-accept,
}

module _ (os : Platform) (ne : Endian) where
  resumed_answers :
      (now : ℕ) (y : System) (d : ClientId) (task : Task) (s : DaemonState) (after : Option Task)
      (id : ClientId) (l : Log)
      → get y.tasks d ≡ some task
      → resume os now (state y) task ≡ some (s, after)
      → d ≡ id
      → l.dues ≡ l.said ++ owed_by (get y.tasks id)
      → l.dues ++ falls_due os now (state y) task ≡ (l.said ++ owed task) ++ owed_by after
  unfolding owed_by
  resumed_answers now y d task s after id l at h same e =
      let pays = subst (Pays os now (state y) task) h (resume-Pays os now (state y) task) in
      let there = subst (λ x. get y.tasks x ≡ some task) same at in
      let owes = e ∙ ap (λ x. l.said ++ owed_by x) there in
      ap (λ x. x ++ falls_due os now (state y) task) owes
      ∙ ap (λ x. (l.said ++ owed task) ++ x) pays

  kept :
      (y z : System) (id : ClientId) (l : Log)
      → owed_by (get z.tasks id) ≡ owed_by (get y.tasks id)
      → l.dues ≡ l.said ++ owed_by (get y.tasks id)
      → l.dues ≡ l.said ++ owed_by (get z.tasks id)
  kept y z id l same h = h ∙ ap (λ x. l.said ++ x) (sym same)

  reset :
      (y z : System) (id d : ClientId) (old task : Task) (l : Log)
      → get y.tasks d ≡ some old
      → owed task ≡ owed old
      → z.tasks ≡ (set_task y d (some task)).tasks
      → l.dues ≡ l.said ++ owed_by (get y.tasks id)
      → l.dues ≡ l.said ++ owed_by (get z.tasks id)
  reset y z id d old task l at same e =
      kept y z id l (
        ap (λ (x : Map ClientId Task). owed_by (get x id)) e
        ∙ owed-set_task y d old task id at same)

  answers_step :
      {y z : System} {actor : Option ClientId} (step : Step os ne y z actor) (id : ClientId)
      (l : Log)
      → IsConsistent y
      → l.dues ≡ l.said ++ owed_by (get y.tasks id)
      → (log_step os ne step id l).dues
        ≡ (log_step os ne step id l).said ++ owed_by (get z.tasks id)
  unfolding log_step with_state hang_up shut_down take_event look_up send_next set_task owed
  answers_step {y} (accepts writer unused up e) id l v h =
      elim (Bool-cases ((state y).next_client_id == id)) [
        | inl same ↦ rw e rw (owed-accept y writer id) rw same refl
        | inr other ↦ rw e rw (owed-accept y writer id) rw other h
      ]
  answers_step {y} (resumes now d task s after at h e) id l v before = elim (Bool-cases (d == id)) [
    | inl same ↦
        rw e rw (get-set_task (with_state y s) d after id) rw same
          (resumed_answers now y d task s after id l at h (ground (arith, same)) before)
    | inr other ↦ rw e rw (get-set_task (with_state y s) d after id) rw other before
  ]
  answers_step {y} {z} (interrupted d task at top between signal e) id l v h =
      reset y z id d task (record task { phase = leaving }) l at (owed-reading task top)
        (ap (λ (x : System). x.tasks) e) h
  answers_step {y} {z} (receives d task bytes at up e) id l v h =
      reset y z id d task (record task { unread = task.unread ++ bytes }) l at refl
        (ap (λ (x : System). x.tasks) e) h
  answers_step {y} {z} (finishes d task at e) id l v h =
      reset y z id d task (record task { ended = true }) l at refl (ap (λ (x : System). x.tasks) e)
        h
  answers_step {y} {z} (hangs_up d task at e) id l v h =
      reset y z id d task (record task { ended = true }) l at refl
        (ap (λ (x : System). x.tasks) e
          ∙ ap (λ x. insert y.tasks x (record task { ended = true })) (v.served d task at).0)
        h
  answers_step {y} (notices events e) id l v h = rw e h
  answers_step {y} (takes event later idle sent queued e) id l v h = rw e h
  answers_step {y} (looks_up wd framed there idle e) id l v h = rw e h
  answers_step {y} (sends d framed rest queued e) id l v h = elim (Bool-cases (d == id)) [
    | inl same ↦ rw e rw same h
    | inr other ↦ rw e rw other h
  ]
  answers_step {y} {z} (signals early e) id l v h =
      kept y z id l (ap (λ (x : System). owed_by (get x.tasks id)) e ∙ owed-signalled y.tasks id) h
  answers_step {y} (stops up e) id l v h = rw e h

  -- From a consistent daemon, however its tasks interleave: what a connection is due is, in this order,
  -- what its task has said and then the response that the task has at hand, if it has one. Due is what
  -- the task has at hand at the start; or, once the connection is accepted, its greeting; and then the
  -- response that each message calls for when the task reads it.
  pub dues-said :
      {y z : System} {actors : List (Option ClientId)} (id : ClientId)
      → IsConsistent y
      → (r : Run os ne y z actors) → HasNumbers os ne r
      → (log os ne r id).dues ≡ (log os ne r id).said ++ owed_by (get z.tasks id)
  unfolding log
  dues-said id v here room = refl
  dues-said id v (next r step) room =
      answers_step step id (log os ne r id) (Run-IsConsistent os ne v r room.0)
        (dues-said id v r room.0)
