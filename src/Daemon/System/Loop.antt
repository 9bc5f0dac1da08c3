-- ===== src/Daemon/System/Loop.antt =====
-- crates/daemon/src/server.rs: the loop of `handle_client` as steps of its task, against `serve`.
use fake_notify.Base.{
  ℕ, zero, suc, ◌<◌, ◌≡◌, ◌≢◌, refl, ◌∙◌, subst, true, not, ◌||◌, Option, none, some, List, length,
  get, nat_eq, arith, Bool-cases, Option-cases, inl, inr, Endian, if◌then◌else◌,
}
use fake_notify.Daemon.State.{DaemonState, ClientId, unregister_client}
use fake_notify.Daemon.State.Invariant.{IsValid}
use fake_notify.Daemon.State.Invariant.Joining.{HasRoom}
use fake_notify.Daemon.Server.{Platform, send_response, next_message, serve}
use fake_notify.Daemon.Server.Session.{IsServing, weaken, send_response-Served}
use fake_notify.Daemon.Server.Connection.{next_message_takes, serve-Served}
use fake_notify.Daemon.System.{
  System, Task, reading, leaving, take_request, resume, state, with_state, set_task,
}
use fake_notify.Daemon.System.Runs.{Run, resumes, next}
use fake_notify.Daemon.System.Progress.{
  own, Reached, stepped, get-stepped, advance, take_request_answers, receive-none, receive-some,
  IsServing-HasRoom, once,
}

module _ (os : Platform) (ne : Endian) where
  -- The loop of `handle_client`, over what a client has sent that sends no more: its task comes to the
  -- state that `serve` comes to, and is behind its loop.
  serve_run :
      {before : List (Option ClientId)} (fuel : ℕ) (x y : System) (s t : DaemonState) (task : Task)
      → length task.unread < fuel
      → IsServing s task.id (suc fuel)
      → task.phase ≡ reading
      → task.ended ≡ true
      → serve os fuel s task.id task.unread ≡ some t
      → Reached os ne x y before task.id s task
      → (task' : Task) × Reached os ne x y before task.id t task'
        × (task'.id ≡ task.id)
        × (task'.phase ≡ leaving)
        × IsServing t task.id 1
  unfolding serve resume
  serve_run {before} zero x y s t task short v top ended h r = elim short [ ]
  serve_run {before} (suc fuel) x y s t task short v top ended h r =
      elim (Option-cases (next_message task.unread)) [
        | inl e ↦
            let id = task.id in
            let same : s ≡ t = ground (arith, e, h) in
            let task' : Task = record task { phase = leaving } in
            let quiet : resume os 0 s task ≡ some (s, some task') =
              rw (top, receive-none task.unread task.ended ended e, resume) refl in
            (
              task',
              subst (λ u. Reached os ne x y before id u task') same
                  (advance os ne 0 s task' r (IsServing-HasRoom v) quiet),
              refl,
              refl,
              subst (λ u. IsServing u id 1) same (once v),
            )
        | inr ((payload, rest), e) ↦
            let id = task.id in
            let (q, ends, is, same, v1) =
              take_request_answers os ne fuel (suc fuel) s id payload v in
            let (s1, phase) = take_request os fuel s id payload in
            let task1 : Task = record task { phase = phase; unread = rest } in
            let taken : resume os fuel s task ≡ some (s1, some task1) =
              rw (top, receive-some task.unread payload rest task.ended e, resume) refl in
            let r1 = advance os ne fuel s1 task1 r (IsServing-HasRoom v) taken in
            let (s2, sent) = send_response os s1 id q in
            let task2 : Task = record task1 {
              phase = if sent || not ends then reading else leaving;
            } in
            let replied : resume os 0 s1 task1 ≡ some (s2, some task2) = rw (is, resume) refl in
            let r2 = advance os ne 0 s2 task2 r1 (IsServing-HasRoom v1) replied in
            let v2 = (send_response-Served os s1 id (suc fuel) q v1).0 in
            elim (Bool-cases (sent || not ends)) [
              | inl more ↦
                  serve_run fuel x y s2 t task2
                    (omega (arith, short, (next_message_takes task.unread payload rest e).0)) v2
                    (rw more refl) ended (ground (arith, e, same, more, h)) r2
              | inr stop ↦
                  let last : s2 ≡ t = ground (arith, e, same, stop, h) in
                  (
                    task2,
                    subst (λ u. Reached os ne x y before id u task2) last r2,
                    refl,
                    rw stop refl,
                    subst (λ u. IsServing u id 1) last (once v2),
                  )
            ]
      ]

  -- The daemon after the last step of a task.
  pub record Gone (x y : System) (before : List (Option ClientId)) (id : ClientId) (t : DaemonState)
      : Type 0 where
    pub at : System
    pub count : ℕ
    pub run : Run os ne x at (own count id before)
    pub holds : state at ≡ t
    pub gone : get at.tasks id ≡ none
    pub others : (d : ClientId) → d ≢ id → get at.tasks d ≡ get y.tasks d

  pub leave :
      {x y : System} {before : List (Option ClientId)} {id : ClientId} {s : DaemonState}
      {task : Task}
      → task.id ≡ id
      → task.phase ≡ leaving
      → HasRoom s
      → Reached os ne x y before id s task
      → Gone x y before id (unregister_client s id)
  unfolding resume set_task with_state
  leave {id} {s} {task} named last room r =
      let t = unregister_client s id in
      let h : resume os 0 (state r.at) task ≡ some (t, none) =
        rw (last, named, r.holds, resume) refl in
      record {
        at = stepped os ne r.at id t none;
        count = suc r.count;
        run = next r.run (resumes 0 id task t none r.there h refl);
        holds = refl;
        gone = (get-stepped os ne r.at id t none).0;
        others = λ d ne'. (get-stepped os ne r.at id t none).1 d ne' ∙ r.others d ne';
      }

  -- The rest of a connection whose client sends no more, by the steps of its own task.
  pub wound_up :
      {before : List (Option ClientId)} (x y : System) (s : DaemonState) (task : Task)
      → IsServing s task.id (suc (suc (length task.unread)))
      → task.phase ≡ reading
      → task.ended ≡ true
      → Reached os ne x y before task.id s task
      → (t : DaemonState) × (serve os (suc (length task.unread)) s task.id task.unread ≡ some t)
        × IsValid t
        × Gone x y before task.id (unregister_client t task.id)
  wound_up x y s task v top ended r =
      let fuel = suc (length task.unread) in
      let (t, ends, (v', keeps)) =
        serve-Served os fuel s task.id task.unread (omega arith) (weaken v) in
      let (task', r', named, last, v'') =
        serve_run fuel x y s t task (omega arith) v top ended ends r in
      (t, ends, v''.valid, leave named last (IsServing-HasRoom v'') r')
