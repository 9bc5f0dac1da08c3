-- ===== src/Daemon/System/Invariant.antt =====
-- crates/daemon/src/server.rs and watcher.rs: what holds of the daemon however its tasks interleave.
use fake_notify.Base.{
  ◌≡◌, refl, sym, ◌∙◌, inl, inr, true, false, Option, none, some, List, [], ◌∷◌, get, get-insert,
  get-remove, nat_eq, ◌==◌, arith, Bool-cases, Map, map, ap, subst, Endian, modify,
}
use fake_notify.Daemon.State
use fake_notify.Daemon.State.{DaemonState, ClientId, Client, Writer, deliver, subscribes}
use fake_notify.Daemon.State.Invariant.{IsValid}
use fake_notify.Daemon.State.Invariant.Joining.{HasRoom, register_client-IsValid}
use fake_notify.Daemon.State.Steps.{deliver-IsValid, modified-IsValid}
use fake_notify.Daemon.Server.{Platform}
use fake_notify.Daemon.System.{
  System, Task, greeting, state, with_state, set_task, accept, take_event, look_up, send_next,
  hang_up, shut_down,
}
use fake_notify.Daemon.Watcher.Delivery.{plan-state}
use fake_notify.Daemon.System.Resuming.{resume-IsStep}
use fake_notify.Daemon.System.Runs.{
  Step, Run, Needs, HasNumbers, accepts, resumes, interrupted, receives, finishes, hangs_up,
  notices, takes, looks_up, sends, signals, stops, here, next,
}
use fake_notify.Daemon.System.Soundness.{connects, IsStep, GoesOn, known-modify, known-deliver}

-- The shared state is valid, and the task of every connection has its client in the table.
pub record IsConsistent (y : System) : Type 0 where
  pub valid : IsValid (state y)
  pub served :
      (id : ClientId) (task : Task) → get y.tasks id ≡ some task → GoesOn id (state y) (some task)

-- A step of the task of `id` and a new state are sound together.
resumed-IsConsistent :
    (y : System) (s : DaemonState) (id : ClientId) (after : Option Task)
    → IsConsistent y
    → IsStep id (state y) s
    → GoesOn id s after
    → IsConsistent (set_task (with_state y s) id after)
unfolding with_state set_task
resumed-IsConsistent y s id none v step on = record {
  valid = step.valid;
  served = λ d task h. elim (Bool-cases (id == d)) [
    | inl same ↦ absurd (ground (arith, same, h, get-remove y.tasks id d))
    | inr other ↦
        let old = v.served d task (ground (arith, other, h, get-remove y.tasks id d)) in
        (old.0, step.stay d (ground (arith, other)) ∙ old.1)
  ];
}
resumed-IsConsistent y s id (some task) v step on = record {
  valid = step.valid;
  served = λ d other_task h. elim (Bool-cases (id == d)) [
    | inl same ↦
        let here : id ≡ d = ground (arith, same) in
        let new : task ≡ other_task = ground (arith, same, h, get-insert y.tasks id task d) in
        (
          ap (λ (x : Task). x.id) (sym new) ∙ on.0 ∙ here,
          subst (λ x. connects s x ≡ true) here on.1,
        )
    | inr other ↦
        let old = v.served d other_task (ground (arith, other, h, get-insert y.tasks id task d)) in
        (old.0, step.stay d (ground (arith, other)) ∙ old.1)
  ];
}

pub accepted-IsStep :
    (s : DaemonState) (writer : Writer)
    → IsValid s
    → HasRoom s
    → IsStep s.next_client_id s (State.register_client s writer).0
      × (connects (State.register_client s writer).0 s.next_client_id ≡ true)
unfolding State.register_client
accepted-IsStep s writer v room =
    let id = s.next_client_id in
    let new = get-insert s.clients id (State.new_client id writer) in
    (
      record {
        valid = register_client-IsValid s writer room v;
        others = λ d p ne. refl;
        stay = λ d ne. ground (arith, ne, new d);
      },
      ground (arith, new id),
    )

accept-IsConsistent :
    (y : System) (writer : Writer)
    → IsConsistent y
    → HasRoom (state y)
    → IsConsistent (accept y writer)
unfolding accept State.register_client
accept-IsConsistent y writer v room =
    let (step, on) = accepted-IsStep (state y) writer v.valid room in
    resumed-IsConsistent y (State.register_client (state y) writer).0 (state y).next_client_id
      (some (record {
        id = (state y).next_client_id;
        phase = greeting;
        unread = [];
        ended = false;
        signalled = false;
      }))
      v step (refl, on)

-- The state and the tasks' clients are as they were.
idle-IsStep : (id : ClientId) (s : DaemonState) → IsValid s → IsStep id s s
idle-IsStep id s v = record { valid = v; others = λ d p ne. refl; stay = λ d ne. refl }

-- Of a step that changes no table of tasks but leaves it to fewer or to changed tasks of the same ids.
retasked-IsConsistent :
    (y z : System)
    → IsConsistent y
    → IsValid (state z)
    → ((d : ClientId) → connects (state z) d ≡ connects (state y) d)
    → ((d : ClientId) (task : Task)
        → get z.tasks d ≡ some task
        → (old : Task) × (get y.tasks d ≡ some old) × (task.id ≡ old.id))
    → IsConsistent z
retasked-IsConsistent y z v valid stay back = record {
  valid = valid;
  served = λ d task h.
      let (old, at, same) = back d task h in
      let (named, there) = v.served d old at in (same ∙ named, stay d ∙ there);
}

-- Signalling changes no id.
signalled_back :
    (tasks : Map ClientId Task) (d : ClientId) (task : Task)
    → get (map (λ e. (e.0, record e.1 { signalled = true })) tasks) d ≡ some task
    → (old : Task) × (get tasks d ≡ some old) × (task.id ≡ old.id)
unfolding get
signalled_back [] d task h = absurd (ground (arith, h))
signalled_back ((id, first) ∷ tasks) d task h = elim (Bool-cases (id == d)) [
  | inl same ↦ (first, ground (arith, same), ground (arith, same, h))
  | inr other ↦
      let (old, at, e) = signalled_back tasks d task (ground (arith, other, h)) in
      (old, ground (arith, other, at), e)
]

hang_up-IsConsistent :
    (y : System) (id : ClientId) (task : Task)
    → get y.tasks id ≡ some task
    → IsConsistent y
    → IsConsistent (hang_up y task)
unfolding hang_up
hang_up-IsConsistent y id task at v =
    let s = state y in
    let (named, there) = v.served id task at in
    let f : Client → Client = λ c. record c { writer = record c.writer { is_open = false } } in
    let t : DaemonState = record s { clients = modify s.clients task.id f } in
    let step : IsStep task.id s t = record {
      valid = modified-IsValid s task.id f (λ c. refl) (λ c. refl) v.valid;
      others = λ d p ne. refl;
      stay = λ d ne. known-modify s.clients task.id f d;
    } in
    resumed-IsConsistent y t task.id (some (record task { ended = true })) v step (
      refl,
      known-modify s.clients task.id f task.id ∙ subst (λ x. connects s x ≡ true) (sym named) there,
    )

module _ (os : Platform) (ne : Endian) where
  pub Step-IsConsistent :
      {y z : System} {actor : Option ClientId} (step : Step os ne y z actor)
      → Needs os ne step
      → IsConsistent y
      → IsConsistent z
  unfolding with_state shut_down take_event look_up send_next
  Step-IsConsistent {y} (accepts writer unused up e) room v =
      rw e (accept-IsConsistent y writer v room)
  Step-IsConsistent {y} (resumes now id task s after at h e) room v =
      let (named, there) = v.served id task at in
      let done =
        resume-IsStep os now (state y) s task after v.valid room
          (subst (λ x. connects (state y) x ≡ true) (sym named) there) h in
      let (step, on) = subst (λ x. IsStep x (state y) s × GoesOn x s after) named done in
      rw e (resumed-IsConsistent y s id after v step on)
  Step-IsConsistent {y} (interrupted id task at top between signal e) room v = rw e (
      resumed-IsConsistent y (state y) id _ v (idle-IsStep id (state y) v.valid)
        (v.served id task at))
  Step-IsConsistent {y} (receives id task bytes at up e) room v = rw e (
      resumed-IsConsistent y (state y) id _ v (idle-IsStep id (state y) v.valid)
        (v.served id task at))
  Step-IsConsistent {y} (finishes id task at e) room v = rw e (
      resumed-IsConsistent y (state y) id _ v (idle-IsStep id (state y) v.valid)
        (v.served id task at))
  Step-IsConsistent {y} (hangs_up id task at e) room v = rw e (hang_up-IsConsistent y id task at v)
  Step-IsConsistent {y} {z} (notices events e) room v =
      rw e (retasked-IsConsistent y _ v v.valid (λ d. refl) (λ d task h. (task, h, refl)))
  Step-IsConsistent {y} (takes event later idle sent queued e) room v =
      let same = plan-state ne y.dispatcher event in
      rw e (
        retasked-IsConsistent y _ v (subst IsValid (sym same) v.valid)
          (λ d. ap (λ s. connects s d) same) (λ d task h. (task, h, refl)))
  Step-IsConsistent {y} (looks_up wd framed there idle e) room v =
      rw e (record { valid = v.valid; served = v.served })
  Step-IsConsistent {y} (sends id framed rest queued e) room v = rw e (
      retasked-IsConsistent y _ v (deliver-IsValid (state y) id framed v.valid)
        (known-deliver (state y).clients id framed) (λ d task h. (task, h, refl)))
  Step-IsConsistent {y} (signals early e) room v =
      rw e (retasked-IsConsistent y _ v v.valid (λ d. refl) (signalled_back y.tasks))
  Step-IsConsistent {y} (stops up e) room v =
      rw e (retasked-IsConsistent y _ v v.valid (λ d. refl) (λ d task h. (task, h, refl)))

  -- From a consistent daemon, every order of the steps of its tasks, of what their clients send, of
  -- hang-ups, file system events and a shutdown leads to a consistent daemon, as long as both counters
  -- have a number left whenever a connection is accepted or a task goes on: its tables are well-formed,
  -- and the client of every connection that still has its task is in the table.
  pub Run-IsConsistent :
      {y z : System} {actors : List (Option ClientId)}
      → IsConsistent y
      → (r : Run os ne y z actors) → HasNumbers os ne r
      → IsConsistent z
  Run-IsConsistent v here room = v
  Run-IsConsistent v (next r step) room =
      Step-IsConsistent step room.1 (Run-IsConsistent v r room.0)
