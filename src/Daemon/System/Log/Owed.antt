-- ===== src/Daemon/System/Log/Owed.antt =====
-- crates/daemon/src/server.rs: the response that the task of a connection has at hand, from step to step.
use fake_notify.Base.{
  ℕ, ◌≡◌, refl, sym, ◌∙◌, ap, if◌then◌else◌, subst, inl, inr, Bool, true, false, ◌||◌, not,
  Bool-cases, Option, none, some, List, [], ◌∷◌, get, get-insert, get-remove, map, nat_eq, ◌==◌,
  arith, Result, ok, err, Map,
}
use fake_notify.Protocol.Message.{
  Request, ProtocolError, Response, client_registered, request_from_bytes,
}
use fake_notify.Daemon.State
use fake_notify.Daemon.State.{DaemonState, ClientId, Writer}
use fake_notify.Daemon.Server.{Platform, send_response}
use fake_notify.Daemon.System.{
  System, Task, Phase, greeting, reading, replying, leaving, Received, waits, message, breaks,
  receive, take_request, resume, state, with_state, set_task, accept,
}
use fake_notify.Daemon.System.Log.{owed, owed_by, response_for, falls_due}

-- The task of a connection once another one's is set.
pub get-set_task :
    (y : System) (id : ClientId) (after : Option Task) (d : ClientId)
    → get (set_task y id after).tasks d ≡ (if id == d then after else get y.tasks d)
unfolding set_task
get-set_task y id none d = get-remove y.tasks id d
get-set_task y id (some task) d = get-insert y.tasks id task d

module _ (os : Platform) where
  -- A message is answered by the response that it calls for.
  owed-take_request :
      (now : ℕ) (s : DaemonState) (task : Task) (payload rest : List ℕ)
      → owed (record task { phase = (take_request os now s task.id payload).1; unread = rest })
        ≡ response_for os now s task.id payload ∷ []
  unfolding owed take_request response_for
  owed-take_request now s task payload rest = go (request_from_bytes os.bincode payload) refl
    where
      go :
          (x : Result Request ProtocolError)
          → request_from_bytes os.bincode payload ≡ x
          → owed (record task { phase = (take_request os now s task.id payload).1; unread = rest })
            ≡ response_for os now s task.id payload ∷ []
      go (err e) h = rw (h, take_request, response_for) refl
      go (ok request) h = rw (h, take_request, response_for) refl

  -- A step of a task pays what was owed, and owes what has fallen due in it.
  abbrev pub Pays : ℕ → DaemonState → Task → Option (DaemonState × Option Task) → Type 0
  Pays now s task none = Unit
  Pays now s task (some (t, after)) = falls_due os now s task ≡ owed_by after

  pub resume-Pays :
      (now : ℕ) (s : DaemonState) (task : Task) → Pays now s task (resume os now s task)
  unfolding resume owed owed_by falls_due
  resume-Pays now s task = by_phase task.phase refl
    where
      by_message :
          task.phase ≡ reading
          → (x : Received) → receive task.unread task.ended ≡ x
          → Pays now s task (resume os now s task)
      by_message e waits h = rw (e, h, resume) tt
      by_message e breaks h = rw (e, h, resume) rw (h, falls_due) refl
      by_message e (message payload rest) h =
          rw (e, h, resume) rw (h, falls_due) (sym (owed-take_request now s task payload rest))

      silent :
          (sent ends : Bool)
          → ◌≡◌ {A = List Response} [] (
              owed_by
                (some (record task { phase = if sent || not ends then reading else leaving })))
      silent true ends = refl
      silent false true = refl
      silent false false = refl

      by_phase : (x : Phase) → task.phase ≡ x → Pays now s task (resume os now s task)
      by_phase greeting e =
          elim (Bool-cases (send_response os s task.id (client_registered task.id)).1) [
            | inl sent ↦ rw (e, sent, resume) refl
            | inr lost ↦ rw (e, lost, resume) refl
          ]
      by_phase reading e = by_message e (receive task.unread task.ended) refl
      by_phase (replying response ends) e =
          rw (e, resume) (silent (send_response os s task.id response).1 ends)
      by_phase leaving e = rw (e, resume) refl

-- A task that is marked owes what it did.
pub owed-signalled :
    (tasks : Map ClientId Task) (d : ClientId)
    → owed_by (get (map (λ e. (e.0, record e.1 { signalled = true })) tasks) d)
      ≡ owed_by (get tasks d)
unfolding get owed_by owed
owed-signalled [] d = refl
owed-signalled ((id, first) ∷ tasks) d = elim (Bool-cases (id == d)) [
  | inl same ↦ rw (same, get) refl
  | inr other ↦ rw (other, get) (owed-signalled tasks d)
]

-- A task that is set in the place of one that owes as much.
pub owed-set_task :
    (y : System) (id : ClientId) (old task : Task) (d : ClientId)
    → get y.tasks id ≡ some old
    → owed task ≡ owed old
    → owed_by (get (set_task y id (some task)).tasks d) ≡ owed_by (get y.tasks d)
unfolding owed_by
owed-set_task y id old task d at same = elim (Bool-cases (id == d)) [
  | inl found ↦
      let e : id ≡ d = ground (arith, found) in
      rw (get-set_task y id (some task) d) rw found
        (same ∙ ap owed_by (sym (subst (λ x. get y.tasks x ≡ some old) e at)))
  | inr other ↦ rw (get-set_task y id (some task) d) rw other refl
]

-- A task that reads owes nothing.
pub owed-reading :
    (task : Task) → task.phase ≡ reading → owed (record task { phase = leaving }) ≡ owed task
unfolding owed
owed-reading task top = rw (top, owed) refl

-- The connection that is accepted is owed its greeting.
pub owed-accept :
    (y : System) (writer : Writer) (id : ClientId)
    → owed_by (get (accept y writer).tasks id) ≡ (
        if (state y).next_client_id == id
        then client_registered id ∷ []
        else owed_by (get y.tasks id))
unfolding accept set_task with_state State.register_client owed_by owed
owed-accept y writer id =
    let task : Task = record {
      id = (state y).next_client_id;
      phase = greeting;
      unread = [];
      ended = false;
      signalled = false;
    } in
    elim (Bool-cases ((state y).next_client_id == id)) [
      | inl same ↦
          rw (get-insert y.tasks (state y).next_client_id task id) rw same
            (ap (λ (d : ClientId). client_registered d ∷ []) (ground (arith, same)))
      | inr other ↦ rw (get-insert y.tasks (state y).next_client_id task id) rw other refl
    ]
