-- ===== src/Daemon/System/Progress.antt =====
-- crates/daemon/src/server.rs: the task of one connection, step by step, while the others wait.
use fake_notify.Base.{
  ℕ, suc, ◌≡◌, ◌≢◌, refl, sym, ◌∙◌, ap, subst, Bool, true, false, not, ◌||◌, Option, none, some,
  List, ◌∷◌, ◌++◌, get, get-insert, get-remove, nat_eq, arith, Result, ok, err, Endian, ascii, zero,
}
use fake_notify.Protocol.Message.{
  Response, Request, ProtocolError, error, display_error, request_from_bytes,
}
use fake_notify.Daemon.State.{DaemonState, ClientId}
use fake_notify.Daemon.State.Invariant.Joining.{HasRoom}
use fake_notify.Daemon.Server.{Platform, handle_request, send_response, answer, next_message}
use fake_notify.Daemon.Server.Session.{IsServing, weaken, handle_request-Served}
use fake_notify.Daemon.System.{
  System, Task, replying, message, breaks, receive, take_request, resume, state, with_state,
  set_task,
}
use fake_notify.Daemon.System.Runs.{Run, resumes, next}

pub receive-none :
    (unread : List ℕ) (ended : Bool)
    → ended ≡ true
    → next_message unread ≡ none
    → receive unread ended ≡ breaks
unfolding next_message receive
receive-none unread ended over h = ground (arith, over, h)

pub receive-some :
    (unread payload rest : List ℕ) (ended : Bool)
    → next_message unread ≡ some (payload, rest)
    → receive unread ended ≡ message payload rest
unfolding next_message receive
receive-some unread payload rest ended h = ground (arith, h)

pub once : {s : DaemonState} {id k : ℕ} → IsServing s id (suc k) → IsServing s id 1
once v = record {
  valid = v.valid;
  connected = v.connected;
  wds_left = omega (arith, v.wds_left);
  clients_left = v.clients_left;
}

pub IsServing-HasRoom : {s : DaemonState} {id k : ℕ} → IsServing s id (suc k) → HasRoom s
IsServing-HasRoom v = record { wds_left = omega (arith, v.wds_left); clients_left = v.clients_left }

or_false : (b : Bool) → b ≡ (b || false)
or_false b = ground arith

or_true : (b : Bool) → true ≡ (b || true)
or_true b = ground arith

-- So many steps of the task of a connection, behind those before.
abbrev pub own : ℕ → ClientId → List (Option ClientId) → List (Option ClientId)
own zero id before = before
own (suc n) id before = some id ∷ own n id before

module _ (os : Platform) (ne : Endian) where
  -- The task that serves `id` is at `task` in a daemon with the state `s`, reached from `x` by the steps `before`
  -- and some of the task; the other tasks are those of `y`.
  pub record Reached (x y : System) (before : List (Option ClientId)) (id : ClientId)
      (s : DaemonState) (task : Task) : Type 0 where
    pub at : System
    pub count : ℕ
    pub run : Run os ne x at (own count id before)
    pub holds : state at ≡ s
    pub there : get at.tasks id ≡ some task
    pub others : (d : ClientId) → d ≢ id → get at.tasks d ≡ get y.tasks d

  -- The daemon after the step of the task.
  abbrev pub stepped : System → ClientId → DaemonState → Option Task → System
  stepped z id s after = set_task (with_state z s) id after

  pub get-stepped :
      (z : System) (id : ClientId) (s : DaemonState) (after : Option Task)
      → (get (stepped z id s after).tasks id ≡ after)
        × ((d : ClientId) → d ≢ id → get (stepped z id s after).tasks d ≡ get z.tasks d)
  unfolding set_task with_state
  get-stepped z id s none = (
    ground (arith, get-remove z.tasks id id),
    λ d ne'. ground (arith, ne', get-remove z.tasks id d),
  )
  get-stepped z id s (some task) = (
    ground (arith, get-insert z.tasks id task id),
    λ d ne'. ground (arith, ne', get-insert z.tasks id task d),
  )

  pub advance :
      {x y : System} {before : List (Option ClientId)} {id : ClientId} {s : DaemonState}
      {task : Task}
      → (now : ℕ) (t : DaemonState) (task' : Task) → Reached x y before id s task
      → HasRoom s
      → resume os now s task ≡ some (t, some task')
      → Reached x y before id t task'
  unfolding set_task with_state
  advance {id} {s} {task} now t task' r room h = record {
    at = stepped r.at id t (some task');
    count = suc r.count;
    run = next r.run (
        resumes now id task t (some task') r.there
          (subst (λ u. resume os now u task ≡ some (t, some task')) (sym r.holds) h) refl);
    holds = refl;
    there = (get-stepped r.at id t (some task')).0;
    others = λ d ne'. (get-stepped r.at id t (some task')).1 d ne' ∙ r.others d ne';
  }

  -- A request that is taken, and its response, are the `answer` of the sequential loop.
  pub take_request_answers :
      (now k : ℕ) (s : DaemonState) (id : ClientId) (payload : List ℕ)
      → IsServing s id (suc k)
      → (r : Response) × (ends : Bool) × ((take_request os now s id payload).1 ≡ replying r ends)
        × (let sent = send_response os (take_request os now s id payload).0 id r in
            answer os now s id (request_from_bytes os.bincode payload)
            ≡ (sent.0, sent.1 || not ends))
        × IsServing (take_request os now s id payload).0 id k
  unfolding take_request answer
  take_request_answers now k s id payload v = go (request_from_bytes os.bincode payload) refl
    where
      go :
          (x : Result Request ProtocolError)
          → request_from_bytes os.bincode payload ≡ x
          → (r : Response) × (ends : Bool) × ((take_request os now s id payload).1
              ≡ replying r ends)
            × (let sent = send_response os (take_request os now s id payload).0 id r in
                answer os now s id (request_from_bytes os.bincode payload)
                ≡ (sent.0, sent.1 || not ends))
            × IsServing (take_request os now s id payload).0 id k
      go (ok request) h =
          let (s', r) = handle_request os now s id request in
          let (t, sent) = send_response os s' id r in
          rw (h, take_request)
            (
              r,
              true,
              refl,
              ap (λ b. (t, b)) (or_false sent),
              (handle_request-Served os now k s id request v).0,
            )
      go (err e) h =
          let refused = error (ascii "Invalid request: " ++ display_error e) in
          let (t, sent) = send_response os s id refused in
          rw (h, take_request) (refused, false, refl, ap (λ b. (t, b)) (or_true sent), weaken v)
