-- ===== src/Daemon/System/Replying.antt =====
-- crates/daemon/src/server.rs: a request that has come is answered by the task of its connection.
use fake_notify.Base.{
  ℕ, ◌+◌, ◌<◌, ◌≡◌, ◌≢◌, refl, sym, ◌∙◌, ap, subst, All, Bool, true, not, ◌||◌, Option, some, List,
  [], ◌++◌, get, nat_eq, arith, ok, Endian, if◌then◌else◌,
}
use fake_notify.Protocol.Message.{Request, request_from_bytes, response_to_bytes, frame}
use fake_notify.Daemon.State.{DaemonState, ClientId, Client}
use fake_notify.Daemon.Server.{Platform, handle_request, send_response, answer, next_message}
use fake_notify.Daemon.Server.Session.{IsServing}
use fake_notify.Daemon.Client.Replies.{Connected, answer_replies}
use fake_notify.Daemon.System.{System, Task, reading, leaving, take_request, resume, state}
use fake_notify.Daemon.System.Runs.{Run, here}
use fake_notify.Daemon.System.Invariant.{IsConsistent}
use fake_notify.Daemon.System.Progress.{
  own, Reached, advance, take_request_answers, receive-some, IsServing-HasRoom,
}
use fake_notify.Daemon.System.Departing.{own-All}

module _ (os : Platform) (ne : Endian) where
  -- In a consistent daemon, let a task that is reading have a message before it that is a request, and
  -- let its client's socket be open, with numbers left for two more watches and one more client. Then,
  -- whatever the time of the request, steps of that task alone are a run after which the socket has taken,
  -- behind what it had, the frame of the response that the request calls for, which the codec encodes;
  -- the task is reading again behind the message, and the tasks of the other connections are as they
  -- were.
  pub replies :
      (now : ℕ) (y : System) (task : Task) (payload rest : List ℕ) (request : Request) (cl : Client)
      (bytes : List ℕ)
      → IsConsistent y
      → get y.tasks task.id ≡ some task
      → task.phase ≡ reading
      → next_message task.unread ≡ some (payload, rest)
      → request_from_bytes os.bincode payload ≡ ok request
      → get (state y).clients task.id ≡ some cl
      → cl.writer.is_open ≡ true
      → response_to_bytes os.bincode (handle_request os now (state y) task.id request).1 ≡ ok bytes
      → (state y).next_wd + 2 < 4294967296
      → (state y).next_client_id + 1 < 18446744073709551616
      → (z : System) × (actors : List (Option ClientId)) × Run os ne y z actors
        × All (λ actor. actor ≡ some task.id) actors
        × Connected
            (state z)
            task.id
            (record cl.writer { written = cl.writer.written ++ frame bytes })
        × (get z.tasks task.id ≡ some (record task { phase = reading; unread = rest }))
        × ((d : ClientId) → d ≢ task.id → get z.tasks d ≡ get y.tasks d)
  unfolding resume
  replies now y task payload rest request cl bytes v at top next_one asked there up encodes wds
        ids =
      let id = task.id in
      let s = state y in
      let serving : IsServing s id 2 = record {
        valid = v.valid;
        connected = (cl, there);
        wds_left = wds;
        clients_left = ids;
      } in
      let start : Reached os ne y y [] id s task = record {
        at = y;
        count = 0;
        run = here;
        holds = refl;
        there = at;
        others = λ d ne'. refl;
      } in
      let (q, ends, is, same, v1) = take_request_answers os ne now 1 s id payload serving in
      let (s1, phase) = take_request os now s id payload in
      let task1 : Task = record task { phase = phase; unread = rest } in
      let taken : resume os now s task ≡ some (s1, some task1) =
        rw (top, receive-some task.unread payload rest task.ended next_one, resume) refl in
      let r1 = advance os ne now s1 task1 start (IsServing-HasRoom serving) taken in
      let (s2, sent) = send_response os s1 id q in
      let task2 : Task = record task1 { phase = if sent || not ends then reading else leaving } in
      let replied : resume os 0 s1 task1 ≡ some (s2, some task2) = rw (is, resume) refl in
      let r2 = advance os ne 0 s2 task2 r1 (IsServing-HasRoom v1) replied in
      let (told, more) =
        answer_replies os now s id cl.writer request bytes (omega (arith, wds)) (cl, there, refl) up
          encodes in
      let whole : answer os now s id (ok request) ≡ (s2, sent || not ends) =
        subst (λ x. answer os now s id x ≡ (s2, sent || not ends)) asked same in
      (
        r2.at,
        own r2.count id [],
        r2.run,
        own-All r2.count id,
        subst
            (λ (x : DaemonState).
              Connected x id (record cl.writer { written = cl.writer.written ++ frame bytes }))
            (ap (λ (x : DaemonState × Bool). x.0) whole ∙ sym r2.holds) told,
        r2.there
            ∙ ap (λ b. some (record task1 { phase = if b then reading else leaving }))
                (sym (ap (λ (x : DaemonState × Bool). x.1) whole) ∙ more),
        r2.others,
      )
