-- ===== src/Daemon/System/Sequential.antt =====
-- crates/daemon/src/server.rs: `handle_client` from its first step to its last, while the other tasks wait.
use fake_notify.Base.{
  ℕ, suc, ◌+◌, ◌<◌, ◌≡◌, ◌≢◌, refl, sym, ◌∙◌, ap, true, false, Option, none, some, List, [], ◌∷◌,
  length, get, get-insert, nat_eq, arith, Endian,
}
use fake_notify.Protocol.Message.{client_registered}
use fake_notify.Daemon.State
use fake_notify.Daemon.State.{DaemonState, ClientId, Writer, subscribes, unregister_client}
use fake_notify.Daemon.State.Invariant.{IsValid}
use fake_notify.Daemon.State.Invariant.Joining.{HasRoom}
use fake_notify.Daemon.Server.{Platform, send_response, serve, handle_client}
use fake_notify.Daemon.Server.Session.{send_response-Served}
use fake_notify.Daemon.Server.Connection.{registered-IsServing}
use fake_notify.Daemon.System.{System, Task, greeting, reading, resume, state, set_task, accept}
use fake_notify.Daemon.System.Runs.{Step, Run, accepts, receives, finishes, here, next}
use fake_notify.Daemon.System.Progress.{own, Reached, get-stepped, IsServing-HasRoom, advance}
use fake_notify.Daemon.System.Loop.{wound_up}

some_back : {s t : DaemonState} → some s ≡ some t → s ≡ t
some_back {s} h = ap (λ (x : Option DaemonState). elim x [ none ↦ s | some u ↦ u ]) h

module _ (os : Platform) (ne : Endian) where
  -- A step that changes the task and not the state.
  retasked :
      {x y : System} {before : List (Option ClientId)} {id : ClientId} {s : DaemonState}
      {task : Task} (task' : Task)
      → (r : Reached os ne x y before id s task)
      → Step os ne r.at (set_task r.at id (some task')) none
      → Reached os ne x y (none ∷ own r.count id before) id s task'
  unfolding set_task
  retasked {id} task' r step = record {
    at = set_task r.at id (some task');
    count = 0;
    run = next r.run step;
    holds = r.holds;
    there = ground (arith, get-insert r.at.tasks id task' id);
    others = λ d ne'. ground (arith, ne', get-insert r.at.tasks id task' d) ∙ r.others d ne';
  }

  -- A connection that is accepted while there is room in the counters, with its greeting, and with all
  -- that its client sends before it stops sending.
  connection :
      (y : System) (writer : Writer) (input : List ℕ)
      → writer.written ≡ []
      → y.listening ≡ true
      → HasRoom (state y)
      → HasRoom (State.register_client (state y) writer).0
      → let id = (state y).next_client_id in
        let greeted =
          send_response os (State.register_client (state y) writer).0 id (client_registered id) in
        greeted.1 ≡ true
        → (before : List (Option ClientId)) × Reached os ne y y before id greeted.0
            (record { id = id; phase = reading; unread = input; ended = true; signalled = false })
  unfolding accept resume State.register_client
  connection y writer input unused up room room' sent =
      let (s0, id) = State.register_client (state y) writer in
      let s1 = (send_response os s0 id (client_registered id)).0 in
      let task0 : Task = record {
        id = id;
        phase = greeting;
        unread = [];
        ended = false;
        signalled = false;
      } in
      let r0 : Reached os ne y y (none ∷ []) id s0 task0 = record {
        at = accept y writer;
        count = 0;
        run = next here (accepts writer unused up refl);
        holds = refl;
        there = (get-stepped os ne y id s0 (some task0)).0;
        others = (get-stepped os ne y id s0 (some task0)).1;
      } in
      let r1 =
        advance os ne 0 s1 (record task0 { phase = reading }) r0 room' (rw (sent, resume) refl) in
      let r2 =
        retasked (record task0 { phase = reading; unread = input }) r1
          (receives id (record task0 { phase = reading }) input r1.there refl refl) in
      (
        _,
        retasked (record task0 { phase = reading; unread = input; ended = true }) r2
            (finishes id (record task0 { phase = reading; unread = input }) r2.there refl),
      )

  -- What `handle_client` returns, once its greeting is out and its loop has ended.
  handle_client_returns :
      (s : DaemonState) (writer : Writer) (input : List ℕ) (u : DaemonState)
      → let id = s.next_client_id in
        let greeted =
          send_response os (State.register_client s writer).0 id (client_registered id) in
        greeted.1 ≡ true
        → serve os (suc (length input)) greeted.0 id input ≡ some u
        → handle_client os s writer input ≡ some (unregister_client u id)
  unfolding handle_client State.register_client
  handle_client_returns s writer input u sent ends = ground (arith, sent, ends)

  -- A session of `handle_client` in which the greeting goes out is a run of the daemon: let a daemon
  -- that listens have a valid state, a new socket, numbers left for two more clients and for two more watches than
  -- the client sends bytes. Then the state that `handle_client` comes to is reached by steps, with the
  -- session's task over and the other connections' tasks as they were.
  pub handle_client_refines :
      (y : System) (writer : Writer) (input : List ℕ) (t : DaemonState)
      → IsValid (state y)
      → writer.written ≡ []
      → y.listening ≡ true
      → (state y).next_client_id + 2 < 18446744073709551616
      → (state y).next_wd + suc (suc (length input)) < 4294967296
      → (send_response os
          (State.register_client (state y) writer).0
          (state y).next_client_id
          (client_registered (state y).next_client_id)).1
        ≡ true
      → handle_client os (state y) writer input ≡ some t
      → (z : System) × (actors : List (Option ClientId)) × Run os ne y z actors
        × (state z ≡ t)
        × (get z.tasks (state y).next_client_id ≡ none)
        × ((d : ClientId) → d ≢ (state y).next_client_id → get z.tasks d ≡ get y.tasks d)
  handle_client_refines y writer input t v unused up ids wds sent h =
      let id = (state y).next_client_id in
      let serving =
        registered-IsServing (state y) writer (suc (suc (length input))) v ids wds
          (omega (arith, wds)) in
      let v1 =
        (send_response-Served os (State.register_client (state y) writer).0 id
          (suc (suc (length input))) (client_registered id) serving).0 in
      let room : HasRoom (state y) = omega (arith, ids, wds) in
      let (before, r) = connection y writer input unused up room (IsServing-HasRoom serving) sent in
      let (u, ends, valid, g) = wound_up os ne y y _ _ v1 refl refl r in
      let same : some (unregister_client u id) ≡ some t =
        sym (handle_client_returns (state y) writer input u sent ends) ∙ h in
      (g.at, own g.count id _, g.run, g.holds ∙ some_back same, g.gone, g.others)
