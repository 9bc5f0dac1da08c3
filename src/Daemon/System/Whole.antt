-- ===== src/Daemon/System/Whole.antt =====
-- crates/daemon/src/server.rs, state.rs and watcher.rs: no frame is torn by another.
use fake_notify.Base.{
  ℕ, ◌≡◌, refl, sym, subst, false, Option, List, [], ◌∷◌, All, map, get-insert, nat_eq, arith, none,
  some, Bool-cases, Option-cases, inl, inr, Endian, ◌==◌,
}
use fake_notify.Protocol.Event.{intersects}
use fake_notify.Protocol.Message.{frame}
use fake_notify.Daemon.State
use fake_notify.Daemon.State.{
  DaemonState, ClientId, WatchDescriptor, Client, Writer, deliver, send_event, push_watch,
  drop_watch, unregister_client,
}
use fake_notify.Daemon.State.Queries.{find_watch_for_path, get_clients_for_watch}
use fake_notify.Daemon.Server.{Platform}
use fake_notify.Daemon.Watcher.{plan, Dispatcher, WatcherEvent, notify_to_inotify_mask}
use fake_notify.Daemon.System.{
  System, state, with_state, set_task, accept, take_event, look_up, send_next, hang_up, shut_down,
}
use fake_notify.Daemon.Watcher.Delivery.{plan-state}
use fake_notify.Daemon.System.Runs.{
  Step, Run, Needs, HasNumbers, accepts, resumes, interrupted, receives, finishes, hangs_up,
  notices, takes, looks_up, sends, signals, stops, here, next,
}
use fake_notify.Daemon.System.Streams.{
  Frames, IsWhole, nothing, AllFramed, FramedAfter, AllFramed-modify, AllFramed-deliver,
  AllFramed-resume,
}

-- Bytes that are a frame.
abbrev IsFrame : List ℕ → Type 0
IsFrame bytes = (payload : List ℕ) × (bytes ≡ frame payload)

-- So for the event at hand.
abbrev IsFound : Option (WatchDescriptor × List ℕ) → Type 0
IsFound none = Unit
IsFound (some (wd, framed)) = IsFrame framed

-- Every open socket has taken whole frames, and what the dispatcher has yet to send are frames.
pub record IsFramed (y : System) : Type 0 where
  pub sockets : AllFramed (state y).clients
  pub found : IsFound y.found
  pub pending : All (λ (e : ClientId × List ℕ). IsFrame e.1) y.outgoing

map-IsFrame :
    (cs : List Client) (framed : List ℕ)
    → IsFrame framed
    → All (λ (e : ClientId × List ℕ). IsFrame e.1) (map (λ (c : Client). (c.id, framed)) cs)
map-IsFrame [] framed h = tt
map-IsFrame (c ∷ cs) framed h = (h, map-IsFrame cs framed h)

plan-IsFrame : (ne : Endian) (d : Dispatcher) (event : WatcherEvent) → IsFound (plan ne d event).1
unfolding plan
plan-IsFrame ne d event = elim (Option-cases (find_watch_for_path d.state event.path)) [
  | inl nowhere ↦ rw (nowhere, plan) tt
  | inr (watch, found) ↦ elim (Option-cases (notify_to_inotify_mask event.kind event.is_dir)) [
    | inl other ↦ rw (found, other, plan) tt
    | inr (mask, kind) ↦ elim (Bool-cases (intersects watch.mask mask)) [
      | inl wanted ↦ rw (found, kind, wanted, plan) (_, refl)
      | inr idle ↦ rw (found, kind, idle, plan) tt
    ]
  ]
]

AllFramed-accept :
    (s : DaemonState) (writer : Writer)
    → writer.written ≡ []
    → AllFramed s.clients
    → AllFramed (State.register_client s writer).0.clients
unfolding State.register_client State.new_client
AllFramed-accept s writer unused all d cl h = elim (Bool-cases (s.next_client_id == d)) [
  | inl same ↦
      let new : State.new_client s.next_client_id writer ≡ cl = ground (
        arith,
        same,
        h,
        get-insert s.clients s.next_client_id (State.new_client s.next_client_id writer) d,
      ) in
      subst (λ (x : Client). IsWhole x.writer) new (λ up. subst Frames (sym unused) nothing)
  | inr other ↦ all d cl (
      ground (
        arith,
        other,
        h,
        get-insert s.clients s.next_client_id (State.new_client s.next_client_id writer) d,
      ))
]

module _ (os : Platform) (ne : Endian) where
  Step-IsFramed :
      {y z : System} {actor : Option ClientId} (step : Step os ne y z actor)
      → Needs os ne step
      → IsFramed y
      → IsFramed z
  unfolding with_state set_task accept take_event look_up send_next hang_up shut_down
  Step-IsFramed {y} (accepts writer unused up e) room v = rw e (record {
    sockets = AllFramed-accept (state y) writer unused v.sockets;
    found = v.found;
    pending = v.pending;
  })
  Step-IsFramed {y} (resumes now id task s after at h e) room v = rw e (record {
    sockets =
        subst (FramedAfter os) h (AllFramed-resume os now (state y) task room.wds_left v.sockets);
    found = v.found;
    pending = v.pending;
  })
  Step-IsFramed (interrupted id task at top between signal e) room v =
      rw e (record { sockets = v.sockets; found = v.found; pending = v.pending })
  Step-IsFramed (receives id task bytes at up e) room v =
      rw e (record { sockets = v.sockets; found = v.found; pending = v.pending })
  Step-IsFramed (finishes id task at e) room v =
      rw e (record { sockets = v.sockets; found = v.found; pending = v.pending })
  Step-IsFramed {y} (hangs_up id task at e) room v = rw e (record {
    sockets =
        AllFramed-modify (state y).clients task.id
          (λ c. record c { writer = record c.writer { is_open = false } })
          (λ c h up. absurd (ground (arith, up))) v.sockets;
    found = v.found;
    pending = v.pending;
  })
  Step-IsFramed (notices events e) room v =
      rw e (record { sockets = v.sockets; found = v.found; pending = v.pending })
  Step-IsFramed {y} (takes event later idle sent queued e) room v = rw e (record {
    sockets =
        subst (λ (s : DaemonState). AllFramed s.clients) (sym (plan-state ne y.dispatcher event))
          v.sockets;
    found = plan-IsFrame ne y.dispatcher event;
    pending = v.pending;
  })
  Step-IsFramed {y} (looks_up wd framed there idle e) room v =
      let (payload, whole) = subst IsFound there v.found in
      rw e (record {
        sockets = v.sockets;
        pending = map-IsFrame (get_clients_for_watch (state y) wd) framed (payload, whole);
        found = tt;
      })
  Step-IsFramed {y} (sends id framed rest queued e) room v =
      let pending = subst (All (λ (e : ClientId × List ℕ). IsFrame e.1)) queued v.pending in
      let (payload, whole) = pending.0 in
      rw e (record {
        sockets =
            subst (λ b. AllFramed (deliver (state y).clients id b).0) (sym whole)
              (AllFramed-deliver (state y).clients id payload v.sockets);
        found = v.found;
        pending = pending.1;
      })
  Step-IsFramed (signals early e) room v =
      rw e (record { sockets = v.sockets; found = v.found; pending = v.pending })
  Step-IsFramed (stops up e) room v =
      rw e (record { sockets = v.sockets; found = v.found; pending = v.pending })

  -- Responses and events reach a client through one socket. However the tasks that send them interleave,
  -- while both counters have a number left whenever a connection is accepted or a task goes on: every
  -- open socket has taken a sequence of whole frames after any run from a daemon where that is so and
  -- where the dispatcher has only frames to send.
  pub Run-IsFramed :
      {y z : System} {actors : List (Option ClientId)}
      → IsFramed y
      → (r : Run os ne y z actors) → HasNumbers os ne r
      → IsFramed z
  Run-IsFramed v here room = v
  Run-IsFramed v (next r step) room = Step-IsFramed step room.1 (Run-IsFramed v r room.0)
