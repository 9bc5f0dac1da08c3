-- ===== src/Daemon/System/Log/Events.antt =====
-- crates/daemon/src/server.rs and watcher.rs: the order of a connection's events.
use fake_notify.Base.{
  ℕ, ◌≡◌, refl, sym, ◌∙◌, ap, if◌then◌else◌, inl, inr, true, false, Bool-cases, Option, none, some,
  List, [], ◌∷◌, ◌++◌, append-nil, append_assoc, get, contains, ◌&&◌, map, nat_eq, ◌==◌, arith,
  Endian, Map, Option-cases,
}
use fake_notify.Daemon.State.{DaemonState, WatchDescriptor, ClientId, Client}
use fake_notify.Daemon.State.Links.{IsDistinct}
use fake_notify.Daemon.State.Invariant.{IsValid}
use fake_notify.Daemon.State.Queries.{connected, get_clients_for_watch}
use fake_notify.Daemon.Server.{Platform}
use fake_notify.Daemon.System.{
  System, state, with_state, set_task, accept, take_event, look_up, send_next, hang_up, shut_down,
}
use fake_notify.Daemon.System.Runs.{
  Step, Run, HasNumbers, accepts, resumes, interrupted, receives, finishes, hangs_up, notices,
  takes, looks_up, sends, signals, stops, here, next,
}
use fake_notify.Daemon.System.Invariant.{IsConsistent, Run-IsConsistent}
use fake_notify.Daemon.System.Log.{Log, pending, clients_due, log_step, log}

-- Of the ids without repetition, those that are connected have one frame each.
pending-connected :
    (known : Map ClientId Client)
    → ((c : ℕ) (cl : Client) → get known c ≡ some cl → cl.id ≡ c)
    → (ids : List ℕ) (framed : List ℕ) (id : ClientId) → IsDistinct ids
    → pending id (map (λ (c : Client). (c.id, framed)) (connected known ids)) ≡ (
        if contains ids id && elim (get known id) [ none ↦ false | some c ↦ true ]
        then framed ∷ []
        else [])
unfolding pending connected
pending-connected known named [] framed id d = refl
pending-connected known named (first ∷ ids) framed id d = elim (Option-cases (get known first)) [
  | inl absent ↦ ground (arith, absent, pending-connected known named ids framed id d.1)
  | inr (c, found) ↦
      ground
        (arith, found, d.0, named first c found, pending-connected known named ids framed id d.1)
]

-- What the dispatcher looks up for a connection is what the connection is to be sent.
look_up-pending :
    (s : DaemonState) (wd : WatchDescriptor) (framed : List ℕ) (id : ClientId)
    → IsValid s
    → pending id (map (λ (c : Client). (c.id, framed)) (get_clients_for_watch s wd))
      ≡ clients_due s wd framed id
unfolding clients_due pending get_clients_for_watch
look_up-pending s wd framed id v = elim (Option-cases (get s.watches wd)) [
  | inl absent ↦ rw (absent, get_clients_for_watch, clients_due) refl
  | inr (watch, found) ↦
      rw (found, get_clients_for_watch, clients_due)
        (pending-connected s.clients v.identified watch.clients framed id
          (v.linked.distinct wd watch found))
]

module _ (os : Platform) (ne : Endian) where
  sending_next :
      (id d : ClientId) (framed : List ℕ) (rest : List (ClientId × List ℕ)) (l : Log)
      → l.planned ≡ l.sent ++ pending id ((d, framed) ∷ rest)
      → (if d == id then record l { sent = l.sent ++ (framed ∷ []) } else l).planned
        ≡ (if d == id then record l { sent = l.sent ++ (framed ∷ []) } else l).sent
          ++ pending id rest
  unfolding pending
  sending_next id d framed rest l h = elim (Bool-cases (d == id)) [
    | inl same ↦ rw same (ground (arith, same, append_assoc l.sent (framed ∷ []) (pending id rest)))
    | inr other ↦ rw other (ground (arith, other))
  ]

  events_step :
      {y z : System} {actor : Option ClientId} (step : Step os ne y z actor) (id : ClientId)
      (l : Log)
      → IsConsistent y
      → l.planned ≡ l.sent ++ pending id y.outgoing
      → (log_step os ne step id l).planned
        ≡ (log_step os ne step id l).sent ++ pending id z.outgoing
  unfolding log_step accept with_state hang_up shut_down take_event look_up send_next set_task
  events_step {y} (accepts writer unused up e) id l v h =
      elim (Bool-cases ((state y).next_client_id == id)) [
        | inl same ↦ rw e rw same refl
        | inr other ↦ rw e rw other h
      ]
  events_step {y} (resumes now d task s after at stepped e) id l v h = elim (Bool-cases (d == id)) [
    | inl same ↦ rw e rw same h
    | inr other ↦ rw e rw other h
  ]
  events_step {y} (interrupted d task at top between signal e) id l v h = rw e h
  events_step {y} (receives d task bytes at up e) id l v h = rw e h
  events_step {y} (finishes d task at e) id l v h = rw e h
  events_step {y} (hangs_up d task at e) id l v h = rw e h
  events_step {y} (notices events e) id l v h = rw e h
  events_step {y} (takes event later idle sent queued e) id l v h = rw e h
  events_step {y} (looks_up wd framed there idle e) id l v h = rw e (
      ap (λ x. x ++ clients_due (state y) wd framed id)
        (h ∙ ap (λ x. l.sent ++ pending id x) idle ∙ append-nil l.sent)
      ∙ ap (λ x. l.sent ++ x) (sym (look_up-pending (state y) wd framed id v.valid)))
  events_step {y} (sends d framed rest queued e) id l v h =
      rw e (sending_next id d framed rest l (h ∙ ap (λ x. l.sent ++ pending id x) queued))
  events_step {y} (signals early e) id l v h = rw e h
  events_step {y} (stops up e) id l v h = rw e h

  -- From a consistent daemon, however its tasks interleave: the frames of events that a connection is to
  -- be sent are the ones that its dispatcher has sent to it and then those that it still holds.
  pub planned-sent :
      {y z : System} {actors : List (Option ClientId)} (id : ClientId)
      → IsConsistent y
      → (r : Run os ne y z actors) → HasNumbers os ne r
      → (log os ne r id).planned ≡ (log os ne r id).sent ++ pending id z.outgoing
  unfolding log
  planned-sent id v here room = refl
  planned-sent id v (next r step) room =
      events_step step id (log os ne r id) (Run-IsConsistent os ne v r room.0)
        (planned-sent id v r room.0)
