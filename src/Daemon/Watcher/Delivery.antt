-- ===== src/Daemon/Watcher/Delivery.antt =====
-- crates/daemon/src/watcher.rs: who is sent an event, and how often.
use fake_notify.Base.{
  ap, ℕ, ◌≡◌, refl, ◌⊎◌, inl, inr, Bool, true, false, ◌&&◌, Option, none, some, List, [], ◌∷◌,
  contains, if◌then◌else◌, Map, get, map_some, get-modify, FilePath, ◌==◌, nat_eq, arith,
  Bool-cases, Option-cases, Endian,
}
use fake_notify.Protocol.Event.{EventMask, intersects, new}
use fake_notify.Protocol.Message.{frame}
use fake_notify.Daemon.State.{WatchDescriptor, Client, WatchInfo, DaemonState, deliver, send_event}
use fake_notify.Daemon.State.Queries.{connected, get_clients_for_watch, find_watch_for_path}
use fake_notify.Daemon.State.Links.{IsDistinct}
use fake_notify.Daemon.State.Invariant.{IsValid}
use fake_notify.Daemon.State.Steps.{deliver-IsValid}
use fake_notify.Daemon.State.Lookup.{find_watch_for_path_sound}
use fake_notify.Daemon.Watcher.{
  Dispatcher, WatcherEvent, send_to_all, plan, dispatch, handle_event, run, rename_cookie,
  event_name, event_bytes, notify_to_inotify_mask,
}

-- A client that has been sent some bytes.
abbrev pub sent : List ℕ → Client → Client
sent bytes c = (send_event c bytes).0

get-deliver :
    (clients : Map ℕ Client) (id : ℕ) (bytes : List ℕ) (q : ℕ)
    → get (deliver clients id bytes).0 q
      ≡ (if id == q then map_some (sent bytes) (get clients q) else get clients q)
unfolding deliver
get-deliver clients id bytes q = elim (Option-cases (get clients id)) [
  | inl absent ↦ ground (arith, absent)
  | inr (c, found) ↦ ground (arith, found, get-modify clients id (sent bytes) q)
]

abbrev is_there : Option Client → Bool
is_there none = false
is_there (some c) = true

-- Of the ids without repetition, those that are connected are sent the bytes once.
send_to_connected :
    (known : Map ℕ Client)
    → ((c : ℕ) (cl : Client) → get known c ≡ some cl → cl.id ≡ c)
    → (ids : List ℕ) (bytes : List ℕ) (clients : Map ℕ Client) (q : ℕ) → IsDistinct ids
    → get (send_to_all (connected known ids) bytes clients) q ≡ (
        if contains ids q && is_there (get known q)
        then map_some (sent bytes) (get clients q)
        else get clients q)
unfolding send_to_all connected
send_to_connected known named [] bytes clients q d = refl
send_to_connected known named (id ∷ ids) bytes clients q d = elim (Option-cases (get known id)) [
  | inl absent ↦ ground (arith, absent, send_to_connected known named ids bytes clients q d.1)
  | inr (c, found) ↦ ground (
    arith,
    found,
    d.0,
    named id c found,
    send_to_connected known named ids bytes (deliver clients id bytes).0 q d.1,
    get-deliver clients id bytes q,
  )
]

pub rename_cookie-state :
    (d : Dispatcher) (p : FilePath) (m : EventMask) → (rename_cookie d p m).1.state ≡ d.state
unfolding rename_cookie
rename_cookie-state d p m = ground arith

-- The frame that an event becomes for the clients of a watch.
abbrev pub frame_for : Endian → Dispatcher → WatcherEvent → WatchInfo → EventMask → List ℕ
frame_for ne d event watch mask = frame (
    event_bytes ne (new watch.wd mask (rename_cookie d event.path mask).0)
      (event_name watch event.path))

-- `plan` reads the shared state and leaves it alone.
pub plan-state :
    (ne : Endian) (d : Dispatcher) (event : WatcherEvent) → (plan ne d event).0.state ≡ d.state
unfolding plan
plan-state ne d event = elim (Option-cases (find_watch_for_path d.state event.path)) [
  | inl nowhere ↦ rw (nowhere, plan) refl
  | inr (watch, found) ↦ elim (Option-cases (notify_to_inotify_mask event.kind event.is_dir)) [
    | inl other ↦ rw (found, other, plan) refl
    | inr (mask, kind) ↦ elim (Bool-cases (intersects watch.mask mask)) [
      | inl wanted ↦ rw (found, kind, wanted, plan) (rename_cookie-state d event.path mask)
      | inr idle ↦ rw (found, kind, idle, plan) refl
    ]
  ]
]

-- An event that a watch serves, with a mask that meets the mask of the watch, is sent to the
-- connected clients of that watch, to each exactly once, and to no other client.
module _ (ne : Endian) (d : Dispatcher) (event : WatcherEvent) (watch : WatchInfo)
    (mask : EventMask) (v : IsValid d.state)
    (found : find_watch_for_path d.state event.path ≡ some watch)
    (kind : notify_to_inotify_mask event.kind event.is_dir ≡ some mask)
    (wanted : intersects watch.mask mask ≡ true) where
  planned :
      plan ne d event
      ≡ ((rename_cookie d event.path mask).1, some (watch.wd, frame_for ne d event watch mask))
  unfolding plan
  planned = rw (found, kind, wanted, plan) refl

  handle_found :
      handle_event ne d event
      ≡ dispatch (rename_cookie d event.path mask).1 watch.wd (frame_for ne d event watch mask)
  unfolding handle_event
  handle_found =
      ap
        (λ (x : Dispatcher × Option (WatchDescriptor × List ℕ)). elim x.1 [
          | none ↦ x.0
          | some (wd, framed) ↦ dispatch x.0 wd framed
        ])
        planned

  -- In a valid state, let an event be served by a watch and have a mask that meets the mask of the
  -- watch. Then every connected client of that watch is sent the frame of the event exactly once,
  -- and no other client is sent anything.
  pub handle_event_delivers :
      (q : ℕ)
      → get (handle_event ne d event).state.clients q ≡ (
          if contains watch.clients q
          then map_some (sent (frame_for ne d event watch mask)) (get d.state.clients q)
          else get d.state.clients q)
  unfolding dispatch get_clients_for_watch
  handle_event_delivers q =
      let at = (find_watch_for_path_sound d.state v event.path watch found).0 in
      rw (handle_found, rename_cookie-state d event.path mask, at, dispatch, get_clients_for_watch)
        (rw (rename_cookie-state d event.path mask) (
          ground (
            arith,
            send_to_connected d.state.clients v.identified watch.clients
                (frame_for ne d event watch mask) d.state.clients q
                (v.linked.distinct watch.wd watch at),
          )))

-- An event that no watch serves, that has no mask, or whose mask the watch does not ask for leaves
-- everything as it was: nothing is sent and no cookie is used.
pub handle_event_skips :
    (ne : Endian) (d : Dispatcher) (event : WatcherEvent) (watch : WatchInfo) (mask : EventMask)
    → (find_watch_for_path d.state event.path ≡ none)
      ⊎ ((notify_to_inotify_mask event.kind event.is_dir ≡ none)
          ⊎ ((find_watch_for_path d.state event.path ≡ some watch)
              × (notify_to_inotify_mask event.kind event.is_dir ≡ some mask)
              × (intersects watch.mask mask ≡ false)))
    → handle_event ne d event ≡ d
unfolding plan handle_event
handle_event_skips ne d event watch mask why = ground (arith, why)

send_to_all-IsValid :
    (cs : List Client) (bytes : List ℕ) (s : DaemonState)
    → IsValid s
    → IsValid (record s { clients = send_to_all cs bytes s.clients })
unfolding send_to_all
send_to_all-IsValid [] bytes s v = v
send_to_all-IsValid (c ∷ cs) bytes s v =
    send_to_all-IsValid cs bytes _ (deliver-IsValid s c.id bytes v)

dispatch-IsValid :
    (d : Dispatcher) (wd : ℕ) (framed : List ℕ)
    → IsValid d.state
    → IsValid (dispatch d wd framed).state
unfolding dispatch
dispatch-IsValid d wd framed v =
    send_to_all-IsValid (get_clients_for_watch d.state wd) framed d.state v

handle_event-IsValid :
    (ne : Endian) (d : Dispatcher) (event : WatcherEvent)
    → IsValid d.state
    → IsValid (handle_event ne d event).state
unfolding handle_event
handle_event-IsValid ne d event v = elim (Option-cases (plan ne d event).1) [
  | inl nothing ↦ rw (nothing, handle_event) rw (plan-state ne d event) v
  | inr ((wd, framed), found) ↦
      rw (found, handle_event)
        (dispatch-IsValid (plan ne d event).0 wd framed (rw (plan-state ne d event) v))
]

-- The dispatcher's loop keeps a valid state valid, whatever events come.
pub run-IsValid :
    (ne : Endian) (events : List WatcherEvent) (d : Dispatcher)
    → IsValid d.state
    → IsValid (run ne d events).state
unfolding run
run-IsValid ne [] d v = v
run-IsValid ne (e ∷ es) d v =
    run-IsValid ne es (handle_event ne d e) (handle_event-IsValid ne d e v)
