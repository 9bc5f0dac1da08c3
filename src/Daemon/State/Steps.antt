-- ===== src/Daemon/State/Steps.antt =====
-- crates/daemon/src/state.rs: what `add_watch` promises, and every state that the daemon can reach.
use fake_notify.Base.{
  ◌+◌, ◌<◌, ◌≤◌, ℕ, ◌≡◌, refl, sym, ◌∙◌, inl, inr, Bool, true, ◌||◌, ◌&&◌, some, List, contains,
  Map, get, get-insert, get-modify, modify, FilePath, ◌==◌, list_eq, component_eq, nat_eq, arith,
  bit_and, Option-cases, list_beq_iff,
}
use fake_notify.Daemon.State.{
  WatchInfo, Client, Writer, DaemonState, subscribes, remove_watch, register_client, add_watch,
  join_watch, new, existing,
}
use fake_notify.Daemon.State.Links.{IsLinked-mono}
use fake_notify.Daemon.State.Invariant.{IsValid, subs, watches_of}
use fake_notify.Daemon.State.{deliver, send_event, unregister_client}
use fake_notify.Base.Bits.{and-or_right, bit_and_self}
use fake_notify.Daemon.State.Invariant.Joining.{
  HasRoom, existing_cases, new-IsValid, register_client-IsValid,
}
use fake_notify.Daemon.State.Invariant.Adding.{
  add_joined, joined-IsValid, joined-subscribes, join-clients,
}
use fake_notify.Daemon.State.Invariant.Creating.{
  fresh, add_created, created-IsValid, created-subscribes,
}
use fake_notify.Daemon.State.Invariant.Leaving.{unregister_client-IsValid}
use fake_notify.Daemon.State.Invariant.Removing.{remove_watch-IsValid}

module _ (s : DaemonState) (c : ℕ) (path : FilePath) (mask : ℕ) (recursive : Bool) (cl : Client)
    (connected : get s.clients c ≡ some cl) (v : IsValid s) (room : HasRoom s) where
  -- `add_watch` keeps the invariant, for a client that is connected, while the counters have room.
  pub add_watch-IsValid : IsValid (add_watch s c path mask recursive).0
  add_watch-IsValid = elim (existing_cases s path v) [
    | inl (none_there, absent) ↦
        rw (add_created s c path mask recursive cl connected v room absent none_there)
          (created-IsValid s c path mask recursive cl connected v room absent)
    | inr (wd, w, there, to, found, on) ↦
        rw (add_joined s c path mask recursive cl connected v wd w there found)
          (joined-IsValid s c path mask recursive cl connected v wd w there found)
  ]

  -- When a connected client adds a watch in a valid state with room in its counters, the client is
  -- then subscribed to the path, and no other subscription comes or goes.
  pub subscribes-add_watch :
      (d : ℕ) (p : FilePath)
      → subscribes (add_watch s c path mask recursive).0 d p
        ≡ ((c == d) && (path == p) || subscribes s d p)
  subscribes-add_watch d p = elim (existing_cases s path v) [
    | inl (none_there, absent) ↦
        rw (add_created s c path mask recursive cl connected v room absent none_there)
          (created-subscribes s c path mask recursive cl connected v room absent d p)
    | inr (wd, w, there, to, found, on) ↦
        rw (add_joined s c path mask recursive cl connected v wd w there found)
          (joined-subscribes s c path mask recursive cl connected v wd w there found d p on)
  ]

  -- For a connected client, in a valid state with room in its counters: the descriptor that
  -- `add_watch` returns is the one of the path, its watch has the path and the client, and its mask
  -- has every bit that was asked for.
  pub add_watch_covers :
      let r = add_watch s c path mask recursive in
      (w : WatchInfo) × (get r.0.path_to_wd path ≡ some r.1)
      × (get r.0.watches r.1 ≡ some w)
      × (w.path ≡ path)
      × (contains w.clients c ≡ true)
      × (bit_and w.mask mask ≡ mask)
  unfolding join_watch
  add_watch_covers = elim (existing_cases s path v) [
    | inl (none_there, absent) ↦
        rw (add_created s c path mask recursive cl connected v room absent none_there) (
          fresh s c path mask recursive cl connected v room absent,
          ground (arith, get-insert s.path_to_wd path s.next_wd path, list_beq_iff path path),
          ground (
            arith,
            get-insert s.watches s.next_wd
                (fresh s c path mask recursive cl connected v room absent) s.next_wd,
          ),
          refl,
          ground arith,
          bit_and_self mask,
        )
    | inr (wd, w, there, to, found, on) ↦
        rw (add_joined s c path mask recursive cl connected v wd w there found) (
          join_watch c mask w,
          to,
          ground (arith, found, get-modify s.watches wd (join_watch c mask) wd),
          on,
          ground (arith, join-clients c mask c w),
          and-or_right w.mask mask,
        )
  ]

-- A change of a client's entry that keeps its id and its watches.
module _ (clients : Map ℕ Client) (id : ℕ) (f : Client → Client)
    (named : (c : Client) → (f c).id ≡ c.id) (knows : (c : Client) → (f c).watches ≡ c.watches)
    (d : ℕ) where
  watches_of-modify : watches_of (get (modify clients id f) d) ≡ watches_of (get clients d)
  watches_of-modify = elim (Option-cases (get clients d)) [
    | inl absent ↦ ground (arith, absent, get-modify clients id f d)
    | inr (c, at) ↦ ground (arith, at, get-modify clients id f d, knows c)
  ]

  modify_back :
      (dl : Client)
      → get (modify clients id f) d ≡ some dl
      → (dl' : Client) × (get clients d ≡ some dl') × (dl'.id ≡ dl.id)
  modify_back dl h = elim (Option-cases (get clients d)) [
    | inl absent ↦ absurd (ground (arith, absent, h, get-modify clients id f d))
    | inr (dl', at) ↦ (dl', at, ground (arith, at, h, get-modify clients id f d, named dl'))
  ]

pub modified-IsValid :
    (s : DaemonState) (id : ℕ) (f : Client → Client)
    → ((c : Client) → (f c).id ≡ c.id)
    → ((c : Client) → (f c).watches ≡ c.watches)
    → IsValid s
    → IsValid (record s { clients = modify s.clients id f })
modified-IsValid s id f named knows v = record {
  linked =
      IsLinked-mono {subs = subs s} (λ d q m. rw (watches_of-modify s.clients id f named knows d) m)
        v.linked;
  listed = λ d q m. v.listed d q (rw (watches_of-modify s.clients id f named knows d) at m);
  identified = λ d dl h.
      let (dl', at, e) = modify_back s.clients id f named knows d dl h in
      sym e ∙ v.identified d dl' at;
  fresh_client = λ d dl h.
      let (dl', at, e) = modify_back s.clients id f named knows d dl h in v.fresh_client d dl' at;
  fresh_wd = v.fresh_wd;
}

-- Sending changes what the client has been sent, and nothing that the invariant speaks of.
pub deliver-IsValid :
    (s : DaemonState) (id : ℕ) (bytes : List ℕ)
    → IsValid s
    → IsValid (record s { clients = (deliver s.clients id bytes).0 })
unfolding deliver send_event
deliver-IsValid s id bytes v = elim (Option-cases (get s.clients id)) [
  | inl absent ↦ rw (absent, deliver) v
  | inr (c, at) ↦
      rw (at, deliver)
        (modified-IsValid s id (λ (x : Client). (send_event x bytes).0) (λ c. ground arith)
          (λ c. ground arith) v)
]

-- What the tasks of the daemon do to the shared state: each call is one step, in any order. A
-- client's own task alone adds watches for it, while it is registered.
pub data Step (s t : DaemonState) : Type 0 where
  registers : (writer : Writer) → t ≡ (register_client s writer).0 → Step s t
  unregisters : (c : ℕ) → t ≡ unregister_client s c → Step s t
  adds :
      (c : ℕ) (cl : Client) (path : FilePath) (mask : ℕ) (recursive : Bool)
      → get s.clients c ≡ some cl
      → t ≡ (add_watch s c path mask recursive).0
      → Step s t
  removes : (c wd : ℕ) → t ≡ (remove_watch s c wd).0 → Step s t
  sends :
      (c : ℕ) (bytes : List ℕ) → t ≡ record s { clients = (deliver s.clients c bytes).0 } → Step s t

pub data Reach (s : DaemonState) : DaemonState → Type 0 where
  here : Reach s s
  next : {t u : DaemonState} → Reach s t → Step t u → Reach s u

-- The number of the steps.
abbrev pub count : {s t : DaemonState} → Reach s t → ℕ
count here = 0
count (next r st) = count r + 1

Step-IsValid : {s t : DaemonState} → Step s t → HasRoom s → IsValid s → IsValid t
Step-IsValid {s} (registers writer e) room v = rw e (register_client-IsValid s writer room v)
Step-IsValid {s} (unregisters c e) room v = rw e (unregister_client-IsValid s c v)
Step-IsValid {s} (adds c cl path mask recursive connected e) room v =
    rw e (add_watch-IsValid s c path mask recursive cl connected v room)
Step-IsValid {s} (removes c wd e) room v = rw e (remove_watch-IsValid s c wd v)
Step-IsValid {s} (sends c bytes e) room v = rw e (deliver-IsValid s c bytes v)

-- A step gives out one number at most.
abbrev Grows : ℕ → DaemonState → DaemonState → Type 0
Grows n s t = (t.next_wd ≤ s.next_wd + n) × (t.next_client_id ≤ s.next_client_id + n)

add_watch-Grows :
    (s : DaemonState) (c : ℕ) (path : FilePath) (mask : ℕ) (recursive : Bool)
    → HasRoom s
    → Grows 1 s (add_watch s c path mask recursive).0
unfolding add_watch
add_watch-Grows s c path mask recursive room = elim (Option-cases (existing s path)) [
  | inl new_path ↦ rw (new_path, add_watch) (omega (arith, room.wds_left), omega arith)
  | inr (found, e) ↦ rw (e, add_watch) (omega arith, omega arith)
]

Step-Grows : {s t : DaemonState} → Step s t → HasRoom s → Grows 1 s t
unfolding register_client unregister_client remove_watch
Step-Grows {s} (registers writer e) room = rw e (omega arith, omega (arith, room.clients_left))
Step-Grows {s} (unregisters c e) room = elim (Option-cases (get s.clients c)) [
  | inl absent ↦ rw e rw (absent, unregister_client) (omega arith, omega arith)
  | inr (cl, found) ↦ rw e rw (found, unregister_client) (omega arith, omega arith)
]
Step-Grows {s} (adds c cl path mask recursive connected e) room =
    rw e (add_watch-Grows s c path mask recursive room)
Step-Grows {s} (removes c wd e) room = elim (Option-cases (get s.watches wd)) [
  | inl absent ↦ rw e rw (absent, remove_watch) (omega arith, omega arith)
  | inr (w, found) ↦ rw e rw (found, remove_watch) (omega arith, omega arith)
]
Step-Grows {s} (sends c bytes e) room = rw e (omega arith, omega arith)

room_left :
    (n : ℕ) (s t : DaemonState)
    → Grows n s t
    → s.next_wd + (n + 1) < 4294967296
    → s.next_client_id + (n + 1) < 18446744073709551616
    → HasRoom t
room_left n s t g wds ids = record {
  clients_left = omega (arith, g.1, ids);
  wds_left = omega (arith, g.0, wds);
}

Reach-from-IsValid :
    {s t : DaemonState} (r : Reach s t)
    → IsValid s
    → s.next_wd + count r < 4294967296
    → s.next_client_id + count r < 18446744073709551616
    → IsValid t × Grows (count r) s t
Reach-from-IsValid {s} here v wds ids = (v, (omega arith, omega arith))
Reach-from-IsValid {s} (next {t} {u} r st) v wds ids =
    let (valid, grown) = Reach-from-IsValid r v (omega (arith, wds)) (omega (arith, ids)) in
    let room = room_left (count r) s t grown wds ids in
    let more = Step-Grows st room in
    (Step-IsValid st room valid, (omega (arith, grown.0, more.0), omega (arith, grown.1, more.1)))

-- Every state that the daemon reaches from its start in fewer than 4294967295 steps, before the counter of
-- the descriptors can come round, satisfies the invariant. The steps are, in any order, registrations,
-- departures, calls of `add_watch` for clients that are registered, of `remove_watch`, and deliveries.
pub Reach-IsValid : {t : DaemonState} (r : Reach new t) → count r < 4294967295 → IsValid t
unfolding new
Reach-IsValid r h = (Reach-from-IsValid r new-IsValid (omega (arith, h)) (omega (arith, h))).0
