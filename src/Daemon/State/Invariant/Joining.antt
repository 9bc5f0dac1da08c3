-- ===== src/Daemon/State/Invariant/Joining.antt =====
-- crates/daemon/src/state.rs: the start, `register_client` and the room in the counters.
use fake_notify.Base.{
  ℕ, ◌+◌, ◌<◌, ◌≡◌, refl, ap, ◌⊎◌, inl, inr, false, none, some, List, [], ◌∷◌, ◌++◌, contains,
  if◌then◌else◌, get, modify, get-insert, get-modify, FilePath, ◌==◌, list_eq, component_eq, nat_eq,
  arith, Bool-cases, Option-cases, contains-append,
}
use fake_notify.Daemon.State.{
  WatchInfo, Client, Writer, DaemonState, register_client, new_client, push_watch, existing, new,
}
use fake_notify.Daemon.State.Links.{IsLinked-mono, IsDistinct}
use fake_notify.Daemon.State.Invariant.{IsValid, subs, watches_of}

-- The counters of ids have not come round: past these bounds an id would be given out twice.
pub record HasRoom (s : DaemonState) : Type 0 where
  pub clients_left : s.next_client_id + 1 < 18446744073709551616
  pub wds_left : s.next_wd + 1 < 4294967296

pub new-IsValid : IsValid new
unfolding new get
new-IsValid = record {
  linked = record {
    keyed = λ q w h. cc;
    path_known = λ q w h. cc;
    wd_known = λ p q h. cc;
    watched = λ q w h. cc;
    distinct = λ q w h. cc;
    known = λ q c w h m. cc;
  };
  listed = λ c q m. cc;
  identified = λ c cl h. cc;
  fresh_client = λ c cl h. cc;
  fresh_wd = λ q w h. cc;
}

module _ (s : DaemonState) (writer : Writer) (room : HasRoom s) (v : IsValid s) where
  subs_register :
      (d : ℕ)
      → subs (register_client s writer).0 d ≡ (if s.next_client_id == d then [] else subs s d)
  unfolding register_client
  subs_register d =
      ground (arith, get-insert s.clients s.next_client_id (new_client s.next_client_id writer) d)

  -- Nobody has the next id yet.
  pub unused : subs s s.next_client_id ≡ []
  unused = elim (Option-cases (get s.clients s.next_client_id)) [
    | inl absent ↦ ground (arith, absent)
    | inr (cl, at) ↦ absurd (omega (arith, v.fresh_client s.next_client_id cl at))
  ]

  registered_back :
      (d : ℕ) (dl : Client)
      → get (register_client s writer).0.clients d ≡ some dl
      → (dl.id ≡ d) × (d < s.next_client_id + 1)
  unfolding register_client new_client
  registered_back d dl h =
      let law = get-insert s.clients s.next_client_id (new_client s.next_client_id writer) d in
      elim (Bool-cases (s.next_client_id == d)) [
        | inl same ↦ (ground (arith, law, same, h), ground (arith, same))
        | inr other ↦
            let old : get s.clients d ≡ some dl = ground (arith, law, other, h) in
            (v.identified d dl old, omega (arith, v.fresh_client d dl old))
      ]

  -- A new client has an id of its own and no watch; the watches stay.
  pub register_client-IsValid : IsValid (register_client s writer).0
  unfolding register_client
  register_client-IsValid = record {
    linked =
        IsLinked-mono {subs = subs s}
          (λ d q m. ground (arith, subs_register d, unused, m, ap (λ xs. contains xs q) unused))
          v.linked;
    listed = λ d q m. v.listed d q (ground (arith, subs_register d, m));
    identified = λ d dl h. (registered_back d dl h).0;
    fresh_client = λ d dl h. omega (arith, (registered_back d dl h).1, room.clients_left);
    fresh_wd = λ q w h. v.fresh_wd q w h;
  }

-- What `add_watch` finds under the path.
pub existing_cases :
    (s : DaemonState) (path : FilePath)
    → IsValid s
    → ((existing s path ≡ none) × (get s.path_to_wd path ≡ none))
      ⊎ ((wd : ℕ) × (w : WatchInfo) × (existing s path ≡ some (wd, w))
          × (get s.path_to_wd path ≡ some wd)
          × (get s.watches wd ≡ some w)
          × (w.path ≡ path))
unfolding existing
existing_cases s path v = elim (Option-cases (get s.path_to_wd path)) [
  | inl absent ↦ inl (ground (arith, absent), absent)
  | inr (wd, to) ↦
      let (w, at, e) = v.linked.wd_known path wd to in
      inr (wd, w, ground (arith, to, at), to, at, e)
]

-- The client's list after a push.
pub subs_push :
    (s : DaemonState) (c wd : ℕ) (cl : Client) (d : ℕ)
    → get s.clients c ≡ some cl
    → watches_of (get (modify s.clients c (push_watch wd)) d)
      ≡ (if c == d then subs s d ++ (wd ∷ []) else subs s d)
unfolding push_watch
subs_push s c wd cl d h = ground (arith, h, get-modify s.clients c (push_watch wd) d)

pub push_back :
    (s : DaemonState) (c wd d : ℕ) (dl : Client)
    → get (modify s.clients c (push_watch wd)) d ≡ some dl
    → (dl' : Client) × (get s.clients d ≡ some dl') × (dl'.id ≡ dl.id)
unfolding push_watch
push_back s c wd d dl h = elim (Option-cases (get s.clients d)) [
  | inl absent ↦ absurd (ground (arith, absent, h, get-modify s.clients c (push_watch wd) d))
  | inr (dl', at) ↦ (dl', at, ground (arith, at, h, get-modify s.clients c (push_watch wd) d))
]

pub push-IsDistinct :
    (c : ℕ) (cs : List ℕ) → contains cs c ≡ false → IsDistinct cs → IsDistinct (cs ++ (c ∷ []))
push-IsDistinct c [] h d = (refl, tt)
push-IsDistinct c (x ∷ xs) h d =
    ground (arith, push-IsDistinct c xs, contains-append xs (c ∷ []) x, d)
