-- ===== src/Daemon/State/Invariant/Creating.antt =====
-- crates/daemon/src/state.rs: `add_watch` on a path that is not watched yet.
use fake_notify.Base.{
  ℕ, ◌+◌, ◌%◌, ◌≡◌, refl, sym, ◌∙◌, ◌≢◌, ◌⊎◌, inl, inr, Bool, true, false, ◌||◌, ◌&&◌, none, some,
  [], ◌∷◌, contains, get, insert, modify, get-insert, FilePath, ◌==◌, list_eq, component_eq, nat_eq,
  arith, Bool-cases, Option-cases, contains-append, list_beq_iff, u32_mod,
}
use fake_notify.Daemon.State.{
  WatchInfo, Client, DaemonState, subscribed_in, subscribes, add_watch, push_watch, existing, new,
}
use fake_notify.Daemon.State.Invariant.{IsValid, subs}
use fake_notify.Daemon.State.Invariant.Joining.{HasRoom, subs_push, push_back}

module _ (s : DaemonState) (c : ℕ) (path : FilePath) (mask : ℕ) (recursive : Bool) (cl : Client)
    (connected : get s.clients c ≡ some cl) (v : IsValid s) (room : HasRoom s)
    (absent : get s.path_to_wd path ≡ none) where
  abbrev pub fresh : WatchInfo
  fresh = record {
    wd = s.next_wd;
    path = path;
    mask = mask;
    recursive = recursive;
    clients = c ∷ [];
  }

  abbrev pub created : DaemonState
  created = record s {
    next_wd = (s.next_wd + 1) % u32_mod;
    watches = insert s.watches s.next_wd fresh;
    path_to_wd = insert s.path_to_wd path s.next_wd;
    clients = modify s.clients c (push_watch s.next_wd);
  }

  pub add_created :
      existing s path ≡ none → add_watch s c path mask recursive ≡ (created, s.next_wd)
  unfolding add_watch
  add_created h = ground (arith, h)

  at_watch :
      (q : ℕ) (u : WatchInfo)
      → get (insert s.watches s.next_wd fresh) q ≡ some u
      → ((q ≡ s.next_wd) × (u ≡ fresh)) ⊎ ((q ≢ s.next_wd) × (get s.watches q ≡ some u))
  at_watch q u h =
      let law = get-insert s.watches s.next_wd fresh q in
      elim (Bool-cases (s.next_wd == q)) [
        | inl hit ↦ inl (ground (arith, hit), ground (arith, law, hit))
        | inr miss ↦ inr (ground (arith, miss), ground (arith, law, miss))
      ]

  -- The new path is on no watch, and the new descriptor is unused.
  old_path : (q : ℕ) (u : WatchInfo) → get s.watches q ≡ some u → (path == u.path) ≡ false
  old_path q u h = ground (arith, absent, list_beq_iff path u.path, v.linked.path_known q u h)

  old_wd : (q : ℕ) (u : WatchInfo) → get s.watches q ≡ some u → (s.next_wd == q) ≡ false
  old_wd q u h = ground (arith, v.fresh_wd q u h)

  kept_there :
      (q d : ℕ) (u : WatchInfo)
      → get s.watches q ≡ some u
      → contains u.clients d ≡ true
      → (u' : WatchInfo) × (get (insert s.watches s.next_wd fresh) q ≡ some u')
        × (contains u'.clients d ≡ true)
  kept_there q d u at m =
      (u, ground (arith, get-insert s.watches s.next_wd fresh q, old_wd q u at, at), m)

  pub created-IsValid : IsValid created
  created-IsValid = record {
    linked = record {
      keyed = λ q u h. elim (at_watch q u h) [
        | inl (hit, e) ↦ ground (arith, hit, e)
        | inr (miss, old) ↦ v.linked.keyed q u old
      ];
      path_known = λ q u h. elim (at_watch q u h) [
        | inl (hit, e) ↦
            ground
              (arith, hit, e, get-insert s.path_to_wd path s.next_wd path, list_beq_iff path path)
        | inr (miss, old) ↦ ground (
          arith,
          get-insert s.path_to_wd path s.next_wd u.path,
          old_path q u old,
          v.linked.path_known q u old,
        )
      ];
      wd_known = λ p q h. elim (Bool-cases (path == p)) [
        | inl same ↦ (
          fresh,
          ground (
            arith,
            get-insert s.path_to_wd path s.next_wd p,
            same,
            h,
            get-insert s.watches s.next_wd fresh q,
          ),
          (list_beq_iff path p).0 same,
        )
        | inr other ↦
            let (u, at, e) =
              v.linked.wd_known p q
                (ground (arith, get-insert s.path_to_wd path s.next_wd p, other, h)) in
            (u, ground (arith, get-insert s.watches s.next_wd fresh q, old_wd q u at, at), e)
      ];
      watched = λ q u h. elim (at_watch q u h) [
        | inl (hit, e) ↦ ground (arith, e)
        | inr (miss, old) ↦ v.linked.watched q u old
      ];
      distinct = λ q u h. elim (at_watch q u h) [
        | inl (hit, e) ↦ rw e (refl, tt)
        | inr (miss, old) ↦ v.linked.distinct q u old
      ];
      known = λ q d u h m.
          let law = subs_push s c s.next_wd cl d connected in
          let both = contains-append (subs s d) (s.next_wd ∷ []) q in
          elim (at_watch q u h) [
            | inl (hit, e) ↦ ground (arith, law, both, hit, e, m)
            | inr (miss, old) ↦ ground (arith, law, both, v.linked.known q d u old m)
          ];
    };
    listed = λ d q m.
        let law = subs_push s c s.next_wd cl d connected in
        let both = contains-append (subs s d) (s.next_wd ∷ []) q in
        elim (Bool-cases (contains (subs s d) q)) [
          | inl old ↦ let (u, at, m') = v.listed d q old in kept_there q d u at m'
          | inr new ↦ (
            fresh,
            ground (arith, law, both, new, m, get-insert s.watches s.next_wd fresh q),
            ground (arith, law, both, new, m),
          )
        ];
    identified = λ d dl h.
        let (dl', at, e) = push_back s c s.next_wd d dl h in sym e ∙ v.identified d dl' at;
    fresh_client =
        λ d dl h. let (dl', at, e) = push_back s c s.next_wd d dl h in v.fresh_client d dl' at;
    fresh_wd = λ q u h. elim (at_watch q u h) [
      | inl (hit, e) ↦ omega (arith, hit, room.wds_left)
      | inr (miss, old) ↦ omega (arith, v.fresh_wd q u old, room.wds_left)
    ];
  }

  pub created-subscribes :
      (d : ℕ) (p : FilePath)
      → subscribes created d p ≡ ((c == d) && (path == p) || subscribes s d p)
  unfolding subscribed_in
  created-subscribes d p = elim (Bool-cases (path == p)) [
    | inl same ↦ ground (
      arith,
      same,
      absent,
      list_beq_iff path p,
      get-insert s.path_to_wd path s.next_wd p,
      get-insert s.watches s.next_wd fresh s.next_wd,
    )
    | inr other ↦ elim (Option-cases (get s.path_to_wd p)) [
      | inl none_there ↦ ground (arith, other, none_there, get-insert s.path_to_wd path s.next_wd p)
      | inr (q, to) ↦
          let (u, at, e) = v.linked.wd_known p q to in
          ground (
            arith,
            other,
            to,
            at,
            get-insert s.path_to_wd path s.next_wd p,
            get-insert s.watches s.next_wd fresh q,
            old_wd q u at,
          )
    ]
  ]
