-- ===== src/Preload/Descriptors.antt =====
-- crates/preload/src/lib.rs: which descriptors the library manages, over any sequence of calls.
use fake_notify.Base.{
  ℕ, ◌≡◌, refl, ◌⊎◌, inl, inr, true, false, not, ◌&&◌, Option, none, some, [], ◌==◌, nat_eq, get,
  insert, remove, get-insert, get-remove, contains-without_self, contains-without_ne, Text, arith,
  Bool-cases, Option-cases, path_from, subst,
}
use fake_notify.Protocol.Message.{
  Bincode, Request, Response, register_client, add_watch, remove_watch, client_registered,
  watch_added, watch_removed, error, pong,
}
use fake_notify.Preload.{
  Libc, Process, Peer, Socket, is_managed_fd, register_fd, unregister_fd, set_errno, init,
  minus_one, send_request,
}
use fake_notify.Preload.Connect.{connect_to_daemon_ends}
use fake_notify.Preload.Calls.{
  init_on, call_real_inotify_init1, inotify_init_impl, inotify_add_watch, inotify_rm_watch, close,
  request_on,
}

-- A descriptor that the library manages is an open socket of the process.
abbrev pub IsSound : Process → Type 0
IsSound p = (fd : ℕ) → is_managed_fd p fd ≡ true → (s : Socket) × (get p.sockets fd ≡ some s)

is_managed_fd-register_fd :
    (p : Process) (fd d : ℕ)
    → is_managed_fd (register_fd p fd) d ≡ true
    → (fd ≡ d) ⊎ (is_managed_fd p d ≡ true)
unfolding is_managed_fd register_fd
is_managed_fd-register_fd p fd d h = ground arith

is_managed_fd-unregister_fd :
    (p : Process) (fd d : ℕ)
    → is_managed_fd (unregister_fd p fd) d ≡ (is_managed_fd p d && not (fd == d))
unfolding is_managed_fd unregister_fd
is_managed_fd-unregister_fd p fd d = elim (Option-cases p.managed_fds) [
  | inl unloaded ↦ ground (arith, unloaded)
  | inr (fds, e) ↦ elim (Bool-cases (fd == d)) [
    | inl same ↦ ground (arith, e, same, contains-without_self fd fds)
    | inr other ↦ ground (arith, e, other, contains-without_ne fd d fds)
  ]
]

register_fd_sockets : (p : Process) (fd : ℕ) → (register_fd p fd).sockets ≡ p.sockets
unfolding register_fd
register_fd_sockets p fd = ground arith

-- A new socket, registered.
registered-IsSound :
    (p q : Process) (fd : ℕ) (s : Socket)
    → IsSound p
    → q.managed_fds ≡ p.managed_fds
    → q.sockets ≡ insert p.sockets fd s
    → IsSound (register_fd q fd)
unfolding is_managed_fd
registered-IsSound p q fd s v same new d h = elim (Bool-cases (fd == d)) [
  | inl here ↦
      (s, rw (register_fd_sockets q fd, new) (ground (arith, here, get-insert p.sockets fd s d)))
  | inr other ↦
      let (x, at) = v d (ground (arith, same, other, is_managed_fd-register_fd q fd d h)) in
      (
        x,
        rw (register_fd_sockets q fd, new) (ground (arith, other, at, get-insert p.sockets fd s d)),
      )
]

-- What soundness reads of a process.
Alike : Process → Process → Type 0
Alike p q = (q.managed_fds ≡ p.managed_fds) × (q.sockets ≡ p.sockets)

Alike-IsSound : (p q : Process) → Alike p q → IsSound p → IsSound q
unfolding Alike is_managed_fd
Alike-IsSound p q (a, b) v d h = let (s, at) = v d (rw (← a) h) in (s, rw b at)

module _ (libc : Libc) (b : Bincode) where
  -- What a program does with the library, one call at a time.
  pub data Call (p q : Process) : Type 0 where
    inits :
        (connects : ℕ → Option (ℕ × Peer)) (flags result : ℕ)
        → inotify_init_impl libc b p connects flags ≡ some (q, result)
        → Call p q
    adds :
        (fd : ℕ) (pathname : Text) (mask : ℕ)
        → q ≡ (inotify_add_watch libc b p fd pathname mask).0
        → Call p q
    removes : (fd wd : ℕ) → q ≡ (inotify_rm_watch libc b p fd wd).0 → Call p q
    closes : (fd : ℕ) → q ≡ (close libc p fd).0 → Call p q

  pub data Run (p : Process) : Process → Type 0 where
    here : Run p p
    next : {q r : Process} → Run p q → Call q r → Run p r

  request_on-IsSound :
      (p : Process) (fd : ℕ) (request : Request) → IsSound p → IsSound (request_on b p fd request).0
  unfolding request_on is_managed_fd
  request_on-IsSound p fd request v d h = elim (Option-cases (get p.sockets fd)) [
    | inl shut ↦ let (s, at) = v d (ground (arith, shut, h)) in (s, ground (arith, shut, at))
    | inr (k, open_there) ↦
        let (s, at) = v d (ground (arith, open_there, h)) in
        let k' = record k { stream = (send_request b k.peer k.stream request).0 } in
        elim (Bool-cases (fd == d)) [
          | inl same ↦ (k', ground (arith, open_there, same, get-insert p.sockets fd k' d))
          | inr other ↦ (s, ground (arith, open_there, other, at, get-insert p.sockets fd k' d))
        ]
  ]

  inotify_add_watch_effect :
      (p : Process) (fd : ℕ) (pathname : Text) (mask : ℕ)
      → let q = (inotify_add_watch libc b p fd pathname mask).0 in
        Alike p q ⊎ Alike (request_on b p fd (add_watch (path_from pathname) mask)).0 q
  unfolding inotify_add_watch set_errno Alike
  inotify_add_watch_effect p fd pathname mask = ground arith

  inotify_rm_watch_effect :
      (p : Process) (fd wd : ℕ)
      → let q = (inotify_rm_watch libc b p fd wd).0 in
        Alike p q ⊎ Alike (request_on b p fd (remove_watch wd)).0 q
  unfolding inotify_rm_watch set_errno Alike
  inotify_rm_watch_effect p fd wd = ground arith

  -- `close` takes the descriptor, and no other, from the managed ones and from the open sockets.
  close_effect :
      (p : Process) (fd d : ℕ)
      → (is_managed_fd (close libc p fd).0 d ≡ (is_managed_fd p d && not (fd == d)))
        × ((close libc p fd).0.sockets ≡ remove p.sockets fd)
  unfolding close is_managed_fd unregister_fd
  close_effect p fd d = elim (Option-cases libc.close) [
    | inl direct ↦ elim (Bool-cases (is_managed_fd p fd)) [
      | inl ours ↦ (
        ground (arith, direct, ours, is_managed_fd-unregister_fd p fd d),
        ground (arith, direct, ours),
      )
      | inr theirs ↦ (ground (arith, direct, theirs), ground (arith, direct, theirs))
    ]
    | inr (f, real) ↦ elim (Bool-cases (is_managed_fd p fd)) [
      | inl ours ↦ (
        ground (arith, real, ours, is_managed_fd-unregister_fd p fd d),
        ground (arith, real, ours),
      )
      | inr theirs ↦ (ground (arith, real, theirs), ground (arith, real, theirs))
    ]
  ]

  close-IsSound : (p : Process) (fd : ℕ) → IsSound p → IsSound (close libc p fd).0
  close-IsSound p fd v d h =
      let (managed, sockets) = close_effect p fd d in
      let (s, at) = v d (ground (arith, h, managed)) in
      (s, rw sockets (ground (arith, h, managed, at, get-remove p.sockets fd d)))

  init_on-IsSound :
      (p : Process) (peer : Peer) (fd flags : ℕ)
      → IsSound p
      → IsSound (init_on libc b p peer fd flags).0
  unfolding init_on set_errno Alike
  init_on-IsSound p peer fd flags v =
      go (send_request b peer (record { written = []; taken = 0 }) register_client).1 refl
    where
      go :
          (r : Option Response)
          → (send_request b peer (record { written = []; taken = 0 }) register_client).1 ≡ r
          → IsSound (init_on libc b p peer fd flags).0
      go (some (client_registered id)) h = rw (h, init_on) (registered-IsSound p _ fd _ v refl refl)
      go none h = rw (h, init_on) (Alike-IsSound p _ (refl, refl) v)
      go (some (watch_added wd)) h = rw (h, init_on) (Alike-IsSound p _ (refl, refl) v)
      go (some watch_removed) h = rw (h, init_on) (Alike-IsSound p _ (refl, refl) v)
      go (some (error message)) h = rw (h, init_on) (Alike-IsSound p _ (refl, refl) v)
      go (some pong) h = rw (h, init_on) (Alike-IsSound p _ (refl, refl) v)

  call_real_inotify_init1_effect :
      (p : Process) (flags : ℕ) → Alike p (call_real_inotify_init1 libc p flags).0
  unfolding call_real_inotify_init1 set_errno Alike
  call_real_inotify_init1_effect p flags = ground arith

  inotify_init_impl-IsSound :
      (p q : Process) (connects : ℕ → Option (ℕ × Peer)) (flags result : ℕ)
      → inotify_init_impl libc b p connects flags ≡ some (q, result)
      → IsSound p
      → IsSound q
  unfolding inotify_init_impl
  inotify_init_impl-IsSound p q connects flags result h v =
      let real = Alike-IsSound p _ (call_real_inotify_init1_effect p flags) v in
      elim (Bool-cases p.initialized) [
        | inr early ↦
            let same : call_real_inotify_init1 libc p flags ≡ (q, result) =
              ground (arith, early, h) in
            subst (λ r. IsSound r.0) same real
        | inl up ↦
            let (c, ends, slept) = connect_to_daemon_ends connects in
            elim (Option-cases c.0) [
              | inl refused ↦
                  let same : call_real_inotify_init1 libc p flags ≡ (q, result) =
                    ground (arith, up, ends, refused, h) in
                  subst (λ r. IsSound r.0) same real
              | inr ((fd, peer), connected) ↦
                  let same : init_on libc b p peer fd flags ≡ (q, result) =
                    ground (arith, up, ends, connected, h) in
                  subst (λ r. IsSound r.0) same (init_on-IsSound p peer fd flags v)
            ]
      ]

  Call-IsSound : {p q : Process} → Call p q → IsSound p → IsSound q
  Call-IsSound {p} {q} (inits connects flags result h) v =
      inotify_init_impl-IsSound p q connects flags result h v
  Call-IsSound {p} (adds fd pathname mask h) v =
      rw h (elim (inotify_add_watch_effect p fd pathname mask) [
        | inl same ↦ Alike-IsSound p _ same v
        | inr asked ↦ Alike-IsSound _ _ asked (request_on-IsSound p fd _ v)
      ])
  Call-IsSound {p} (removes fd wd h) v = rw h (elim (inotify_rm_watch_effect p fd wd) [
    | inl same ↦ Alike-IsSound p _ same v
    | inr asked ↦ Alike-IsSound _ _ asked (request_on-IsSound p fd _ v)
  ])
  Call-IsSound {p} (closes fd h) v = rw h (close-IsSound p fd v)

  -- However a program calls the intercepted functions after the library is loaded, every descriptor
  -- that the library manages is an open socket to the daemon.
  pub Run-IsSound : (p : Process) {q : Process} → Run (init p) q → IsSound q
  unfolding init is_managed_fd
  Run-IsSound p here = λ d h. absurd (ground (arith, h))
  Run-IsSound p (next r c) = Call-IsSound c (Run-IsSound p r)

  -- On a descriptor that the library does not manage, each function answers what libc's function
  -- answers, or -1 with ENOSYS where libc has none, and leaves the managed descriptors alone.
  pub unmanaged_passes :
      (p : Process) (fd d : ℕ) (pathname : Text) (mask wd : ℕ)
      → is_managed_fd p fd ≡ false
      → (inotify_add_watch libc b p fd pathname mask ≡ elim libc.inotify_add_watch [
        | some f ↦ (p, f fd pathname mask)
        | none ↦ (set_errno p libc.enosys, minus_one)
      ])
        × (inotify_rm_watch libc b p fd wd ≡ elim libc.inotify_rm_watch [
          | some f ↦ (p, f fd wd)
          | none ↦ (set_errno p libc.enosys, minus_one)
        ])
        × (is_managed_fd (close libc p fd).0 d ≡ is_managed_fd p d)
  unfolding inotify_add_watch inotify_rm_watch
  unmanaged_passes p fd d pathname mask wd h = (
    rw (h, inotify_add_watch) refl,
    rw (h, inotify_rm_watch) refl,
    ground (arith, h, (close_effect p fd d).0),
  )
