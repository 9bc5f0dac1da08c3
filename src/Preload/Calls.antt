-- ===== src/Preload/Calls.antt =====
-- crates/preload/src/lib.rs: the intercepted functions. A function returns the process after it and its
-- result.
use fake_notify.Base.{
  ℕ, bit_and, Bool, not, Option, none, some, [], ◌∷◌, nat_beq, if◌then◌else◌, Text, path_from,
  is_utf8, nat_eq, get, insert, remove, map_some, without,
}
use fake_notify.Protocol.Message.{
  Bincode, Request, register_client, add_watch, remove_watch, Response, client_registered,
  watch_added, watch_removed, error,
}
use fake_notify.Preload.{
  Libc, Process, Peer, minus_one, is_managed_fd, register_fd, unregister_fd, set_errno,
  send_request, connect_to_daemon,
}

unfoldable pub call_real_inotify_init1 : Libc → Process → ℕ → Process × ℕ
call_real_inotify_init1 libc p flags = elim libc.inotify_init1 [
  | some f ↦ (p, f flags)
  | none ↦ elim libc.inotify_init [
    | some result ↦ (p, result)
    | none ↦ (set_errno p libc.enosys, minus_one)
  ]
]

unfoldable pub is_set : ℕ → ℕ → Bool
is_set flags flag = not (nat_beq (bit_and flags flag) 0)

-- What follows the connection to the daemon on the descriptor `fd`; a failure closes it.
unfoldable pub init_on : Libc → Bincode → Process → Peer → ℕ → ℕ → Process × ℕ
unfolding is_set
init_on libc b p peer fd flags =
    let (s, response) = send_request b peer (record { written = []; taken = 0 }) register_client in
    elim response [
      | some (client_registered _) ↦ (
        register_fd
            (record p {
              sockets = insert p.sockets fd (record { peer = peer; stream = s });
              nonblock = if is_set flags libc.o_nonblock then fd ∷ p.nonblock else p.nonblock;
              cloexec = if is_set flags libc.o_cloexec then fd ∷ p.cloexec else p.cloexec;
            })
            fd,
        fd,
      )
      | _ ↦ (set_errno p libc.eio, minus_one)
    ]

-- `connects` has the outcome of each attempt to connect: a descriptor with the daemon behind it. `none`
-- means that the fuel of the attempts ran out.
unfoldable pub inotify_init_impl :
    Libc → Bincode → Process → (ℕ → Option (ℕ × Peer)) → ℕ → Option (Process × ℕ)
inotify_init_impl libc b p connects flags =
    if p.initialized
    then map_some
        (λ c. elim c.0 [
          | some (fd, peer) ↦ init_on libc b p peer fd flags
          | none ↦ call_real_inotify_init1 libc p flags
        ])
        (connect_to_daemon connects)
    else some (call_real_inotify_init1 libc p flags)

unfoldable pub inotify_init :
    Libc → Bincode → Process → (ℕ → Option (ℕ × Peer)) → Option (Process × ℕ)
inotify_init libc b p connects = inotify_init_impl libc b p connects 0

unfoldable pub inotify_init1 :
    Libc → Bincode → Process → (ℕ → Option (ℕ × Peer)) → ℕ → Option (Process × ℕ)
inotify_init1 libc b p connects flags = inotify_init_impl libc b p connects flags

-- A request on the socket behind a descriptor. A descriptor that is no open socket takes no bytes.
unfoldable pub request_on : Bincode → Process → ℕ → Request → Process × Option Response
request_on b p fd request = elim (get p.sockets fd) [
  | none ↦ (p, none)
  | some socket ↦
      let (s, response) = send_request b socket.peer socket.stream request in
      (record p { sockets = insert p.sockets fd (record socket { stream = s }) }, response)
]

unfoldable pub inotify_add_watch : Libc → Bincode → Process → ℕ → Text → ℕ → Process × ℕ
unfolding request_on
inotify_add_watch libc b p fd pathname mask =
    if is_managed_fd p fd
    then (if is_utf8 pathname
        then (let (p', result) = request_on b p fd (add_watch (path_from pathname) mask) in
            elim result [
              | some (watch_added wd) ↦ (p', wd)
              | some (error _) ↦ (set_errno p' libc.einval, minus_one)
              | _ ↦ (set_errno p' libc.eio, minus_one)
            ])
        else (set_errno p libc.einval, minus_one))
    else elim libc.inotify_add_watch [
      | some f ↦ (p, f fd pathname mask)
      | none ↦ (set_errno p libc.enosys, minus_one)
    ]

unfoldable pub inotify_rm_watch : Libc → Bincode → Process → ℕ → ℕ → Process × ℕ
unfolding request_on
inotify_rm_watch libc b p fd wd =
    if is_managed_fd p fd
    then (let (p', result) = request_on b p fd (remove_watch wd) in
        elim result [
          | some watch_removed ↦ (p', 0)
          | some (error _) ↦ (set_errno p' libc.einval, minus_one)
          | _ ↦ (set_errno p' libc.eio, minus_one)
        ])
    else elim libc.inotify_rm_watch [
      | some f ↦ (p, f fd wd)
      | none ↦ (set_errno p libc.enosys, minus_one)
    ]

-- libc's `close` ends the socket behind the descriptor, if there is one, with its flags.
unfoldable pub close : Libc → Process → ℕ → Process × ℕ
close libc p fd =
    let unregistered = if is_managed_fd p fd then unregister_fd p fd else p in
    let closed = record unregistered {
      sockets = remove p.sockets fd;
      nonblock = without fd p.nonblock;
      cloexec = without fd p.cloexec;
    } in
    elim libc.close [ some f ↦ (closed, f fd) | none ↦ (closed, libc.syscall_close fd) ]
