-- ===== src/Preload/Stale.antt =====
-- crates/preload/src/lib.rs against crates/daemon/src/server.rs: whose answer a request reads.
use fake_notify.Base.{
  ℕ, ◌+◌, ◌≤◌, ◌≡◌, refl, ap, ◌∙◌, true, some, List, [], ◌∷◌, ◌++◌, length, Text, path_from,
  is_utf8, ok, arith, Bool-cases, Option-cases, inl, inr, nat_eq, get, get-insert, contains,
  drop-append,
}
use fake_notify.Protocol.Message.{
  Bincode, IsFaithful, register_client, add_watch, client_registered, request_to_bytes,
  response_to_bytes, frame, max_size,
}
use fake_notify.Preload.Calls.{init_on, inotify_add_watch, request_on}
use fake_notify.Preload.Responses.{send_request-frame, length-frame}
use fake_notify.Preload.{
  Socket, Libc, Process, Peer, minus_one, is_managed_fd, register_fd, send_request, set_errno,
}

contains_head : (fd : ℕ) (fds : List ℕ) → contains (fd ∷ fds) fd ≡ true
contains_head fd fds = ground arith

get-register_fd :
    (p : Process) (fd : ℕ) (st : Socket)
    → get p.sockets fd ≡ some st
    → get (register_fd p fd).sockets fd ≡ some st
unfolding register_fd
get-register_fd p fd st at = elim (Option-cases p.managed_fds) [
  | inl no_table ↦ rw no_table at
  | inr (fds, h) ↦ rw h at
]

is_managed_fd-register_fd :
    (p : Process) (fd : ℕ) (fds : List ℕ)
    → p.managed_fds ≡ some fds
    → is_managed_fd (register_fd p fd) fd ≡ true
unfolding register_fd is_managed_fd
is_managed_fd-register_fd p fd fds h = elim (Bool-cases (contains fds fd)) [
  | inl there ↦ rw (h, there) there
  | inr new ↦ rw (h, new) (contains_head fd fds)
]

module _ (libc : Libc) (b : Bincode) (p : Process) (peer : Peer) (fd flags id mask : ℕ)
    (pathname : Text) (greeting hello asked behind more : List ℕ) (f : IsFaithful b)
    (up : peer.accepts ≡ true) (loaded : (fds : List ℕ) × (p.managed_fds ≡ some fds))
    (text : is_utf8 pathname ≡ true)
    (greets : response_to_bytes b (client_registered id) ≡ ok greeting)
    (short : length greeting ≤ max_size) (registers : request_to_bytes b register_client ≡ ok hello)
    (adds : request_to_bytes b (add_watch (path_from pathname) mask) ≡ ok asked)
    (first : peer.output (frame hello) ≡ frame greeting ++ behind)
    (second : peer.output (frame hello ++ frame asked)
      ≡ frame greeting ++ (frame greeting ++ more)) where
  -- The socket after the greeting is read.
  abbrev greeted : Socket
  greeted = record {
    peer = peer;
    stream = record { written = frame hello; taken = 4 + length greeting };
  }

  init_on-greeting :
      ((init_on libc b p peer fd flags).1 ≡ fd)
      × (get (init_on libc b p peer fd flags).0.sockets fd ≡ some greeted)
      × (is_managed_fd (init_on libc b p peer fd flags).0 fd ≡ true)
  unfolding init_on
  init_on-greeting =
      let zero_add : 0 + (4 + length greeting) ≡ 4 + length greeting = omega arith in
      let e : send_request b peer (record { written = []; taken = 0 }) register_client
          ≡ (greeted.stream, some (client_registered id)) =
        send_request-frame b peer (record { written = []; taken = 0 }) register_client
          (client_registered id) hello greeting behind f up registers greets short first
        ∙ ap (λ n. (record { written = frame hello; taken = n }, some (client_registered id)))
            zero_add in
      rw (ap (λ r. r.1) e, ap (λ r. r.0) e, init_on)
        (
          refl,
          get-register_fd _ fd greeted (ground (arith, get-insert p.sockets fd greeted fd)),
          is_managed_fd-register_fd _ fd loaded.0 loaded.1,
        )

  -- Let the daemon's output begin with the greeting and a second frame of the same response, as
  -- `answer` in the daemon makes it. Then `inotify_init` succeeds on the first frame, and the first
  -- `inotify_add_watch` on the descriptor reads the second: it returns -1 with EIO, whatever the
  -- daemon wrote behind them. The library is loaded, the codec is faithful and encodes the
  -- messages, and the daemon takes what is written.
  pub inotify_add_watch_stale :
      let r = init_on libc b p peer fd flags in
      (r.1 ≡ fd)
      × ((inotify_add_watch libc b r.0 fd pathname mask).1 ≡ minus_one)
      × ((inotify_add_watch libc b r.0 fd pathname mask).0.errno ≡ libc.eio)
  unfolding inotify_add_watch set_errno request_on
  inotify_add_watch_stale =
      let (result, socket, managed) = init_on-greeting in
      let stale =
        send_request-frame b peer greeted.stream (add_watch (path_from pathname) mask)
          (client_registered id) asked greeting more f up adds greets short
          (rw second
            (rw (length-frame greeting) (drop-append (frame greeting) (frame greeting ++ more)))) in
      (
        result,
        rw (managed, text, socket, stale, inotify_add_watch, request_on) refl,
        rw (managed, text, socket, stale, inotify_add_watch, request_on, set_errno) refl,
      )
