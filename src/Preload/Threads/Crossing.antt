-- ===== src/Preload/Threads/Crossing.antt =====
-- crates/preload/src/lib.rs: two threads that add watches on one descriptor.
use fake_notify.Base.{
  ℕ, ◌+◌, ◌≤◌, ◌≡◌, refl, sym, ◌∙◌, ap, Bool, true, false, Option, none, some, List, [], ◌++◌,
  length, drop, Result, ok, err, get, get-insert, insert, insert_again, nat_eq, arith, Bool-cases,
  Option-cases, inl, inr, drop-append, append-nil, Text, path_from, is_utf8,
}
use fake_notify.Protocol.Message.{
  Bincode, IsFaithful, ProtocolError, Request, Response, add_watch, watch_added, request_to_bytes,
  response_to_bytes, frame, max_size,
}
use fake_notify.Preload.{Libc, Process, Socket, Stream, is_managed_fd, send_request, read_response}
use fake_notify.Preload.Calls.{request_on, inotify_add_watch}
use fake_notify.Preload.Responses.{read_response-frame, drop_add, length-frame}
use fake_notify.Preload.Threads.{write_request, start_request, await_response, finish_add}

module _ (b : Bincode) where
  -- What a thread reads of a socket that has just been put in its place.
  await_response-insert :
      (p : Process) (fd : ℕ) (socket : Socket)
      → await_response b (record p { sockets = insert p.sockets fd socket }) fd true ≡ (
        record p {
          sockets =
              insert p.sockets fd
                (record socket { stream = (read_response b socket.peer socket.stream).0 });
        },
        (read_response b socket.peer socket.stream).1,
      )
  unfolding await_response
  await_response-insert p fd socket =
      let at : get (insert p.sockets fd socket) fd ≡ some socket =
        ground (arith, get-insert p.sockets fd socket fd) in
      let after : Socket = record socket {
        stream = (read_response b socket.peer socket.stream).0;
      } in
      rw (at, await_response)
        (ap (λ m. (record p { sockets = m }, (read_response b socket.peer socket.stream).1))
          (insert_again p.sockets fd socket after))

  await_response-unsent : (p : Process) (fd : ℕ) → await_response b p fd false ≡ (p, none)
  unfolding await_response
  await_response-unsent p fd = elim (Option-cases (get p.sockets fd)) [
    | inl closed ↦ rw (closed, await_response) refl
    | inr (socket, at) ↦ rw (at, await_response) refl
  ]

  -- The two halves in one thread are the whole exchange.
  pub request_on-halves :
      (p : Process) (fd : ℕ) (q : Request)
      → request_on b p fd q
        ≡ await_response b (start_request b p fd q).0 fd (start_request b p fd q).1
  unfolding request_on start_request send_request write_request
  request_on-halves p fd q = elim (Option-cases (get p.sockets fd)) [
    | inl closed ↦
        rw (closed, start_request) rw (closed, request_on) (sym (await_response-unsent p fd))
    | inr (socket, at) ↦ go socket at (request_to_bytes b q) refl
  ]
    where
      go :
          (socket : Socket)
          → get p.sockets fd ≡ some socket
          → (x : Result (List ℕ) ProtocolError) → request_to_bytes b q ≡ x
          → request_on b p fd q
            ≡ await_response b (start_request b p fd q).0 fd (start_request b p fd q).1
      go socket at (err e) h =
          rw (at, start_request) rw (at, request_on) rw (h, write_request) rw (h, send_request)
            (sym (await_response-unsent (record p { sockets = insert p.sockets fd socket }) fd))
      go socket at (ok payload) h = elim (Bool-cases socket.peer.accepts) [
        | inr full ↦
            let same : Process = record p { sockets = insert p.sockets fd socket } in
            let whole : request_on b p fd q ≡ (same, none) = ground (arith, at, h, full) in
            let first : start_request b p fd q ≡ (same, false) = ground (arith, at, h, full) in
            whole
            ∙ sym (
                ap (λ (x : Process × Bool). await_response b x.0 fd x.1) first
                ∙ await_response-unsent same fd)
        | inl takes ↦
            let asked : Stream = record socket.stream {
              written = socket.stream.written ++ frame payload;
            } in
            let r = read_response b socket.peer asked in
            let whole : request_on b p fd q ≡ (
              record p { sockets = insert p.sockets fd (record socket { stream = r.0 }) },
              r.1,
            ) =
              ground (arith, at, h, takes) in
            let first : start_request b p fd q ≡ (
              record p { sockets = insert p.sockets fd (record socket { stream = asked }) },
              true,
            ) =
              ground (arith, at, h, takes) in
            whole
            ∙ sym (
                ap (λ (x : Process × Bool). await_response b x.0 fd x.1) first
                ∙ await_response-insert p fd (record socket { stream = asked }))
      ]

  started :
      (p : Process) (fd : ℕ) (socket : Socket) (q : Request) (payload : List ℕ)
      → get p.sockets fd ≡ some socket
      → socket.peer.accepts ≡ true
      → request_to_bytes b q ≡ ok payload
      → start_request b p fd q ≡ (
        record p {
          sockets = insert p.sockets fd (record socket {
            stream = record socket.stream { written = socket.stream.written ++ frame payload };
          });
        },
        true,
      )
  unfolding start_request write_request
  started p fd socket q payload at takes h = ground (arith, at, takes, h)

module _ (libc : Libc) (b : Bincode) where
  -- `inotify_add_watch` on a descriptor that the library manages is its two halves, one behind the other.
  pub inotify_add_watch-halves :
      (p : Process) (fd : ℕ) (pathname : Text) (mask : ℕ)
      → is_managed_fd p fd ≡ true
      → is_utf8 pathname ≡ true
      → let q = add_watch (path_from pathname) mask in
        inotify_add_watch libc b p fd pathname mask
        ≡ finish_add libc
            (await_response b (start_request b p fd q).0 fd (start_request b p fd q).1)
  unfolding inotify_add_watch finish_add
  inotify_add_watch-halves p fd pathname mask ours text =
      let q = add_watch (path_from pathname) mask in
      let whole : inotify_add_watch libc b p fd pathname mask
          ≡ finish_add libc (request_on b p fd q) =
        rw ours rw text refl in
      whole ∙ ap (finish_add libc) (request_on-halves b p fd q)

  -- Two threads add watches on one descriptor: the first sends its request, then the second sends its
  -- own, and the second is the first to read. The results of the second and of the first.
  abbrev pub crossed : Process → ℕ → Request → Request → ℕ × ℕ
  crossed p fd first second =
      let (p1, out1) = start_request b p fd first in
      let (p2, out2) = start_request b p1 fd second in
      let (p3, wd2) = finish_add libc (await_response b p2 fd out2) in
      let (p4, wd1) = finish_add libc (await_response b p3 fd out1) in (wd2, wd1)

  -- Let two threads add watches on one descriptor, the second sending its request before the first reads
  -- its response, and reading first. Where the daemon answers the two requests in order with two
  -- descriptors, each thread is given the descriptor of the other's watch. The socket takes the
  -- requests and has nothing unread, the codec is faithful and encodes the four messages, and the
  -- responses are no longer than max_size.
  pub crossed_descriptors :
      (p : Process) (fd : ℕ) (socket : Socket) (first second : Request)
      (asked1 asked2 reply1 reply2 before : List ℕ) (wd1 wd2 : ℕ)
      → IsFaithful b
      → get p.sockets fd ≡ some socket
      → socket.peer.accepts ≡ true
      → request_to_bytes b first ≡ ok asked1
      → request_to_bytes b second ≡ ok asked2
      → response_to_bytes b (watch_added wd1) ≡ ok reply1
      → response_to_bytes b (watch_added wd2) ≡ ok reply2
      → length reply1 ≤ max_size
      → length reply2 ≤ max_size
      → socket.stream.taken ≡ length before
      → socket.peer.output ((socket.stream.written ++ frame asked1) ++ frame asked2)
        ≡ before ++ (frame reply1 ++ frame reply2)
      → crossed p fd first second ≡ (wd1, wd2)
  unfolding finish_add
  crossed_descriptors p fd socket first second asked1 asked2 reply1 reply2 before wd1 wd2 f at takes
        asks1 asks2 replies1 replies2 short1 short2 read output =
      let asked : Stream = record socket.stream {
        written = (socket.stream.written ++ frame asked1) ++ frame asked2;
      } in
      let s1 : Socket = record socket {
        stream = record socket.stream { written = socket.stream.written ++ frame asked1 };
      } in
      let s2 : Socket = record socket { stream = asked } in
      let p1 : Process = record p { sockets = insert p.sockets fd s1 } in
      let there : get p1.sockets fd ≡ some s1 = ground (arith, get-insert p.sockets fd s1 fd) in
      let behind : drop asked.taken (socket.peer.output asked.written)
          ≡ frame reply1 ++ frame reply2 =
        rw (output, read) (drop-append before (frame reply1 ++ frame reply2)) in
      let one =
        read_response-frame b socket.peer asked (watch_added wd1) reply1 (frame reply2) f replies1
          short1 behind in
      let later : Stream = record asked { taken = asked.taken + (4 + length reply1) } in
      let left : drop later.taken (socket.peer.output later.written) ≡ frame reply2 ++ [] =
        rw (length-frame reply1) (
          drop_add asked.taken (length (frame reply1)) (socket.peer.output asked.written)
          ∙ ap (drop (length (frame reply1))) behind
          ∙ drop-append (frame reply1) (frame reply2)
          ∙ sym (append-nil (frame reply2))) in
      let two =
        read_response-frame b socket.peer later (watch_added wd2) reply2 [] f replies2 short2
          left in
      let s3 : Socket = record socket { stream = later } in
      let p3 : Process = record p1 { sockets = insert p1.sockets fd s3 } in
      let first_read : await_response b (record p1 { sockets = insert p1.sockets fd s2 }) fd true
          ≡ (p3, some (watch_added wd1)) =
        await_response-insert b p1 fd s2
        ∙ ap
            (λ (r : Stream × Option Response).
              (record p1 { sockets = insert p1.sockets fd (record socket { stream = r.0 }) }, r.1))
            one in
      let second_read : (await_response b p3 fd true).1 ≡ some (watch_added wd2) =
        ap (λ (x : Process × Option Response). x.1) (await_response-insert b p1 fd s3)
        ∙ ap (λ (r : Stream × Option Response). r.1) two in
      rw (started b p fd socket first asked1 at takes asks1) (
        rw (started b p1 fd s1 second asked2 there takes asks2)
          (rw first_read (rw (second_read, finish_add) refl)))
