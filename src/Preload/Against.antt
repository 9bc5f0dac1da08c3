-- ===== src/Preload/Against.antt =====
-- crates/preload/src/lib.rs against crates/daemon/src/server.rs: the library with the daemon as it is
-- modelled at the other end of its socket.
use fake_notify.Base.{
  ℕ, suc, ◌+◌, ◌≤◌, ◌<◌, ◌≡◌, refl, sym, ap, ◌∙◌, true, some, List, [], ◌++◌, length, nat_eq,
  FilePath, Text, path_from, is_utf8, ok, arith, append-nil, append_assoc, get-insert,
  length-append,
}
use fake_notify.Protocol.Event.{from_bits_truncate}
use fake_notify.Protocol.Message.{
  IsFaithful, register_client, add_watch, client_registered, watch_added, request_to_bytes,
  response_to_bytes, frame, max_size,
}
use fake_notify.Protocol.Message.Framing.{request_back}
use fake_notify.Daemon.State
use fake_notify.Daemon.State.{DaemonState, Client, Writer, subscribes}
use fake_notify.Daemon.State.Invariant.{IsValid}
use fake_notify.Daemon.Server.{Platform, handle_request, send_response, answer, serve}
use fake_notify.Base.{component_eq, list_eq}
use fake_notify.Daemon.Server.Session.{IsServing, send_response-Served, answer-Served}
use fake_notify.Daemon.Server.Connection.{registered-IsServing}
use fake_notify.Daemon.Server.Answers.{send_response_appends}
use fake_notify.Daemon.Client.Replies.{Connected, answer_replies}
use fake_notify.Preload.{Libc, Process, minus_one}
use fake_notify.Preload.Calls.{init_on, inotify_add_watch}
use fake_notify.Preload.Stale.{inotify_add_watch_stale}
use fake_notify.Preload.Responses.{length-frame}
use fake_notify.Preload.DaemonPeer.{
  session, written, daemon_peer, serve-frame, serve-nil, answer-subscribes,
}

module _ (os : Platform) where
  -- Client and server after a first round.
  module _ (s : DaemonState) (greeting hello : List ℕ) (f : IsFaithful os.bincode) (v : IsValid s)
      (ids : s.next_client_id + 2 < 18446744073709551616) (wds : s.next_wd + 2 < 4294967296)
      (greets : response_to_bytes os.bincode (client_registered s.next_client_id) ≡ ok greeting)
      (registers : request_to_bytes os.bincode register_client ≡ ok hello)
      (short : length hello ≤ max_size) where
    abbrev socket : Writer
    socket = record { written = []; is_open = true; spare = 0 }

    abbrev greeted : DaemonState
    greeted =
        (send_response os (State.register_client s socket).0 s.next_client_id
          (client_registered s.next_client_id)).0

    greeted-Connected :
        Connected greeted s.next_client_id
          (record { written = frame greeting; is_open = true; spare = 0 })
    unfolding State.register_client State.new_client
    greeted-Connected =
        let id = s.next_client_id in
        let cl = State.new_client id socket in
        (
          _,
          (send_response_appends os (State.register_client s socket).0 id (client_registered id)
              greeting cl greets (ground (arith, get-insert s.clients id cl id)) refl).0,
          refl,
        )

    greeted-IsServing : IsServing greeted s.next_client_id 2
    unfolding State.register_client
    greeted-IsServing =
        (send_response-Served os _ s.next_client_id 2 (client_registered s.next_client_id)
          (registered-IsServing s socket 2 v ids wds (omega (arith, wds)))).0

    abbrev registered : ℕ → DaemonState
    registered now = (answer os now greeted s.next_client_id (ok register_client)).0

    registered-IsServing_again : (now : ℕ) → IsServing (registered now) s.next_client_id 1
    registered-IsServing_again now =
        (answer-Served os now 1 greeted s.next_client_id (ok register_client) greeted-IsServing).0

    registered-Connected :
        (now : ℕ)
        → Connected
            (registered now)
            s.next_client_id
            (record { written = frame greeting ++ frame greeting; is_open = true; spare = 0 })
          × ((answer os now greeted s.next_client_id (ok register_client)).1 ≡ true)
    unfolding handle_request
    registered-Connected now =
        answer_replies os now greeted s.next_client_id
          (record { written = frame greeting; is_open = true; spare = 0 }) register_client greeting
          (omega (arith, greeted-IsServing.wds_left)) greeted-Connected refl greets

    -- The first round of the loop.
    serve_hello :
        (fuel : ℕ) (rest : List ℕ)
        → serve os (suc fuel) greeted s.next_client_id (frame hello ++ rest)
          ≡ serve os fuel (registered fuel) s.next_client_id rest
    serve_hello fuel rest =
        serve-frame os fuel greeted s.next_client_id hello rest register_client short
          (request_back os.bincode register_client hello f registers) (registered-Connected fuel).1

    -- The fuel of the session after the first round.
    abbrev first_left : ℕ
    first_left = suc (3 + length hello)

    session-hello : session os s socket (frame hello) ≡ some (registered first_left)
    unfolding session State.register_client
    session-hello =
        let id = s.next_client_id in
        let size : length (frame hello) ≡ first_left = omega (arith, length-frame hello) in
        rw size (
          ap (serve os (suc first_left) greeted id) (sym (append-nil (frame hello)))
          ∙ serve_hello first_left []
          ∙ serve-nil os (3 + length hello) (registered first_left) id)

    written-hello : written os s socket (frame hello) ≡ frame greeting ++ frame greeting
    unfolding written
    written-hello =
        let (cl, at, has) = (registered-Connected first_left).0 in
        rw (session-hello, at, written) (ap (λ w. w.written) has)

    module _ (path : FilePath) (mask : ℕ) (asked : List ℕ)
        (there : (now : ℕ) → os.exists now path ≡ true)
        (adds : request_to_bytes os.bincode (add_watch path mask) ≡ ok asked)
        (short_asked : length asked ≤ max_size)
        (replies : (wd : ℕ)
          → (reply : List ℕ) × (response_to_bytes os.bincode (watch_added wd) ≡ ok reply)) where
      abbrev watching : ℕ → DaemonState
      watching now =
          (answer os now (registered (suc now)) s.next_client_id (ok (add_watch path mask))).0

      watching-Connected :
          (now : ℕ)
          → (reply : List ℕ) × Connected (watching now) s.next_client_id (record {
            written = (frame greeting ++ frame greeting) ++ frame reply;
            is_open = true;
            spare = 0;
          })
            × ((answer os now (registered (suc now)) s.next_client_id (ok (add_watch path mask))).1
                ≡ true)
      unfolding handle_request
      watching-Connected now =
          let (reply, e) =
            replies
              (State.add_watch (registered (suc now)) s.next_client_id path
                (from_bits_truncate mask) true).1 in
          let (c, more) =
            answer_replies os now (registered (suc now)) s.next_client_id
              (record { written = frame greeting ++ frame greeting; is_open = true; spare = 0 })
              (add_watch path mask) reply
              (omega (arith, (registered-IsServing_again (suc now)).wds_left))
              (registered-Connected (suc now)).0 refl (rw (there now) e) in
          (reply, c, more)

      -- The session with both requests, the fuel that is left at the second.
      abbrev left : ℕ
      left = 2 + (length hello + (4 + length asked))

      session-asked : session os s socket (frame hello ++ frame asked) ≡ some (watching (suc left))
      unfolding session State.register_client
      session-asked =
          let id = s.next_client_id in
          let size : length (frame hello ++ frame asked) ≡ suc (suc left) =
            length-append (frame hello) (frame asked)
            ∙ omega (arith, length-frame hello, length-frame asked) in
          rw size (
            serve_hello (suc (suc left)) (frame asked)
            ∙ ap (serve os (suc (suc left)) (registered (suc (suc left))) id)
                (sym (append-nil (frame asked)))
            ∙ serve-frame os (suc left) (registered (suc (suc left))) id asked []
                (add_watch path mask) short_asked
                (request_back os.bincode (add_watch path mask) asked f adds)
                (watching-Connected (suc left)).2
            ∙ serve-nil os left (watching (suc left)) id)

      -- What the daemon has written once the session is over.
      written-asked :
          (reply : List ℕ) × (written os s socket (frame hello ++ frame asked)
            ≡ frame greeting ++ (frame greeting ++ frame reply))
      unfolding written
      written-asked =
          let (reply, (cl, at, has), _) = watching-Connected (suc left) in
          (
            reply,
            rw (session-asked, at, written)
                (ap (λ w. w.written) has
                  ∙ append_assoc (frame greeting) (frame greeting) (frame reply)),
          )

      watching-subscribes : subscribes (watching (suc left)) s.next_client_id path ≡ true
      watching-subscribes =
          answer-subscribes os (suc left) (registered (suc (suc left))) s.next_client_id 0 path mask
            (there (suc left)) (registered-IsServing_again (suc (suc left)))

    -- With the daemon at the other end of the socket, in a valid state with numbers left for two more
    -- clients and watches, a program whose first watch is on a UTF-8 path that is there is told that
    -- it failed: inotify_init returns the descriptor, inotify_add_watch returns -1 with EIO. Yet the
    -- session with those two requests leaves the client subscribed to the path. The library is
    -- loaded, the codec is faithful and encodes the four messages that are sent, and the requests and
    -- the greeting are no longer than max_size.
    pub first_watch_lost :
        (libc : Libc) (p : Process) (fd flags mask : ℕ) (pathname : Text) (asked : List ℕ)
        → ((fds : List ℕ) × (p.managed_fds ≡ some fds))
        → is_utf8 pathname ≡ true
        → ((now : ℕ) → os.exists now (path_from pathname) ≡ true)
        → request_to_bytes os.bincode (add_watch (path_from pathname) mask) ≡ ok asked
        → length asked ≤ max_size
        → length greeting ≤ max_size
        → ((wd : ℕ) → (reply : List ℕ) × (response_to_bytes os.bincode (watch_added wd) ≡ ok reply))
        → let r = init_on libc os.bincode p (daemon_peer os s) fd flags in
          let q = inotify_add_watch libc os.bincode r.0 fd pathname mask in
          (r.1 ≡ fd)
          × (q.1 ≡ minus_one)
          × (q.0.errno ≡ libc.eio)
          × ((t : DaemonState) × (session os s socket (frame hello ++ frame asked) ≡ some t)
              × (subscribes t s.next_client_id (path_from pathname) ≡ true))
    first_watch_lost libc p fd flags mask pathname asked loaded text there adds short_asked small
          replies =
        let path = path_from pathname in
        let (reply, second) = written-asked path mask asked there adds short_asked replies in
        let (fine, lost, why) =
          inotify_add_watch_stale libc os.bincode p (daemon_peer os s) fd flags s.next_client_id
            mask pathname greeting hello asked (frame greeting) (frame reply) f refl loaded text
            greets small registers adds written-hello second in
        (
          fine,
          lost,
          why,
          (
            _,
            session-asked path mask asked there adds short_asked replies,
            watching-subscribes path mask asked there adds short_asked replies,
          ),
        )
