-- ===== src/Preload/DaemonPeer.antt =====
-- crates/daemon/src/server.rs at the other end of the library's socket: what it has written, and its loop on a
-- frame.
use fake_notify.Base.{
  ℕ, suc, ◌≤◌, ◌≡◌, refl, ap, ◌∙◌, true, Option, none, some, List, [], ◌++◌, length, get, nat_eq,
  FilePath, Result, ok, err, arith,
}
use fake_notify.Protocol.Event.{from_bits_truncate}
use fake_notify.Protocol.Message.{
  Request, add_watch, Response, client_registered, request_from_bytes, response_to_bytes, frame,
  max_size,
}
use fake_notify.Protocol.Message.Framing.{read_exact}
use fake_notify.Daemon.State
use fake_notify.Daemon.State.{DaemonState, Client, Writer, subscribes}
use fake_notify.Daemon.Server.{Platform, handle_request, send_response, answer, serve, next_message}
use fake_notify.Daemon.Server.Answers.{next_message-frame}
use fake_notify.Protocol.Message.{ProtocolError}
use fake_notify.Base.{list_beq_iff, component_eq, list_eq}
use fake_notify.Daemon.State.Invariant.Joining.{HasRoom}
use fake_notify.Daemon.State.Steps.{subscribes-add_watch}
use fake_notify.Daemon.Server.Session.{IsServing}
use fake_notify.Preload.{Peer}

module _ (os : Platform) where
  -- The daemon after it has greeted a client and read what the client sent; the client is there.
  unfoldable pub session : DaemonState → Writer → List ℕ → Option DaemonState
  session s writer sent =
      let (registered, client_id) = State.register_client s writer in
      serve os (suc (length sent))
        (send_response os registered client_id (client_registered client_id)).0 client_id sent

  -- What the client's socket has taken then.
  unfoldable pub written : DaemonState → Writer → List ℕ → List ℕ
  unfolding session
  written s writer sent = elim (session s writer sent) [
    | none ↦ []
    | some t ↦ elim (get t.clients s.next_client_id) [
      | none ↦ []
      | some client ↦ client.writer.written
    ]
  ]

  -- The daemon as the other end of a new socket of the library.
  abbrev pub daemon_peer : DaemonState → Peer
  daemon_peer s = record {
    output = written s (record { written = []; is_open = true; spare = 0 });
    accepts = true;
  }

  -- A round of the loop on the frame of a request.
  pub serve-frame :
      (fuel : ℕ) (s : DaemonState) (id : ℕ) (payload rest : List ℕ) (request : Request)
      → length payload ≤ max_size
      → request_from_bytes os.bincode payload ≡ ok request
      → (answer os fuel s id (ok request)).1 ≡ true
      → serve os (suc fuel) s id (frame payload ++ rest)
        ≡ serve os fuel (answer os fuel s id (ok request)).0 id rest
  unfolding serve
  serve-frame fuel s id payload rest request h e more =
      let same = ap (answer os fuel s id) e in
      let on : (answer os fuel s id (request_from_bytes os.bincode payload)).1 ≡ true =
        ap (λ r. r.1) same ∙ more in
      rw (next_message-frame payload rest h, on, serve) (ap (λ r. serve os fuel r.0 id rest) same)

  pub serve-nil : (fuel : ℕ) (s : DaemonState) (id : ℕ) → serve os (suc fuel) s id [] ≡ some s
  unfolding serve next_message read_exact
  serve-nil fuel s id = refl

  -- Sending changes no table but the clients'.
  pub subscribes-send_response :
      (s : DaemonState) (id : ℕ) (r : Response) (d : ℕ) (p : FilePath)
      → subscribes (send_response os s id r).0 d p ≡ subscribes s d p
  unfolding send_response
  subscribes-send_response s id r d p = go (response_to_bytes os.bincode r) refl
    where
      go :
          (x : Result (List ℕ) ProtocolError)
          → response_to_bytes os.bincode r ≡ x
          → subscribes (send_response os s id r).0 d p ≡ subscribes s d p
      go (err e) h = rw (h, send_response) refl
      go (ok payload) h = rw (h, send_response) refl

  -- A client that asks for a watch on a path that is there is subscribed to it.
  pub answer-subscribes :
      (now : ℕ) (s : DaemonState) (id k : ℕ) (path : FilePath) (mask : ℕ)
      → os.exists now path ≡ true
      → IsServing s id (suc k)
      → subscribes (answer os now s id (ok (add_watch path mask))).0 id path ≡ true
  unfolding answer handle_request
  answer-subscribes now s id k path mask there v =
      let (cl, at) = v.connected in
      let room : HasRoom s = omega (arith, v.wds_left, v.clients_left) in
      subscribes-send_response (handle_request os now s id (add_watch path mask)).0 id _ id path
      ∙ rw there (
          subscribes-add_watch s id path (from_bits_truncate mask) true cl at v.valid room id path
          ∙ ground (arith, list_beq_iff path path))
