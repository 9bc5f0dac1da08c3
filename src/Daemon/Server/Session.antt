-- ===== src/Daemon/Server/Session.antt =====
-- crates/daemon/src/server.rs: what a whole connection leaves behind in the shared state.
use fake_notify.Base.{
  ℕ, suc, ◌+◌, ◌≤◌, ◌<◌, ◌≡◌, refl, ◌∙◌, ◌≢◌, inl, inr, Bool, true, some, List, get, modify,
  get-modify, FilePath, Result, ok, err, arith, Bool-cases, Option-cases, nat_eq, list_eq,
  component_eq,
}
use fake_notify.Protocol.Event.{from_bits_truncate}
use fake_notify.Protocol.Message.{
  ProtocolError, Request, register_client, add_watch, remove_watch, ping, Response,
  response_to_bytes, frame,
}
use fake_notify.Daemon.State
use fake_notify.Daemon.State.{
  DaemonState, Client, ClientId, Writer, deliver, send_event, subscribes, subscribed_in,
  unregister_client, push_watch, drop_watch,
}
use fake_notify.Daemon.State.Invariant.{IsValid}
use fake_notify.Daemon.State.Invariant.Joining.{HasRoom}
use fake_notify.Daemon.State.Invariant.Removing.{remove_watch-IsValid, subscribes-remove_watch}
use fake_notify.Daemon.State.Steps.{add_watch-IsValid, subscribes-add_watch, deliver-IsValid}
use fake_notify.Daemon.Server.{Platform, handle_request, send_response, answer}

-- While a client is served: it is registered, and `k` more watches can be made.
pub record IsServing (s : DaemonState) (id : ClientId) (k : ℕ) : Type 0 where
  pub valid : IsValid s
  pub connected : (cl : Client) × (get s.clients id ≡ some cl)
  pub wds_left : s.next_wd + k < 4294967296
  pub clients_left : s.next_client_id + 1 < 18446744073709551616

-- The other clients keep their subscriptions.
abbrev pub KeepsOthers : ℕ → DaemonState → DaemonState → Type 0
KeepsOthers id s t = (d : ℕ) (p : FilePath) → d ≢ id → subscribes t d p ≡ subscribes s d p

-- `t` is a state in which the client is still served, with room for `k` watches.
abbrev pub Served : ℕ → ℕ → DaemonState → DaemonState → Type 0
Served id k s t = IsServing t id k × KeepsOthers id s t

pub weaken : {s : DaemonState} {id k : ℕ} → IsServing s id (suc k) → IsServing s id k
weaken v = record {
  valid = v.valid;
  connected = v.connected;
  wds_left = omega (arith, v.wds_left);
  clients_left = v.clients_left;
}

module _ (os : Platform) where
  remove_watch-Served :
      (s : DaemonState) (id wd k : ℕ)
      → IsServing s id (suc k)
      → Served id k s (State.remove_watch s id wd).0
  unfolding State.remove_watch
  remove_watch-Served s id wd k v = elim (Option-cases (get s.watches wd)) [
    | inl absent ↦ rw (absent, State.remove_watch) (weaken v, λ d p ne. refl)
    | inr (w, found) ↦ (
      record {
        valid = remove_watch-IsValid s id wd v.valid;
        connected = (
          drop_watch wd v.connected.0,
          ground (arith, found, v.connected.1, get-modify s.clients id (drop_watch wd) id),
        );
        wds_left = ground (arith, found, v.wds_left);
        clients_left = ground (arith, found, v.clients_left);
      },
      λ d p ne. ground (arith, (subscribes-remove_watch s id wd w found v.valid d p).1),
    )
  ]

  -- Both branches of `add_watch` push the descriptor, and take one new descriptor at most.
  pub add_watch_frame :
      (s : DaemonState) (id : ℕ) (path : FilePath) (mask : ℕ) (recursive : Bool)
      → s.next_wd + 1 < 4294967296
      → let r = State.add_watch s id path mask recursive in
        (r.0.clients ≡ modify s.clients id (push_watch r.1))
        × (r.0.next_wd ≤ s.next_wd + 1)
        × (r.0.next_client_id ≡ s.next_client_id)
  unfolding State.add_watch
  add_watch_frame s id path mask recursive h = elim (Option-cases (State.existing s path)) [
    | inl none_there ↦ rw (none_there, State.add_watch) (refl, omega arith, refl)
    | inr (found, e) ↦ rw (e, State.add_watch) (refl, omega arith, refl)
  ]

  add_watch-Served :
      (s : DaemonState) (id : ℕ) (path : FilePath) (mask k : ℕ) (recursive : Bool)
      → IsServing s id (suc k)
      → Served id k s (State.add_watch s id path mask recursive).0
  add_watch-Served s id path mask k recursive v =
      let (cl, at) = v.connected in
      let room : HasRoom s = omega (arith, v.wds_left, v.clients_left) in
      let (cs, wds, ids) = add_watch_frame s id path mask recursive room.wds_left in
      let wd = (State.add_watch s id path mask recursive).1 in
      (
        record {
          valid = add_watch-IsValid s id path mask recursive cl at v.valid room;
          connected = (
            push_watch wd cl,
            rw cs (ground (arith, get-modify s.clients id (push_watch wd) id, at)),
          );
          wds_left = omega (arith, wds, v.wds_left);
          clients_left = omega (arith, ids, v.clients_left);
        },
        λ d p ne.
            ground (arith, subscribes-add_watch s id path mask recursive cl at v.valid room d p),
      )

  pub handle_request-Served :
      (now k : ℕ) (s : DaemonState) (id : ℕ) (r : Request)
      → IsServing s id (suc k)
      → Served id k s (handle_request os now s id r).0
  unfolding handle_request
  handle_request-Served now k s id register_client v = (weaken v, λ d p ne. refl)
  handle_request-Served now k s id (add_watch path mask) v =
      elim (Bool-cases (os.exists now path)) [
        | inl there ↦ rw there (add_watch-Served s id path (from_bits_truncate mask) k true v)
        | inr missing ↦ rw missing (weaken v, λ d p ne. refl)
      ]
  handle_request-Served now k s id (remove_watch wd) v = remove_watch-Served s id wd k v
  handle_request-Served now k s id ping v = (weaken v, λ d p ne. refl)

  deliver-Served :
      (s : DaemonState) (id k : ℕ) (bytes : List ℕ)
      → IsServing s id k
      → Served id k s (record s { clients = (deliver s.clients id bytes).0 })
  unfolding deliver
  deliver-Served s id k bytes v =
      let (cl, at) = v.connected in
      (
        record {
          valid = deliver-IsValid s id bytes v.valid;
          connected = (
            (send_event cl bytes).0,
            ground (arith, at, get-modify s.clients id (λ (x : Client). (send_event x bytes).0) id),
          );
          wds_left = v.wds_left;
          clients_left = v.clients_left;
        },
        λ d p ne. refl,
      )

  pub send_response-Served :
      (s : DaemonState) (id k : ℕ) (r : Response)
      → IsServing s id k
      → Served id k s (send_response os s id r).0
  unfolding send_response
  send_response-Served s id k r v = go (response_to_bytes os.bincode r) refl
    where
      go :
          (p : Result (List ℕ) ProtocolError)
          → response_to_bytes os.bincode r ≡ p
          → Served id k s (send_response os s id r).0
      go (err e) h = rw (h, send_response) (v, λ d p ne. refl)
      go (ok payload) h = rw (h, send_response) (deliver-Served s id k (frame payload) v)

  pub answer-Served :
      (now k : ℕ) (s : DaemonState) (id : ℕ) (r : Result Request ProtocolError)
      → IsServing s id (suc k)
      → Served id k s (answer os now s id r).0
  unfolding answer
  answer-Served now k s id (ok request) v =
      let (v', keeps) = handle_request-Served now k s id request v in
      let (v'', keeps') = send_response-Served _ id k (handle_request os now s id request).1 v' in
      (v'', λ d p ne. keeps' d p ne ∙ keeps d p ne)
  answer-Served now k s id (err e) v = send_response-Served s id k _ (weaken v)
