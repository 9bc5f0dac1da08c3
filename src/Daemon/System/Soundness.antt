-- ===== src/Daemon/System/Soundness.antt =====
-- crates/daemon/src/server.rs and watcher.rs: what one task does to the shared state while others run.
use fake_notify.Base.{
  ℕ, ◌+◌, ◌<◌, ◌≡◌, ◌≢◌, refl, ◌∙◌, inl, inr, Bool, true, false, Option, none, some, List, get,
  get-modify, get-remove, nat_eq, Result, ok, err, arith, Bool-cases, Option-cases, modify, Map, ap,
}
use fake_notify.Protocol.Event.{from_bits_truncate}
use fake_notify.Protocol.Message.{
  ProtocolError, Request, register_client, add_watch, remove_watch, ping, Response,
  request_from_bytes, response_to_bytes, frame,
}
use fake_notify.Daemon.State
use fake_notify.Daemon.State.{
  DaemonState, ClientId, Client, deliver, send_event, unregister_client, subscribes, push_watch,
  drop_watch,
}
use fake_notify.Daemon.State.Invariant.{IsValid}
use fake_notify.Daemon.State.Invariant.Joining.{HasRoom}
use fake_notify.Daemon.State.Invariant.Leaving.{
  unregister_client-IsValid, subscribes-unregister_client,
}
use fake_notify.Daemon.Server.{Platform, handle_request, send_response}
use fake_notify.Daemon.Server.Session.{
  IsServing, KeepsOthers, add_watch_frame, handle_request-Served, send_response-Served,
}
use fake_notify.Daemon.System.{Task, take_request}

-- The client is in the table.
abbrev pub known : Map ClientId Client → ClientId → Bool
known clients id = elim (get clients id) [ none ↦ false | some c ↦ true ]

abbrev pub connects : DaemonState → ClientId → Bool
connects s = known s.clients

-- What a step of the task of the connection `id` leaves alone.
pub record IsStep (id : ClientId) (s t : DaemonState) : Type 0 where
  pub valid : IsValid t
  pub others : KeepsOthers id s t
  pub stay : (d : ClientId) → d ≢ id → connects t d ≡ connects s d

-- The task goes on only while its client is in the table.
abbrev pub GoesOn : ClientId → DaemonState → Option Task → Type 0
GoesOn id t none = Unit
GoesOn id t (some task) = (task.id ≡ id) × (connects t id ≡ true)

pub connects-some :
    (s : DaemonState) (id : ClientId)
    → connects s id ≡ true
    → (cl : Client) × (get s.clients id ≡ some cl)
connects-some s id h = elim (Option-cases (get s.clients id)) [
  | inl absent ↦ absurd (ground (arith, absent, h))
  | inr found ↦ found
]

-- A change of one client's entry connects and disconnects nobody.
pub known-modify :
    (clients : Map ClientId Client) (id : ClientId) (f : Client → Client) (d : ClientId)
    → known (modify clients id f) d ≡ known clients d
known-modify clients id f d = elim (Option-cases (get clients d)) [
  | inl absent ↦ ground (arith, absent, get-modify clients id f d)
  | inr (c, found) ↦ ground (arith, found, get-modify clients id f d)
]

pub known-deliver :
    (clients : Map ClientId Client) (id : ClientId) (bytes : List ℕ) (d : ClientId)
    → known (deliver clients id bytes).0 d ≡ known clients d
unfolding deliver
known-deliver clients id bytes d = elim (Option-cases (get clients id)) [
  | inl absent ↦ rw (absent, deliver) refl
  | inr (c, found) ↦
      rw (found, deliver) (known-modify clients id (λ (x : Client). (send_event x bytes).0) d)
]

served :
    (s : DaemonState) (id : ClientId)
    → IsValid s
    → HasRoom s
    → connects s id ≡ true
    → IsServing s id 1
served s id v room there = record {
  valid = v;
  connected = connects-some s id there;
  wds_left = room.wds_left;
  clients_left = room.clients_left;
}

module _ (os : Platform) where
  pub connects-send_response :
      (s : DaemonState) (id : ClientId) (r : Response) (d : ClientId)
      → connects (send_response os s id r).0 d ≡ connects s d
  unfolding send_response
  connects-send_response s id r d = go (response_to_bytes os.bincode r) refl
    where
      go :
          (x : Result (List ℕ) ProtocolError)
          → response_to_bytes os.bincode r ≡ x
          → connects (send_response os s id r).0 d ≡ connects s d
      go (err e) h = rw (h, send_response) refl
      go (ok payload) h = rw (h, send_response) (known-deliver s.clients id (frame payload) d)

  connects-handle_request :
      (now : ℕ) (s : DaemonState) (id : ClientId) (r : Request) (d : ClientId)
      → s.next_wd + 1 < 4294967296
      → connects (handle_request os now s id r).0 d ≡ connects s d
  unfolding handle_request State.remove_watch
  connects-handle_request now s id register_client d h = refl
  connects-handle_request now s id (add_watch path mask) d h =
      elim (Bool-cases (os.exists now path)) [
        | inr missing ↦ rw missing refl
        | inl there ↦
            let mask' = from_bits_truncate mask in
            rw there (
              ap (λ (cs : Map ClientId Client). known cs d)
                (add_watch_frame os s id path mask' true h).0
              ∙ known-modify s.clients id (push_watch (State.add_watch s id path mask' true).1) d)
      ]
  connects-handle_request now s id (remove_watch wd) d h = elim (Option-cases (get s.watches wd)) [
    | inl absent ↦ rw (absent, State.remove_watch) refl
    | inr (w, found) ↦ rw (found, State.remove_watch) (known-modify s.clients id (drop_watch wd) d)
  ]
  connects-handle_request now s id ping d h = refl

  pub sent-IsStep :
      (s : DaemonState) (id : ClientId) (r : Response)
      → IsValid s
      → HasRoom s
      → connects s id ≡ true
      → IsStep id s (send_response os s id r).0
  sent-IsStep s id r v room there =
      let (v', keeps) = send_response-Served os s id 1 r (served s id v room there) in
      record { valid = v'.valid; others = keeps; stay = λ d ne. connects-send_response s id r d }

  pub unregistered-IsStep :
      (s : DaemonState) (id : ClientId) → IsValid s → IsStep id s (unregister_client s id)
  unfolding unregister_client
  unregistered-IsStep s id v = record {
    valid = unregister_client-IsValid s id v;
    others = λ d p ne. ground (arith, ne, subscribes-unregister_client s id d p v);
    stay = λ d ne. elim (Option-cases (get s.clients id)) [
      | inl absent ↦ rw (absent, unregister_client) refl
      | inr (c, found) ↦
          rw (found, unregister_client) (ground (arith, ne, get-remove s.clients id d))
    ];
  }

  pub take_request-IsStep :
      (now : ℕ) (s : DaemonState) (id : ClientId) (payload : List ℕ)
      → IsValid s
      → HasRoom s
      → connects s id ≡ true
      → IsStep id s (take_request os now s id payload).0
        × (connects (take_request os now s id payload).0 id ≡ true)
  unfolding take_request
  take_request-IsStep now s id payload v room there =
      go (request_from_bytes os.bincode payload) refl
    where
      go :
          (x : Result Request ProtocolError)
          → request_from_bytes os.bincode payload ≡ x
          → IsStep id s (take_request os now s id payload).0
            × (connects (take_request os now s id payload).0 id ≡ true)
      go (err e) h =
          rw (h, take_request)
            (record { valid = v; others = λ d p ne. refl; stay = λ d ne. refl }, there)
      go (ok r) h =
          let (v', keeps) = handle_request-Served os now 0 s id r (served s id v room there) in
          rw (h, take_request)
            (
              record {
                valid = v'.valid;
                others = keeps;
                stay = λ d ne. connects-handle_request now s id r d room.wds_left;
              },
              connects-handle_request now s id r id room.wds_left ∙ there,
            )
