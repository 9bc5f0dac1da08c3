-- ===== src/Daemon/System/Streams.antt =====
-- crates/daemon/src/server.rs, state.rs and watcher.rs: what the clients' sockets take, from all tasks.
use fake_notify.Base.{
  ℕ, ◌+◌, ◌<◌, ◌≡◌, refl, sym, subst, true, false, Option, none, some, List, [], ◌++◌, Map, get,
  modify, remove, get-modify, get-remove, nat_eq, arith, Bool-cases, Option-cases, inl, inr, ◌⊎◌,
  Result, ok, err, ◌==◌,
}
use fake_notify.Protocol.Event.{from_bits_truncate}
use fake_notify.Protocol.Message.{
  Request, register_client, add_watch, remove_watch, ping, ProtocolError, Response,
  client_registered, response_to_bytes, request_from_bytes, frame,
}
use fake_notify.Daemon.State
use fake_notify.Daemon.State.{
  DaemonState, ClientId, Client, Writer, deliver, send_event, push_watch, drop_watch,
  unregister_client,
}
use fake_notify.Daemon.Server.{Platform, handle_request, send_response}
use fake_notify.Daemon.Server.Session.{add_watch_frame}
use fake_notify.Daemon.System.{
  Task, Phase, greeting, reading, replying, leaving, Received, waits, message, breaks, receive,
  take_request, resume,
}

-- Whole frames, one behind the other.
pub data Frames : List ℕ → Type 0 where
  nothing : Frames []
  more : {bytes : List ℕ} (payload : List ℕ) → Frames bytes → Frames (bytes ++ frame payload)

-- What a socket has taken while its peer is there. A write that fails may leave a part of a frame.
abbrev pub IsWhole : Writer → Type 0
IsWhole writer = writer.is_open ≡ true → Frames writer.written

-- Every open socket has taken whole frames.
abbrev pub AllFramed : Map ClientId Client → Type 0
AllFramed clients = (d : ClientId) (cl : Client) → get clients d ≡ some cl → IsWhole cl.writer

-- A change of one entry.
pub AllFramed-modify :
    (clients : Map ClientId Client) (id : ClientId) (f : Client → Client)
    → ((c : Client) → IsWhole c.writer → IsWhole (f c).writer)
    → AllFramed clients
    → AllFramed (modify clients id f)
AllFramed-modify clients id f keeps all d cl h = elim (Option-cases (get clients d)) [
  | inl absent ↦ absurd (ground (arith, absent, h, get-modify clients id f d))
  | inr (c, at) ↦ elim (Bool-cases (id == d)) [
    | inl same ↦
        let new : f c ≡ cl = ground (arith, at, same, h, get-modify clients id f d) in
        subst (λ (x : Client). IsWhole x.writer) new (keeps c (all d c at))
    | inr other ↦ all d cl (ground (arith, at, other, h, get-modify clients id f d))
  ]
]

sent_Frames :
    (c : Client) (payload : List ℕ)
    → IsWhole c.writer
    → IsWhole (send_event c (frame payload)).0.writer
unfolding send_event
sent_Frames c payload h = elim (Bool-cases c.writer.is_open) [
  | inl up ↦ rw (up, send_event) (λ still. more payload (h up))
  | inr down ↦ rw (down, send_event) (λ up. absurd (ground (arith, down, up)))
]

pub AllFramed-deliver :
    (clients : Map ClientId Client) (id : ClientId) (payload : List ℕ)
    → AllFramed clients
    → AllFramed (deliver clients id (frame payload)).0
unfolding deliver
AllFramed-deliver clients id payload all = elim (Option-cases (get clients id)) [
  | inl absent ↦ rw (absent, deliver) all
  | inr (c, at) ↦
      rw (at, deliver)
        (AllFramed-modify clients id (λ (x : Client). (send_event x (frame payload)).0)
          (λ x h. sent_Frames x payload h) all)
]

module _ (os : Platform) where
  AllFramed-send_response :
      (s : DaemonState) (id : ClientId) (r : Response)
      → AllFramed s.clients
      → AllFramed (send_response os s id r).0.clients
  unfolding send_response
  AllFramed-send_response s id r all = go (response_to_bytes os.bincode r) refl
    where
      go :
          (x : Result (List ℕ) ProtocolError)
          → response_to_bytes os.bincode r ≡ x
          → AllFramed (send_response os s id r).0.clients
      go (err e) h = rw (h, send_response) all
      go (ok payload) h = rw (h, send_response) (AllFramed-deliver s.clients id payload all)

  AllFramed-handle_request :
      (now : ℕ) (s : DaemonState) (id : ClientId) (r : Request)
      → s.next_wd + 1 < 4294967296
      → AllFramed s.clients
      → AllFramed (handle_request os now s id r).0.clients
  unfolding handle_request State.remove_watch push_watch drop_watch
  AllFramed-handle_request now s id register_client room all = all
  AllFramed-handle_request now s id (add_watch path mask) room all =
      elim (Bool-cases (os.exists now path)) [
        | inr missing ↦ rw missing all
        | inl there ↦
            let mask' = from_bits_truncate mask in
            rw there (
              subst AllFramed (sym (add_watch_frame os s id path mask' true room).0) (
                AllFramed-modify s.clients id (push_watch (State.add_watch s id path mask' true).1)
                  (λ c h. h) all))
      ]
  AllFramed-handle_request now s id (remove_watch wd) room all =
      elim (Option-cases (get s.watches wd)) [
        | inl absent ↦ rw (absent, State.remove_watch) all
        | inr (w, found) ↦
            rw (found, State.remove_watch)
              (AllFramed-modify s.clients id (drop_watch wd) (λ c h. h) all)
      ]
  AllFramed-handle_request now s id ping room all = all

  AllFramed-take_request :
      (now : ℕ) (s : DaemonState) (id : ClientId) (payload : List ℕ)
      → s.next_wd + 1 < 4294967296
      → AllFramed s.clients
      → AllFramed (take_request os now s id payload).0.clients
  unfolding take_request
  AllFramed-take_request now s id payload room all = go (request_from_bytes os.bincode payload) refl
    where
      go :
          (x : Result Request ProtocolError)
          → request_from_bytes os.bincode payload ≡ x
          → AllFramed (take_request os now s id payload).0.clients
      go (err e) h = rw (h, take_request) all
      go (ok r) h = rw (h, take_request) (AllFramed-handle_request now s id r room all)

  AllFramed-unregister_client :
      (s : DaemonState) (id : ClientId)
      → AllFramed s.clients
      → AllFramed (unregister_client s id).clients
  unfolding unregister_client
  AllFramed-unregister_client s id all = elim (Option-cases (get s.clients id)) [
    | inl absent ↦ rw (absent, unregister_client) all
    | inr (c, found) ↦
        rw (found, unregister_client) (λ d cl h. all d cl (kept d cl (Bool-cases (id == d)) h))
  ]
    where
      kept :
          (d : ClientId) (cl : Client)
          → (id == d ≡ true) ⊎ (id == d ≡ false)
          → get (remove s.clients id) d ≡ some cl
          → get s.clients d ≡ some cl
      kept d cl (inl same) h = absurd (ground (arith, same, h, get-remove s.clients id d))
      kept d cl (inr other) h = ground (arith, other, h, get-remove s.clients id d)

  -- The state after a step of a task.
  abbrev pub FramedAfter : Option (DaemonState × Option Task) → Type 0
  FramedAfter none = Unit
  FramedAfter (some (t, after)) = AllFramed t.clients

  pub AllFramed-resume :
      (now : ℕ) (s : DaemonState) (task : Task)
      → s.next_wd + 1 < 4294967296
      → AllFramed s.clients
      → FramedAfter (resume os now s task)
  unfolding resume
  AllFramed-resume now s task room all = by_phase task.phase refl
    where
      by_message :
          task.phase ≡ reading
          → (x : Received) → receive task.unread task.ended ≡ x
          → FramedAfter (resume os now s task)
      by_message e waits h = rw (e, h, resume) tt
      by_message e breaks h = rw (e, h, resume) all
      by_message e (message payload rest) h =
          rw (e, h, resume) (AllFramed-take_request now s task.id payload room all)

      by_phase : (x : Phase) → task.phase ≡ x → FramedAfter (resume os now s task)
      by_phase greeting e =
          rw (e, resume) (AllFramed-send_response s task.id (client_registered task.id) all)
      by_phase reading e = by_message e (receive task.unread task.ended) refl
      by_phase (replying response ends) e =
          rw (e, resume) (AllFramed-send_response s task.id response all)
      by_phase leaving e = rw (e, resume) (AllFramed-unregister_client s task.id all)
