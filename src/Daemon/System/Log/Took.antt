-- ===== src/Daemon/System/Log/Took.antt =====
-- crates/daemon/src/server.rs and state.rs: what the socket of one connection takes in each operation.
use fake_notify.Base.{
  ℕ, ◌+◌, ◌<◌, ◌≡◌, ◌≢◌, refl, sym, ◌∙◌, ap, subst, true, false, Bool, some, List, [], ◌∷◌, ◌++◌,
  append-nil, Map, get, modify, get-modify, get-remove, nat_eq, arith, Bool-cases, Option-cases,
  inl, inr, Result, ok, err, ◌==◌, if◌then◌else◌,
}
use fake_notify.Protocol.Event.{from_bits_truncate}
use fake_notify.Protocol.Message.{
  Request, register_client, add_watch, remove_watch, ping, ProtocolError, Response,
  response_to_bytes, request_from_bytes, frame,
}
use fake_notify.Daemon.State
use fake_notify.Daemon.State.{
  DaemonState, ClientId, Client, Writer, deliver, send_event, push_watch, drop_watch,
  unregister_client,
}
use fake_notify.Daemon.Server.{Platform, handle_request, send_response}
use fake_notify.Daemon.Server.Session.{add_watch_frame}
use fake_notify.Daemon.System.{take_request}
use fake_notify.Daemon.System.Log.{encoded}

-- Chunks, one behind the other.
unfoldable pub joined : List (List ℕ) → List ℕ
joined [] = []
joined (chunk ∷ later) = chunk ++ joined later

-- A socket that is open now was open before, and has taken the bytes since.
abbrev pub Took : ClientId → List ℕ → Map ClientId Client → Map ClientId Client → Type 0
Took d bytes before after =
    (cl : Client)
    → get after d ≡ some cl
    → cl.writer.is_open ≡ true
    → (old : Client) × (get before d ≡ some old)
      × (old.writer.is_open ≡ true)
      × (cl.writer.written ≡ old.writer.written ++ bytes)

pub Took-refl : (d : ClientId) (clients : Map ClientId Client) → Took d [] clients clients
Took-refl d clients cl at up = (cl, at, up, sym (append-nil cl.writer.written))

-- A change of one entry.
pub Took-modify :
    (clients : Map ClientId Client) (id : ClientId) (f : Client → Client) (d : ClientId)
    (bytes : List ℕ)
    → (id ≡ d
        → (c : Client) → (f c).writer.is_open ≡ true
        → (c.writer.is_open ≡ true) × ((f c).writer.written ≡ c.writer.written ++ bytes))
    → (id ≢ d → bytes ≡ [])
    → Took d bytes clients (modify clients id f)
Took-modify clients id f d bytes own other cl h up = elim (Option-cases (get clients d)) [
  | inl absent ↦ absurd (ground (arith, absent, h, get-modify clients id f d))
  | inr (c, at) ↦ elim (Bool-cases (id == d)) [
    | inl same ↦
        let new : f c ≡ cl = ground (arith, at, same, h, get-modify clients id f d) in
        let (was, took) =
          own (ground (arith, same)) c
            (subst (λ (x : Client). x.writer.is_open ≡ true) (sym new) up) in
        (c, at, was, ap (λ (x : Client). x.writer.written) (sym new) ∙ took)
    | inr apart ↦ (
      cl,
      ground (arith, at, apart, h, get-modify clients id f d),
      up,
      sym (
          ap (λ b. cl.writer.written ++ b) (other (ground (arith, apart)))
          ∙ append-nil cl.writer.written),
    )
  ]
]

-- A change of an entry that leaves its socket alone.
pub Took-rewritten :
    (clients : Map ClientId Client) (id : ClientId) (f : Client → Client) (d : ClientId)
    → ((c : Client) → (f c).writer ≡ c.writer)
    → Took d [] clients (modify clients id f)
Took-rewritten clients id f d keeps =
    Took-modify clients id f d []
      (λ e c up. (
        subst (λ (w : Writer). w.is_open ≡ true) (keeps c) up,
        ap (λ (w : Writer). w.written) (keeps c) ∙ sym (append-nil c.writer.written),
      ))
      (λ apart. refl)

took_sent :
    (id d : ClientId) (bytes : List ℕ)
    → id ≡ d
    → (c : Client) → (send_event c bytes).0.writer.is_open ≡ true
    → (c.writer.is_open ≡ true)
      × ((send_event c bytes).0.writer.written
          ≡ c.writer.written ++ (if id == d then bytes else []))
unfolding send_event
took_sent id d bytes e c up = elim (Bool-cases c.writer.is_open) [
  | inl was ↦ (was, ground (arith, was))
  | inr down ↦ absurd (ground (arith, down, up))
]

pub Took-deliver :
    (clients : Map ClientId Client) (id : ClientId) (bytes : List ℕ) (d : ClientId)
    → Took d (if id == d then bytes else []) clients (deliver clients id bytes).0
unfolding deliver send_event
Took-deliver clients id bytes d = elim (Option-cases (get clients id)) [
  | inl absent ↦
      rw (absent, deliver)
        (λ cl at up. elim (Bool-cases (id == d)) [
          | inl same ↦ absurd (ground (arith, absent, at, same))
          | inr apart ↦ rw apart (cl, at, up, sym (append-nil cl.writer.written))
        ])
  | inr (c, found) ↦
      rw (found, deliver)
        (Took-modify clients id (λ (x : Client). (send_event x bytes).0) d
          (if id == d then bytes else []) (λ e x up. took_sent id d bytes e x up)
          (λ ne. ground (arith, ne)))
]

nothing_either : (b : Bool) → ◌≡◌ {A = List ℕ} (if b then [] else []) []
nothing_either true = refl
nothing_either false = refl

pub Took-unregister_client :
    (s : DaemonState) (id d : ClientId) → Took d [] s.clients (unregister_client s id).clients
unfolding unregister_client
Took-unregister_client s id d = elim (Option-cases (get s.clients id)) [
  | inl absent ↦ rw (absent, unregister_client) (Took-refl d s.clients)
  | inr (c, found) ↦
      rw (found, unregister_client)
        (λ cl at up. elim (Bool-cases (id == d)) [
          | inl same ↦ absurd (ground (arith, same, at, get-remove s.clients id d))
          | inr other ↦ (
            cl,
            ground (arith, other, at, get-remove s.clients id d),
            up,
            sym (append-nil cl.writer.written),
          )
        ])
]

module _ (os : Platform) where
  pub Took-send_response :
      (s : DaemonState) (id : ClientId) (r : Response) (d : ClientId)
      → Took d
          (if id == d then joined (encoded os.bincode (r ∷ [])) else [])
          s.clients
          (send_response os s id r).0.clients
  unfolding send_response encoded joined
  Took-send_response s id r d = go (response_to_bytes os.bincode r) refl
    where
      go :
          (x : Result (List ℕ) ProtocolError)
          → response_to_bytes os.bincode r ≡ x
          → Took d
              (if id == d then joined (encoded os.bincode (r ∷ [])) else [])
              s.clients
              (send_response os s id r).0.clients
      go (err e) h =
          rw (h, send_response) rw (h, encoded)
            (subst (λ b. Took d b s.clients s.clients) (sym (nothing_either (id == d)))
              (Took-refl d s.clients))
      go (ok payload) h =
          rw (h, send_response) rw (h, encoded) rw (append-nil (frame payload))
            (Took-deliver s.clients id (frame payload) d)

  Took-handle_request :
      (now : ℕ) (s : DaemonState) (id : ClientId) (r : Request) (d : ClientId)
      → s.next_wd + 1 < 4294967296
      → Took d [] s.clients (handle_request os now s id r).0.clients
  unfolding handle_request State.remove_watch push_watch drop_watch
  Took-handle_request now s id register_client d room = Took-refl d s.clients
  Took-handle_request now s id (add_watch path mask) d room =
      elim (Bool-cases (os.exists now path)) [
        | inr missing ↦ rw missing (Took-refl d s.clients)
        | inl there ↦
            let mask' = from_bits_truncate mask in
            rw there (
              subst (Took d [] s.clients) (sym (add_watch_frame os s id path mask' true room).0) (
                Took-rewritten s.clients id (push_watch (State.add_watch s id path mask' true).1) d
                  (λ c. refl)))
      ]
  Took-handle_request now s id (remove_watch wd) d room = elim (Option-cases (get s.watches wd)) [
    | inl absent ↦ rw (absent, State.remove_watch) (Took-refl d s.clients)
    | inr (w, found) ↦
        rw (found, State.remove_watch) (Took-rewritten s.clients id (drop_watch wd) d (λ c. refl))
  ]
  Took-handle_request now s id ping d room = Took-refl d s.clients

  pub Took-take_request :
      (now : ℕ) (s : DaemonState) (id : ClientId) (payload : List ℕ) (d : ClientId)
      → s.next_wd + 1 < 4294967296
      → Took d [] s.clients (take_request os now s id payload).0.clients
  unfolding take_request
  Took-take_request now s id payload d room = go (request_from_bytes os.bincode payload) refl
    where
      go :
          (x : Result Request ProtocolError)
          → request_from_bytes os.bincode payload ≡ x
          → Took d [] s.clients (take_request os now s id payload).0.clients
      go (err e) h = rw (h, take_request) (Took-refl d s.clients)
      go (ok r) h = rw (h, take_request) (Took-handle_request now s id r d room)
