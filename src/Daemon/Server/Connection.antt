-- ===== src/Daemon/Server/Connection.antt =====
-- crates/daemon/src/server.rs: a connection from its first byte to its last.
use fake_notify.Base.{
  ℕ, zero, suc, ◌+◌, ◌≤◌, ◌<◌, ◌≡◌, refl, ◌∙◌, inl, inr, true, false, none, some, List, length, get,
  get-modify, get-insert, get-remove, FilePath, Result, ok, err, arith, Bool-cases, Option-cases,
  ◌==◌, nat_eq, list_eq, component_eq,
}
use fake_notify.Protocol.Message.{
  ProtocolError, Response, client_registered, request_from_bytes, response_to_bytes, max_size,
  frame,
}
use fake_notify.Daemon.State
use fake_notify.Daemon.State.{
  DaemonState, Client, ClientId, Writer, deliver, send_event, subscribes, subscribed_in,
  unregister_client, push_watch, drop_watch,
}
use fake_notify.Daemon.State.Invariant.{IsValid, subs}
use fake_notify.Daemon.State.Invariant.Joining.{register_client-IsValid, unused}
use fake_notify.Daemon.State.Invariant.Leaving.{
  unregister_client-IsValid, subscribes-unregister_client,
}
use fake_notify.Daemon.State.Release.{subscribed_in_nothing}
use fake_notify.Daemon.Server.{Platform, send_response, answer, next_message, serve, handle_client}
use fake_notify.Protocol.Message.Framing.{read_exact}
use fake_notify.Base.{length-drop, length-take-le, take, drop, from_le_bytes}
use fake_notify.Daemon.Server.Session.{IsServing, Served, answer-Served, send_response-Served}

-- A message that is read takes four bytes at least from the input, and its payload is no longer
-- than the limit.
pub next_message_takes :
    (input payload rest : List ℕ)
    → next_message input ≡ some (payload, rest)
    → (length rest + 4 ≤ length input) × (length payload ≤ max_size)
unfolding next_message read_exact
next_message_takes input payload rest h = elim (Option-cases (from_le_bytes (take 4 input))) [
  | inl bad ↦ absurd (ground (arith, bad, h))
  | inr (len, e) ↦ ground (
    arith,
    e,
    h,
    length-drop 4 input,
    length-drop len (drop 4 input),
    length-take-le len (drop 4 input),
  )
]

-- The state after the registration.
pub registered-IsServing :
    (s : DaemonState) (writer : Writer) (k : ℕ)
    → IsValid s
    → s.next_client_id + 2 < 18446744073709551616
    → s.next_wd + k < 4294967296
    → s.next_wd + 1 < 4294967296
    → IsServing (State.register_client s writer).0 s.next_client_id k
unfolding State.register_client
registered-IsServing s writer k v ids wds one = record {
  valid = register_client-IsValid s writer (omega arith) v;
  connected = (
    State.new_client s.next_client_id writer,
    ground (
      arith,
      get-insert s.clients s.next_client_id (State.new_client s.next_client_id writer)
          s.next_client_id,
    ),
  );
  wds_left = wds;
  clients_left = omega (arith, ids);
}

unregister_forgets : (s : DaemonState) (id : ℕ) → get (unregister_client s id).clients id ≡ none
unfolding unregister_client
unregister_forgets s id = ground (arith, get-remove s.clients id id)

pub exhaust : {s : DaemonState} {id k : ℕ} → IsServing s id k → IsServing s id 0
exhaust v = record {
  valid = v.valid;
  connected = v.connected;
  wds_left = omega (arith, v.wds_left);
  clients_left = v.clients_left;
}

module _ (os : Platform) where
  -- The loop ends on every input, and keeps the state valid and the other clients' subscriptions.
  pub serve-Served :
      (fuel : ℕ) (s : DaemonState) (id : ℕ) (input : List ℕ)
      → length input < fuel
      → IsServing s id fuel
      → (t : DaemonState) × (serve os fuel s id input ≡ some t) × Served id 0 s t
  unfolding serve
  serve-Served zero s id input h v = elim h [ ]
  serve-Served (suc fuel) s id input h v = elim (Option-cases (next_message input)) [
    | inl e ↦ (s, ground (arith, e), (exhaust v, λ d p ne. refl))
    | inr ((payload, rest), e) ↦
        let r = answer os fuel s id (request_from_bytes os.bincode payload) in
        let (v', keeps) =
          answer-Served os fuel fuel s id (request_from_bytes os.bincode payload) v in
        elim (Bool-cases r.1) [
          | inl more ↦
              let (t, ends, (v'', keeps')) =
                serve-Served fuel r.0 id rest
                  (omega (arith, (next_message_takes input payload rest e).0)) v' in
              (t, ground (arith, e, more, ends), (v'', λ d p ne. keeps' d p ne ∙ keeps d p ne))
          | inr stop ↦ (r.0, ground (arith, e, stop), (exhaust v', keeps))
        ]
  ]

  -- A client whose greeting goes out, in a valid state whose counters have room for the client and
  -- for a watch in each round: whatever the client sends, its session ends, in a valid state in
  -- which the client is forgotten and every subscription is as it was before it came.
  pub handle_client_leaves :
      (s : DaemonState) (writer : Writer) (input : List ℕ)
      → IsValid s
      → s.next_client_id + 2 < 18446744073709551616
      → s.next_wd + suc (length input) < 4294967296
      → (send_response os
          (State.register_client s writer).0
          s.next_client_id
          (client_registered s.next_client_id)).1
        ≡ true
      → (t : DaemonState) × (handle_client os s writer input ≡ some t)
        × IsValid t
        × (get t.clients s.next_client_id ≡ none)
        × ((d : ℕ) (p : FilePath) → subscribes t d p ≡ subscribes s d p)
  unfolding handle_client State.register_client
  handle_client_leaves s writer input v ids wds greeted =
      let id = s.next_client_id in
      let start =
        registered-IsServing s writer (suc (length input)) v ids wds (omega (arith, wds)) in
      let (v', keeps) =
        send_response-Served os _ id (suc (length input)) (client_registered id) start in
      let (t, ends, (v'', keeps')) =
        serve-Served (suc (length input)) _ id input (omega arith) v' in
      (
        unregister_client t id,
        ground (arith, greeted, ends),
        unregister_client-IsValid t id v''.valid,
        unregister_forgets t id,
        λ d p. elim (Bool-cases (d == id)) [
          | inl same ↦ ground (
            arith,
            same,
            subscribes-unregister_client t id d p v''.valid,
            subscribed_in_nothing (subs s) (s.watches, s.path_to_wd) v.linked id p
                (unused s writer (omega (arith, ids, wds)) v),
          )
          | inr other ↦ ground (
            arith,
            other,
            subscribes-unregister_client t id d p v''.valid,
            keeps' d p (ground (arith, other)),
            keeps d p (ground (arith, other)),
          )
        ],
      )

  -- Nothing goes out to a client that hung up, and it stays in the table.
  send_response_gone :
      (s : DaemonState) (id : ℕ) (r : Response) (cl : Client)
      → get s.clients id ≡ some cl
      → cl.writer.is_open ≡ false
      → ((send_response os s id r).1 ≡ false)
        × ((cl' : Client) × (get (send_response os s id r).0.clients id ≡ some cl'))
  unfolding send_response deliver
  send_response_gone s id r cl at gone = go (response_to_bytes os.bincode r) refl
    where
      go :
          (p : Result (List ℕ) ProtocolError)
          → response_to_bytes os.bincode r ≡ p
          → ((send_response os s id r).1 ≡ false)
            × ((cl' : Client) × (get (send_response os s id r).0.clients id ≡ some cl'))
      go (err e) h = rw (h, send_response) (refl, (cl, at))
      go (ok payload) h =
          rw (h, send_response)
            (
              ground (arith, at, gone),
              (
                (State.send_event cl (frame payload)).0,
                ground (
                  arith,
                  at,
                  get-modify s.clients id (λ (x : Client). (send_event x (frame payload)).0) id,
                ),
              ),
            )

  -- When a client hung up before its greeting, `handle_client` ends, and the client is still in the
  -- table of clients.
  pub handle_client_leaks :
      (s : DaemonState) (writer : Writer) (input : List ℕ)
      → writer.is_open ≡ false
      → (t : DaemonState) × (handle_client os s writer input ≡ some t)
        × ((cl : Client) × (get t.clients s.next_client_id ≡ some cl))
  unfolding handle_client State.register_client State.new_client
  handle_client_leaks s writer input gone =
      let id = s.next_client_id in
      let r = (State.register_client s writer).0 in
      let (unsent, kept) =
        send_response_gone r id (client_registered id) (State.new_client id writer)
          (ground (arith, get-insert s.clients id (State.new_client id writer) id)) gone in
      ((send_response os r id (client_registered id)).0, ground (arith, unsent), kept)
