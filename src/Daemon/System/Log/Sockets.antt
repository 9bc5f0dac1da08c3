-- ===== src/Daemon/System/Log/Sockets.antt =====
-- crates/daemon/src/server.rs, state.rs and watcher.rs: the bytes on one connection's socket.
use fake_notify.Base.{
  ℕ, ◌+◌, ◌<◌, ◌≡◌, refl, sym, ◌∙◌, ap, subst, true, false, Bool, Option, none, some, List, [], ◌∷◌,
  ◌++◌, append-nil, append_assoc, Map, get, get-insert, nat_eq, arith, Bool-cases, inl, inr, Result,
  ok, err, ◌==◌, if◌then◌else◌,
}
use fake_notify.Protocol.Message.{
  Response, Bincode, ProtocolError, response_to_bytes, client_registered, frame,
}
use fake_notify.Daemon.State
use fake_notify.Daemon.State.{DaemonState, ClientId, Client, Writer, deliver}
use fake_notify.Daemon.Server.{Platform}
use fake_notify.Daemon.System.{
  System, Task, Phase, greeting, reading, replying, leaving, Received, waits, message, breaks,
  receive, take_request, resume, state,
}
use fake_notify.Daemon.System.Log.{Log, Merge, nothing, left, right, owed, encoded, pending}
use fake_notify.Daemon.System.Log.Took.{
  Took, joined, Took-refl, Took-send_response, Took-take_request, Took-unregister_client,
}

encoded-append :
    (b : Bincode) (rs later : List Response)
    → encoded b (rs ++ later) ≡ encoded b rs ++ encoded b later
unfolding encoded
encoded-append b [] later = refl
encoded-append b (r ∷ rs) later = go (response_to_bytes b r) refl (encoded-append b rs later)
  where
    go :
        (x : Result (List ℕ) ProtocolError)
        → response_to_bytes b r ≡ x
        → encoded b (rs ++ later) ≡ encoded b rs ++ encoded b later
        → encoded b (r ∷ (rs ++ later)) ≡ encoded b (r ∷ rs) ++ encoded b later
    go (err e) h ih = rw (h, encoded) ih
    go (ok payload) h ih = rw (h, encoded) (ap (λ x. frame payload ∷ x) ih)

-- Some chunks more on the left.
left_all :
    (more xs ys : List (List ℕ)) (stream : List ℕ)
    → Merge xs ys stream
    → Merge (xs ++ more) ys (stream ++ joined more)
unfolding joined
left_all [] xs ys stream m = rw (append-nil xs) rw (append-nil stream) m
left_all (x ∷ more) xs ys stream m =
    subst (λ w. Merge (xs ++ (x ∷ more)) ys w) (append_assoc stream x (joined more))
      (subst (λ zs. Merge zs ys ((stream ++ x) ++ joined more)) (append_assoc xs (x ∷ []) more)
        (left_all more (xs ++ (x ∷ [])) ys (stream ++ x) (left x m)))

module _ (os : Platform) where
  -- What the connection `d` takes of a step of a task.
  abbrev pub TookOf : ClientId → DaemonState → Task → Option (DaemonState × Option Task) → Type 0
  TookOf d s task none = Unit
  TookOf d s task (some (t, after)) =
      Took d (if task.id == d then joined (encoded os.bincode (owed task)) else []) s.clients
        t.clients

  Took-quiet :
      (d : ClientId) (same : Bool) (before after : Map ClientId Client)
      → Took d [] before after
      → Took d (if same then joined (encoded os.bincode []) else []) before after
  unfolding joined encoded
  Took-quiet d true before after h = h
  Took-quiet d false before after h = h

  pub Took-resume :
      (now : ℕ) (s : DaemonState) (task : Task) (d : ClientId)
      → s.next_wd + 1 < 4294967296
      → TookOf d s task (resume os now s task)
  unfolding resume owed
  Took-resume now s task d room = by_phase task.phase refl
    where
      by_message :
          task.phase ≡ reading
          → (x : Received) → receive task.unread task.ended ≡ x
          → TookOf d s task (resume os now s task)
      by_message e waits h = rw (e, h, resume) tt
      by_message e breaks h =
          rw (e, h, resume)
            (Took-quiet d (task.id == d) s.clients s.clients (Took-refl d s.clients))
      by_message e (message payload rest) h =
          rw (e, h, resume)
            (Took-quiet d (task.id == d) s.clients (take_request os now s task.id payload).0.clients
              (Took-take_request os now s task.id payload d room))

      by_phase : (x : Phase) → task.phase ≡ x → TookOf d s task (resume os now s task)
      by_phase greeting e =
          rw (e, resume) (Took-send_response os s task.id (client_registered task.id) d)
      by_phase reading e = by_message e (receive task.unread task.ended) refl
      by_phase (replying response ends) e =
          rw (e, resume) (Took-send_response os s task.id response d)
      by_phase leaving e =
          rw (e, resume)
            (Took-quiet d (task.id == d) s.clients (State.unregister_client s task.id).clients
              (Took-unregister_client s task.id d))

  -- The socket of the connection, while it is open, has taken what the log says.
  abbrev pub Merges : ClientId → Log → Map ClientId Client → Type 0
  Merges id l clients =
      (cl : Client)
      → get clients id ≡ some cl
      → cl.writer.is_open ≡ true
      → Merge (encoded os.bincode l.said) l.sent cl.writer.written

  pub merged_quiet :
      (id : ClientId) (l : Log) (before after : Map ClientId Client)
      → Took id [] before after
      → Merges id l before
      → Merges id l after
  merged_quiet id l before after took m cl at up =
      let (old, was, open_before, e) = took cl at up in
      subst (Merge (encoded os.bincode l.said) l.sent) (sym (e ∙ append-nil old.writer.written))
        (m old was open_before)

  pub merged_said :
      (id : ClientId) (l : Log) (rs : List Response) (before after : Map ClientId Client)
      → Took id (joined (encoded os.bincode rs)) before after
      → Merges id l before
      → Merges id (record l { said = l.said ++ rs }) after
  merged_said id l rs before after took m cl at up =
      let (old, was, open_before, e) = took cl at up in
      rw e rw (encoded-append os.bincode l.said rs) (
        left_all (encoded os.bincode rs) (encoded os.bincode l.said) l.sent old.writer.written
          (m old was open_before))

  pub merged_sent :
      (id : ClientId) (l : Log) (framed : List ℕ) (before after : Map ClientId Client)
      → Took id framed before after
      → Merges id l before
      → Merges id (record l { sent = l.sent ++ (framed ∷ []) }) after
  merged_sent id l framed before after took m cl at up =
      let (old, was, open_before, e) = took cl at up in rw e (right framed (m old was open_before))

  pub Merges-accept :
      (y : System) (writer : Writer) (id : ClientId) (l : Log)
      → writer.written ≡ []
      → Merges id l (state y).clients
      → Merges id
          (if (state y).next_client_id == id
            then record {
              dues = client_registered id ∷ [];
              said = [];
              planned = pending id y.outgoing;
              sent = [];
            }
            else l)
          (State.register_client (state y) writer).0.clients
  unfolding State.register_client State.new_client encoded
  Merges-accept y writer id l unused m cl at up =
      let s = state y in
      let new =
        get-insert s.clients s.next_client_id (State.new_client s.next_client_id writer) id in
      elim (Bool-cases (s.next_client_id == id)) [
        | inl same ↦
            let this : State.new_client s.next_client_id writer ≡ cl =
              ground (arith, same, at, new) in
            rw same (
              subst (Merge [] []) (sym unused ∙ ap (λ (x : Client). x.writer.written) this) nothing)
        | inr other ↦ rw other (m cl (ground (arith, other, at, new)) up)
      ]
