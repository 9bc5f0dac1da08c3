-- ===== src/Preload/Responses.antt =====
-- crates/preload/src/lib.rs: `send_request` on what waits in the socket.
use fake_notify.Base.{
  ℕ, zero, suc, ◌+◌, ◌%◌, ◌≤◌, ◌≡◌, refl, sym, ap, ◌∙◌, true, Option, none, some, List, [], ◌∷◌,
  ◌++◌, length, drop, ok, err, arith, nat_eq, take-append, drop-append, length-append, append_assoc,
  to_le_bytes, from_le_bytes,
}
use fake_notify.Protocol.Message.{
  Bincode, IsFaithful, Request, Response, request_to_bytes, response_to_bytes, response_from_bytes,
  frame, read_length, max_size,
}
use fake_notify.Protocol.Message.Framing.{response_back, length-to_le_bytes}
use fake_notify.Preload.{Peer, Stream, read_from, read_response, send_request}

abbrev drop_nothing : {A : Type 0} (n : ℕ) → drop {A = A} n [] ≡ []
drop_nothing zero = refl
drop_nothing (suc n) = refl

pub drop_add : {A : Type 0} (a b : ℕ) (xs : List A) → drop (a + b) xs ≡ drop b (drop a xs)
drop_add zero b xs = let e : 0 + b ≡ b = omega arith in ap (λ n. drop n xs) e
drop_add (suc a) b [] = drop_nothing (suc a + b) ∙ sym (drop_nothing b)
drop_add (suc a) b (x ∷ xs) =
    let e : suc a + b ≡ suc (a + b) = omega arith in ap (λ n. drop n (x ∷ xs)) e ∙ drop_add a b xs

-- What waits in the socket is read from its front.
read_from-waiting :
    (peer : Peer) (s : Stream) (xs ys : List ℕ) (n : ℕ)
    → n ≡ length xs
    → drop s.taken (peer.output s.written) ≡ xs ++ ys
    → read_from peer s n ≡ (record s { taken = s.taken + n }, some xs)
unfolding read_from
read_from-waiting peer s xs ys n e h =
    rw (h, e) (ground (arith, length-append xs ys, take-append xs ys))

-- What waits behind a part that is read.
waiting_behind :
    (peer : Peer) (s : Stream) (xs ys : List ℕ) (n : ℕ)
    → n ≡ length xs
    → drop s.taken (peer.output s.written) ≡ xs ++ ys
    → drop (s.taken + n) (peer.output s.written) ≡ ys
waiting_behind peer s xs ys n e h =
    drop_add s.taken n (peer.output s.written) ∙ ap (drop n) h ∙ rw e (drop-append xs ys)

read_length-to_le_bytes : (n : ℕ) → read_length (to_le_bytes n) ≡ some (n % 4294967296)
unfolding read_length to_le_bytes from_le_bytes
read_length-to_le_bytes n = ground arith

-- What becomes of a payload that is taken for a response.
abbrev pub received : Bincode → List ℕ → Option Response
received b payload = elim (response_from_bytes b payload) [ ok r ↦ some r | err e ↦ none ]

-- The frame at the front of what waits is read, whatever is in it.
read_response-front :
    (b : Bincode) (peer : Peer) (s : Stream) (payload more : List ℕ)
    → length payload ≤ max_size
    → drop s.taken (peer.output s.written) ≡ frame payload ++ more
    → read_response b peer s
      ≡ (record s { taken = s.taken + (4 + length payload) }, received b payload)
unfolding read_response frame
read_response-front b peer s payload more h waits =
    let len_buf = to_le_bytes (length payload % 4294967296) in
    let first : drop s.taken (peer.output s.written) ≡ len_buf ++ (payload ++ more) =
      waits ∙ append_assoc len_buf payload more in
    let four : 4 ≡ length len_buf = sym (length-to_le_bytes _) in
    let whole : length payload % 4294967296 % 4294967296 ≡ length payload = omega (arith, h) in
    let header = read_from-waiting peer s len_buf (payload ++ more) 4 four first in
    let body =
      read_from-waiting peer (record s { taken = s.taken + 4 }) payload more
        (length payload % 4294967296 % 4294967296) whole
        (waiting_behind peer s len_buf (payload ++ more) 4 four first) in
    rw
      (
        read_response,
        header,
        read_length-to_le_bytes (length payload % 4294967296),
        ap (λ x. x.0) header,
        body,
        ap (λ x. x.0) header,
        ap (λ x. x.0) body,
      )
      (ground (arith, h))

-- With a codec that is faithful, when the frame of a response of at most the limit's size is at the
-- front of what waits in the socket, `read_response` returns that response and takes exactly that
-- frame.
pub read_response-frame :
    (b : Bincode) (peer : Peer) (s : Stream) (r : Response) (payload more : List ℕ)
    → IsFaithful b
    → response_to_bytes b r ≡ ok payload
    → length payload ≤ max_size
    → drop s.taken (peer.output s.written) ≡ frame payload ++ more
    → read_response b peer s ≡ (record s { taken = s.taken + (4 + length payload) }, some r)
read_response-frame b peer s r payload more f e h waits =
    read_response-front b peer s payload more h waits
    ∙ ap (λ (x : Option Response). (record s { taken = s.taken + (4 + length payload) }, x))
        (rw (response_back b r payload f e, received) refl)

-- A request reads whatever frame is the next, and makes of it what the codec makes.
pub send_request-front :
    (b : Bincode) (peer : Peer) (s : Stream) (q : Request) (asked payload more : List ℕ)
    → peer.accepts ≡ true
    → request_to_bytes b q ≡ ok asked
    → length payload ≤ max_size
    → drop s.taken (peer.output (s.written ++ frame asked)) ≡ frame payload ++ more
    → send_request b peer s q ≡ (
      record { written = s.written ++ frame asked; taken = s.taken + (4 + length payload) },
      received b payload,
    )
unfolding send_request read_response read_from
send_request-front b peer s q asked payload more up sent h waits =
    rw (sent, up, send_request)
      (read_response-front b peer (record s { written = s.written ++ frame asked }) payload more h
        waits)

-- A request whose reply is behind an older response reads the older response.
pub send_request-frame :
    (b : Bincode) (peer : Peer) (s : Stream) (q : Request) (r : Response)
    → (asked payload more : List ℕ) → IsFaithful b
    → peer.accepts ≡ true
    → request_to_bytes b q ≡ ok asked
    → response_to_bytes b r ≡ ok payload
    → length payload ≤ max_size
    → drop s.taken (peer.output (s.written ++ frame asked)) ≡ frame payload ++ more
    → send_request b peer s q ≡ (
      record { written = s.written ++ frame asked; taken = s.taken + (4 + length payload) },
      some r,
    )
send_request-frame b peer s q r asked payload more f up sent e h waits =
    send_request-front b peer s q asked payload more up sent h waits
    ∙ ap
        (λ (x : Option Response). (
          record { written = s.written ++ frame asked; taken = s.taken + (4 + length payload) },
          x,
        ))
        (rw (response_back b r payload f e, received) refl)

-- The bytes of a frame.
pub length-frame : (payload : List ℕ) → 4 + length payload ≡ length (frame payload)
unfolding frame to_le_bytes
length-frame payload = omega arith
