-- ===== src/Protocol/Message/Framing.antt =====
-- crates/protocol/src/message.rs: reading a stream of frames. `read_exact` is the reader's method of
-- that name, over the bytes that arrive before the peer hangs up.
use fake_notify.Base.{
  ap, ℕ, ◌%◌, ◌<◌, ◌≡◌, refl, Option, none, some, List, ◌++◌, length, take, drop, ltb,
  if◌then◌else◌, to_le_bytes, from_le_bytes, arith, length-append, take-append, drop-append,
  append_assoc,
}
use fake_notify.Base.{Text, Result, ok, err, map_err}
use fake_notify.Protocol.Message.{
  Bincode, Request, request_to_bytes, request_from_bytes, IsFaithful, serialization, Response,
  response_to_bytes, response_from_bytes, frame, read_length,
}

-- The bytes asked for and the rest; `none` at the end of the stream.
unfoldable pub read_exact : ℕ → List ℕ → Option (List ℕ × List ℕ)
read_exact n input = if ltb (length input) n then none else some (take n input, drop n input)

pub read_exact-append : (xs ys : List ℕ) → read_exact (length xs) (xs ++ ys) ≡ some (xs, ys)
unfolding read_exact
read_exact-append xs ys = ground (arith, length-append xs ys, take-append xs ys, drop-append xs ys)

pub length-to_le_bytes : (n : ℕ) → length (to_le_bytes n) ≡ 4
unfolding to_le_bytes
length-to_le_bytes n = refl

-- The length prefix of a frame is the length of the payload, whatever follows the frame.
pub read_length-frame :
    (payload rest : List ℕ)
    → length payload < 4294967296
    → read_length (frame payload ++ rest) ≡ some (length payload)
unfolding read_length frame to_le_bytes from_le_bytes
read_length-frame payload rest h = ground arith

-- A frame splits into its four bytes of length and the payload.
pub read_exact-frame :
    (payload rest : List ℕ)
    → read_exact 4 (frame payload ++ rest)
      ≡ some (to_le_bytes (length payload % 4294967296), payload ++ rest)
unfolding frame to_le_bytes
read_exact-frame payload rest =
    rw append_assoc
      (read_exact-append (to_le_bytes (length payload % 4294967296)) (payload ++ rest))

ok_inner : (x : Result (List ℕ) Text) (bs : List ℕ) → map_err serialization x ≡ ok bs → x ≡ ok bs
ok_inner (ok a) bs h = ground (arith, h)
ok_inner (err e) bs h = absurd (ground (arith, h))

-- A response comes back from its bytes.
pub response_back :
    (b : Bincode) (r : Response) (payload : List ℕ)
    → IsFaithful b
    → response_to_bytes b r ≡ ok payload
    → response_from_bytes b payload ≡ ok r
unfolding response_to_bytes response_from_bytes
response_back b r payload f h =
    ap (map_err serialization) (f.response r payload (ok_inner (b.serialize_response r) payload h))

-- A request comes back from its bytes.
pub request_back :
    (b : Bincode) (r : Request) (payload : List ℕ)
    → IsFaithful b
    → request_to_bytes b r ≡ ok payload
    → request_from_bytes b payload ≡ ok r
unfolding request_to_bytes request_from_bytes
request_back b r payload f h =
    ap (map_err serialization) (f.request r payload (ok_inner (b.serialize_request r) payload h))
