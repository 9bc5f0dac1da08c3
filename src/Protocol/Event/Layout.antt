-- ===== src/Protocol/Event/Layout.antt =====
-- crates/protocol/src/event.rs: what the bytes of an event hold.
use fake_notify.Base.{
  ℕ, ◌+◌, ◌-◌, ◌*◌, ◌/◌, ◌%◌, ◌≤◌, ◌<◌, ◌≡◌, refl, arith, none, some, List, ◌∷◌, ◌++◌, length, take,
  drop, replicate, Endian, little, big, to_ne_bytes, from_ne_bytes, IsU32, length-append,
  append_assoc, length-drop, take_of_length-le,
}
use fake_notify.Base.Bits.{bit_and-not_three}
use fake_notify.Protocol.Event.{
  InotifyEvent, header_to_bytes, padded_len, to_bytes_with_name, word_at, from_bytes,
}

pub length-header_to_bytes : (ne : Endian) (e : InotifyEvent) → length (header_to_bytes ne e) ≡ 16
unfolding header_to_bytes to_ne_bytes
length-header_to_bytes little e = refl
length-header_to_bytes big e = refl

-- Every field of the event is a 32-bit word.
pub record IsWellFormed (e : InotifyEvent) : Type 0 where
  pub wd_word : IsU32 e.wd
  pub mask_word : IsU32 e.mask
  pub cookie_word : IsU32 e.cookie
  pub len_word : IsU32 e.len

-- Parsing the header of a well-formed event gives the event back, whatever bytes follow, on either
-- byte order.
pub from_bytes-header_to_bytes :
    (ne : Endian) (e : InotifyEvent) (rest : List ℕ)
    → IsWellFormed e
    → from_bytes ne (header_to_bytes ne e ++ rest) ≡ some e
unfolding from_bytes header_to_bytes to_ne_bytes from_ne_bytes
from_bytes-header_to_bytes little e rest v = ground arith
from_bytes-header_to_bytes big e rest v = ground arith

four_bytes :
    (ne : Endian) (bs : List ℕ) → 4 ≤ length bs → (w : ℕ) × (from_ne_bytes ne (take 4 bs) ≡ some w)
unfolding from_ne_bytes
four_bytes little (a ∷ b ∷ c ∷ d ∷ bs) h = (_, refl)
four_bytes big (a ∷ b ∷ c ∷ d ∷ bs) h = (_, refl)
four_bytes ne bs h = absurd (omega arith)

word_within :
    (ne : Endian) (from : ℕ) (buf : List ℕ)
    → from + 4 ≤ length buf
    → (w : ℕ) × (word_at ne from buf ≡ some w)
unfolding word_at
word_within ne from buf h = four_bytes ne (drop from buf) (omega (arith, length-drop from buf))

-- A buffer of fewer than sixteen bytes does not parse, and every other buffer does.
pub from_bytes_total :
    (ne : Endian) (buf : List ℕ)
    → (length buf < 16 → from_bytes ne buf ≡ none)
      × (16 ≤ length buf → (e : InotifyEvent) × (from_bytes ne buf ≡ some e))
unfolding from_bytes
from_bytes_total ne buf = (λ h. ground arith, whole)
  where
    whole : 16 ≤ length buf → (e : InotifyEvent) × (from_bytes ne buf ≡ some e)
    whole h =
        let (wd, p) = word_within ne 0 buf (omega arith) in
        let (mask, q) = word_within ne 4 buf (omega arith) in
        let (cookie, r) = word_within ne 8 buf (omega arith) in
        let (len, s) = word_within ne 12 buf (omega arith) in
        (record { wd = wd; mask = mask; cookie = cookie; len = len }, ground (arith, p, q, r, s))

pub padded_len_lem : (n : ℕ) → n < 9223372036854775808 → padded_len n ≡ (n + 4) / 4 * 4
unfolding padded_len
padded_len_lem n h = omega (arith, bit_and-not_three (n + 1 + 3) (omega arith))

-- A name of less than 2^63 bytes has room for a terminator and at most three more zeros behind it,
-- and its padded length is a multiple of four.
pub padded_len_bounds :
    (n : ℕ)
    → n < 9223372036854775808
    → (n + 1 ≤ padded_len n) × (padded_len n ≤ n + 4) × (padded_len n % 4 ≡ 0)
padded_len_bounds n h = omega (arith, padded_len_lem n h)

-- A name that `to_bytes_with_name` can measure: its padded length is a 32-bit word.
abbrev pub Fits : List ℕ → Type 0
Fits name = length name < 4294967288

-- The event as the header shows it.
abbrev pub named : InotifyEvent → List ℕ → InotifyEvent
named e name = record e { len = padded_len (length name) }

-- The zeros behind the name.
abbrev pub padding : List ℕ → List ℕ
padding name = replicate (padded_len (length name) - length name) 0

pub to_bytes_with_name_lem :
    (ne : Endian) (e : InotifyEvent) (name : List ℕ)
    → Fits name
    → to_bytes_with_name ne e name ≡ header_to_bytes ne (named e name) ++ (name ++ padding name)
unfolding to_bytes_with_name
to_bytes_with_name_lem ne e name h =
    rw (fits, take_of_length-le _ _ room, measured, header_drop, append_assoc)
  where
    bounds :
        (length name + 1 ≤ padded_len (length name)) × (padded_len (length name) ≤ length name + 4)
    bounds = let b = padded_len_bounds (length name) (omega arith) in (b.0, b.1)

    fits : padded_len (length name) % 4294967296 ≡ padded_len (length name)
    fits = omega (arith, bounds)

    measured : length (header_to_bytes ne (named e name) ++ name) ≡ 16 + length name
    measured = omega (
      arith,
      length-append (header_to_bytes ne (named e name)) name,
      length-header_to_bytes ne (named e name),
    )

    room : length (header_to_bytes ne (named e name) ++ name) ≤ 16 + padded_len (length name)
    room = omega (arith, measured, bounds)

    header_drop :
        16 + padded_len (length name) - (16 + length name) ≡ padded_len (length name) - length name
    header_drop = omega arith
