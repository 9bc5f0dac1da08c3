-- ===== src/Protocol/Event.antt =====
-- crates/protocol/src/event.rs: the mask constants and the binary layout of `struct inotify_event`.
-- An `EventMask` is its bits. What the macro of the crate bitflags generates from the constants
-- (`bits`, `|`, `intersects`, `from_bits_truncate`) is the bit operation that its documentation
-- names. `usize` has 64 bits.
pub mod Layout
pub mod Stream
use fake_notify.Base.{
  ℕ, suc, ◌+◌, ◌-◌, ◌%◌, bit_and, bit_or, Bool, not, Option, none, some, List, [], ◌∷◌, ◌++◌,
  length, take, drop, replicate, ltb, nat_beq, if◌then◌else◌, Endian, to_ne_bytes, from_ne_bytes,
  u32_mod, ◌>>=◌,
}

abbrev pub EventMask : Type 0
EventMask = ℕ

abbrev pub in_access : EventMask
in_access = 0x0000_0001

abbrev pub in_modify : EventMask
in_modify = 0x0000_0002

abbrev pub in_attrib : EventMask
in_attrib = 0x0000_0004

abbrev pub in_close_write : EventMask
in_close_write = 0x0000_0008

abbrev pub in_close_nowrite : EventMask
in_close_nowrite = 0x0000_0010

abbrev pub in_open : EventMask
in_open = 0x0000_0020

abbrev pub in_moved_from : EventMask
in_moved_from = 0x0000_0040

abbrev pub in_moved_to : EventMask
in_moved_to = 0x0000_0080

abbrev pub in_create : EventMask
in_create = 0x0000_0100

abbrev pub in_delete : EventMask
in_delete = 0x0000_0200

abbrev pub in_delete_self : EventMask
in_delete_self = 0x0000_0400

abbrev pub in_move_self : EventMask
in_move_self = 0x0000_0800

abbrev pub union : List EventMask → EventMask
union [] = 0
union (m ∷ ms) = bit_or m (union ms)

abbrev pub in_close : EventMask
in_close = bit_or in_close_write in_close_nowrite

abbrev pub in_move : EventMask
in_move = bit_or in_moved_from in_moved_to

-- The constants that IN_ALL_EVENTS joins, in its order.
abbrev pub watchable : List EventMask
watchable =
    in_access ∷ in_modify ∷ in_attrib ∷ in_close_write ∷ in_close_nowrite ∷ in_open ∷ in_moved_from
    ∷ in_moved_to ∷ in_create ∷ in_delete ∷ in_delete_self ∷ in_move_self ∷ []

abbrev pub in_all_events : EventMask
in_all_events = union watchable

abbrev pub in_onlydir : EventMask
in_onlydir = 0x0100_0000

abbrev pub in_dont_follow : EventMask
in_dont_follow = 0x0200_0000

abbrev pub in_mask_add : EventMask
in_mask_add = 0x2000_0000

abbrev pub in_oneshot : EventMask
in_oneshot = 0x8000_0000

abbrev pub in_ignored : EventMask
in_ignored = 0x0000_8000

abbrev pub in_isdir : EventMask
in_isdir = 0x4000_0000

abbrev pub in_q_overflow : EventMask
in_q_overflow = 0x0000_4000

abbrev pub in_unmount : EventMask
in_unmount = 0x0000_2000

-- Every bit that some constant of the block names.
abbrev pub known_bits : EventMask
known_bits = bit_or in_all_events (
    union (
      in_onlydir ∷ in_dont_follow ∷ in_mask_add ∷ in_oneshot ∷ in_ignored ∷ in_isdir ∷ in_q_overflow
      ∷ in_unmount ∷ []))

-- `EventMask::from_bits_truncate`
unfoldable pub from_bits_truncate : ℕ → EventMask
from_bits_truncate bits = bit_and bits known_bits

-- `self.intersects(other)`
unfoldable pub intersects : EventMask → EventMask → Bool
intersects a b = not (nat_beq (bit_and a b) 0)

pub record InotifyEvent : Type 0 where
  pub wd : ℕ
  pub mask : ℕ
  pub cookie : ℕ
  pub len : ℕ

-- The size of four fields of four bytes.
abbrev pub header_size : ℕ
header_size = 16

-- `InotifyEvent::new`
unfoldable pub new : ℕ → ℕ → ℕ → InotifyEvent
new wd mask cookie = record { wd = wd; mask = mask; cookie = cookie; len = 0 }

unfoldable pub with_name_len : ℕ → ℕ → ℕ → ℕ → InotifyEvent
with_name_len wd mask cookie name_len = record {
  wd = wd;
  mask = mask;
  cookie = cookie;
  len = name_len;
}

unfoldable pub total_size : InotifyEvent → ℕ
total_size e = header_size + e.len

-- The four writes fill the buffer from its start.
unfoldable pub header_to_bytes : Endian → InotifyEvent → List ℕ
header_to_bytes ne e =
    to_ne_bytes ne e.wd
    ++ (to_ne_bytes ne e.mask ++ (to_ne_bytes ne e.cookie ++ to_ne_bytes ne e.len))

-- `(n + 1 + 3) & !3`, for a name of n bytes.
unfoldable pub padded_len : ℕ → ℕ
padded_len name_len =
    let name_len_with_null = name_len + 1 in bit_and (name_len_with_null + 3) 0xffff_ffff_ffff_fffc

-- `Vec::resize(n, 0)` on a buffer.
unfoldable pub resize : List ℕ → ℕ → List ℕ
resize buf n = take n buf ++ replicate (n - length buf) 0

unfoldable pub to_bytes_with_name : Endian → InotifyEvent → List ℕ → List ℕ
unfolding resize
to_bytes_with_name ne e name =
    let padded = padded_len (length name) in
    let event = record e { len = padded % u32_mod } in
    resize (header_to_bytes ne event ++ name) (header_size + padded)

-- `&buf[from..from + 4]`, read as a word.
unfoldable pub word_at : Endian → ℕ → List ℕ → Option ℕ
word_at ne from buf = from_ne_bytes ne (take 4 (drop from buf))

unfoldable pub from_bytes : Endian → List ℕ → Option InotifyEvent
unfolding word_at
from_bytes ne buf = if ltb (length buf) header_size then none else do
  wd ← word_at ne 0 buf
  mask ← word_at ne 4 buf
  cookie ← word_at ne 8 buf
  len ← word_at ne 12 buf
  some (record { wd = wd; mask = mask; cookie = cookie; len = len })

unfoldable pub event_mask : InotifyEvent → EventMask
unfolding from_bits_truncate
event_mask e = from_bits_truncate e.mask

unfoldable pub event_size_with_name : ℕ → ℕ
event_size_with_name name_len = header_size + padded_len name_len
