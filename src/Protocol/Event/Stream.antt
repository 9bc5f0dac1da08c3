-- ===== src/Protocol/Event/Stream.antt =====
-- crates/protocol/src/event.rs: a stream of events, as a program that reads an inotify descriptor
-- takes it apart: a header, then as many bytes of name as it says, up to the first zero.
use fake_notify.Base.{
  ℕ, zero, suc, ◌-◌, ◌≤◌, ◌<◌, ◌≡◌, refl, ◌∙◌, arith, Option, none, some, List, [], ◌∷◌, ◌++◌,
  length, take, drop, replicate, map, All, Endian, nat_beq, if◌then◌else◌, length-append,
  length-replicate, take-append, drop-append, append_assoc,
}
use fake_notify.Protocol.Event.{
  InotifyEvent, header_to_bytes, padded_len, to_bytes_with_name, from_bytes,
}
use fake_notify.Protocol.Event.Layout.{
  IsWellFormed, Fits, named, padding, padded_len_bounds, length-header_to_bytes,
  to_bytes_with_name_lem, from_bytes-header_to_bytes,
}

-- The bytes before the first zero.
pub until_zero : List ℕ → List ℕ
until_zero [] = []
until_zero (b ∷ bs) = let rest = until_zero bs in if nat_beq b 0 then [] else b ∷ rest

abbrev pub IsName : List ℕ → Type 0
IsName = All (λ b. 0 < b)

module _ (ne : Endian) where
  -- `none` where a header does not parse.
  pub read_events : ℕ → List ℕ → Option (List (InotifyEvent × List ℕ))
  read_events fuel [] = some []
  read_events zero (b ∷ bs) = none
  read_events (suc fuel) (b ∷ bs) = elim (from_bytes ne (b ∷ bs)) [
    | none ↦ none
    | some e ↦ elim (read_events fuel (drop e.len (drop 16 (b ∷ bs)))) [
      | none ↦ none
      | some es ↦ some ((e, until_zero (take e.len (drop 16 (b ∷ bs)))) ∷ es)
    ]
  ]

  pub write_events : List (InotifyEvent × List ℕ) → List ℕ
  write_events [] = []
  write_events ((e, name) ∷ es) = to_bytes_with_name ne e name ++ write_events es

  read_one :
      (fuel : ℕ) (bs : List ℕ) {e : InotifyEvent} {es : List (InotifyEvent × List ℕ)}
      → from_bytes ne bs ≡ some e
      → read_events fuel (drop e.len (drop 16 bs)) ≡ some es
      → read_events (suc fuel) bs ≡ some ((e, until_zero (take e.len (drop 16 bs))) ∷ es)
  unfolding read_events
  read_one fuel [] p q = unfold from_bytes in cc
  read_one fuel (b ∷ bs) p q = ground (arith, p, q)

-- What the layout lemma says, grouped as the reader takes it.
sent :
    (ne : Endian) (e : InotifyEvent) (name rest : List ℕ)
    → Fits name
    → to_bytes_with_name ne e name ++ rest
      ≡ header_to_bytes ne (named e name) ++ ((name ++ padding name) ++ rest)
sent ne e name rest h =
    rw (to_bytes_with_name_lem ne e name h)
      (append_assoc (header_to_bytes ne (named e name)) (name ++ padding name) rest)

drop-header :
    (ne : Endian) (e : InotifyEvent) (rest : List ℕ) → drop 16 (header_to_bytes ne e ++ rest) ≡ rest
drop-header ne e rest =
    let n = length-header_to_bytes ne e in rw n at (drop-append (header_to_bytes ne e) rest)

length-named :
    (name : List ℕ) → Fits name → length (name ++ padding name) ≡ padded_len (length name)
length-named name h =
    let b = padded_len_bounds (length name) (omega arith) in
    omega (
      arith,
      b,
      length-append name (padding name),
      length-replicate {A = ℕ} (padded_len (length name) - length name) 0,
    )

until_zero-append :
    (name : List ℕ) (n : ℕ) → IsName name → 0 < n → until_zero (name ++ replicate n 0) ≡ name
unfolding until_zero
until_zero-append [] zero v h = elim h [ ]
until_zero-append [] (suc n) v h = refl
until_zero-append (b ∷ bs) n v h = ground (arith, until_zero-append bs n v.1 h)

-- What a sender has to see to.
pub record IsSendable (item : InotifyEvent × List ℕ) : Type 0 where
  pub words : IsWellFormed item.0
  pub fits : Fits item.1
  pub no_zero : IsName item.1

abbrev pub received : InotifyEvent × List ℕ → InotifyEvent × List ℕ
received item = (named item.0 item.1, item.1)

split_named :
    (e : InotifyEvent) (name rest : List ℕ)
    → Fits name
    → let body = (name ++ padding name) ++ rest in
      (take (padded_len (length name)) body ≡ name ++ padding name)
      × (drop (padded_len (length name)) body ≡ rest)
split_named e name rest h =
    let n = length-named name h in
    (
      rw n at (take-append (name ++ padding name) rest),
      rw n at (drop-append (name ++ padding name) rest),
    )

read_named :
    (ne : Endian) (fuel : ℕ) (i : InotifyEvent × List ℕ) (rest : List ℕ)
    {es : List (InotifyEvent × List ℕ)}
    → IsSendable i
    → read_events ne fuel rest ≡ some es
    → read_events ne (suc fuel) (to_bytes_with_name ne i.0 i.1 ++ rest) ≡ some (received i ∷ es)
read_named ne fuel (e, name) rest {es} v more =
    let b = padded_len_bounds (length name) (omega (arith, v.fits)) in
    let (front, back) = split_named e name rest v.fits in
    let body : List ℕ = (name ++ padding name) ++ rest in
    let d = drop-header ne (named e name) body in
    rw (sent ne e name rest v.fits) (
      read_one ne fuel (header_to_bytes ne (named e name) ++ body) {es = es}
        (from_bytes-header_to_bytes ne (named e name) body (record {
          wd_word = v.words.wd_word;
          mask_word = v.words.mask_word;
          cookie_word = v.words.cookie_word;
          len_word = omega (arith, v.fits);
        }))
        (rw (d, back) more)
      ∙ rw (
        d,
        front,
        until_zero-append name (padded_len (length name) - length name) v.no_zero (omega arith),
      ))

-- A reader with fuel for every event takes a stream of well-formed events apart as they were
-- written, in order, each with its name, on either byte order. The names have no zero byte and a
-- padded length of 32 bits.
pub read_events-write_events :
    (ne : Endian) (items : List (InotifyEvent × List ℕ)) (fuel : ℕ)
    → All IsSendable items
    → length items ≤ fuel
    → read_events ne fuel (write_events ne items) ≡ some (map received items)
unfolding write_events read_events
read_events-write_events ne [] fuel v h = refl
read_events-write_events ne (i ∷ is) zero v h = elim h [ ]
read_events-write_events ne (i ∷ is) (suc fuel) v h =
    read_named ne fuel i (write_events ne is) v.0
      (read_events-write_events ne is fuel v.1 (omega arith))
