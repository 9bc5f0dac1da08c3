-- ===== src/Base/Words.antt =====
-- Fixed-width integers as bytes. A byte is a number below 256, a word its value; an `i32` is the
-- number below 2 ^ 32 that has its bit pattern.
use Prim.Native.Nat.{ℕ, ◌+◌, ◌*◌, ◌/◌, ◌%◌, ◌<◌}
use mathlib.Core.Path.{◌≡◌}
use mathlib.Core.List.{List, [], ◌∷◌}
use mathlib.Core.Option.{Option, none, some}
use native.Mathlib.Omega.{arith}

abbrev pub u32_mod : ℕ
u32_mod = 4294967296

abbrev pub u64_mod : ℕ
u64_mod = 18446744073709551616

abbrev pub IsByte : ℕ → Type 0
IsByte b = b < 256

abbrev pub IsU32 : ℕ → Type 0
IsU32 n = n < 4294967296

-- The byte order of the target, which `to_ne_bytes` and `from_ne_bytes` follow.
pub data Endian : Type 0 where
  little big : Endian

-- `u32::to_le_bytes`
unfoldable pub to_le_bytes : ℕ → List ℕ
to_le_bytes n = (n % 256) ∷ (n / 256 % 256) ∷ (n / 65536 % 256) ∷ (n / 16777216 % 256) ∷ []

-- `u32::from_le_bytes(bytes.try_into().ok()?)`: `none` unless there are four bytes.
unfoldable pub from_le_bytes : List ℕ → Option ℕ
from_le_bytes (a ∷ b ∷ c ∷ d ∷ []) = some (a + b * 256 + c * 65536 + d * 16777216)
from_le_bytes _ = none

unfoldable pub to_ne_bytes : Endian → ℕ → List ℕ
unfolding to_le_bytes
to_ne_bytes little n = to_le_bytes n
to_ne_bytes big n = (n / 16777216 % 256) ∷ (n / 65536 % 256) ∷ (n / 256 % 256) ∷ (n % 256) ∷ []

unfoldable pub from_ne_bytes : Endian → List ℕ → Option ℕ
unfolding from_le_bytes
from_ne_bytes little bytes = from_le_bytes bytes
from_ne_bytes big (a ∷ b ∷ c ∷ d ∷ []) = some (d + c * 256 + b * 65536 + a * 16777216)
from_ne_bytes big _ = none

pub from_le_bytes-to_le_bytes : (n : ℕ) → from_le_bytes (to_le_bytes n) ≡ some (n % 4294967296)
unfolding from_le_bytes to_le_bytes
from_le_bytes-to_le_bytes n = ground arith

pub from_ne_bytes-to_ne_bytes :
    (e : Endian) (n : ℕ) → from_ne_bytes e (to_ne_bytes e n) ≡ some (n % 4294967296)
unfolding from_ne_bytes to_ne_bytes
from_ne_bytes-to_ne_bytes little n = from_le_bytes-to_le_bytes n
from_ne_bytes-to_ne_bytes big n = ground arith
