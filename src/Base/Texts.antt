-- ===== src/Base/Texts.antt =====
-- Texts as bytes: ASCII literals, and the decimal print of `format!`.
use Prim.Native.Nat.{ℕ, zero, suc, ◌+◌, ◌-◌, ◌/◌, ◌%◌}
use Prim.Native.Char.{code}
use Prim.Native.String.{String}
use mathlib.Core.List.{[], ◌∷◌, ◌++◌}
use mathlib.Core.Path.{◌≡◌, refl}
use fake_notify.Base.Tests.{ltb, if◌then◌else◌}
use fake_notify.Base.Paths.{Text}

abbrev pub ascii : String → Text
ascii String.[] = []
ascii (String.◌∷◌ c s) = code c ∷ ascii s

-- The digits of a number below 10 ^ fuel.
unfoldable pub decimal : ℕ → ℕ → Text
decimal zero n = []
decimal (suc fuel) n =
    let last = (n % 10 + b'0') ∷ [] in
    let front = decimal fuel (n / 10) in if ltb n 10 then last else front ++ last

-- `{}` of an `i32`, by its bit pattern; it has at most ten digits.
unfoldable pub show_i32 : ℕ → Text
unfolding decimal
show_i32 n = if ltb n 2147483648 then decimal 10 n else b'-' ∷ decimal 10 (4294967296 - n)

show_minus_one : show_i32 4294967295 ≡ ascii "-1"
unfolding show_i32
show_minus_one = refl

show_120 : show_i32 120 ≡ ascii "120"
unfolding show_i32
show_120 = refl
