-- ===== src/Base/Bits.antt =====
-- Laws of `&` and `|` at variables, from the recursion on binary digits.
use Prim.Native.Nat.{
  ℕ, zero, suc, ◌+◌, ◌*◌, ◌/◌, ◌%◌, ◌^◌, ◌≤◌, ◌<◌, min, max, bit_and, bit_or, digits,
  bit_and-bitwise, bit_or-bitwise,
}
use mathlib.Core.Path.{◌≡◌, refl, ap, ◌∙◌}
use native.Mathlib.Omega.{arith}

module _ (z : ℕ → ℕ) (f : ℕ → ℕ → ℕ) where
  -- Beyond the number's size the count of digits does not matter.
  digits_enough : (n m a b : ℕ) → a ≤ n → a ≤ m → digits z f n a b ≡ digits z f m a b
  digits_enough zero zero a b p q = refl
  digits_enough zero (suc m) zero b p q = refl
  digits_enough zero (suc m) (suc a) b p q = elim p [ ]
  digits_enough (suc n) zero zero b p q = refl
  digits_enough (suc n) zero (suc a) b p q = elim q [ ]
  digits_enough (suc n) (suc m) zero b p q = refl
  digits_enough (suc n) (suc m) (suc a) b p q =
      rw (digits_enough n m (suc a / 2) (b / 2) (omega arith) (omega arith))

  digits_step :
      ((b : ℕ) → z b ≡ z (b / 2) * 2 + f 0 (b % 2))
      → (a b : ℕ) → digits z f a a b ≡ digits z f (a / 2) (a / 2) (b / 2) * 2 + f (a % 2) (b % 2)
  digits_step h zero b = h b
  digits_step h (suc a) b =
      rw (digits_enough a (suc a / 2) (suc a / 2) (b / 2) (omega arith) (omega arith))

pub bit_and_step : (a b : ℕ) → bit_and a b ≡ bit_and (a / 2) (b / 2) * 2 + min (a % 2) (b % 2)
bit_and_step a b =
    rw (bit_and-bitwise a b, bit_and-bitwise (a / 2) (b / 2))
      (digits_step (λ _. 0) min (λ c. omega arith) a b)

pub bit_or_step : (a b : ℕ) → bit_or a b ≡ bit_or (a / 2) (b / 2) * 2 + max (a % 2) (b % 2)
bit_or_step a b =
    rw (bit_or-bitwise a b, bit_or-bitwise (a / 2) (b / 2))
      (digits_step (λ c. c) max (λ c. omega arith) a b)

bit_or_half : (a b : ℕ) → bit_or a b / 2 ≡ bit_or (a / 2) (b / 2)
bit_or_half a b = omega (arith, bit_or_step a b)

and-or_step :
    (a b c : ℕ)
    → bit_and (bit_or a b) c
      ≡ bit_and (bit_or (a / 2) (b / 2)) (c / 2) * 2 + min (max (a % 2) (b % 2)) (c % 2)
and-or_step a b c =
    bit_and_step (bit_or a b) c ∙ rw (bit_or_half a b) (omega (arith, bit_or_step a b))

-- Each law is an induction on a bound of the numbers; a step halves them.
and-or_within : (n a b : ℕ) → a ≤ n → b ≤ n → bit_and (bit_or a b) b ≡ b
and-or_within zero zero zero p q = refl
and-or_within zero zero (suc b) p q = elim q [ ]
and-or_within zero (suc a) b p q = elim p [ ]
and-or_within (suc n) a b p q =
    omega (arith, and-or_step a b b, and-or_within n (a / 2) (b / 2) (omega arith) (omega arith))

-- A union holds its second part.
pub and-or_right : (a b : ℕ) → bit_and (bit_or a b) b ≡ b
and-or_right a b = and-or_within (a + b) a b (omega arith) (omega arith)

and_mono_within : (n a b c : ℕ) → a ≤ n → b ≤ n → bit_and a c ≤ bit_and (bit_or a b) c
and_mono_within zero zero zero c p q = omega arith
and_mono_within zero zero (suc b) c p q = elim q [ ]
and_mono_within zero (suc a) b c p q = elim p [ ]
and_mono_within (suc n) a b c p q = omega (
  arith,
  and-or_step a b c,
  bit_and_step a c,
  and_mono_within n (a / 2) (b / 2) (c / 2) (omega arith) (omega arith),
)

-- What meets a set meets any larger set in as much or more.
pub and-le-and-or : (a b c : ℕ) → bit_and a c ≤ bit_and (bit_or a b) c
and-le-and-or a b c = and_mono_within (a + b) a b c (omega arith) (omega arith)

or-lt-pow : (k a b : ℕ) → a < 2 ^ k → b < 2 ^ k → bit_or a b < 2 ^ k
or-lt-pow zero zero zero p q = omega arith
or-lt-pow zero zero (suc b) p q = absurd (omega arith)
or-lt-pow zero (suc a) b p q = absurd (omega arith)
or-lt-pow (suc k) a b p q =
    omega (arith, bit_or_step a b, or-lt-pow k (a / 2) (b / 2) (omega arith) (omega arith))

pub bit_or-lt-u32 : (a b : ℕ) → a < 4294967296 → b < 4294967296 → bit_or a b < 4294967296
bit_or-lt-u32 a b p q = or-lt-pow 32 a b p q

and-le_within : (n a b : ℕ) → a ≤ n → bit_and a b ≤ b
and-le_within zero zero b p = omega (arith, bit_and-bitwise 0 b)
and-le_within zero (suc a) b p = elim p [ ]
and-le_within (suc n) a b p =
    omega (arith, bit_and_step a b, and-le_within n (a / 2) (b / 2) (omega arith))

pub bit_and-le : (a b : ℕ) → bit_and a b ≤ b
bit_and-le a b = and-le_within a a b (omega arith)

abbrev ones : ℕ → ℕ
ones zero = 0
ones (suc k) = ones k * 2 + 1

-- A mask of k ones keeps a number of k digits.
and-ones : (k a : ℕ) → a < 2 ^ k → bit_and a (ones k) ≡ a
and-ones zero zero p = refl
and-ones zero (suc a) p = absurd (omega arith)
and-ones (suc k) a p =
    omega (arith, bit_and_step a (ones k * 2 + 1), halved, and-ones k (a / 2) (omega arith))
  where
    halved : bit_and (a / 2) ((ones k * 2 + 1) / 2) ≡ bit_and (a / 2) (ones k)
    halved = ap (bit_and (a / 2)) (omega arith)

-- `x & !3` on 64 bits rounds down to a multiple of four.
pub bit_and-not_three :
    (x : ℕ) → x < 18446744073709551616 → bit_and x 18446744073709551612 ≡ x / 4 * 4
bit_and-not_three x p = omega (
  arith,
  bit_and_step x 18446744073709551612,
  bit_and_step (x / 2) 9223372036854775806,
  and-ones 62 (x / 2 / 2) (omega arith),
)

and_self_within : (n a : ℕ) → a ≤ n → bit_and a a ≡ a
and_self_within n zero p = bit_and-bitwise 0 0
and_self_within zero (suc a) p = elim p [ ]
and_self_within (suc n) (suc a) p =
    omega (arith, bit_and_step (suc a) (suc a), and_self_within n (suc a / 2) (omega arith))

pub bit_and_self : (a : ℕ) → bit_and a a ≡ a
bit_and_self a = and_self_within a a (omega arith)
