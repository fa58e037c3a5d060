-- ===== src/Base/Bits.antt =====
-- Laws of the bit operations at variables, from the digit recursion that they stand for.
use Prim.Native.Nat.{
  ℕ, zero, suc, ◌+◌, ◌*◌, ◌/◌, ◌%◌, ◌^◌, ◌≤◌, ◌<◌, max, bit_or, digits, bit_or-bitwise,
}
use mathlib.Core.Path.{◌≡◌, refl}
use native.Mathlib.Omega.{arith}

abbrev or_digits : ℕ → ℕ → ℕ → ℕ
or_digits n a b = digits (λ b. b) max n a b

or_fuel : (n m a b : ℕ) → a ≤ n → a ≤ m → or_digits n a b ≡ or_digits m a b
or_fuel zero zero a b p q = refl
or_fuel zero (suc m) zero b p q = refl
or_fuel zero (suc m) (suc a) b p q = absurd (omega arith)
or_fuel (suc n) zero zero b p q = refl
or_fuel (suc n) zero (suc a) b p q = absurd (omega arith)
or_fuel (suc n) (suc m) zero b p q = refl
or_fuel (suc n) (suc m) (suc a) b p q =
    omega (arith, or_fuel n m (suc a / 2) (b / 2) (omega arith) (omega arith))

pub zero-bit_or : (b : ℕ) → bit_or 0 b ≡ b
zero-bit_or b = bit_or-bitwise 0 b

-- One binary digit of `a | b`.
pub bit_or_step : (a b : ℕ) → bit_or a b ≡ bit_or (a / 2) (b / 2) * 2 + max (a % 2) (b % 2)
bit_or_step zero b = omega (arith, zero-bit_or b, zero-bit_or (b / 2))
bit_or_step (suc a) b = omega (
  arith,
  bit_or-bitwise (suc a) b,
  bit_or-bitwise (suc a / 2) (b / 2),
  or_fuel a (suc a / 2) (suc a / 2) (b / 2) (omega arith) (omega arith),
)

bit_or-zero_fuel : (n a : ℕ) → a ≤ n → bit_or a 0 ≡ a
bit_or-zero_fuel n zero h = refl
bit_or-zero_fuel zero (suc a) h = absurd (omega arith)
bit_or-zero_fuel (suc n) (suc a) h =
    omega (arith, bit_or_step (suc a) 0, bit_or-zero_fuel n (suc a / 2) (omega arith))

pub bit_or-zero : (a : ℕ) → bit_or a 0 ≡ a
bit_or-zero a = bit_or-zero_fuel a a (omega arith)

bit_or-half : (a b : ℕ) → bit_or a b / 2 ≡ bit_or (a / 2) (b / 2)
bit_or-half a b = omega (arith, bit_or_step a b)

abbrev halve : ℕ → ℕ → ℕ
halve zero a = a
halve (suc k) a = halve k (a / 2)

halve-bit_or : (k a b : ℕ) → halve k (bit_or a b) ≡ bit_or (halve k a) (halve k b)
halve-bit_or zero a b = refl
halve-bit_or (suc k) a b = rw (bit_or-half a b) (halve-bit_or k (a / 2) (b / 2))

-- `|` with a number below `2 ^ 12` leaves the bits from 12 on alone.
pub bit_or-page : (a b : ℕ) → b < 4096 → bit_or a b / 4096 ≡ a / 4096
bit_or-page a b h =
    let none_left : halve 12 b ≡ 0 = omega arith in
    let whole : halve 12 (bit_or a b) ≡ halve 12 a =
      rw (halve-bit_or 12 a b, none_left) (bit_or-zero (halve 12 a)) in
    omega arith

-- `|` reaches no bit that neither of its operands has.
pub bit_or-lt : (a b : ℕ) → a < 2 ^ 32 → b < 4096 → bit_or a b < 2 ^ 32
bit_or-lt a b ha hb = omega (arith, bit_or-page a b hb)

-- The lowest bit of `a | 1 | b`.
pub bit_or-odd : (a b : ℕ) → a % 2 ≡ 1 → bit_or a b % 2 ≡ 1
bit_or-odd a b h = omega (arith, bit_or_step a b)

pub bit_or-odd_right : (a b : ℕ) → b % 2 ≡ 1 → bit_or a b % 2 ≡ 1
bit_or-odd_right a b h = omega (arith, bit_or_step a b)
