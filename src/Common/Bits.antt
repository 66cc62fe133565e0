-- ===== src/Common/Bits.antt =====
-- `|` and `&` at variables: the laws that packing and unpacking 4-bit fields need.
use Prim.Native.Nat.{
  ℕ, zero, suc, ◌+◌, ◌*◌, ◌/◌, ◌%◌, ◌≤◌, ◌<◌, min, max, bit_and, bit_or, digits, bit_and-bitwise,
  bit_or-bitwise,
}
use mathlib.Core.Path.{◌≡◌, refl}
use native.Mathlib.Omega.{arith}

-- Both operations are one recursion on binary digits, by fuel; every fuel that covers the first
-- number gives the same result.
module _ (empty : ℕ → ℕ) (digit : ℕ → ℕ → ℕ) where
  covered_zero : (fuel y : ℕ) → digits empty digit fuel 0 y ≡ empty y
  covered_zero zero y = refl
  covered_zero (suc fuel) y = refl

  digits_covered :
      (fuel other x y : ℕ)
      → x ≤ fuel
      → x ≤ other
      → digits empty digit fuel x y ≡ digits empty digit other x y
  digits_covered fuel other zero y low also = rw (covered_zero fuel y, covered_zero other y) refl
  digits_covered (suc fuel) (suc other) (suc x) y low also =
      let half = digits_covered fuel other (suc x / 2) (y / 2) in
      omega (arith, half (omega arith) (omega arith))
  digits_covered zero other (suc x) y low also = absurd (omega arith)
  digits_covered (suc fuel) zero (suc x) y low also = absurd (omega arith)

  digits_halved :
      (x y : ℕ) → digits empty digit x (suc x / 2) y ≡ digits empty digit (suc x / 2) (suc x / 2) y
  digits_halved x y = digits_covered x (suc x / 2) (suc x / 2) y (omega arith) (omega arith)

-- The lowest binary digit of `|`.
or_digit : (x y : ℕ) → bit_or x y ≡ max (x % 2) (y % 2) + 2 * bit_or (x / 2) (y / 2)
or_digit zero y = omega (arith, bit_or-bitwise 0 (y / 2), bit_or-bitwise 0 y)
or_digit (suc x) y = omega (
  arith,
  digits_halved (λ c. c) max x (y / 2),
  bit_or-bitwise (suc x / 2) (y / 2),
  bit_or-bitwise (suc x) y,
)

-- The lowest binary digit of `&`.
and_digit : (x y : ℕ) → bit_and x y ≡ min (x % 2) (y % 2) + 2 * bit_and (x / 2) (y / 2)
and_digit zero y = omega (arith, bit_and-bitwise 0 (y / 2), bit_and-bitwise 0 y)
and_digit (suc x) y = omega (
  arith,
  digits_halved (λ c. 0) min x (y / 2),
  bit_and-bitwise (suc x / 2) (y / 2),
  bit_and-bitwise (suc x) y,
)

-- Zero on the right, below a bound.
or_zero_below : (bound x : ℕ) → x < bound → bit_or x 0 ≡ x
or_zero_below zero x low = absurd (omega arith)
or_zero_below (suc bound) zero low = refl
or_zero_below (suc bound) (suc x) low =
    omega (arith, or_zero_below bound (suc x / 2) (omega arith), or_digit (suc x) 0)

and_zero_below : (bound x : ℕ) → x < bound → bit_and x 0 ≡ 0
and_zero_below zero x low = absurd (omega arith)
and_zero_below (suc bound) zero low = refl
and_zero_below (suc bound) (suc x) low =
    omega (arith, and_zero_below bound (suc x / 2) (omega arith), and_digit (suc x) 0)

or_top : (x a b : ℕ) → a ≡ x → b ≡ 0 → bit_or a b ≡ x
or_top x a b p q = rw (p, q) (or_zero_below (suc x) x (omega arith))

-- `(x << 4) | v` puts a 4-bit value into the low digits.
pub bit_or_nibble : (x v : ℕ) → v < 16 → bit_or (x * 16) v ≡ x * 16 + v
bit_or_nibble x v h = omega (
  arith,
  or_digit (x * 16) v,
  or_digit (x * 16 / 2) (v / 2),
  or_digit (x * 16 / 2 / 2) (v / 2 / 2),
  or_digit (x * 16 / 2 / 2 / 2) (v / 2 / 2 / 2),
  or_top x (x * 16 / 2 / 2 / 2 / 2) (v / 2 / 2 / 2 / 2) (omega arith) (omega arith),
)

-- `x & 15` is the lowest hexadecimal digit.
pub bit_and_nibble : (x : ℕ) → bit_and x 15 ≡ x % 16
bit_and_nibble x = omega (
  arith,
  and_digit x 15,
  and_digit (x / 2) 7,
  and_digit (x / 2 / 2) 3,
  and_digit (x / 2 / 2 / 2) 1,
  and_zero_below (suc (x / 2 / 2 / 2 / 2)) (x / 2 / 2 / 2 / 2) (omega arith),
)

-- `x & 0xff` is the lowest byte.
pub bit_and_byte : (x : ℕ) → bit_and x 255 ≡ x % 256
bit_and_byte x = omega (
  arith,
  and_digit x 255,
  and_digit (x / 2) 127,
  and_digit (x / 2 / 2) 63,
  and_digit (x / 2 / 2 / 2) 31,
  bit_and_nibble (x / 2 / 2 / 2 / 2),
)

pub zero-bit_or : (x : ℕ) → bit_or 0 x ≡ x
zero-bit_or x = bit_or-bitwise 0 x
