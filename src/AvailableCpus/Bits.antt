-- ===== src/AvailableCpus/Bits.antt =====
-- What `n & (n - 1)` does to the binary digits of n.
use Prim.Native.Nat.{
  ℕ, zero, suc, ◌+◌, ◌-◌, ◌*◌, ◌/◌, ◌%◌, ◌≤◌, ◌<◌, min, bit_and, digits, bit_and-bitwise,
}
use mathlib.Core.Path.{◌≡◌, refl, ap, ap₂}
use native.Mathlib.Omega.{arith}

-- The native operation runs over the digits of its first argument.
abbrev common : ℕ → ℕ → ℕ → ℕ
common n a b = digits (λ b. zero) min n a b

common-fuel : (n m a b : ℕ) → a ≤ n → a ≤ m → common n a b ≡ common m a b
common-fuel zero zero a b h k = refl
common-fuel zero (suc m) zero b h k = refl
common-fuel zero (suc m) (suc a) b h k = absurd (omega arith)
common-fuel (suc n) zero zero b h k = refl
common-fuel (suc n) zero (suc a) b h k = absurd (omega arith)
common-fuel (suc n) (suc m) zero b h k = refl
common-fuel (suc n) (suc m) (suc a) b h k =
    omega (arith, common-fuel n m (suc a / 2) (b / 2) (omega arith) (omega arith))

none-bit_and : (b : ℕ) → bit_and 0 b ≡ 0
none-bit_and b = bit_and-bitwise 0 b

bit_and-digit : (a b : ℕ) → bit_and a b ≡ bit_and (a / 2) (b / 2) * 2 + min (a % 2) (b % 2)
bit_and-digit zero b = omega (arith, none-bit_and b, none-bit_and (b / 2))
bit_and-digit (suc a) b = omega (
  arith,
  bit_and-bitwise (suc a) b,
  bit_and-bitwise (suc a / 2) (b / 2),
  common-fuel a (suc a / 2) (suc a / 2) (b / 2) (omega arith) (omega arith),
)

bit_and_self_fuel : (n a : ℕ) → a ≤ n → bit_and a a ≡ a
bit_and_self_fuel n zero h = none-bit_and 0
bit_and_self_fuel zero (suc a) h = absurd (omega arith)
bit_and_self_fuel (suc n) (suc a) h =
    omega (arith, bit_and-digit (suc a) (suc a), bit_and_self_fuel n (suc a / 2) (omega arith))

bit_and_self : (a : ℕ) → bit_and a a ≡ a
bit_and_self a = bit_and_self_fuel a a (omega arith)

half : (m : ℕ) → 2 * m / 2 ≡ m
half m = omega arith

-- An odd number loses its last digit, an even one the last one of its half.
pub clear_odd : (n : ℕ) → n % 2 ≡ 1 → bit_and n (n - 1) ≡ 2 * (n / 2)
clear_odd n h =
    let halves : (n - 1) / 2 ≡ n / 2 = omega (arith, h) in
    omega (arith, h, bit_and-digit n (n - 1), ap (bit_and (n / 2)) halves, bit_and_self (n / 2))

pub clear_double : (m : ℕ) → 0 < m → bit_and (2 * m) (2 * m - 1) ≡ 2 * bit_and m (m - 1)
clear_double m h =
    let halves : (2 * m - 1) / 2 ≡ m - 1 = omega (arith, h) in
    omega (arith, bit_and-digit (2 * m) (2 * m - 1), ap₂ bit_and (half m) halves)
