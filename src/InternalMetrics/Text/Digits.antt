-- ===== src/InternalMetrics/Text/Digits.antt =====
-- How many digits a number is written with.
use victoriametrics_importer.Prelude.{
  ℕ, zero, suc, ◌+◌, ◌/◌, ◌%◌, ◌^◌, ◌≤◌, ◌<◌, ◌≡◌, [], ◌∷◌, length, arith,
}
use victoriametrics_importer.InternalMetrics.Text.{Bytes, digits_before, format_uint}

pub one-le-pow10 : (d : ℕ) → 1 ≤ 10 ^ d
one-le-pow10 zero = omega arith
one-le-pow10 (suc d) = let h = one-le-pow10 d in omega arith

ten-le : (d n : ℕ) → 10 ^ suc d ≤ n → 10 ≤ n
ten-le d n h = let p = one-le-pow10 d in omega arith

tenth-lt : (d n : ℕ) → n < 10 ^ suc (suc d) → n / 10 < 10 ^ suc d
tenth-lt d n h = omega arith

le-tenth : (d n : ℕ) → 10 ^ suc d ≤ n → 10 ^ d ≤ n / 10
le-tenth d n h = omega arith

-- A number below 10 ^ d, and no less than 10 ^ (d - 1) unless d is 1, has d digits.
pub length-digits_before :
    (f d n : ℕ) (out : Bytes)
    → n < f
    → n < 10 ^ suc d
    → (0 < d → 10 ^ d ≤ n)
    → length (digits_before f n out) ≡ suc d + length out
unfolding digits_before
length-digits_before zero d n out h l g = absurd (omega arith)
length-digits_before (suc f) zero n out h l g = ground arith
length-digits_before (suc f) (suc d) n out h l g =
    let big = g (omega arith) in
    let ten = ten-le d n big in
    ground (
      arith,
      length-digits_before f d (n / 10) ((48 + n % 10) ∷ out) (omega arith) (tenth-lt d n l)
          (λ _. le-tenth d n big),
    )

pub length-format_uint :
    (d n : ℕ) → n < 10 ^ suc d → (0 < d → 10 ^ d ≤ n) → length (format_uint n) ≡ suc d
unfolding format_uint
length-format_uint d n l g = omega (arith, length-digits_before (suc n) d n [] (omega arith) l g)
