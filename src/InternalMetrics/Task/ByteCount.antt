-- ===== src/InternalMetrics/Task/ByteCount.antt =====
-- The loop that finds the number of all bytes, the digits of that number included.
use victoriametrics_importer.Prelude.{
  ℕ, zero, suc, ◌+◌, ◌*◌, ◌^◌, ◌≤◌, ◌<◌, ◌≡◌, ltb, length, arith, tests, Bool-cases, inl, inr,
}
use victoriametrics_importer.InternalMetrics.Text.{format_uint}
use victoriametrics_importer.InternalMetrics.Text.Digits.{one-le-pow10, length-format_uint}
use victoriametrics_importer.InternalMetrics.Task.{grow_count, own_byte_count}

double-le-pow10 : (d : ℕ) → 2 * d ≤ 10 ^ d
double-le-pow10 zero = omega arith
double-le-pow10 (suc d) = let h = double-le-pow10 d in let p = one-le-pow10 d in omega arith

-- A count that has as many digits as were counted in.
IsExact : (m r : ℕ) → Type 0
IsExact m r = (d : ℕ) × ((r ≡ m + suc d) × ((r < 10 ^ suc d) × (0 < d → 10 ^ d ≤ r)))

grow_count-IsExact :
    (m f d b p : ℕ)
    → d + f ≡ m + 1
    → (0 < d → 10 ^ d ≤ m + d)
    → b ≡ m + suc d
    → p ≡ 10 ^ d
    → IsExact m (grow_count f b p)
unfolding grow_count IsExact
grow_count-IsExact m zero d b p e g eb ep =
    let q = double-le-pow10 d in let r = g (omega arith) in absurd (omega arith)
grow_count-IsExact m (suc f) d b p e g eb ep = elim (Bool-cases (ltb b (p * 10))) [
  | inl t ↦ rw t (d, (eb, (omega tests, λ h. omega (arith, g h))))
  | inr n ↦ rw n (
      grow_count-IsExact m f (suc d) (b + 1) (p * 10) (omega arith) (λ h. ground (arith, n))
        (omega arith) (omega arith))
]

-- The number that the generator publishes as the number of its bytes, added up with m bytes beside
-- the digits of that number, is right: it is m and as many as it has digits.
pub own_byte_count_lem : (m : ℕ) → length (format_uint (own_byte_count m)) + m ≡ own_byte_count m
unfolding own_byte_count IsExact
own_byte_count_lem m =
    let (d, (e, (l, g))) =
      grow_count-IsExact m (m + 1) 0 (m + 1) 1 (omega arith) (λ h. absurd (omega arith))
        (omega arith) (omega arith) in
    omega (arith, length-format_uint d (own_byte_count m) l g)
