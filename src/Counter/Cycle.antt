-- ===== src/Counter/Cycle.antt =====
-- The cycle number: where it starts, and full cycles.
use victoriametrics_importer.Prelude.{
  ℕ, zero, suc, ◌+◌, ◌-◌, ◌<◌, ◌^◌, ◌≡◌, subst, max, leb, arith, Bool-cases, inl, inr,
}
use victoriametrics_importer.Prelude.Int.{ℤ, pos_part}
use victoriametrics_importer.Counter.{initial_cycle_num, next_cycle}
use native.Mathlib.Nat.{mod-lt}

-- `n` cycles on from a cycle.
abbrev pub cycles_on : (factor : ℤ) → ℕ → ℕ → ℕ
cycles_on factor zero c = c
cycles_on factor (suc n) c = cycles_on factor n (next_cycle factor c)

abbrev pub period : ℤ → ℕ
period factor = max 1 (pos_part factor)

next_cycle-bound : (factor : ℤ) (c : ℕ) → next_cycle factor c < period factor
unfolding next_cycle
next_cycle-bound factor c = ground arith

reaches_zero : (factor : ℤ) (d c : ℕ) → c + suc d ≡ period factor → cycles_on factor (suc d) c ≡ 0
unfolding next_cycle
reaches_zero factor zero c h = ground arith
reaches_zero factor (suc d) c h =
    let rest = reaches_zero factor d (suc c) (omega arith) in ground arith

-- From any cycle number below the full metrics factor, 1 in place of one less than 1, the number
-- stays below it, and it is 0, a full cycle, after just as many cycles as it is short of the factor.
pub cycles_on-returns :
    (factor : ℤ) (c : ℕ)
    → c < period factor
    → ((n : ℕ) → cycles_on factor n c < period factor)
      × (cycles_on factor (period factor - c) c ≡ 0)
cycles_on-returns factor c h = (
  λ n. bounded n c h,
  subst (λ n. cycles_on factor n c ≡ 0) short
      (reaches_zero factor (period factor - c - 1) c (omega arith)),
)
  where
    short : suc (period factor - c - 1) ≡ period factor - c
    short = omega arith

    bounded : (n c : ℕ) → c < period factor → cycles_on factor n c < period factor
    bounded zero c h = h
    bounded (suc n) c h = bounded n (next_cycle factor c) (next_cycle-bound factor c)

-- From a counter of 63 bits GetInitialCycleNum gives a cycle below the factor, 1 in place of one
-- less than 1, and leaves a counter of 63 bits.
pub initial_cycle_num-bound :
    (factor : ℤ) (counter : ℕ)
    → counter < 2 ^ 63
    → ((initial_cycle_num factor counter).0 < period factor)
      × ((initial_cycle_num factor counter).1 < 2 ^ 63)
unfolding initial_cycle_num
initial_cycle_num-bound factor counter h = elim (Bool-cases (leb (pos_part factor) 1)) [
  | inl e ↦ rw e (omega arith, h)
  | inr e ↦ rw e (omega (arith, mod-lt counter {m = pos_part factor} (ground arith)), ground arith)
]
