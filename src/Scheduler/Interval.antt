-- ===== src/Scheduler/Interval.antt =====
-- Intervals that the scheduler accepts.
use victoriametrics_importer.Prelude.{
  ℕ, ◌+◌, ◌-◌, ◌%◌, ◌≤◌, ◌<◌, ◌≡◌, refl, ap, ◌∙◌, arith, ltb, if◌then◌else◌,
}
use victoriametrics_importer.Prelude.Int.{ℤ, pos, negsuc, pos_part, ◌+ℤ◌, ◌-ℤ◌, ◌≤ℤ◌}
use victoriametrics_importer.Scheduler.{
  granularity, min_execution_pause, truncate_duration, at_least, compliant_task_interval,
}

-- What CompliantTaskInterval makes of an interval: a multiple of the granularity, no shorter than
-- the pause, and within half a granularity of what was asked for unless that was too short.
abbrev pub IsCompliant : ℤ → ℤ → Type 0
IsCompliant asked d =
    (k : ℕ) × (d ≡ pos k)
    × (k % granularity ≡ 0)
    × (min_execution_pause ≤ k)
    × ((pos min_execution_pause ≤ℤ asked)
        → (k ≤ pos_part asked + 10_000_000) × (pos_part asked < k + 10_000_000))

round_pos : ℕ → ℕ
round_pos n =
    let d = n - n % granularity in
    let d = if ltb (n - d) 10_000_000 then d else d + granularity in
    if ltb d min_execution_pause then min_execution_pause else d

compliant_pos : (n : ℕ) → compliant_task_interval (pos n) ≡ pos (round_pos n)
unfolding compliant_task_interval truncate_duration at_least round_pos ◌+ℤ◌ ◌-ℤ◌
compliant_pos n = ground arith

compliant_neg : (n : ℕ) → compliant_task_interval (negsuc n) ≡ pos min_execution_pause
unfolding compliant_task_interval truncate_duration at_least ◌+ℤ◌ ◌-ℤ◌
compliant_neg n = ground arith

round_pos-range :
    (n : ℕ)
    → (round_pos n % granularity ≡ 0)
      × (min_execution_pause ≤ round_pos n)
      × (min_execution_pause ≤ n → (round_pos n ≤ n + 10_000_000) × (n < round_pos n + 10_000_000))
unfolding round_pos
round_pos-range n = ground arith

-- Every interval becomes one that is compliant: a multiple of the granularity, no shorter than the
-- pause, and within half a granularity of the one asked for unless that was too short.
pub compliant_task_interval-IsCompliant :
    (asked : ℤ) → IsCompliant asked (compliant_task_interval asked)
compliant_task_interval-IsCompliant (pos n) =
    let r = round_pos-range n in (round_pos n, compliant_pos n, r.0, r.1, λ h. r.2 (omega arith))
compliant_task_interval-IsCompliant (negsuc n) =
    (min_execution_pause, compliant_neg n, refl, omega arith, λ h. absurd (omega arith))

-- CompliantTaskInterval leaves as it is every interval that it returns.
pub compliant_task_interval-idempotent :
    (asked : ℤ)
    → compliant_task_interval (compliant_task_interval asked) ≡ compliant_task_interval asked
compliant_task_interval-idempotent asked =
    let (k, e, whole, least, _) = compliant_task_interval-IsCompliant asked in
    rw e (compliant_pos k ∙ ap pos (fixed k whole least))
  where
    fixed : (k : ℕ) → k % granularity ≡ 0 → min_execution_pause ≤ k → round_pos k ≡ k
    fixed k w l = unfold round_pos in ground arith
