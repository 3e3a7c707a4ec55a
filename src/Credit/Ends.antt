-- ===== src/Credit/Ends.antt =====
-- Waits for credit, and the ticks that end them.
use victoriametrics_importer.Prelude.{
  ℕ, zero, suc, ◌+◌, ◌*◌, ◌≤◌, ◌≡◌, ◌≢◌, ◌⊎◌, inl, inr, false, Bool-cases, List, [], ◌∷◌, arith,
  replicate,
}
use victoriametrics_importer.Prelude.Int.{ℤ, pos, pos_part, ◌+ℤ◌, ◌≤ℤ◌, ltb_ℤ}
use victoriametrics_importer.Credit.{
  Credit, Event, tick, acceptable, must_wait, replenish, waiting, get_credit, wait_credit,
  grant_after,
}

-- A request whose least amount is at hand does not wait.
served_at_once :
    (desired least : ℤ) (es : List Event) (c : Credit)
    → must_wait c least ≡ false
    → (c' : Credit) → wait_credit desired least es c ≢ waiting c'
unfolding wait_credit grant_after
served_at_once desired least [] c w c' = rw w (λ e. cc)
served_at_once desired least (x ∷ es) c w c' = rw w (λ e. cc)

-- Whether the ticks can bring the credit up to `least`.
abbrev pub Attainable : ℤ → Credit → Type 0
Attainable least c = (ltb_ℤ (pos 0) c.max_value ≡ false) ⊎ (least ≤ℤ c.max_value)

tick_progress :
    (least : ℤ) (c : Credit) (rate : ℕ)
    → pos 0 ≤ℤ c.current
    → c.replenish_value ≡ pos rate
    → Attainable least c
    → (least ≤ℤ (replenish tick c).current)
      ⊎ ((replenish tick c).current ≡ pos (pos_part c.current + rate))
unfolding replenish ◌+ℤ◌
tick_progress least c rate h e (inl free) = inr (ground arith)
tick_progress least c rate h e (inr room) =
    elim (Bool-cases (ltb_ℤ c.max_value (c.current +ℤ c.replenish_value))) [
      | inl over ↦ elim (Bool-cases (ltb_ℤ (pos 0) c.max_value)) [
        | inl b ↦ inl (ground arith)
        | inr b ↦ inr (ground arith)
      ]
      | inr fits ↦ inr (ground arith)
    ]

-- Enough ticks end the wait, unless the bound is below the amount that the caller must have.
wait_credit-ends :
    (k : ℕ) (desired least : ℤ) (c : Credit) (rate : ℕ)
    → pos 0 ≤ℤ c.current
    → c.replenish_value ≡ pos rate
    → Attainable least c
    → pos_part least ≤ pos_part c.current + k * rate
    → (c' : Credit) → wait_credit desired least (replicate k tick) c ≢ waiting c'
unfolding wait_credit replenish
wait_credit-ends zero desired least c rate h e room l c' =
    served_at_once desired least [] c (ground arith) c'
wait_credit-ends (suc k) desired least c rate h e room l c' =
    elim (Bool-cases (must_wait c least)) [
      | inr w ↦ served_at_once desired least (replicate (suc k) tick) c w c'
      | inl w ↦ rw w (elim (tick_progress least c rate h e room) [
        | inl enough ↦
            served_at_once desired least (replicate k tick) (replenish tick c) (ground arith) c'
        | inr more ↦
            wait_credit-ends k desired least (replenish tick c) rate (rw more (omega arith)) e room
              (rw more (grind arith)) c'
      ])
    ]

-- Where the credit is not negative, k ticks bring it to the least amount that the caller accepts,
-- and the bound on the credit, if there is one, is not below that amount, GetCredit does not wait
-- any more after k ticks.
pub get_credit-ends :
    (k : ℕ) (desired least : ℤ) (c : Credit) (rate : ℕ)
    → pos 0 ≤ℤ c.current
    → c.replenish_value ≡ pos rate
    → Attainable (acceptable desired least) c
    → pos_part (acceptable desired least) ≤ pos_part c.current + k * rate
    → (c' : Credit) → get_credit desired least (replicate k tick) c ≢ waiting c'
unfolding get_credit
get_credit-ends k desired least c rate h e room l =
    wait_credit-ends k desired (acceptable desired least) c rate h e room l
