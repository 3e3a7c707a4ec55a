-- ===== src/Credit/Bucket.antt =====
-- Credit as a token bucket: grants over a history.
use victoriametrics_importer.Prelude.{
  ℕ, suc, ◌+◌, ◌*◌, ◌≤◌, ◌<◌, ◌≡◌, refl, sym, subst, ◌∙◌, true, List, [], ◌∷◌, arith,
}
use victoriametrics_importer.Prelude.Int.{ℤ, pos, pos_part, ◌+ℤ◌, ◌-ℤ◌, ◌≤ℤ◌, ltb_ℤ}
use victoriametrics_importer.Credit.{
  Credit, tick, done, Move, event, call, take_credit, replenish, step_credit, run_credit,
  new_credit, max_ℤ,
}

-- The ticks of a history in which the goroutine is not stopped and no call asks for a negative
-- amount.
abbrev pub ticks : List Move → ℕ
ticks [] = 0
ticks (event tick ∷ ms) = suc (ticks ms)
ticks (event done ∷ ms) = ticks ms
ticks (call d l ∷ ms) = ticks ms

abbrev pub IsRunning : List Move → Type 0
IsRunning [] = Unit {0}
IsRunning (event tick ∷ ms) = IsRunning ms
IsRunning (event done ∷ ms) = ⊥
IsRunning (call d l ∷ ms) = (pos 0 ≤ℤ d) × IsRunning ms

-- All that is granted, with what is left, was there or came by ticks.
abbrev pub Balance : (before rate ticks : ℕ) → ℤ × Credit → Type 0
Balance before rate k (got, c) =
    (pos 0 ≤ℤ got) × (pos 0 ≤ℤ c.current) × (pos_part got + pos_part c.current ≤ before + k * rate)

-- One move of a running credit.
abbrev rate_of : Move → ℕ → ℕ
rate_of (event e) rate = rate
rate_of (call d l) rate = 0

step_tick :
    (c : Credit) (rate : ℕ)
    → pos 0 ≤ℤ c.current
    → c.replenish_value ≡ pos rate
    → (pos 0 ≤ℤ (replenish tick c).current)
      × (pos_part (replenish tick c).current ≤ pos_part c.current + rate)
      × ((replenish tick c).replenish_value ≡ pos rate)
unfolding replenish ◌+ℤ◌
step_tick c rate h e = (ground arith, ground arith, e)

step_call :
    (c : Credit) (d l : ℤ)
    → pos 0 ≤ℤ c.current
    → pos 0 ≤ℤ d
    → let r = step_credit (call d l) c in
      (pos 0 ≤ℤ r.0)
      × (pos 0 ≤ℤ r.1.current)
      × (pos_part r.0 + pos_part r.1.current ≤ pos_part c.current)
      × (r.1.replenish_value ≡ c.replenish_value)
      × (r.1.max_value ≡ c.max_value)
unfolding step_credit take_credit ◌-ℤ◌
step_call c d l h k = (ground arith, ground arith, ground arith, ground arith, ground arith)

after_tick :
    (c : Credit) (rate k : ℕ) (r : ℤ × Credit)
    → pos_part (replenish tick c).current ≤ pos_part c.current + rate
    → Balance (pos_part (replenish tick c).current) rate k r
    → Balance (pos_part c.current) rate (suc k) (pos 0 +ℤ r.0, r.1)
unfolding ◌+ℤ◌
after_tick c rate k r h b = (ground arith, b.1, ground arith)

after_call :
    (before rate k : ℕ) (got : ℤ) (c : Credit) (r : ℤ × Credit)
    → pos 0 ≤ℤ got
    → pos_part got + pos_part c.current ≤ before
    → Balance (pos_part c.current) rate k r
    → Balance before rate k (got +ℤ r.0, r.1)
unfolding ◌+ℤ◌
after_call before rate k got c r g h b = (ground arith, b.1, ground arith)

-- The rate limit: where the credit is not negative, its goroutine is not stopped and no call asks
-- for a negative amount, all that a history grants, with what is left, is no more than the first
-- credit and what the ticks bring; neither is negative.
pub run_credit-Balance :
    (ms : List Move) (c : Credit) (rate : ℕ)
    → IsRunning ms
    → pos 0 ≤ℤ c.current
    → c.replenish_value ≡ pos rate
    → Balance (pos_part c.current) rate (ticks ms) (run_credit ms c)
unfolding run_credit step_credit
run_credit-Balance [] c rate g h e = (omega arith, h, omega arith)
run_credit-Balance (event tick ∷ ms) c rate g h e =
    let s = step_tick c rate h e in
    let b = run_credit-Balance ms (replenish tick c) rate g s.0 s.2 in
    after_tick c rate (ticks ms) (run_credit ms (replenish tick c)) s.1 b
run_credit-Balance (event done ∷ ms) c rate g h e = absurd g
run_credit-Balance (call d l ∷ ms) c rate g h e =
    let s = step_call c d l h g.0 in
    let b = run_credit-Balance ms (step_credit (call d l) c).1 rate g.1 s.1 (s.3 ∙ e) in
    after_call (pos_part c.current) rate (ticks ms) (step_credit (call d l) c).0
      (step_credit (call d l) c).1 (run_credit ms (step_credit (call d l) c).1) s.0 s.2 b

tick_bound :
    (c : Credit)
    → ltb_ℤ (pos 0) c.max_value ≡ true
    → ((replenish tick c).current ≤ℤ c.max_value) × ((replenish tick c).max_value ≡ c.max_value)
unfolding replenish
tick_bound c b = (ground arith, refl)

-- A bounded credit never exceeds its bound.
step_credit-bound :
    (m : Move) (c : Credit)
    → pos 0 ≤ℤ c.current
    → IsRunning (m ∷ [])
    → ltb_ℤ (pos 0) c.max_value ≡ true
    → c.current ≤ℤ c.max_value
    → ((step_credit m c).1.current ≤ℤ c.max_value) × ((step_credit m c).1.max_value ≡ c.max_value)
step_credit-bound (event tick) c h g b l = unfold step_credit in tick_bound c b
step_credit-bound (event done) c h g b l = absurd g
step_credit-bound (call d k) c h g b l = let s = step_call c d k h g.0 in (ground arith, s.4)

-- What a running credit keeps: no debt, its rate, and its bound.
record Bounded (rate : ℕ) (bound : ℤ) (c : Credit) : Type 0 where
  solvent : pos 0 ≤ℤ c.current
  rate_kept : c.replenish_value ≡ pos rate
  bound_kept : c.max_value ≡ bound
  below : c.current ≤ℤ bound

step_credit-Bounded :
    (m : Move) (c : Credit) (rate : ℕ) (bound : ℤ)
    → ltb_ℤ (pos 0) bound ≡ true
    → IsRunning (m ∷ [])
    → Bounded rate bound c
    → Bounded rate bound (step_credit m c).1
step_credit-Bounded m c rate bound b g v = record {
  solvent = (solvent_rate m g).0;
  rate_kept = (solvent_rate m g).1;
  bound_kept = s.1 ∙ v.bound_kept;
  below = subst (λ x. (step_credit m c).1.current ≤ℤ x) v.bound_kept s.0;
}
  where
    s : ((step_credit m c).1.current ≤ℤ c.max_value) × ((step_credit m c).1.max_value ≡ c.max_value)
    s =
        step_credit-bound m c v.solvent g (subst (λ x. ltb_ℤ (pos 0) x ≡ true) (sym v.bound_kept) b)
          (subst (λ x. c.current ≤ℤ x) (sym v.bound_kept) v.below)

    solvent_rate :
        (m : Move)
        → IsRunning (m ∷ [])
        → (pos 0 ≤ℤ (step_credit m c).1.current) × ((step_credit m c).1.replenish_value ≡ pos rate)
    solvent_rate (event tick) g =
        unfold step_credit in (let t = step_tick c rate v.solvent v.rate_kept in (t.0, t.2))
    solvent_rate (event done) g = absurd g
    solvent_rate (call d l) g = let t = step_call c d l v.solvent g.0 in (t.1, t.3 ∙ v.rate_kept)

IsRunning-head :
    (m : Move) (ms : List Move) → IsRunning (m ∷ ms) → IsRunning (m ∷ []) × IsRunning ms
IsRunning-head (event tick) ms g = (tt, g)
IsRunning-head (event done) ms g = absurd g
IsRunning-head (call d l) ms g = ((g.0, tt), g.1)

run_credit-Bounded :
    (ms : List Move) (c : Credit) (rate : ℕ) (bound : ℤ)
    → ltb_ℤ (pos 0) bound ≡ true
    → IsRunning ms
    → Bounded rate bound c
    → Bounded rate bound (run_credit ms c).1
unfolding run_credit
run_credit-Bounded [] c rate bound b g v = v
run_credit-Bounded (m ∷ ms) c rate bound b g v =
    let (h, t) = IsRunning-head m ms g in
    run_credit-Bounded ms (step_credit m c).1 rate bound b t
      (step_credit-Bounded m c rate bound b h v)

new_credit-Bounded :
    (rate m : ℕ) → 0 < m → Bounded rate (max_ℤ (pos rate) (pos m)) (new_credit (pos rate) (pos m))
unfolding new_credit
new_credit-Bounded rate m h = record {
  solvent = ground arith;
  rate_kept = refl;
  bound_kept = ground arith;
  below = ground arith;
}

burst_sum :
    (bound got current left : ℤ) (k : ℕ)
    → pos 0 ≤ℤ got
    → pos 0 ≤ℤ current
    → pos 0 ≤ℤ left
    → current ≤ℤ bound
    → pos_part got + pos_part left ≤ pos_part current + k
    → got ≤ℤ bound +ℤ pos k
unfolding ◌+ℤ◌
burst_sum bound got current left k g c l b h = ground arith

-- The burst limit: a new credit with a positive bound, after any history in which its goroutine
-- runs and no call asks for a negative amount, grants in the next such stretch no more than the
-- bound, or the amount of one tick if that is more, and what the ticks of the stretch bring.
pub run_credit-burst :
    (rate m : ℕ) (before ms : List Move)
    → 0 < m
    → IsRunning before
    → IsRunning ms
    → let c = (run_credit before (new_credit (pos rate) (pos m))).1 in
      (run_credit ms c).0 ≤ℤ max_ℤ (pos rate) (pos m) +ℤ pos (ticks ms * rate)
run_credit-burst rate m before ms h g g' =
    let v =
      run_credit-Bounded before (new_credit (pos rate) (pos m)) rate _ (ground arith) g
        (new_credit-Bounded rate m h) in
    let c = (run_credit before (new_credit (pos rate) (pos m))).1 in
    let b = run_credit-Balance ms c rate g' v.solvent v.rate_kept in
    burst_sum _ (run_credit ms c).0 c.current (run_credit ms c).1.current (ticks ms * rate) b.0
      v.solvent b.1 v.below b.2
