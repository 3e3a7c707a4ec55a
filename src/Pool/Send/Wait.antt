-- ===== src/Pool/Send/Wait.antt =====
-- The wait for a healthy endpoint.
use victoriametrics_importer.Prelude.{
  ℕ, zero, suc, ◌+◌, ◌-◌, ◌*◌, ◌≤◌, ◌<◌, ◌≡◌, ◌≢◌, Bool, true, false, not, ◌&&◌, Bool-cases, inl,
  inr, refl, ◌⊎◌, [], min, arith, leb, if◌then◌else◌,
}
use victoriametrics_importer.Pool.{Pool, run}
use victoriametrics_importer.Pool.Send.{
  Naps, Waited, ready, timed_out, out_of_fuel, is_none, wait_loop,
}

-- The clock moves on by at least what `time.Sleep(min(healthyPollInterval, timeLeft))` sleeps.
abbrev pub Sleeps : Naps → (deadline poll : ℕ) → Type 0
Sleeps w deadline poll = (i : ℕ) → w.clock i + min poll (deadline - w.clock i) ≤ w.clock (suc i)

-- Where each nap moves the clock on by at least what it sleeps, the wait loop ends: fuel for one
-- look more than the poll intervals up to the deadline is enough, whatever other goroutines do.
pub wait_loop-ends :
    (f : ℕ) (w : Naps) (deadline poll i : ℕ) (p : Pool)
    → Sleeps w deadline poll
    → deadline ≤ w.clock i + f * poll
    → (q : Pool) → wait_loop (suc f) w deadline i p ≢ out_of_fuel q
unfolding wait_loop
wait_loop-ends zero w deadline poll i p sl h q = ground arith
wait_loop-ends (suc f) w deadline poll i p sl h q = elim (Bool-cases (leb deadline (w.clock i))) [
  | inl e ↦ ground arith
  | inr e ↦ ground (
    arith,
    wait_loop-ends f w deadline poll (suc i) (run p (w.others i)) sl
        (next f poll deadline (w.clock i) (w.clock (suc i)) (sl i) h (ground arith)) q,
  )
]
  where
    next :
        (f poll deadline c d : ℕ)
        → c + min poll (deadline - c) ≤ d
        → deadline ≤ c + suc f * poll
        → c < deadline
        → deadline ≤ d + f * poll
    next f poll deadline c d s h l = grind arith

-- Nobody touches the pool during the naps.
abbrev pub Quiet : Naps → Type 0
Quiet w = (i : ℕ) → w.others i ≡ []

-- How a wait that leaves the pool alone can come out.
abbrev pub Untouched : Pool → Waited → Type 0
Untouched p r = (r ≡ ready p) ⊎ (r ≡ timed_out p) ⊎ (r ≡ out_of_fuel p)

Untouched-by :
    (b c : Bool) (p : Pool) (r : Waited)
    → Untouched p r
    → Untouched p (if b then if c then timed_out p else r else ready p)
Untouched-by true true p r u = inr (inl refl)
Untouched-by true false p r u = u
Untouched-by false c p r u = inl refl

-- Then the wait leaves the pool as it is.
pub wait_loop-quiet :
    (f : ℕ) (w : Naps) (deadline i : ℕ) (p : Pool)
    → Quiet w
    → Untouched p (wait_loop f w deadline i p)
unfolding wait_loop run
wait_loop-quiet zero w deadline i p quiet = inr (inr refl)
wait_loop-quiet (suc f) w deadline i p quiet = rw (quiet i) (
    Untouched-by (is_none p.head && not p.shutdown) (leb deadline (w.clock i)) p
      (wait_loop f w deadline (suc i) p) (wait_loop-quiet f w deadline (suc i) p quiet))
