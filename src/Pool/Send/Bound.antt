-- ===== src/Pool/Send/Bound.antt =====
-- How many attempts SendBuffer makes with nobody else at work.
use victoriametrics_importer.Prelude.{
  ℕ, zero, suc, ◌+◌, ◌*◌, ◌≤◌, ◌<◌, ◌≡◌, ◌≢◌, refl, ap, ◌∙◌, ◌⊎◌, inl, inr, Bool, true, false,
  Option, none, some, List, [], ◌∷◌, arith, if◌then◌else◌,
}
use victoriametrics_importer.Prelude.Int.{ℤ, pos, pos_part, ltb_ℤ}
use victoriametrics_importer.Prelude.Sets.{has}
use victoriametrics_importer.EndpointList.{Ptr, Dll, Store}
use victoriametrics_importer.EndpointList.Seg.{first}
use victoriametrics_importer.EndpointList.Refine.{SamePayload}
use victoriametrics_importer.Pool.{
  Pool, report_error, select, select_head, rotate, rotate_by, finish, apply_reset, reset_due,
  reset_by, same_ptr, rotation_due, counted, report_counted, demote, retire, run, success,
}
use victoriametrics_importer.Pool.Lists.{to_tail-SamePayload}
use victoriametrics_importer.Pool.Invariant.{Inv, Inv-same}
use victoriametrics_importer.Pool.Errors.{reported, report_error-Inv}
use victoriametrics_importer.Pool.Rotation.{rotated, select-Inv}
use victoriametrics_importer.Pool.Send.{
  World, Waited, Found, found, Outcome, out_of_attempts, add_time, time_left, get_current_healthy,
  send_loop, attempt, conclude, requested, found_by, out_of_fuel, non_retryable, send_buffer,
}
use victoriametrics_importer.Pool.Send.Wait.{
  Sleeps, Quiet, wait_loop-ends, wait_loop-quiet, Untouched,
}
use victoriametrics_importer.Pool.Send.Budget.{
  weight, budget, budget-append, budget-same, report_error-budget,
}

rotate_by-same :
    (used due same : Bool) (now : ℕ) (ep : Ptr) (p : Pool)
    → SamePayload p.list (rotate_by used due same now ep p).list
      × ((rotate_by used due same now ep p).error_reset_interval ≡ p.error_reset_interval)
unfolding rotate_by
rotate_by-same true due same now ep p = (λ a. refl, refl)
rotate_by-same false false same now ep p = (λ a. refl, refl)
rotate_by-same false true true now ep p = (λ a. refl, refl)
rotate_by-same false true false now ep p = (to_tail-SamePayload ep p.list, refl)

-- With the error reset switched off a selection changes no error count.
finish-off :
    (now : ℕ) (o : Option Ptr) (p : Pool)
    → pos_part p.error_reset_interval ≡ 0
    → (finish now o p).1 ≡ p
unfolding finish apply_reset
finish-off now none p off = refl
finish-off now (some ep) p off = rw due reset_off
  where
    due : reset_due now ep p ≡ false
    due = ground arith

    reset_off : reset_by false ep p ≡ p
    reset_off = unfold reset_by in refl

select-same :
    (now : ℕ) (p : Pool)
    → pos_part p.error_reset_interval ≡ 0
    → SamePayload p.list (select now p).1.list
      × ((select now p).1.error_reset_interval ≡ p.error_reset_interval)
unfolding select
select-same now p off = by_head p.head
  where
    by_head :
        (o : Option Ptr)
        → SamePayload p.list (select_head now o p).1.list
          × ((select_head now o p).1.error_reset_interval ≡ p.error_reset_interval)
    by_head none = unfold select_head in (λ a. refl, refl)
    by_head (some ep) =
        let (s, e) =
          rotate_by-same p.first_use (rotation_due now p) (same_ptr p.head p.tail) now ep p in
        unfold select_head rotate in
        rw (finish-off now (rotate now ep p).head (rotate now ep p) (ap pos_part e ∙ off)) (s, e)

budget-rotated :
    (m : Store) (now : ℕ) (p : Pool) (xs : List Ptr) → budget m (rotated now p xs) ≡ budget m xs
budget-rotated m now p [] = refl
budget-rotated m now p (x ∷ xs) = ground (arith, budget-append m xs (x ∷ []))

report_counted-reset :
    (h t : Bool) (ep : Ptr) (p : Pool)
    → (report_counted h t ep p).error_reset_interval ≡ p.error_reset_interval
unfolding report_counted demote retire
report_counted-reset false t ep p = refl
report_counted-reset true true ep p = ground arith
report_counted-reset true false ep p = refl

report_error-reset :
    (now : ℕ) (ep : Ptr) (p : Pool)
    → (report_error now ep p).error_reset_interval ≡ p.error_reset_interval
unfolding report_error
report_error-reset now ep p = report_counted-reset _ _ ep (counted now ep p)

-- No other goroutine at work, clocks that move on in the naps, and fuel for every wait.
pub record Calm (w : World) (deadline poll : ℕ) : Type 0 where
  pub quiet : (n : ℕ) → w.meanwhile n ≡ []
  pub quiet_naps : (n : ℕ) → Quiet (w.naps n)
  pub sleeps : (n : ℕ) → Sleeps (w.naps n) (add_time (w.clock n) (time_left w deadline n)) poll
  pub patience :
      (n : ℕ) → add_time (w.clock n) (time_left w deadline n) ≤ (w.naps n).clock 0 + w.fuel n * poll

-- The selection, as GetCurrentHealthy returns it.
abbrev chosen : ℕ → Pool → Found
chosen now p = found (select now p).0 (select now p).1

found_by-quiet :
    (now : ℕ) (p : Pool) (r : Waited)
    → Untouched p r
    → (r ≢ out_of_fuel p)
    → (found_by now r ≡ chosen now p) ⊎ (found_by now r ≡ found none p)
unfolding found_by
found_by-quiet now p r (inl e) ok = inl (rw e)
found_by-quiet now p r (inr (inl e)) ok = inr (rw e)
found_by-quiet now p r (inr (inr e)) ok = absurd (ok e)

module _ (w : World) (deadline poll : ℕ) (calm : Calm w deadline poll) where
  -- The wait ends, and either selects from the pool as it is or gives up.
  wait_ends :
      (n : ℕ) (p : Pool)
      → let g =
          get_current_healthy
            (suc (w.fuel n))
            (w.naps n)
            (w.clock n)
            (w.chosen_at n)
            (time_left w deadline n)
            p in
        (g ≡ chosen (w.chosen_at n) p) ⊎ (g ≡ found none p)
  unfolding get_current_healthy
  wait_ends n p = rw signed (
      found_by-quiet (w.chosen_at n) p _
        (wait_loop-quiet (suc (w.fuel n)) (w.naps n) _ 0 p (calm.quiet_naps n))
        (wait_loop-ends (w.fuel n) (w.naps n) _ poll 0 p (calm.sleeps n) (calm.patience n) p))
    where
      signed : ltb_ℤ (time_left w deadline n) (pos 0) ≡ false
      signed = ground arith

  module _ (size : ℕ) where
    conclude-ends :
        (a b : Bool) (n c : ℕ) (q : Pool) (retry : Pool → Outcome × Pool)
        → ((retry q).0 ≢ out_of_attempts)
        → ((conclude a b n c q retry).0 ≢ out_of_attempts)
    unfolding conclude
    conclude-ends true b n c q retry ok = λ e. cc
    conclude-ends false true n c q retry ok = λ e. cc
    conclude-ends false false n c q retry ok = ok

    requested-quiet : (n : ℕ) (ep : Ptr) (p : Pool) → (requested w size n ep p).list ≡ p.list
    unfolding requested run
    requested-quiet n ep p = rw (calm.quiet n)

    requested-same :
        (n : ℕ) (ep : Ptr) (p : Pool)
        → ((requested w size n ep p).health_checks ≡ p.health_checks)
          × ((requested w size n ep p).error_reset_interval ≡ p.error_reset_interval)
    unfolding requested run
    requested-same n ep p = rw (calm.quiet n) (refl, refl)

    attempt-ends :
        (f n : ℕ) (o : Option Ptr) (q : Pool) (ys : List Ptr)
        → o ≡ first ys none
        → Inv q ys
        → pos_part q.error_reset_interval ≡ 0
        → budget q.mem ys < suc f
        → ((r : Pool) (zs : List Ptr)
            → Inv r zs
            → pos_part r.error_reset_interval ≡ 0
            → budget r.mem zs < f
            → (send_loop f w size deadline (suc n) r).0 ≢ out_of_attempts)
        → (attempt w size n (send_loop f w size deadline (suc n)) (found o q)).0 ≢ out_of_attempts
    unfolding attempt
    attempt-ends f n none q ys e v off h again = λ e. cc
    attempt-ends f n (some ep) q [] e v off h again = absurd (cc)
    attempt-ends f n (some ep) q (y ∷ ys) e v off h again =
        conclude-ends (success (w.respond n ep)) (non_retryable (w.respond n ep)) n _ _ _ (
          again (report_error (w.failed_at n) ep r) (reported ep r (y ∷ ys))
            (report_error-Inv (w.failed_at n) ep r (y ∷ ys) u)
            (ap pos_part (report_error-reset (w.failed_at n) ep r ∙ (requested-same n ep q).1)
              ∙ off)
            (omega (arith, report_error-budget (w.failed_at n) ep r (y ∷ ys) u held, kept)))
      where
        r : Pool
        r = requested w size n ep q

        u : Inv r (y ∷ ys)
        u = Inv-same q r (y ∷ ys) (requested-quiet n ep q) (requested-same n ep q).0 v

        held : has ep (y ∷ ys) ≡ true
        held = ground arith

        kept : budget r.mem (y ∷ ys) ≡ budget q.mem (y ∷ ys)
        kept = ap (λ (s : Dll). budget s.mem (y ∷ ys)) (requested-quiet n ep q)

    send_loop-ends :
        (f n : ℕ) (p : Pool) (xs : List Ptr)
        → Inv p xs
        → pos_part p.error_reset_interval ≡ 0
        → budget p.mem xs < f
        → (send_loop f w size deadline n p).0 ≢ out_of_attempts
    unfolding send_loop
    send_loop-ends zero n p xs v off h = absurd (omega arith)
    send_loop-ends (suc f) n p xs v off h = elim (wait_ends n p) [
      | inl e ↦
          let s = select-Inv (w.chosen_at n) p xs v in
          let t = select-same (w.chosen_at n) p off in
          rw e (
            attempt-ends f n (select (w.chosen_at n) p).0 (select (w.chosen_at n) p).1
              (rotated (w.chosen_at n) p xs) s.1 s.0 (ap pos_part t.1 ∙ off)
              (omega (
                arith,
                budget-rotated (select (w.chosen_at n) p).1.mem (w.chosen_at n) p xs,
                budget-same p.mem (select (w.chosen_at n) p).1.mem xs (λ a i. ap weight (t.0 a)),
              ))
              (send_loop-ends f (suc n)))
      | inr e ↦ rw e (unfold attempt in λ e. cc)
    ]

-- The deadline of a SendBuffer called at `start`.
abbrev pub deadline_of : ℕ → ℤ → Pool → ℕ
deadline_of start timeout p =
    add_time start (if ltb_ℤ timeout (pos 0) then p.send_buffer_timeout else timeout)

-- Where no other goroutine acts, the clocks move on in the naps, the error reset is switched off
-- and the invariant holds, SendBuffer returns: fuel for one attempt more than the errors that the
-- healthy endpoints can still take is enough.
pub send_buffer-ends :
    (f : ℕ) (w : World) (size start : ℕ) (timeout : ℤ) (p : Pool) (xs : List Ptr)
    → Inv p xs
    → pos_part p.error_reset_interval ≡ 0
    → Calm w (deadline_of start timeout p) p.healthy_poll_interval
    → budget p.mem xs < f
    → (send_buffer f w size start timeout p).0 ≢ out_of_attempts
unfolding send_buffer
send_buffer-ends f w size start timeout p xs v off calm h =
    send_loop-ends w (deadline_of start timeout p) p.healthy_poll_interval calm size f 1 p xs v off
      h
