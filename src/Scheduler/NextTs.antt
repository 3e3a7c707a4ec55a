-- ===== src/Scheduler/NextTs.antt =====
-- The next scheduling time of a task.
use native.Mathlib.Nat.{div-add-mod', mul-mod_left, add-mod_right}
use victoriametrics_importer.Prelude.{
  ℕ, zero, suc, ◌+◌, ◌-◌, ◌*◌, ◌/◌, ◌%◌, ◌≤◌, ◌<◌, ◌≡◌, refl, sym, subst, ap, ◌∙◌, ◌⊎◌, inl, inr,
  Bool, true, false, Bool-cases, arith, ltb, if◌then◌else◌,
}
use victoriametrics_importer.Prelude.Int.{pos}
use victoriametrics_importer.Scheduler.{
  min_execution_pause, Task, nearest_multiple, catch_up, delay, next_slot, slot_for, Slot,
}

-- The nearest multiple of the interval that lies in the future.
pub nearest_multiple_lem :
    (now k : ℕ)
    → 0 < k
    → (now < nearest_multiple now (pos k))
      × (nearest_multiple now (pos k) ≤ now + k)
      × (nearest_multiple now (pos k) % k ≡ 0)
unfolding nearest_multiple
nearest_multiple_lem now k h = (grind arith, grind arith, whole)
  where
    base : nearest_multiple now (pos k) ≡ (now / k + 1) * k
    base = ground (arith, div-add-mod' now k)

    whole : nearest_multiple now (pos k) % k ≡ 0
    whole = ap (λ x. x % k) base ∙ mul-mod_left (now / k + 1) k

-- Where the loop ends: at the first of the later multiples that is not before the target.
catch_up_lem :
    (f target k next_ts : ℕ) (b : Bool)
    → 0 < k
    → target ≤ next_ts + f
    → let r = catch_up f target (pos k) next_ts b in
      (target ≤ r.0)
      × (next_ts ≤ r.0)
      × ((r.0 ≡ next_ts) ⊎ (r.0 < target + k))
      × (r.0 % k ≡ next_ts % k)
      × (r.1 ≡ (if ltb next_ts target then true else b))
unfolding catch_up
catch_up_lem zero target k next_ts b h l = ground arith
catch_up_lem (suc f) target k next_ts b h l =
    ground (arith, catch_up_lem f target k (next_ts + k) true h, add-mod_right next_ts k)

-- What the dispatcher promises of the next scheduling time of a task that comes back at `now`.
pub record IsSlot (now k : ℕ) (t : Task) (s : Slot) : Type 0 where
  pub future : now < s.next_ts
  pub monotone : t.next_ts ≤ s.next_ts
  pub paused : t.last_executed + min_execution_pause ≤ s.next_ts
  pub soon :
      (s.next_ts ≤ now + k)
      ⊎ (s.next_ts < t.next_ts + k)
      ⊎ (s.next_ts ≡ t.last_executed + min_execution_pause)
  pub regular : s.delayed ≡ false → s.next_ts % k ≡ 0
  pub tweak : s.tweaked ≡ ltb (nearest_multiple now (pos k)) t.next_ts

delay-IsSlot :
    (now k : ℕ) (t : Task) (next_ts : ℕ) (tweaked : Bool)
    → now < next_ts
    → t.next_ts ≤ next_ts
    → (next_ts ≤ now + k) ⊎ (next_ts < t.next_ts + k)
    → next_ts % k ≡ 0
    → tweaked ≡ ltb (nearest_multiple now (pos k)) t.next_ts
    → IsSlot now k t (delay (t.last_executed + min_execution_pause) (next_ts, tweaked))
unfolding delay
delay-IsSlot now k t next_ts tweaked f m s r w =
    elim (Bool-cases (ltb next_ts (t.last_executed + min_execution_pause))) [
      | inl e ↦ rw e (record {
        future = ground arith;
        monotone = ground arith;
        paused = omega arith;
        soon = inr (inr refl);
        regular = λ d. absurd (cc);
        tweak = w;
      })
      | inr e ↦ rw e (record {
        future = f;
        monotone = m;
        paused = ground arith;
        soon = elim s [ inl a ↦ inl a | inr a ↦ inr (inl a) ];
        regular = λ d. r;
        tweak = w;
      })
    ]

as_flag : (b : Bool) → (if b then true else false) ≡ b
as_flag b = ground arith

-- The time lies in the future and not before the last one, leaves the pause behind the last execution,
-- is no later than it must be, and is a multiple of the interval unless the pause set it.
pub next_slot-IsSlot :
    (now k : ℕ) (t : Task) → 0 < k → t.interval ≡ pos k → IsSlot now k t (next_slot now t)
unfolding next_slot slot_for
next_slot-IsSlot now k t h e =
    let base = nearest_multiple now (pos k) in
    let n = nearest_multiple_lem now k h in
    let c = catch_up_lem (t.next_ts - base) t.next_ts k base false h (omega arith) in
    subst (λ i. IsSlot now k t (slot_for now t i)) (sym e)
      (delay-IsSlot now k t (catch_up (t.next_ts - base) t.next_ts (pos k) base false).0
        (catch_up (t.next_ts - base) t.next_ts (pos k) base false).1 (omega (arith, n.0, c.1)) c.0
        (elim c.2 [ inl a ↦ inl (omega (arith, n.1, a)) | inr a ↦ inr a ]) (c.3 ∙ n.2)
        (c.4 ∙ as_flag (ltb base t.next_ts)))
