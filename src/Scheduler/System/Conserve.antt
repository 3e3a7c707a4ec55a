-- ===== src/Scheduler/System/Conserve.antt =====
-- Where the tasks are: each step against the number of tasks in the heap, the queues and the hands of
-- the dispatcher and the workers.
use Prim.Native.String.{String}
use victoriametrics_importer.Prelude.{
  ℕ, zero, suc, ◌+◌, ◌≡◌, refl, ap, subst, Bool, true, false, ◌||◌, Option, none, some, List, [],
  ◌∷◌, ◌++◌, ltb, leb, if◌then◌else◌, length, arith, Bool-cases, inl, inr,
}
use victoriametrics_importer.Prelude.Int.{pos_part, neg_part}
use victoriametrics_importer.Scheduler.{
  Task, TaskStats, Slot, next_slot, nearest_multiple, min_execution_pause, todo_q_len, task_q_len,
}
use victoriametrics_importer.Scheduler.System.{
  HeapLib, Sched, Outcome, next, not_enabled, panics, Event, add_new, receive, fire, hand_off,
  start, finish, send_back, one, count, schedule, park, pick, arm, arm_by, receive_back,
  receive_new, receive_by, receive_from, fire_by, hand_off_by, start_by, finish_by, enqueue,
  send_back_by, set_stats, count_run,
}

module _ (q : String → Bool) where
  -- The tasks whose id passes a test.
  abbrev pub by_id : Task → Bool
  by_id t = q t.id

  abbrev pub held_count : Option Task → ℕ
  held_count none = 0
  held_count (some t) = one by_id t

  abbrev pub present : Sched → ℕ
  present s =
      count by_id s.tasks
      + count by_id s.task_q
      + count by_id s.todo_q
      + held_count s.held
      + count by_id s.running
      + count by_id s.returning

  -- Added by a step from outside.
  abbrev pub added : Event → ℕ
  added (add_new t) = one by_id t
  added (receive now) = 0
  added fire = 0
  added hand_off = 0
  added start = 0
  added (finish i end_ts runtime requeue) = 0
  added (send_back i) = 0

  abbrev pub picked_count : Option (Task × List Task) → ℕ
  picked_count none = 0
  picked_count (some (t, ts)) = one by_id t

  -- Dropped by a step: a task that asks not to be queued again.
  abbrev pub dropped : Event → Sched → ℕ
  dropped (add_new t) s = 0
  dropped (receive now) s = 0
  dropped fire s = 0
  dropped hand_off s = 0
  dropped start s = 0
  dropped (finish i end_ts runtime requeue) s =
      if requeue then 0 else picked_count (pick i s.running)
  dropped (send_back i) s = 0

  abbrev pub Balances : (total lost : ℕ) → Outcome → Type 0
  Balances total lost (next u) = present u + lost ≡ total
  Balances total lost not_enabled = Unit {0}
  Balances total lost panics = Unit {0}

  count-snoc :
      (ts : List Task) (t : Task) → count by_id (ts ++ t ∷ []) ≡ one by_id t + count by_id ts
  count-snoc [] t = refl
  count-snoc (u ∷ us) t = omega (arith, count-snoc us t)

  pub IsPicked : List Task → Option (Task × List Task) → Type 0
  IsPicked ts none = Unit {0}
  IsPicked ts (some (t, us)) = count by_id ts ≡ one by_id t + count by_id us

  pub pick-IsPicked : (i : ℕ) (ts : List Task) → IsPicked ts (pick i ts)
  unfolding pick IsPicked
  pick-IsPicked i [] = tt
  pick-IsPicked zero (t ∷ ts) = refl
  pick-IsPicked (suc i) (t ∷ ts) = later (pick i ts) (pick-IsPicked i ts)
    where
      later :
          (o : Option (Task × List Task))
          → IsPicked ts o
          → IsPicked (t ∷ ts) (elim o [ none ↦ none | some (u, us) ↦ some (u, t ∷ us) ])
      later none h = tt
      later (some (u, us)) h = omega (arith, h)

  module _ (lib : HeapLib) where
    pub arm-present : (s : Sched) → present (arm lib s) ≡ present s
    unfolding arm
    arm-present s = by_timer s.active_timer s.tasks
      where
        by_timer : (b : Bool) (ts : List Task) → present (arm_by lib b ts s) ≡ present s
        by_timer true ts = unfold arm_by in refl
        by_timer false [] = unfold arm_by in refl
        by_timer false (t ∷ ts) = unfold arm_by in refl

    pub enqueue-Balances :
        (t : Task) (s : Sched) → Balances (one by_id t + present s) 0 (enqueue lib t s)
    unfolding enqueue
    enqueue-Balances t s = elim (Bool-cases (ltb (length s.task_q) task_q_len)) [
      | inl e ↦ rw e (omega (arith, count-snoc s.task_q t))
      | inr e ↦ rw e tt
    ]

    park-present : (t : Task) (s : Sched) → present (park lib t s) ≡ one by_id t + present s
    unfolding park
    park-present t s = omega (arith, lib.push-count by_id s.tasks t)

    schedule-present :
        (t : Task) (s : Sched) → s.held ≡ none → present (schedule t s) ≡ one by_id t + present s
    unfolding schedule
    schedule-present t s e = omega (arith, ap held_count e)

    receive_back-Balances :
        (slot : Slot) (o : Option TaskStats) (t : Task) (s : Sched)
        → Balances (one by_id t + present s) 0 (receive_back lib slot o t s)
    unfolding receive_back
    receive_back-Balances slot none t s = elim (Bool-cases (slot.tweaked || slot.delayed)) [
      | inl e ↦ rw e tt
      | inr e ↦ rw e (omega (arith, park-present (record t { next_ts = slot.next_ts }) s))
    ]
    receive_back-Balances slot (some st) t s =
        omega (arith, park-present (record t { next_ts = slot.next_ts }) _)

    receive_new-Balances :
        (now : ℕ) (t : Task) (s : Sched)
        → s.held ≡ none
        → Balances (one by_id t + present s) 0 (receive_new lib now t s)
    unfolding receive_new
    receive_new-Balances now t s e =
        let next_ts = nearest_multiple now t.interval in
        elim (Bool-cases (ltb next_ts (now + min_execution_pause))) [
          | inl f ↦ rw f (omega (arith, park-present (record t { next_ts = next_ts }) s))
          | inr f ↦ rw f (
              omega (
                arith,
                schedule-present (record t { next_ts = now }) (record s { active_timer = false }) e,
              ))
        ]

    receive_by-Balances :
        (b : Bool) (now : ℕ) (t : Task) (s : Sched)
        → s.held ≡ none
        → Balances (one by_id t + present s) 0 (receive_by lib b now t s)
    unfolding receive_by
    receive_by-Balances true now t s e = receive_back-Balances (next_slot now t) (s.stats t.id) t s
    receive_by-Balances false now t s e = receive_new-Balances now t s e

    pub receive_from-Balances :
        (o : Option Task) (ts : List Task) (now : ℕ) (s : Sched)
        → s.held ≡ o
        → s.task_q ≡ ts
        → Balances (present s) 0 (receive_from lib o ts now s)
    unfolding receive_from
    receive_from-Balances none [] now s e f = tt
    receive_from-Balances (some u) ts now s e f = tt
    receive_from-Balances none (t ∷ ts) now s e f =
        subst
          (λ n. Balances n 0 (receive_by lib t.added_by_worker now t (record s { task_q = ts })))
          (omega (arith, ap (count by_id) f))
          (receive_by-Balances t.added_by_worker now t (record s { task_q = ts }) e)

    pub fire_by-Balances :
        (o : Option Task) (active : Bool) (ts : List Task) (s : Sched)
        → s.held ≡ o
        → s.tasks ≡ ts
        → lib.IsHeap ts
        → Balances (present s) 0 (fire_by lib o active ts s)
    unfolding fire_by
    fire_by-Balances none true [] s e f h = tt
    fire_by-Balances none false ts s e f h = tt
    fire_by-Balances (some u) active ts s e f h = tt
    fire_by-Balances none true (t ∷ ts) s e f h =
        let g = schedule-present t (record s { tasks = lib.pop t ts; active_timer = false }) e in
        omega (arith, g, lib.pop-count by_id t ts h, ap (count by_id) f)

    pub hand_off_by-Balances :
        (o : Option Task) (s : Sched) → s.held ≡ o → Balances (present s) 0 (hand_off_by lib o s)
    unfolding hand_off_by
    hand_off_by-Balances none s e = tt
    hand_off_by-Balances (some t) s e = elim (Bool-cases (ltb (length s.todo_q) todo_q_len)) [
      | inl f ↦ rw f (omega (arith, count-snoc s.todo_q t, ap held_count e))
      | inr f ↦ rw f tt
    ]

    pub start_by-Balances :
        (ts : List Task) (s : Sched) → s.todo_q ≡ ts → Balances (present s) 0 (start_by lib ts s)
    unfolding start_by
    start_by-Balances [] s e = tt
    start_by-Balances (t ∷ ts) s e =
        elim (Bool-cases (ltb (length s.running + length s.returning) s.workers)) [
          | inl f ↦ rw f (omega (arith, ap (count by_id) e))
          | inr f ↦ rw f tt
        ]

    pub send_back_by-Balances :
        (o : Option (Task × List Task)) (s : Sched)
        → IsPicked s.returning o
        → Balances (present s) 0 (send_back_by lib o s)
    unfolding send_back_by IsPicked
    send_back_by-Balances none s h = tt
    send_back_by-Balances (some (t, ts)) s h =
        subst (λ n. Balances n 0 (enqueue lib t (record s { returning = ts }))) (omega (arith, h))
          (enqueue-Balances t (record s { returning = ts }))

    requeued :
        (requeue : Bool) (t u : Task) (ts : List Task)
        → t.id ≡ u.id
        → count by_id (if requeue then u ∷ ts else ts) + (if requeue then 0 else one by_id t)
          ≡ one by_id t + count by_id ts
    requeued true t u ts e = omega (arith, ap {B = ℕ} (λ i. if q i then 1 else 0) e)
    requeued false t u ts e = omega arith

    pub finish_by-Balances :
        (o : Option (Task × List Task)) (end_ts runtime : ℕ) (requeue : Bool) (s : Sched)
        → IsPicked s.running o
        → Balances
            (present s)
            (if requeue then 0 else picked_count o)
            (finish_by lib o end_ts runtime requeue s)
    unfolding finish_by IsPicked
    finish_by-Balances none end_ts runtime requeue s h = tt
    finish_by-Balances (some (t, ts)) end_ts runtime requeue s h = counted (s.stats t.id)
      where
        counted :
            (o : Option TaskStats)
            → Balances (present s) (if requeue then 0 else one by_id t) (elim o [
              | none ↦ panics
              | some st ↦
                  let overran = leb (pos_part t.interval) (runtime + neg_part t.interval) in
                  next (record s {
                    running = ts;
                    returning =
                        if requeue
                        then record t { last_executed = end_ts; added_by_worker = true }
                          ∷ s.returning
                        else s.returning;
                    stats = set_stats t.id (count_run runtime overran requeue st) s.stats;
                  })
            ])
        counted none = tt
        counted (some st) = omega (
          arith,
          h,
          requeued requeue t (record t { last_executed = end_ts; added_by_worker = true })
              s.returning refl,
        )
