-- ===== src/Scheduler/System/Stable.antt =====
-- The steps of the workers and of the channels against the invariant, and the states that the
-- scheduler reaches.
use victoriametrics_importer.Prelude.{
  ℕ, ◌+◌, ◌≡◌, subst, Bool, true, false, Option, none, some, List, [], ◌∷◌, ltb, leb, if◌then◌else◌,
  length, Bool-cases, inl, inr,
}
use victoriametrics_importer.Prelude.Int.{ℤ, pos_part, neg_part}
use victoriametrics_importer.Scheduler.{Task, TaskStats, prepare_new_task, todo_q_len, task_q_len}
use victoriametrics_importer.Scheduler.System.{
  HeapLib, Stats, Sched, next, panics, Event, add_new, receive, fire, hand_off, start, finish,
  send_back, step, initial, Reaches, here, then_step, set_stats, pick, arm, hand_off_by, start_by,
  finish_by, enqueue, send_back_by, count_run,
}
use victoriametrics_importer.Scheduler.System.Known.{
  All, is_some, Known, KnownIfBack, HeldKnown, All-concat, Picked, pick-Picked,
}
use victoriametrics_importer.Scheduler.System.Keeps.{
  Inv, Good, arm-Inv, set_stats-Inv, receive_from-Good, fire_by-Good,
}

module _ (lib : HeapLib) where
  hand_off_by-Good :
      (o : Option Task) (s : Sched)
      → HeldKnown s.stats o
      → Inv lib s
      → Good lib (hand_off_by lib o s)
  unfolding hand_off_by
  hand_off_by-Good none s k v = tt
  hand_off_by-Good (some t) s k v = elim (Bool-cases (ltb (length s.todo_q) todo_q_len)) [
    | inl e ↦ rw e (record {
      heap = v.heap;
      timer = v.timer;
      armed = v.armed;
      back = v.back;
      todo = All-concat (Known s.stats) s.todo_q t v.todo k;
      about = tt;
      busy = v.busy;
      done = v.done;
    })
    | inr e ↦ rw e tt
  ]

  start_by-Good :
      (ts : List Task) (s : Sched)
      → All (Known s.stats) ts
      → Inv lib s
      → Good lib (start_by lib ts s)
  unfolding start_by
  start_by-Good [] s a v = tt
  start_by-Good (t ∷ ts) s a v =
      elim (Bool-cases (ltb (length s.running + length s.returning) s.workers)) [
        | inl e ↦ rw e (record {
          heap = v.heap;
          timer = v.timer;
          armed = v.armed;
          back = v.back;
          todo = a.1;
          about = v.about;
          busy = (a.0, v.busy);
          done = v.done;
        })
        | inr e ↦ rw e tt
      ]

  enqueue-Good :
      (t : Task) (s : Sched) → KnownIfBack s.stats t → Inv lib s → Good lib (enqueue lib t s)
  unfolding enqueue
  enqueue-Good t s k v = elim (Bool-cases (ltb (length s.task_q) task_q_len)) [
    | inl e ↦ rw e (record {
      heap = v.heap;
      timer = v.timer;
      armed = v.armed;
      back = All-concat (KnownIfBack s.stats) s.task_q t v.back k;
      todo = v.todo;
      about = v.about;
      busy = v.busy;
      done = v.done;
    })
    | inr e ↦ rw e tt
  ]

  send_back_by-Good :
      (o : Option (Task × List Task)) (s : Sched)
      → Picked (Known s.stats) o
      → Inv lib s
      → Good lib (send_back_by lib o s)
  unfolding send_back_by
  send_back_by-Good none s k v = tt
  send_back_by-Good (some (t, ts)) s k v =
      enqueue-Good t (record s { returning = ts }) (λ _. k.0)
        (record {
          heap = v.heap;
          timer = v.timer;
          armed = v.armed;
          back = v.back;
          todo = v.todo;
          about = v.about;
          busy = v.busy;
          done = k.1;
        })

  -- The two lists of the workers, changed to entries whose statistics are known.
  moved-Inv :
      (s : Sched) (busy done : List Task)
      → All (Known s.stats) busy
      → All (Known s.stats) done
      → Inv lib s
      → Inv lib (record s { running = busy; returning = done })
  moved-Inv s busy done b d v = record {
    heap = v.heap;
    timer = v.timer;
    armed = v.armed;
    back = v.back;
    todo = v.todo;
    about = v.about;
    busy = b;
    done = d;
  }

  finished-All :
      (requeue : Bool) (m : Stats) (t : Task) (ts : List Task) (end_ts : ℕ)
      → Known m t
      → All (Known m) ts
      → All
          (Known m)
          (if requeue then record t { last_executed = end_ts; added_by_worker = true } ∷ ts else ts)
  finished-All true m t ts end_ts k a = (k, a)
  finished-All false m t ts end_ts k a = a

  finish_by-Good :
      (o : Option (Task × List Task)) (end_ts runtime : ℕ) (requeue : Bool) (s : Sched)
      → Picked (Known s.stats) o
      → Inv lib s
      → Good lib (finish_by lib o end_ts runtime requeue s)
  unfolding finish_by
  finish_by-Good none end_ts runtime requeue s k v = tt
  finish_by-Good (some (t, ts)) end_ts runtime requeue s k v = counted (s.stats t.id) k.0
    where
      counted :
          (o : Option TaskStats)
          → is_some o ≡ true
          → Good lib (elim o [
            | none ↦ panics
            | some st ↦
                let overran = leb (pos_part t.interval) (runtime + neg_part t.interval) in
                next (record s {
                  running = ts;
                  returning =
                      if requeue
                      then record t { last_executed = end_ts; added_by_worker = true } ∷ s.returning
                      else s.returning;
                  stats = set_stats t.id (count_run runtime overran requeue st) s.stats;
                })
          ])
      counted none e = absurd (cc e)
      counted (some st) e =
          set_stats-Inv lib t.id _ _
            (moved-Inv s _ _ k.1 (finished-All requeue s.stats t s.returning end_ts k.0 v.done) v)

  -- No step out of a state that has the invariant panics, and the state after it has the invariant.
  pub step-Good : (e : Event) (s : Sched) → Inv lib s → Good lib (step lib e s)
  unfolding step enqueue prepare_new_task
  step-Good (add_new t) s v =
      unfold prepare_new_task in enqueue-Good (prepare_new_task t) s (λ b. absurd (cc b)) v
  step-Good (receive now) s v =
      let w = arm-Inv lib s v in
      receive_from-Good lib (arm lib s).held (arm lib s).task_q now (arm lib s) w.back w
  step-Good fire s v =
      let w = arm-Inv lib s v in
      fire_by-Good lib (arm lib s).held (arm lib s).active_timer (arm lib s).tasks (arm lib s)
        w.heap w.armed w
  step-Good hand_off s v = hand_off_by-Good s.held s v.about v
  step-Good start s v = start_by-Good s.todo_q s v.todo v
  step-Good (finish i end_ts runtime requeue) s v =
      finish_by-Good (pick i s.running) end_ts runtime requeue s
        (pick-Picked (Known s.stats) i s.running v.busy) v
  step-Good (send_back i) s v =
      send_back_by-Good (pick i s.returning) s (pick-Picked (Known s.stats) i s.returning v.done) v

  initial-Inv : (configured : ℤ) (available : ℕ) → Inv lib (initial lib configured available)
  unfolding initial
  initial-Inv configured available = record {
    heap = lib.empty-IsHeap;
    timer = λ a. absurd (cc a);
    armed = λ a. absurd (cc a);
    back = tt;
    todo = tt;
    about = tt;
    busy = tt;
    done = tt;
  }

  -- In every state that the scheduler can reach from its start, the heap is one, no task of it is
  -- due before the time for which an active timer is set, an active timer has a task to fire for,
  -- every task on its way through the workers has its statistics, and no further step panics.
  pub reachable-Inv :
      (configured : ℤ) (available : ℕ) (s : Sched)
      → Reaches lib (initial lib configured available) s
      → Inv lib s × ((e : Event) → ¬ step lib e s ≡ panics)
  reachable-Inv configured available s r =
      let v = holds s r in (v, λ e p. subst (Good lib) p (step-Good e s v))
    where
      holds : (u : Sched) → Reaches lib (initial lib configured available) u → Inv lib u
      holds u here = initial-Inv configured available
      holds u (then_step r e p) = subst (Good lib) p (step-Good e _ (holds _ r))
