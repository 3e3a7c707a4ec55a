-- ===== src/Scheduler/System/Keeps.antt =====
-- The invariant of the scheduler's states, and the dispatcher's steps against it.
use Prim.Native.String.{String}
use victoriametrics_importer.Prelude.{
  ℕ, ◌+◌, ◌<◌, ◌≡◌, refl, sym, subst, ◌∙◌, Bool, true, false, Option, none, some, List, [], ◌∷◌,
  ltb, arith, Bool-cases, inl, inr,
}
use victoriametrics_importer.Scheduler.{
  Task, TaskStats, Slot, next_slot, nearest_multiple, min_execution_pause,
}
use victoriametrics_importer.Scheduler.System.{
  HeapLib, Sched, Outcome, next, not_enabled, panics, count, set_stats, schedule, arm, arm_by, park,
  receive_back, receive_new, receive_by, receive_from, fire_by,
}
use victoriametrics_importer.Scheduler.System.Known.{
  All, is_some, Known, KnownIfBack, HeldKnown, All-Known, All-KnownIfBack, held-Known,
  set_stats-Grows, set_stats_self,
}

-- No task of the heap is due before the time for which the timer is set.
abbrev pub early : ℕ → Task → Bool
early ts t = ltb t.next_ts ts

module _ (lib : HeapLib) where
  pub record Inv (s : Sched) : Type 0 where
    pub heap : lib.IsHeap s.tasks
    pub timer : s.active_timer ≡ true → count (early s.next_sched_ts) s.tasks ≡ 0
    pub armed : s.active_timer ≡ true → 0 < count (λ _. true) s.tasks
    pub back : All (KnownIfBack s.stats) s.task_q
    pub todo : All (Known s.stats) s.todo_q
    pub about : HeldKnown s.stats s.held
    pub busy : All (Known s.stats) s.running
    pub done : All (Known s.stats) s.returning

  -- A step keeps the invariant or is not enabled; it does not panic.
  abbrev pub Good : Outcome → Type 0
  Good (next s) = Inv s
  Good not_enabled = Unit {0}
  Good panics = ⊥

  pub arm-Inv : (s : Sched) → Inv s → Inv (arm lib s)
  unfolding arm
  arm-Inv s v = by_timer s.active_timer s.tasks refl refl
    where
      by_timer :
          (b : Bool) (ts : List Task) → s.active_timer ≡ b → s.tasks ≡ ts → Inv (arm_by lib b ts s)
      by_timer true ts e f = unfold arm_by in v
      by_timer false [] e f = unfold arm_by in v
      by_timer false (t ∷ ts) e f =
          let w : lib.IsHeap (t ∷ ts) = subst lib.IsHeap f v.heap in
          unfold arm_by in
          record {
            heap = v.heap;
            timer = λ _. rw f (ground (arith, lib.first-least t ts w));
            armed = λ _. rw f (omega arith);
            back = v.back;
            todo = v.todo;
            about = v.about;
            busy = v.busy;
            done = v.done;
          }

  pub schedule-Inv : (t : Task) (s : Sched) → Inv s → Inv (schedule t s)
  unfolding schedule
  schedule-Inv t s v =
      let g = set_stats-Grows t.id _ s.stats in
      record {
        heap = v.heap;
        timer = v.timer;
        armed = v.armed;
        back = All-KnownIfBack s.stats _ s.task_q g v.back;
        todo = All-Known s.stats _ s.todo_q g v.todo;
        about = set_stats_self t.id _ s.stats;
        busy = All-Known s.stats _ s.running g v.busy;
        done = All-Known s.stats _ s.returning g v.done;
      }

  pub park-Inv : (t : Task) (s : Sched) → Inv s → Inv (park lib t s)
  unfolding park
  park-Inv t s v = record {
    heap = lib.push-IsHeap s.tasks t v.heap;
    timer = λ a. lib.push-count (early s.next_sched_ts) s.tasks t ∙ ground (arith, a, v.timer);
    armed = λ a. subst (λ n. 0 < n) (sym (lib.push-count (λ _. true) s.tasks t)) (omega arith);
    back = v.back;
    todo = v.todo;
    about = v.about;
    busy = v.busy;
    done = v.done;
  }

  -- A change of one task's statistics, the lists as they are.
  pub set_stats-Inv :
      (id : String) (st : TaskStats) (s : Sched)
      → Inv s
      → Inv (record s { stats = set_stats id st s.stats })
  set_stats-Inv id st s v =
      let g = set_stats-Grows id st s.stats in
      record {
        heap = v.heap;
        timer = v.timer;
        armed = v.armed;
        back = All-KnownIfBack s.stats _ s.task_q g v.back;
        todo = All-Known s.stats _ s.todo_q g v.todo;
        about = held-Known s.stats _ s.held g v.about;
        busy = All-Known s.stats _ s.running g v.busy;
        done = All-Known s.stats _ s.returning g v.done;
      }

  pub receive_back-Good :
      (slot : Slot) (o : Option TaskStats) (t : Task) (s : Sched)
      → is_some o ≡ true
      → Inv s
      → Good (receive_back lib slot o t s)
  unfolding receive_back
  receive_back-Good slot none t s k v = absurd (cc k)
  receive_back-Good slot (some st) t s k v =
      park-Inv (record t { next_ts = slot.next_ts }) _ (set_stats-Inv t.id _ s v)

  pub schedule_now-Inv :
      (t : Task) (s : Sched) → Inv s → Inv (schedule t (record s { active_timer = false }))
  schedule_now-Inv t s v =
      schedule-Inv t (record s { active_timer = false })
        (record {
          heap = v.heap;
          timer = λ a. absurd (cc a);
          armed = λ a. absurd (cc a);
          back = v.back;
          todo = v.todo;
          about = v.about;
          busy = v.busy;
          done = v.done;
        })

  pub receive_new-Good : (now : ℕ) (t : Task) (s : Sched) → Inv s → Good (receive_new lib now t s)
  unfolding receive_new
  receive_new-Good now t s v =
      elim (Bool-cases (ltb (nearest_multiple now t.interval) (now + min_execution_pause))) [
        | inl e ↦ rw e (park-Inv (record t { next_ts = nearest_multiple now t.interval }) s v)
        | inr e ↦ rw e (schedule_now-Inv (record t { next_ts = now }) s v)
      ]

  pub receive_by-Good :
      (b : Bool) (now : ℕ) (t : Task) (s : Sched)
      → (b ≡ true → Known s.stats t)
      → Inv s
      → Good (receive_by lib b now t s)
  unfolding receive_by
  receive_by-Good true now t s k v =
      receive_back-Good (next_slot now t) (s.stats t.id) t s (k refl) v
  receive_by-Good false now t s k v = receive_new-Good now t s v

  pub receive_from-Good :
      (o : Option Task) (ts : List Task) (now : ℕ) (s : Sched)
      → All (KnownIfBack s.stats) ts
      → Inv s
      → Good (receive_from lib o ts now s)
  unfolding receive_from
  receive_from-Good none [] now s a v = tt
  receive_from-Good (some u) ts now s a v = tt
  receive_from-Good none (t ∷ ts) now s a v =
      receive_by-Good t.added_by_worker now t (record s { task_q = ts }) a.0
        (record {
          heap = v.heap;
          timer = v.timer;
          armed = v.armed;
          back = a.1;
          todo = v.todo;
          about = v.about;
          busy = v.busy;
          done = v.done;
        })

  pub fire_by-Good :
      (o : Option Task) (active : Bool) (ts : List Task) (s : Sched)
      → lib.IsHeap ts
      → (active ≡ true → 0 < count (λ _. true) ts)
      → Inv s
      → Good (fire_by lib o active ts s)
  unfolding fire_by
  fire_by-Good (some u) active ts s h n v = tt
  fire_by-Good none false ts s h n v = tt
  fire_by-Good none true [] s h n v = absurd (omega (arith, n refl))
  fire_by-Good none true (t ∷ ts) s h n v =
      schedule-Inv t (record s { tasks = lib.pop t ts; active_timer = false })
        (record {
          heap = lib.pop-IsHeap t ts h;
          timer = λ a. absurd (cc a);
          armed = λ a. absurd (cc a);
          back = v.back;
          todo = v.todo;
          about = v.about;
          busy = v.busy;
          done = v.done;
        })
