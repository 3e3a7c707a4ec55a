-- ===== src/Scheduler/System/Enabled.antt =====
-- When each step of the dispatcher and of the workers is enabled.
use victoriametrics_importer.Prelude.{
  ℕ, ◌+◌, ◌<◌, ◌≡◌, refl, ap, ◌∙◌, Bool, true, false, ◌||◌, Option, none, some, List, [], ◌∷◌, ltb,
  lt→ltb, length, Bool-cases, Option-cases, inl, inr, if◌then◌else◌,
}
use victoriametrics_importer.Scheduler.{
  Task, TaskStats, Slot, next_slot, nearest_multiple, min_execution_pause, todo_q_len, task_q_len,
}
use victoriametrics_importer.Scheduler.System.{
  HeapLib, Sched, Outcome, next, not_enabled, panics, Event, add_new, receive, fire, hand_off,
  start, finish, send_back, step, pick, arm, arm_by, enqueue, receive_back, receive_new, receive_by,
  receive_from, fire_by, hand_off_by, start_by, finish_by, send_back_by,
}
use victoriametrics_importer.Scheduler.System.Keeps.{Inv, Good}
use victoriametrics_importer.Scheduler.System.Stable.{step-Good}

-- Not a call of AddNewTask from outside.
abbrev pub IsInternal : Event → Type 0
IsInternal (add_new t) = ⊥
IsInternal (receive now) = Unit {0}
IsInternal fire = Unit {0}
IsInternal hand_off = Unit {0}
IsInternal start = Unit {0}
IsInternal (finish i end_ts runtime requeue) = Unit {0}
IsInternal (send_back i) = Unit {0}

abbrev pub is_enabled : Outcome → Bool
is_enabled (next s) = true
is_enabled not_enabled = false
is_enabled panics = true

if_next : (b : Bool) (u : Sched) → b ≡ true → is_enabled (if b then next u else not_enabled) ≡ true
if_next true u e = refl
if_next false u e = absurd (cc e)

module _ (lib : HeapLib) where
  pub CanStep : Sched → Type 0
  CanStep s = (e : Event) × ((u : Sched) × (IsInternal e × (step lib e s ≡ next u)))

  next-Good : (o : Outcome) → Good lib o → is_enabled o ≡ true → (u : Sched) × (o ≡ next u)
  next-Good (next s) g h = (s, refl)
  next-Good not_enabled g h = absurd (cc h)
  next-Good panics g h = absurd g

  pub step-CanStep :
      (e : Event) (s : Sched)
      → IsInternal e
      → Inv lib s
      → is_enabled (step lib e s) ≡ true
      → CanStep s
  unfolding CanStep
  step-CanStep e s i v h =
      let (u, p) = next-Good (step lib e s) (step-Good lib e s v) h in (e, (u, (i, p)))

  finish_by-enabled :
      (t : Task) (ts : List Task) (s : Sched)
      → is_enabled (finish_by lib (some (t, ts)) 0 0 true s) ≡ true
  unfolding finish_by
  finish_by-enabled t ts s = elim (Option-cases (s.stats t.id)) [
    | inl e ↦ rw (e, is_enabled) refl
    | inr (st, e) ↦ rw (e, is_enabled) refl
  ]

  pub finish-enabled :
      (s : Sched) (t : Task) (ts : List Task)
      → s.running ≡ t ∷ ts
      → is_enabled (step lib (finish 0 0 0 true) s) ≡ true
  unfolding step pick
  finish-enabled s t ts e =
      ap (λ l. is_enabled (finish_by lib (pick 0 l) 0 0 true s)) e ∙ finish_by-enabled t ts s

  pub start-enabled :
      (s : Sched) (t : Task) (ts : List Task)
      → s.todo_q ≡ t ∷ ts
      → length s.running + length s.returning < s.workers
      → is_enabled (step lib start s) ≡ true
  unfolding step start_by
  start-enabled s t ts e h = ap (λ l. is_enabled (start_by lib l s)) e ∙ if_next _ _ (lt→ltb _ _ h)

  enqueue-enabled :
      (t : Task) (s : Sched) → length s.task_q < task_q_len → is_enabled (enqueue lib t s) ≡ true
  unfolding enqueue
  enqueue-enabled t s h = if_next _ _ (lt→ltb _ _ h)

  pub send_back-enabled :
      (s : Sched) (t : Task) (ts : List Task)
      → s.returning ≡ t ∷ ts
      → length s.task_q < task_q_len
      → is_enabled (step lib (send_back 0) s) ≡ true
  unfolding step send_back_by pick
  send_back-enabled s t ts e h =
      ap (λ l. is_enabled (send_back_by lib (pick 0 l) s)) e
      ∙ enqueue-enabled t (record s { returning = ts }) h

  pub hand_off-enabled :
      (s : Sched) (t : Task)
      → s.held ≡ some t
      → length s.todo_q < todo_q_len
      → is_enabled (step lib hand_off s) ≡ true
  unfolding step hand_off_by
  hand_off-enabled s t e h =
      ap (λ o. is_enabled (hand_off_by lib o s)) e ∙ if_next _ _ (lt→ltb _ _ h)

  receive_back-enabled :
      (slot : Slot) (o : Option TaskStats) (t : Task) (s : Sched)
      → is_enabled (receive_back lib slot o t s) ≡ true
  unfolding receive_back
  receive_back-enabled slot none t s = elim (Bool-cases (slot.tweaked || slot.delayed)) [
    | inl e ↦ rw e refl
    | inr e ↦ rw e refl
  ]
  receive_back-enabled slot (some st) t s = refl

  receive_by-enabled :
      (b : Bool) (now : ℕ) (t : Task) (s : Sched) → is_enabled (receive_by lib b now t s) ≡ true
  unfolding receive_by receive_new
  receive_by-enabled true now t s = receive_back-enabled (next_slot now t) (s.stats t.id) t s
  receive_by-enabled false now t s =
      elim (Bool-cases (ltb (nearest_multiple now t.interval) (now + min_execution_pause))) [
        | inl e ↦ rw e refl
        | inr e ↦ rw e refl
      ]

  -- Arming the timer changes nothing else.
  record Armed (s u : Sched) : Type 0 where
    same_held : u.held ≡ s.held
    same_task_q : u.task_q ≡ s.task_q
    same_tasks : u.tasks ≡ s.tasks

  arm_by-Armed : (b : Bool) (ts : List Task) (s : Sched) → Armed s (arm_by lib b ts s)
  unfolding arm_by
  arm_by-Armed true ts s = record { same_held = refl; same_task_q = refl; same_tasks = refl }
  arm_by-Armed false [] s = record { same_held = refl; same_task_q = refl; same_tasks = refl }
  arm_by-Armed false (t ∷ ts) s = record { same_held = refl; same_task_q = refl; same_tasks = refl }

  arm_by-active :
      (b : Bool) (t : Task) (ts : List Task) (s : Sched)
      → s.active_timer ≡ b
      → (arm_by lib b (t ∷ ts) s).active_timer ≡ true
  unfolding arm_by
  arm_by-active true t ts s e = e
  arm_by-active false t ts s e = refl

  pub receive-enabled :
      (s : Sched) (t : Task) (ts : List Task)
      → s.held ≡ none
      → s.task_q ≡ t ∷ ts
      → is_enabled (step lib (receive 0) s) ≡ true
  unfolding step receive_from arm
  receive-enabled s t ts e f =
      let a = arm_by-Armed s.active_timer s.tasks s in
      let u = arm lib s in
      ap (λ o. is_enabled (receive_from lib o u.task_q 0 u)) (a.same_held ∙ e)
      ∙ ap (λ l. is_enabled (receive_from lib none l 0 u)) (a.same_task_q ∙ f)
      ∙ receive_by-enabled t.added_by_worker 0 t (record u { task_q = ts })

  pub fire-enabled :
      (s : Sched) (t : Task) (ts : List Task)
      → s.held ≡ none
      → s.tasks ≡ t ∷ ts
      → is_enabled (step lib fire s) ≡ true
  unfolding step fire_by arm
  fire-enabled s t ts e f =
      let a = arm_by-Armed s.active_timer s.tasks s in
      let u = arm lib s in
      let active : u.active_timer ≡ true =
        ap (λ l. (arm_by lib s.active_timer l s).active_timer) f
        ∙ arm_by-active s.active_timer t ts s refl in
      ap (λ o. is_enabled (fire_by lib o u.active_timer u.tasks u)) (a.same_held ∙ e)
      ∙ ap (λ b. is_enabled (fire_by lib none b u.tasks u)) active
      ∙ ap (λ l. is_enabled (fire_by lib none true l u)) (a.same_tasks ∙ f)
