-- ===== src/Scheduler/System.antt =====
-- The dispatcher, the workers and their queues as one system: each step is what one goroutine does
-- between two of its channel operations. The heap is container/heap over the scheduler's Less, Swap,
-- Push and Pop, and comes as a parameter, for which Scheduler/Heap has the binary heap. A worker that
-- runs a task is an entry of `running`, one that waits to send it back an entry of `returning`; `held`
-- is the task that the dispatcher is about to send to the workers.
pub mod Known
pub mod Keeps
pub mod Stable
pub mod Conserve
pub mod Counted
pub mod Enabled
pub mod Progress
mod Tests
use Prim.Native.String.{String}
use text.Mathlib.Text.{◌==◌ as str_eq}
use victoriametrics_importer.Prelude.{
  ℕ, zero, suc, ◌+◌, ◌-◌, ◌*◌, ◌/◌, ◌%◌, ◌^◌, ◌≤◌, ◌<◌, ◌≡◌, Bool, true, false, not, ◌&&◌, ◌||◌,
  Option, none, some, List, [], ◌∷◌, ◌++◌, ltb, leb, if◌then◌else◌, length,
}
use victoriametrics_importer.Prelude.Int.{ℤ, pos, pos_part, neg_part, ltb_ℤ}
use victoriametrics_importer.Scheduler.{
  Task, TaskStats, new_task_stats, Slot, next_slot, nearest_multiple, min_execution_pause,
  prepare_new_task, task_q_len, todo_q_len, num_workers,
}

-- How many tasks of a list pass a test.
abbrev pub one : (Task → Bool) → Task → ℕ
one p t = if p t then 1 else 0

abbrev pub count : (Task → Bool) → List Task → ℕ
count p [] = 0
count p (t ∷ ts) = one p t + count p ts

-- container/heap, as its documentation has it: `IsHeap` is its invariant, `Push` and `Pop` keep it
-- and the tasks, and `Pop` takes the first entry, than which none is less.
pub record HeapLib : Type 1 where
  pub IsHeap : List Task → Type 0
  pub push : List Task → Task → List Task
  pub pop : Task → List Task → List Task
  pub empty-IsHeap : IsHeap []
  pub push-IsHeap : (ts : List Task) (t : Task) → IsHeap ts → IsHeap (push ts t)
  pub pop-IsHeap : (t : Task) (ts : List Task) → IsHeap (t ∷ ts) → IsHeap (pop t ts)
  pub push-count :
      (p : Task → Bool) (ts : List Task) (t : Task) → count p (push ts t) ≡ one p t + count p ts
  pub pop-count :
      (p : Task → Bool) (t : Task) (ts : List Task)
      → IsHeap (t ∷ ts)
      → count p (pop t ts) ≡ count p ts
  pub first-least :
      (t : Task) (ts : List Task) → IsHeap (t ∷ ts) → count (λ u. ltb u.next_ts t.next_ts) ts ≡ 0

abbrev pub Stats : Type 0
Stats = String → Option TaskStats

pub record Sched : Type 0 where
  pub tasks : List Task
  pub task_q : List Task
  pub todo_q : List Task
  pub held : Option Task
  pub running : List Task
  pub returning : List Task
  pub active_timer : Bool
  pub next_sched_ts : ℕ
  pub stats : Stats
  pub workers : ℕ

pub data Outcome : Type 0 where
  next : Sched → Outcome
  not_enabled : Outcome
  panics : Outcome

abbrev pub add64 : ℕ → ℕ → ℕ
add64 a b = (a + b) % 2 ^ 64

abbrev pub set_stats : String → TaskStats → Stats → Stats
set_stats id st m = λ u. if str_eq u id then some st else m u

abbrev pub stats_or_new : Option TaskStats → TaskStats
stats_or_new none = new_task_stats
stats_or_new (some st) = st

abbrev pub count_scheduled : TaskStats → TaskStats
count_scheduled st = record st { scheduled_count = add64 st.scheduled_count 1 }

-- `if task != nil`, up to the send
unfoldable pub schedule : Task → Sched → Sched
schedule t s = record s {
  stats = set_stats t.id (count_scheduled (stats_or_new (s.stats t.id))) s.stats;
  held = some t;
}

count_slot : Slot → TaskStats → TaskStats
count_slot slot st = record st {
  next_ts_hack_count =
      if slot.tweaked then add64 st.next_ts_hack_count 1 else st.next_ts_hack_count;
  delayed_count = if slot.delayed then add64 st.delayed_count 1 else st.delayed_count;
}

count_run : (runtime : ℕ) → (overran requeue : Bool) → TaskStats → TaskStats
count_run runtime overran requeue st = record st {
  overrun_count = if overran then add64 st.overrun_count 1 else st.overrun_count;
  executed_count = add64 st.executed_count 1;
  disabled = not requeue;
  total_runtime = add64 st.total_runtime (runtime / 1000);
}

-- Takes out the i-th task: any of the workers may be next.
pub pick : ℕ → List Task → Option (Task × List Task)
pick i [] = none
pick zero (t ∷ ts) = some (t, ts)
pick (suc i) (t ∷ ts) = elim (pick i ts) [ none ↦ none | some (u, us) ↦ some (u, t ∷ us) ]

pub data Event : Type 0 where
  add_new : Task → Event
  receive : (now : ℕ) → Event
  fire hand_off start : Event
  finish : (i end_ts runtime : ℕ) → (requeue : Bool) → Event
  send_back : (i : ℕ) → Event

module _ (lib : HeapLib) where
  -- The top of the dispatcher's loop: arm the timer for the first task.
  arm_by : (active : Bool) → List Task → Sched → Sched
  arm_by true ts s = s
  arm_by false [] s = s
  arm_by false (t ∷ ts) s = record s { next_sched_ts = t.next_ts; active_timer = true }

  -- `heap.Push`, and the timer's cancellation if the new time is nearer.
  pub park : Task → Sched → Sched
  park t s = record s {
    tasks = lib.push s.tasks t;
    active_timer = s.active_timer && not (ltb t.next_ts s.next_sched_ts);
  }

  -- A task that a worker has added back. The counters are touched only if they change.
  pub receive_back : Slot → Option TaskStats → Task → Sched → Outcome
  receive_back slot none t s =
      if slot.tweaked || slot.delayed
      then panics
      else next (park (record t { next_ts = slot.next_ts }) s)
  receive_back slot (some st) t s = next (
      park (record t { next_ts = slot.next_ts })
        (record s { stats = set_stats t.id (count_slot slot st) s.stats }))

  -- A new task: wait for a regular time that is near, else run it now.
  pub receive_new : ℕ → Task → Sched → Outcome
  receive_new now t s =
      let next_ts = nearest_multiple now t.interval in
      if ltb next_ts (now + min_execution_pause)
      then next (park (record t { next_ts = next_ts }) s)
      else next (schedule (record t { next_ts = now }) (record s { active_timer = false }))

  pub receive_by : (added_by_worker : Bool) → ℕ → Task → Sched → Outcome
  receive_by true now t s = receive_back (next_slot now t) (s.stats t.id) t s
  receive_by false now t s = receive_new now t s

  pub receive_from : Option Task → List Task → ℕ → Sched → Outcome
  receive_from none (t ∷ ts) now s = receive_by t.added_by_worker now t (record s { task_q = ts })
  receive_from none [] now s = not_enabled
  receive_from (some u) ts now s = not_enabled

  -- `case <-timer.C`
  pub fire_by : Option Task → (active : Bool) → List Task → Sched → Outcome
  fire_by none true (t ∷ ts) s =
      next (schedule t (record s { tasks = lib.pop t ts; active_timer = false }))
  fire_by none true [] s = panics
  fire_by none false ts s = not_enabled
  fire_by (some u) active ts s = not_enabled

  -- `todoQ <- task`
  pub hand_off_by : Option Task → Sched → Outcome
  hand_off_by (some t) s =
      if ltb (length s.todo_q) todo_q_len
      then next (record s { todo_q = s.todo_q ++ t ∷ []; held = none })
      else not_enabled
  hand_off_by none s = not_enabled

  -- `case task := <-todoQ` of a worker that is free
  pub start_by : List Task → Sched → Outcome
  start_by (t ∷ ts) s =
      if ltb (length s.running + length s.returning) s.workers
      then next (record s { todo_q = ts; running = t ∷ s.running })
      else not_enabled
  start_by [] s = not_enabled

  -- The end of a task's run; a task that is not queued again is dropped.
  pub finish_by :
      Option (Task × List Task) → (end_ts runtime : ℕ) → (requeue : Bool) → Sched → Outcome
  finish_by none end_ts runtime requeue s = not_enabled
  finish_by (some (t, ts)) end_ts runtime requeue s = elim (s.stats t.id) [
    | none ↦ panics
    | some st ↦
        let overran = leb (pos_part t.interval) (runtime + neg_part t.interval) in
        next (record s {
          running = ts;
          returning =
              if requeue
              then record t { last_executed = end_ts; added_by_worker = true } ∷ s.returning
              else s.returning;
          stats = set_stats t.id (count_run runtime overran requeue st) s.stats;
        })
  ]

  pub enqueue : Task → Sched → Outcome
  enqueue t s =
      if ltb (length s.task_q) task_q_len
      then next (record s { task_q = s.task_q ++ t ∷ [] })
      else not_enabled

  pub send_back_by : Option (Task × List Task) → Sched → Outcome
  send_back_by none s = not_enabled
  send_back_by (some (t, ts)) s = enqueue t (record s { returning = ts })

  pub arm : Sched → Sched
  arm s = arm_by s.active_timer s.tasks s

  pub step : Event → Sched → Outcome
  unfolding enqueue
  step (add_new t) s = enqueue (prepare_new_task t) s
  step (receive now) s = let s = arm s in receive_from s.held s.task_q now s
  step fire s = let s = arm s in fire_by s.held s.active_timer s.tasks s
  step hand_off s = hand_off_by s.held s
  step start s = start_by s.todo_q s
  step (finish i end_ts runtime requeue) s = finish_by (pick i s.running) end_ts runtime requeue s
  step (send_back i) s = send_back_by (pick i s.returning) s

  -- The scheduler of NewScheduler, once started.
  pub initial : (configured : ℤ) → (available : ℕ) → Sched
  initial configured available = record {
    tasks = [];
    task_q = [];
    todo_q = [];
    held = none;
    running = [];
    returning = [];
    active_timer = false;
    next_sched_ts = 0;
    stats = λ id. none;
    workers = num_workers configured available;
  }

  pub data Reaches (s : Sched) : Sched → Type 0 where
    here : Reaches s s
    then_step : {t u : Sched} → Reaches s t → (e : Event) → step e t ≡ next u → Reaches s u
