-- ===== src/Scheduler.antt =====
-- The scheduler of vmi/internal/scheduler.go: tasks and their statistics, CompliantTaskInterval, and
-- how the dispatcher chooses the next scheduling time. Times are nanoseconds since the zero
-- time.Time; int64 durations and times do not overflow.
pub mod Interval
pub mod NextTs
pub mod System
mod Lifecycle
mod Tests
pub mod Heap
use Prim.Native.String.{String}
use victoriametrics_importer.Prelude.{
  ℕ, zero, suc, ◌+◌, ◌-◌, ◌*◌, ◌%◌, ◌^◌, Bool, true, false, ltb, leb, if◌then◌else◌,
}
use victoriametrics_importer.Prelude.Int.{
  ℤ, pos, negsuc, pos_part, neg_part, sub_ℕ, ◌+ℤ◌, ◌-ℤ◌, ltb_ℤ,
}

-- SCHEDULER_GRANULARITY and SCHEDULER_TASK_MIN_EXECUTION_PAUSE
abbrev pub granularity : ℕ
granularity = 20_000_000

abbrev pub min_execution_pause : ℕ
min_execution_pause = 40_000_000

-- SCHEDULER_TASK_Q_LEN, SCHEDULER_TODO_Q_LEN and SCHEDULER_MAX_NUM_WORKERS
abbrev pub task_q_len : ℕ
task_q_len = 64

abbrev pub todo_q_len : ℕ
todo_q_len = 64

abbrev pub max_num_workers : ℕ
max_num_workers = 8

-- What the action does is an event of the system; the task holds the rest.
pub record Task : Type 0 where
  pub id : String
  pub next_ts : ℕ
  pub interval : ℤ
  pub added_by_worker : Bool
  pub last_executed : ℕ

pub new_task : String → ℤ → Task
new_task id interval = record {
  id = id;
  next_ts = 0;
  interval = interval;
  added_by_worker = false;
  last_executed = 0;
}

-- The entries of Uint64Stats, by their index.
pub record TaskStats : Type 0 where
  pub scheduled_count : ℕ
  pub delayed_count : ℕ
  pub overrun_count : ℕ
  pub executed_count : ℕ
  pub next_ts_hack_count : ℕ
  pub total_runtime : ℕ
  pub disabled : Bool

abbrev pub new_task_stats : TaskStats
new_task_stats = record {
  scheduled_count = 0;
  delayed_count = 0;
  overrun_count = 0;
  executed_count = 0;
  next_ts_hack_count = 0;
  total_runtime = 0;
  disabled = false;
}

-- `numWorkers` of NewScheduler, by the number of available CPUs.
unfoldable pub num_workers : (configured : ℤ) → (available : ℕ) → ℕ
num_workers configured available =
    let n = if ltb_ℤ (pos 0) configured then pos_part configured else available in
    if ltb max_num_workers n then max_num_workers else n

-- `d.Truncate(m)`, towards zero.
truncate_duration : ℤ → ℕ → ℤ
truncate_duration (pos n) m = pos (n - n % m)
truncate_duration (negsuc n) m = sub_ℕ 0 (suc n - suc n % m)

at_least : ℕ → ℤ → ℤ
at_least m d = if ltb_ℤ d (pos m) then pos m else d

pub compliant_task_interval : ℤ → ℤ
unfolding truncate_duration at_least
compliant_task_interval interval =
    let d = truncate_duration interval granularity in
    at_least min_execution_pause
      (if ltb_ℤ (interval -ℤ d) (pos 10_000_000) then d else d +ℤ pos granularity)

-- AddNewTask, up to its send.
pub prepare_new_task : Task → Task
prepare_new_task t = record t {
  added_by_worker = false;
  interval = compliant_task_interval t.interval;
}

-- `t.Truncate(d)` and `t.Add(d)` on times
abbrev pub truncate_time : ℕ → ℤ → ℕ
truncate_time t d = if ltb 0 (pos_part d) then t - t % pos_part d else t

abbrev pub add_time : ℕ → ℤ → ℕ
add_time t d = t + pos_part d - neg_part d

-- "The desired next scheduling time is the nearest future multiple of interval"
pub nearest_multiple : (now : ℕ) → ℤ → ℕ
nearest_multiple now interval = add_time (truncate_time now interval) interval

-- `for nextTs.Before(task.nextTs)`; the flag is `nextTsTweaked`, and the fuel is the distance.
catch_up : (fuel target : ℕ) → ℤ → (next_ts : ℕ) → Bool → ℕ × Bool
catch_up zero target interval next_ts tweaked = (next_ts, tweaked)
catch_up (suc f) target interval next_ts tweaked =
    let again = catch_up f target interval (add_time next_ts interval) true in
    if ltb next_ts target then again else (next_ts, tweaked)

pub record Slot : Type 0 where
  pub next_ts : ℕ
  pub tweaked : Bool
  pub delayed : Bool

delay : (min_next_ts : ℕ) → ℕ × Bool → Slot
delay min_next_ts (next_ts, tweaked) =
    if ltb next_ts min_next_ts
    then record { next_ts = min_next_ts; tweaked = tweaked; delayed = true }
    else record { next_ts = next_ts; tweaked = tweaked; delayed = false }

slot_for : (now : ℕ) → Task → (interval : ℤ) → Slot
unfolding catch_up delay
slot_for now t interval =
    let base = nearest_multiple now interval in
    delay (t.last_executed + min_execution_pause)
      (catch_up (t.next_ts - base) t.next_ts interval base false)

-- The next scheduling time of a task that a worker has added back.
pub next_slot : (now : ℕ) → Task → Slot
unfolding slot_for
next_slot now t = slot_for now t t.interval
