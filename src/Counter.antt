-- ===== src/Counter.antt =====
-- reference/refvmi/counter_metrics.go with vmi/internal/generator_base.go and the parser of
-- reference/parser/random_counter.go: a generator that publishes the delta and the rate of a 32-bit
-- counter, the delta only if it changed or on a full cycle. A metric is a record of what is written
-- to the buffer; times are nanoseconds.
mod Cycle
mod Deltas
mod Tests
use victoriametrics_importer.Prelude.{
  ℕ, zero, suc, ◌+◌, ◌-◌, ◌*◌, ◌%◌, ◌/◌, ◌^◌, ◌<◌, Bool, true, false, not, ◌&&◌, ◌||◌, Option, none,
  some, List, [], ◌∷◌, ◌++◌, ltb, leb, ◌==◌, if◌then◌else◌, length,
}
use victoriametrics_importer.Prelude.Int.{ℤ, pos_part, neg_part}

-- A uint32 sum and difference.
abbrev pub add32 : ℕ → ℕ → ℕ
add32 a b = (a + b) % 2 ^ 32

abbrev pub sub32 : ℕ → ℕ → ℕ
sub32 a b = (a + (2 ^ 32 - b)) % 2 ^ 32

pub record Parser : Type 0 where
  pub val : ℕ
  pub count_left : ℕ

pub record ParserConfig : Type 0 where
  pub init : ℕ
  pub min_inc : ℕ
  pub max_inc : ℕ
  pub max_repeat : ℕ

pub new_random_counter_parser : ParserConfig → Parser
new_random_counter_parser cfg = record { val = cfg.init; count_left = 1 }

-- The updaters; `drawn` and `repeats` are the numbers that the generator of random numbers gives.
pub update_val : ParserConfig → (drawn : ℕ) → Parser → Parser
update_val cfg drawn p = record p {
  val =
      if ltb cfg.min_inc cfg.max_inc
      then add32 p.val (add32 drawn cfg.min_inc)
      else add32 p.val cfg.min_inc;
}

pub update_count : ParserConfig → (repeats : ℕ) → Parser → Parser
update_count cfg repeats p = record p {
  count_left = if ltb 1 cfg.max_repeat then repeats else p.count_left;
}

pub parse : ParserConfig → (drawn repeats : ℕ) → Parser → Parser
parse cfg drawn repeats p =
    if ltb 0 p.count_left
    then record p { count_left = p.count_left - 1 }
    else update_count cfg repeats (update_val cfg drawn p)

-- The first and the last number of an interval are written in the place of its length.
pub data Metric : Type 0 where
  dtime : (last_ts ts stamp : ℕ) → Metric
  counter_delta : (delta stamp : ℕ) → Metric
  counter_rate : (delta last_ts ts stamp : ℕ) → Metric

-- `ts_suffix` is the timestamp that TsSuffixBuf holds, none when it is empty; `current_index` none is
-- the -1 of a generator that has not run, else whether the index is 1.
pub record Generator : Type 0 where
  pub cycle_num : ℕ
  pub full_metrics_factor : ℤ
  pub last_ts : ℕ
  pub ts_suffix : Option ℕ
  pub val_0 : ℕ
  pub val_1 : ℕ
  pub zero_delta : Bool
  pub current_index : Option Bool

-- GetInitialCycleNum: what it gives, and the counter that it leaves, an int of 64 bits.
pub initial_cycle_num : (factor : ℤ) → (counter : ℕ) → ℕ × ℕ
initial_cycle_num factor counter =
    if leb (pos_part factor) 1
    then (0, counter)
    else (counter % pos_part factor, (if ltb (counter + 1) (2 ^ 63) then counter + 1 else 0))

pub new_counter_metrics : (factor : ℤ) → (cycle_num : ℕ) → Generator
new_counter_metrics factor cycle_num = record {
  cycle_num = cycle_num;
  full_metrics_factor = factor;
  last_ts = 0;
  ts_suffix = none;
  val_0 = 0;
  val_1 = 0;
  zero_delta = false;
  current_index = none;
}

-- `ts.UnixMilli()`, of a time in nanoseconds
abbrev pub unix_milli : ℕ → ℕ
unix_milli ts = ts / 1000000

abbrev pub interval_of : Option ℕ → (last_ts ts : ℕ) → List Metric
interval_of none last_ts ts = []
interval_of (some stamp) last_ts ts = dtime last_ts ts (unix_milli ts) ∷ []

-- GenBaseMetricsStart, with a buffer.
pub gen_base_metrics_start : (ts : ℕ) → Generator → List Metric × Generator
gen_base_metrics_start ts g = (
  interval_of g.ts_suffix g.last_ts ts,
  record g { ts_suffix = some (unix_milli ts); last_ts = ts },
)

abbrev pub index_or_0 : Option Bool → Bool
index_or_0 none = false
index_or_0 (some i) = i

-- `m.valCache[i] = v`, and `m.valCache[i]`
pub store_val : (i : Bool) → ℕ → Generator → Generator
store_val false v g = record g { val_0 = v }
store_val true v g = record g { val_1 = v }

pub load_val : (i : Bool) → Generator → ℕ
load_val false g = g.val_0
load_val true g = g.val_1

-- The metrics of a delta, and the rate where time has passed.
pub delta_metrics : (publish : Bool) → (delta last_ts ts : ℕ) → List Metric
delta_metrics false delta last_ts ts = []
delta_metrics true delta last_ts ts =
    counter_delta delta (unix_milli ts)
    ∷ (if ltb last_ts ts then counter_rate delta last_ts ts (unix_milli ts) ∷ [] else [])

pub with_prev : Option Bool → (delta last_ts ts : ℕ) → Generator → List Metric × Generator
with_prev none delta last_ts ts g = ([], g)
with_prev (some i) delta last_ts ts g =
    let is_zero = delta == 0 in
    (
      delta_metrics (not is_zero || g.cycle_num == 0 || not g.zero_delta) delta last_ts ts,
      record g { zero_delta = is_zero },
    )

unfoldable pub next_cycle : (factor : ℤ) → ℕ → ℕ
next_cycle factor cycle_num = if leb (pos_part factor) (cycle_num + 1) then 0 else cycle_num + 1

-- TaskActivity, once the parser has read a value, by the index it starts from: the metrics that are
-- queued and the generator.
pub activity_by : Option Bool → (ts curr_val : ℕ) → Generator → List Metric × Generator
activity_by index ts curr_val g =
    let curr = index_or_0 index in
    let g1 = store_val curr curr_val g in
    let base = gen_base_metrics_start ts g1 in
    let g2 = base.1 in
    let delta = sub32 curr_val (load_val (not curr) g2) in
    let rest = with_prev index delta g1.last_ts ts g2 in
    let g3 = rest.1 in
    (
      base.0 ++ rest.0,
      record g3 {
        current_index = some (not curr);
        cycle_num = next_cycle g3.full_metrics_factor g3.cycle_num;
      },
    )

pub task_activity : (ts curr_val : ℕ) → Generator → List Metric × Generator
task_activity ts curr_val g = activity_by g.current_index ts curr_val g

-- A run of the task at times and with values.
pub run_task : List (ℕ × ℕ) → Generator → List Metric × Generator
run_task [] g = ([], g)
run_task (x ∷ xs) g =
    let first = task_activity x.0 x.1 g in
    let rest = run_task xs first.1 in (first.0 ++ rest.0, rest.1)
