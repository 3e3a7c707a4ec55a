-- ===== src/GaugeMetrics.antt =====
-- reference/refvmi/gauge_metrics.go: a generator that publishes the value that a parser reads when it
-- changes or on a full cycle. The two byte slices of valCache keep the length that they are made
-- with; a value is copied over the first bytes of one.
mod Latest
mod LostChange
mod Tests
use victoriametrics_importer.Prelude.{
  ℕ, zero, suc, ◌+◌, ◌-◌, ◌≡◌, Bool, true, false, not, ◌||◌, Option, none, some, List, [], ◌∷◌,
  ◌++◌, ltb, ◌==◌, if◌then◌else◌, length, replicate,
}
use victoriametrics_importer.Prelude.Bytes.{bytes_eq}
use victoriametrics_importer.Prelude.Int.{ℤ}
use victoriametrics_importer.Counter.{
  Metric as BaseMetric, interval_of, unix_milli, next_cycle, index_or_0,
}
use victoriametrics_importer.InternalMetrics.Table.{copy_row}

abbrev pub Bytes : Type 0
Bytes = List ℕ

-- A line with the gauge's value.
pub record Line : Type 0 where
  pub value : Bytes
  pub stamp : ℕ

-- A nil slice is empty; `current_index` none is the -1 of a generator that has not run, else whether
-- the index is 1.
pub record Generator : Type 0 where
  pub cycle_num : ℕ
  pub full_metrics_factor : ℤ
  pub last_ts : ℕ
  pub ts_suffix : Option ℕ
  pub val_0 : Bytes
  pub val_1 : Bytes
  pub current_index : Option Bool

pub new_gauge_metrics : (factor : ℤ) → (cycle_num : ℕ) → Generator
new_gauge_metrics factor cycle_num = record {
  cycle_num = cycle_num;
  full_metrics_factor = factor;
  last_ts = 0;
  ts_suffix = none;
  val_0 = [];
  val_1 = [];
  current_index = none;
}

-- `if len(slot) < len(currVal) { slot = make(…) }; copy(slot, currVal)`
pub cache_val : (slot curr_val : Bytes) → Bytes
cache_val slot curr_val =
    copy_row (if ltb (length slot) (length curr_val) then replicate (length curr_val) 0 else slot)
      curr_val

pub store_val : (i : Bool) → (curr_val : Bytes) → Generator → Generator
store_val false curr_val g = record g { val_0 = cache_val g.val_0 curr_val }
store_val true curr_val g = record g { val_1 = cache_val g.val_1 curr_val }

pub load_val : (i : Bool) → Generator → Bytes
load_val false g = g.val_0
load_val true g = g.val_1

abbrev pub has_prev : Option Bool → Bool
has_prev none = false
has_prev (some i) = true

pub gauge_line : (publish : Bool) → (curr_val : Bytes) → (stamp : ℕ) → List Line
gauge_line false curr_val stamp = []
gauge_line true curr_val stamp = record { value = curr_val; stamp = stamp } ∷ []

-- What a run queues: the base metrics, the line with the value, and the number that
-- UpdateMetricsGeneratorStats is given.
pub record Queued : Type 0 where
  pub base : List BaseMetric
  pub lines : List Line
  pub metrics_count : ℕ

-- TaskActivity, once the parser has read a value.
pub task_activity : (ts : ℕ) → (curr_val : Bytes) → Generator → Queued × Generator
task_activity ts curr_val g =
    let curr = index_or_0 g.current_index in
    let g1 = store_val curr curr_val g in
    let base = interval_of g1.ts_suffix g1.last_ts ts in
    let g2 = record g1 { ts_suffix = some (unix_milli ts); last_ts = ts } in
    let prev_val = load_val (not curr) g2 in
    let lines =
      gauge_line
        (not (has_prev g.current_index) || g2.cycle_num == 0 || not (bytes_eq curr_val prev_val))
        curr_val (unix_milli ts) in
    (
      record { base = base; lines = lines; metrics_count = length base + length lines },
      record g2 {
        current_index = some (not curr);
        cycle_num = next_cycle g2.full_metrics_factor g2.cycle_num;
      },
    )

-- The lines of runs at times and with values.
pub run_task : List (ℕ × Bytes) → Generator → List Line × Generator
run_task [] g = ([], g)
run_task (x ∷ xs) g =
    let first = task_activity x.0 x.1 g in
    let rest = run_task xs first.1 in (first.0.lines ++ rest.0, rest.1)
