-- ===== src/CategoricalMetrics.antt =====
-- reference/refvmi/categorical_metrics.go: a generator that publishes the category that a parser
-- reads, at 1, when it changes or on a full cycle, and the category before it at 0. The text of a
-- metric is made of its caption, kept as the category that it names, the value and the timestamp.
mod Latest
mod Tests
use victoriametrics_importer.Prelude.{
  ℕ, zero, suc, ◌+◌, ◌-◌, ◌≡◌, Bool, true, false, not, ◌||◌, Option, none, some, List, [], ◌∷◌,
  ◌++◌, ◌==◌, if◌then◌else◌, length,
}
use victoriametrics_importer.Prelude.Bytes.{bytes_eq}
use victoriametrics_importer.Prelude.Int.{ℤ}
use victoriametrics_importer.Counter.{Metric as BaseMetric, interval_of, unix_milli, next_cycle}

abbrev pub Bytes : Type 0
Bytes = List ℕ

-- One line; with no caption yet, none, the line has only the value and the timestamp.
pub record Line : Type 0 where
  pub caption : Option Bytes
  pub value : Bool
  pub stamp : ℕ

-- `val` is the category before, empty for nil; `categorical_metric` is the caption, none for nil.
pub record Generator : Type 0 where
  pub cycle_num : ℕ
  pub full_metrics_factor : ℤ
  pub last_ts : ℕ
  pub ts_suffix : Option ℕ
  pub val : Bytes
  pub categorical_metric : Option Bytes

pub new_categorical_metrics : (factor : ℤ) → (cycle_num : ℕ) → Generator
new_categorical_metrics factor cycle_num = record {
  cycle_num = cycle_num;
  full_metrics_factor = factor;
  last_ts = 0;
  ts_suffix = none;
  val = [];
  categorical_metric = none;
}

-- `if m.categoricalMetric != nil`: the category before becomes inactive.
pub inactive : Option Bytes → (stamp : ℕ) → List Line
inactive none stamp = []
inactive (some c) stamp = record { caption = some c; value = false; stamp = stamp } ∷ []

-- `if changed`
pub change_category :
    (changed : Bool) → (curr_val : Bytes) → (stamp : ℕ) → Generator → List Line × Generator
change_category false curr_val stamp g = ([], g)
change_category true curr_val stamp g = (
  inactive g.categorical_metric stamp,
  record g { val = curr_val; categorical_metric = some curr_val },
)

-- `if m.CycleNum == 0 || changed`
pub active : (publish : Bool) → (caption : Option Bytes) → (stamp : ℕ) → List Line
active false caption stamp = []
active true caption stamp = record { caption = caption; value = true; stamp = stamp } ∷ []

-- What a run queues: the base metrics, the lines on categories, and their number in all, which
-- UpdateMetricsGeneratorStats is given.
pub record Queued : Type 0 where
  pub base : List BaseMetric
  pub lines : List Line
  pub metrics_count : ℕ

-- TaskActivity, once the parser has read a value.
pub task_activity : (ts : ℕ) → (curr_val : Bytes) → Generator → Queued × Generator
task_activity ts curr_val g =
    let base = interval_of g.ts_suffix g.last_ts ts in
    let g1 = record g { ts_suffix = some (unix_milli ts); last_ts = ts } in
    let changed = not (bytes_eq curr_val g1.val) in
    let before = change_category changed curr_val (unix_milli ts) g1 in
    let g2 = before.1 in
    let now = active (g2.cycle_num == 0 || changed) g2.categorical_metric (unix_milli ts) in
    (
      record {
        base = base;
        lines = before.0 ++ now;
        metrics_count = length base + length before.0 + length now;
      },
      record g2 { cycle_num = next_cycle g2.full_metrics_factor g2.cycle_num },
    )

-- The lines of runs at times and with values.
pub run_task : List (ℕ × Bytes) → Generator → List Line × Generator
run_task [] g = ([], g)
run_task (x ∷ xs) g =
    let first = task_activity x.0 x.1 g in
    let rest = run_task xs first.1 in (first.0.lines ++ rest.0, rest.1)
