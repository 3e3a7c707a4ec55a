-- ===== src/GaugeMetrics/Tests.antt =====
-- The gauge generator on a few runs.
use victoriametrics_importer.Prelude.{
  ℕ, ◌<◌, ◌≡◌, refl, false, none, some, List, [], ◌∷◌, ◌==◌, length, arith,
}
use victoriametrics_importer.Prelude.Int.{pos}
use victoriametrics_importer.Counter.{next_cycle}
use victoriametrics_importer.InternalMetrics.Table.{copy_row}
use victoriametrics_importer.GaugeMetrics.{
  Bytes, Generator, store_val, load_val, cache_val, new_gauge_metrics, task_activity, run_task,
}
use victoriametrics_importer.GaugeMetrics.Latest.{latest, last_val, run_task-latest_val}

abbrev runs : List (ℕ × Bytes)
runs = (0, 49 ∷ 48 ∷ 48 ∷ []) ∷ (5000000, 49 ∷ 48 ∷ 48 ∷ []) ∷ (10000000, 49 ∷ 48 ∷ 49 ∷ []) ∷ []

run_task-latest_val_example :
    latest (run_task runs (new_gauge_metrics (pos 12) 3)).0 none ≡ last_val runs none
run_task-latest_val_example = run_task-latest_val (pos 12) 3 3 runs (refl, (refl, (refl, tt)))

-- A generator that has read 100 and 55, with the cache that this leaves.
abbrev after_two : Generator
after_two = record {
  cycle_num = 5;
  full_metrics_factor = pos 12;
  last_ts = 5000000;
  ts_suffix = some 5;
  val_0 = 49 ∷ 48 ∷ 48 ∷ [];
  val_1 = 53 ∷ 53 ∷ [];
  current_index = some false;
}

after_two_lem :
    (run_task
      ((0, 49 ∷ 48 ∷ 48 ∷ []) ∷ (5000000, 53 ∷ 53 ∷ []) ∷ [])
      (new_gauge_metrics (pos 12) 3)).1
    ≡ after_two
unfolding run_task task_activity store_val new_gauge_metrics cache_val next_cycle copy_row
after_two_lem = refl

after_two_short : length {A = ℕ} (57 ∷ 57 ∷ []) < length (load_val false after_two)
unfolding load_val
after_two_short = omega arith

after_two_cycle : ((task_activity 10000000 (57 ∷ 57 ∷ []) after_two).1.cycle_num == 0) ≡ false
unfolding task_activity next_cycle store_val
after_two_cycle = refl
