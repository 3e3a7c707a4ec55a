-- ===== src/InternalMetrics/Tests.antt =====
-- Internal metrics with captions of a few bytes and natural numbers for the floating point values.
use victoriametrics_importer.Prelude.{
  ℕ, ◌*◌, ◌%◌, ◌^◌, ◌≡◌, refl, true, false, some, List, [], ◌∷◌, ◌++◌, arith,
}
use victoriametrics_importer.Prelude.Int.{pos}
use victoriametrics_importer.InternalMetrics.Table.{Row, Table, lookup, new_dual}
use victoriametrics_importer.InternalMetrics.Table.Snapshot.{IsTable}
use victoriametrics_importer.InternalMetrics.Text.{Texts}
use victoriametrics_importer.InternalMetrics.Sources.{zero_mem_stats, new_http_stats}
use victoriametrics_importer.InternalMetrics.Sources.Sums.{
  published_sum, last_value, IsReported, published_sum-last_value,
}
use victoriametrics_importer.InternalMetrics.Task.{
  own_byte_count, ts_suffix_of, Internal, new_internal_metrics, Reading, uptime_metrics,
  info_metrics, task_action,
}
use victoriametrics_importer.InternalMetrics.Task.Totals.{
  source_metrics, is_full, Published, task_action-Published,
}

-- 98 bytes and the digits of their number are 101 bytes.
own_byte_count_98 : own_byte_count 98 ≡ 101
unfolding own_byte_count
own_byte_count_98 = refl

abbrev task_row : ℕ → Row
task_row n = n ∷ 0 ∷ 0 ∷ n ∷ 0 ∷ 7 * n ∷ []

abbrev readings : List Table
readings = (("a", task_row 5) ∷ []) ∷ (("b", task_row 1) ∷ ("a", task_row 12) ∷ []) ∷ []

readings-IsReported : IsReported 3 "a" readings
unfolding IsReported IsTable lookup
readings-IsReported = (
  (refl, (refl, tt)),
  (
    (task_row 5, (refl, omega arith)),
    ((refl, (refl, (refl, (refl, tt)))), ((task_row 12, (refl, omega arith)), tt)),
  ),
)

published_sum-last_value_example :
    published_sum ℕ 3 "a" readings new_dual % 2 ^ 64 ≡ last_value 3 "a" readings 0
published_sum-last_value_example =
    published_sum-last_value ℕ 3 "a" readings (omega arith) readings-IsReported

abbrev texts : Texts ℕ
texts = record { caption = λ c. 99 ∷ 32 ∷ []; fraction = λ v. 48 ∷ 46 ∷ 53 ∷ [] }

abbrev reading : Reading ℕ
reading = record {
  ts = 1700000000000000000;
  start_ts = 1600000000000000000;
  boot_ts = 1500000000000000000;
  initial_cycle = 1;
  scheduler_stats = ("a", task_row 5) ∷ [];
  compressor_stats = record { rows = []; factors = λ id. 0 };
  http_stats = new_http_stats;
  mem_stats = zero_mem_stats;
  num_goroutine = 9;
  cpu_time = (some 3, 1700000000000000000);
  generator_stats = [];
}

abbrev start : Internal ℕ
start = new_internal_metrics ℕ (pos 12) false true

task_action-Published_example :
    Published ℕ texts 0 40 "internal_metrics"
      (ts_suffix_of 1700000000000000000)
      ((1 ∷ []) ∷ [])
      (task_action ℕ texts 0 40 "internal_metrics" reading start ((1 ∷ []) ∷ [])).1
      (source_metrics ℕ 0 "internal_metrics" reading start
        ++ (uptime_metrics ℕ reading ++ info_metrics ℕ (is_full ℕ reading start)))
task_action-Published_example =
    task_action-Published ℕ texts 0 40 "internal_metrics" reading start ((1 ∷ []) ∷ [])
