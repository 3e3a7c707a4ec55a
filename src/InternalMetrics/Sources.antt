-- ===== src/InternalMetrics/Sources.antt =====
-- The six sources of internal metrics: the snapshot that each takes, SnapStats, and its
-- generateMetrics, as the rounds of metrics that it writes. A cell that was never stored is nil. A
-- negative CPU time, which stands for an error, is none. The indexes of a map of captions are taken in
-- their order, where the code takes those of a Go map in any.
pub mod Rounds
pub mod Sums
use Prim.Native.String.{String}
use victoriametrics_importer.Prelude.{
  ℕ, zero, suc, ◌+◌, ◌-◌, ◌%◌, ◌^◌, Bool, true, false, not, Option, none, some, List, [], ◌∷◌, ◌++◌,
  map, ltb, if◌then◌else◌, replicate, get_or,
}
use victoriametrics_importer.InternalMetrics.Table.{
  Row, Table, lookup, copy_row, snap_table, sub64, delta, Dual, new_dual, at_index, curr_stats,
  prev_stats, put_curr, flip,
}
use victoriametrics_importer.InternalMetrics.Text.{
  Bytes, Caption, task_stat, task_avg_runtime, compressor_stat, compressor_factor, pool_stat,
  endpoint_stat, go_stat, generator_stat, proc_pcpu, Value, number, average, factor, cpu_percent,
  Metric, Texts, Out, emit_all,
}

-- TASK_STATS_UINT64_LEN, COMPRESSOR_STATS_UINT64_LEN, HTTP_ENDPOINT_STATS_LEN,
-- HTTP_ENDPOINT_POOL_STATS_LEN and METRICS_GENERATOR_NUM_STATS
abbrev pub task_stats_len : ℕ
task_stats_len = 6

abbrev pub compressor_stats_len : ℕ
compressor_stats_len = 7

abbrev pub endpoint_stats_len : ℕ
endpoint_stats_len = 5

abbrev pub pool_stats_len : ℕ
pool_stats_len = 2

abbrev pub generator_stats_len : ℕ
generator_stats_len = 3

abbrev pub executed_count : ℕ
executed_count = 3

abbrev pub total_runtime : ℕ
total_runtime = 5

-- The table that a cell holds, empty for nil.
abbrev pub table_or_empty : Option Table → Table
table_or_empty none = []
table_or_empty (some t) = t

abbrev pub lookup_prev : String → Option Table → Option Row
lookup_prev id none = none
lookup_prev id (some t) = lookup id t

-- Scheduler.SnapStats, into the current cell.
pub snap_scheduler : Table → Dual Table → Dual Table
snap_scheduler stats d =
    put_curr (snap_table task_stats_len stats (table_or_empty (curr_stats d))) d

-- MetricsGeneratorStatsContainer.Update
pub update_generator_stats : Option Row → (metric_count byte_count : ℕ) → Row
update_generator_stats none metric_count byte_count =
    1 ∷ metric_count % 2 ^ 64 ∷ byte_count % 2 ^ 64 ∷ []
update_generator_stats (some row) metric_count byte_count =
    (get_or row 0 0 + 1) % 2 ^ 64
    ∷ (get_or row 1 0 + metric_count) % 2 ^ 64
    ∷ (get_or row 2 0 + byte_count) % 2 ^ 64
    ∷ []

-- GeneratorInternalMetrics.SnapStats
pub snap_generators : Table → Dual Table → Dual Table
snap_generators stats d =
    put_curr (snap_table generator_stats_len stats (table_or_empty (curr_stats d))) d

-- The statistics of the pool of endpoints.
pub record HttpStats : Type 0 where
  pub pool_stats : Row
  pub endpoints : Table

pub new_http_stats : HttpStats
new_http_stats = record { pool_stats = replicate pool_stats_len 0; endpoints = [] }

pub snap_http_stats : HttpStats → HttpStats → HttpStats
snap_http_stats stats to = record {
  pool_stats = copy_row to.pool_stats stats.pool_stats;
  endpoints = snap_table endpoint_stats_len stats.endpoints to.endpoints;
}

-- HttpEndpointPool.SnapStats, into the current cell.
pub snap_http : HttpStats → Dual HttpStats → Dual HttpStats
snap_http stats d =
    put_curr (snap_http_stats stats (elim (curr_stats d) [ none ↦ new_http_stats | some to ↦ to ]))
      d

-- What the internal metrics read of runtime.MemStats, and the number of goroutines.
pub record MemStats : Type 0 where
  pub sys : ℕ
  pub heap_alloc : ℕ
  pub heap_sys : ℕ
  pub heap_objects : ℕ
  pub mallocs : ℕ
  pub frees : ℕ
  pub num_gc : ℕ

pub zero_mem_stats : MemStats
zero_mem_stats = record {
  sys = 0;
  heap_alloc = 0;
  heap_sys = 0;
  heap_objects = 0;
  mallocs = 0;
  frees = 0;
  num_gc = 0;
}

-- A difference of uint32.
abbrev pub sub32 : ℕ → ℕ → ℕ
sub32 a b = (a + (2 ^ 32 - b % 2 ^ 32)) % 2 ^ 32

module _ (Float : Type 0) where
  -- The rows of the compressors, with the factor of each.
  pub record CompressorTable : Type 0 where
    pub rows : Table
    pub factors : String → Float

  -- CompressorPool.SnapStats, into the current cell.
  pub snap_compressors : CompressorTable → Dual CompressorTable → Dual CompressorTable
  snap_compressors stats d =
      put_curr
        (record {
          rows =
              snap_table compressor_stats_len stats.rows
                (elim (curr_stats d) [ none ↦ [] | some t ↦ t.rows ]);
          factors = stats.factors;
        })
        d

  -- The deltas of the counters at `indices`, with their captions.
  pub deltas : (ℕ → Caption) → List ℕ → Row → Option Row → List (Metric Float)
  deltas caption [] curr prev = []
  deltas caption (i ∷ is) curr prev =
      (caption i, number (delta i curr prev)) ∷ deltas caption is curr prev

  -- The average runtime, where the task was executed.
  pub task_average : String → (runtime executed : ℕ) → List (Metric Float)
  task_average id runtime executed =
      if ltb 0 executed then (task_avg_runtime id, average runtime executed) ∷ [] else []

  pub task_metrics : String → Row → Option Row → List (Metric Float)
  task_metrics id curr prev =
      deltas (λ i. task_stat i id) (0 ∷ 1 ∷ 2 ∷ 3 ∷ 4 ∷ []) curr prev
      ++ task_average id (delta total_runtime curr prev) (delta executed_count curr prev)

  pub scheduler_rounds : Table → Option Table → List (List (Metric Float))
  scheduler_rounds [] prev = []
  scheduler_rounds ((id, row) ∷ rest) prev =
      task_metrics id row (lookup_prev id prev) ∷ scheduler_rounds rest prev

  pub compressor_rounds : Table → (String → Float) → Option Table → List (List (Metric Float))
  compressor_rounds [] factors prev = []
  compressor_rounds ((id, row) ∷ rest) factors prev =
      (deltas (λ i. compressor_stat i id) (0 ∷ 1 ∷ 2 ∷ 3 ∷ 4 ∷ 5 ∷ 6 ∷ []) row (lookup_prev id prev)
        ++ (compressor_factor id, factor (factors id)) ∷ [])
      ∷ compressor_rounds rest factors prev

  pub endpoint_rounds : Table → Option Table → List (List (Metric Float))
  endpoint_rounds [] prev = []
  endpoint_rounds ((url, row) ∷ rest) prev =
      deltas (λ i. endpoint_stat i url) (0 ∷ 1 ∷ 2 ∷ 3 ∷ 4 ∷ []) row (lookup_prev url prev)
      ∷ endpoint_rounds rest prev

  -- The pool's own counters first.
  pub http_rounds : HttpStats → Option HttpStats → List (List (Metric Float))
  http_rounds curr none =
      deltas pool_stat (0 ∷ 1 ∷ []) curr.pool_stats none ∷ endpoint_rounds curr.endpoints none
  http_rounds curr (some prev) =
      deltas pool_stat (0 ∷ 1 ∷ []) curr.pool_stats (some prev.pool_stats)
      ∷ endpoint_rounds curr.endpoints (some prev.endpoints)

  pub generator_rounds : Table → Option Table → List (List (Metric Float))
  generator_rounds [] prev = []
  generator_rounds ((id, row) ∷ rest) prev =
      deltas (λ i. generator_stat i id) (0 ∷ 1 ∷ 2 ∷ []) row (lookup_prev id prev)
      ∷ generator_rounds rest prev

  pub go_metrics : (num_goroutine : ℕ) → (curr prev : MemStats) → List (Metric Float)
  go_metrics num_goroutine curr prev =
      (go_stat 0, number num_goroutine)
      ∷ (go_stat 1, number curr.sys)
      ∷ (go_stat 2, number curr.heap_alloc)
      ∷ (go_stat 3, number curr.heap_sys)
      ∷ (go_stat 6, number curr.heap_objects)
      ∷ (go_stat 4, number (sub64 curr.mallocs prev.mallocs))
      ∷ (go_stat 5, number (sub64 curr.frees prev.frees))
      ∷ (go_stat 7, number (sub32 curr.num_gc prev.num_gc))
      ∷ []

  -- The CPU time, none for an error, and when it was read.
  abbrev pub CpuTime : Type 0
  CpuTime = Option Float × ℕ

  -- The percentage of the CPU, where the CPU time before is known. The time now is not tested.
  pub process_rounds : (unknown : Float) → (curr prev : CpuTime) → List (List (Metric Float))
  process_rounds unknown curr (none, prev_ts) = []
  process_rounds unknown (none, ts) (some prev, prev_ts) =
      ((proc_pcpu, cpu_percent prev unknown prev_ts ts) ∷ []) ∷ []
  process_rounds unknown (some now, ts) (some prev, prev_ts) =
      ((proc_pcpu, cpu_percent prev now prev_ts ts) ∷ []) ∷ []
