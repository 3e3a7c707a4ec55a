-- ===== src/InternalMetrics/Task.antt =====
-- TaskAction of vmi/internal/internal_metrics.go: the snapshots, the metrics of all sources, and the
-- generator's metrics on itself, the number of bytes that it has published among them.
pub mod ByteCount
pub mod Totals
use Prim.Native.String.{String}
use victoriametrics_importer.Prelude.{
  ℕ, zero, suc, ◌+◌, ◌-◌, ◌*◌, ◌/◌, ◌<◌, Bool, true, false, not, ◌||◌, Option, none, some, List, [],
  ◌∷◌, ◌++◌, ltb, leb, ◌==◌, if◌then◌else◌, length,
}
use victoriametrics_importer.Prelude.Int.{ℤ, pos_part}
use victoriametrics_importer.InternalMetrics.Table.{
  Table, Dual, new_dual, at_index, curr_stats, prev_stats, put_curr, flip,
}
use victoriametrics_importer.InternalMetrics.Text.{
  Bytes, Caption, generator_dtime, generator_stat, vmi_uptime, vmi_build_info, os_info, os_release,
  os_uptime, format_uint, Value, number, seconds, in_caption, Metric, Texts, write_metrics, Out,
  buf_or_new, emit_all,
}
use victoriametrics_importer.InternalMetrics.Sources.{
  table_or_empty, snap_scheduler, snap_generators, HttpStats, snap_http, new_http_stats, MemStats,
  zero_mem_stats, CompressorTable, snap_compressors, scheduler_rounds, compressor_rounds,
  http_rounds, generator_rounds, go_metrics, CpuTime, process_rounds,
}

-- `for { pow10 *= 10; if byteCount < pow10 { break }; byteCount += 1 }`
unfoldable pub grow_count : (fuel : ℕ) → (byte_count pow10 : ℕ) → ℕ
grow_count zero byte_count pow10 = byte_count
grow_count (suc f) byte_count pow10 =
    let rest = grow_count f (byte_count + 1) (pow10 * 10) in
    if ltb byte_count (pow10 * 10) then byte_count else rest

-- The number of all bytes, from that of the bytes beside its own digits.
unfoldable pub own_byte_count : ℕ → ℕ
unfolding grow_count
own_byte_count m = grow_count (m + 1) (m + 1) 1

-- `strconv` and the suffix that `fmt.Fprintf(tsSuffixBuf, " %d\n", ts.UnixMilli())` writes
pub ts_suffix_of : (ts : ℕ) → Bytes
ts_suffix_of ts = b' ' ∷ format_uint (ts / 1000000) ++ b'\n' ∷ []

module _ (Float : Type 0) where
  -- The generator between its runs; the sources that are nil without their pools are none.
  pub record Internal : Type 0 where
    pub initialized : Bool
    pub cycle_num : ℕ
    pub full_metrics_factor : ℤ
    pub last_ts : ℕ
    pub has_ts_suffix : Bool
    pub scheduler : Dual Table
    pub compressors : Option (Dual (CompressorTable Float))
    pub endpoints : Option (Dual HttpStats)
    pub go : Dual MemStats
    pub process : Dual (CpuTime Float)
    pub generators : Dual Table

  pub new_internal_metrics : (factor : ℤ) → (has_compressors has_endpoints : Bool) → Internal
  new_internal_metrics factor has_compressors has_endpoints = record {
    initialized = false;
    cycle_num = 0;
    full_metrics_factor = factor;
    last_ts = 0;
    has_ts_suffix = false;
    scheduler = new_dual;
    compressors = if has_compressors then some new_dual else none;
    endpoints = if has_endpoints then some new_dual else none;
    go = record {
      stats_0 = some zero_mem_stats;
      stats_1 = some zero_mem_stats;
      curr_index = false;
    };
    process = record { stats_0 = some (none, 0); stats_1 = some (none, 0); curr_index = false };
    generators = new_dual;
  }

  -- What a run reads of the program and of its surroundings.
  pub record Reading : Type 0 where
    pub ts : ℕ
    pub start_ts : ℕ
    pub boot_ts : ℕ
    pub initial_cycle : ℕ
    pub scheduler_stats : Table
    pub compressor_stats : CompressorTable Float
    pub http_stats : HttpStats
    pub mem_stats : MemStats
    pub num_goroutine : ℕ
    pub cpu_time : CpuTime Float
    pub generator_stats : Table

  abbrev pub over {ℓ} : {A : Type ℓ} → (A → A) → Option A → Option A
  over f none = none
  over f (some a) = some (f a)

  -- `initialize`, of what the model keeps
  pub initialize : (initialized : Bool) → Reading → Internal → Internal
  initialize true r g = g
  initialize false r g = record g { initialized = true; cycle_num = r.initial_cycle }

  pub snap_all : Reading → Internal → Internal
  snap_all r g = record g {
    scheduler = snap_scheduler r.scheduler_stats g.scheduler;
    compressors = over (snap_compressors Float r.compressor_stats) g.compressors;
    endpoints = over (snap_http r.http_stats) g.endpoints;
    go = put_curr r.mem_stats g.go;
    process = put_curr r.cpu_time g.process;
    generators = snap_generators r.generator_stats g.generators;
  }

  -- The flips of all sources.
  pub flip_all : Internal → Internal
  flip_all g = record g {
    scheduler = flip g.scheduler;
    compressors = over flip g.compressors;
    endpoints = over flip g.endpoints;
    go = flip g.go;
    process = flip g.process;
    generators = flip g.generators;
  }

  abbrev pub mem_or_zero : Option MemStats → MemStats
  mem_or_zero none = zero_mem_stats
  mem_or_zero (some m) = m

  abbrev pub cpu_or_unknown : Option (CpuTime Float) → CpuTime Float
  cpu_or_unknown none = (none, 0)
  cpu_or_unknown (some c) = c

  pub compressor_source : Option (Dual (CompressorTable Float)) → List (List (Metric Float))
  compressor_source none = []
  compressor_source (some d) = elim (curr_stats d) [
    | none ↦ []
    | some t ↦
        compressor_rounds Float t.rows t.factors
          (elim (prev_stats d) [ none ↦ none | some p ↦ some p.rows ])
  ]

  pub endpoint_source : Option (Dual HttpStats) → List (List (Metric Float))
  endpoint_source none = []
  endpoint_source (some d) = elim (curr_stats d) [
    | none ↦ []
    | some s ↦ http_rounds Float s (prev_stats d)
  ]

  -- mGenFuncList, over the snapshots: scheduler, Go, process, generators, and the pools there are.
  pub all_rounds : (unknown : Float) → Reading → Internal → List (List (Metric Float))
  all_rounds unknown r g =
      scheduler_rounds Float (table_or_empty (curr_stats g.scheduler)) (prev_stats g.scheduler)
      ++ (go_metrics Float r.num_goroutine (mem_or_zero (curr_stats g.go))
            (mem_or_zero (prev_stats g.go))
          ∷ [])
      ++ process_rounds Float unknown (cpu_or_unknown (curr_stats g.process))
          (cpu_or_unknown (prev_stats g.process))
      ++ generator_rounds Float (table_or_empty (curr_stats g.generators)) (prev_stats g.generators)
      ++ compressor_source g.compressors
      ++ endpoint_source g.endpoints

  -- GenBaseMetricsStart: the time since the last run, if there was one.
  pub base_metrics : (id : String) → Reading → Internal → List (Metric Float)
  base_metrics id r g =
      if g.has_ts_suffix then (generator_dtime id, seconds g.last_ts r.ts) ∷ [] else []

  pub uptime_metrics : Reading → List (Metric Float)
  uptime_metrics r =
      (vmi_uptime, seconds r.start_ts r.ts) ∷ (os_uptime, seconds r.boot_ts r.ts) ∷ []

  -- On the first run and on full cycles.
  pub info_metrics : (full : Bool) → List (Metric Float)
  info_metrics true =
      (vmi_build_info, in_caption) ∷ (os_info, in_caption) ∷ (os_release, in_caption) ∷ []
  info_metrics false = []

  -- The metrics on the generator itself, up to the value of the last, which needs their length.
  pub own_metrics : (id : String) → (metrics_count : ℕ) → List (Metric Float)
  own_metrics id metrics_count =
      (generator_stat 0 id, number 1) ∷ (generator_stat 1 id, number metrics_count) ∷ []

  module _ (texts : Texts Float) (unknown : Float) (buf_max_size : ℕ) (id : String) where
    pub started : Reading → Internal → List Bytes → Out Float
    started r g queue = record {
      metrics_count = length (base_metrics id r g);
      partial_byte_count = 0;
      buf = some (write_metrics Float texts (ts_suffix_of r.ts) (base_metrics id r g) []);
      queue = queue;
    }

    -- From the sources' output to the last buffer, which is queued.
    pub conclude : (full : Bool) → Reading → Out Float → List Bytes
    conclude full r o =
        let suffix = ts_suffix_of r.ts in
        let more = uptime_metrics r ++ info_metrics full in
        let metrics_count = o.metrics_count + length more + 3 in
        let b =
          write_metrics Float texts suffix (more ++ own_metrics id metrics_count)
            (buf_or_new Float o.buf) in
        let b = b ++ texts.caption (generator_stat 2 id) in
        let byte_count = own_byte_count (o.partial_byte_count + length b + length suffix) in
        o.queue ++ (b ++ (format_uint byte_count ++ suffix)) ∷ []

    pub next_cycle : (factor : ℤ) → ℕ → ℕ
    next_cycle factor cycle_num = if leb (pos_part factor) (cycle_num + 1) then 0 else cycle_num + 1

    -- TaskAction, with the metrics queue.
    pub task_action : Reading → Internal → List Bytes → Internal × List Bytes
    task_action r g queue =
        let first_pass = not g.initialized in
        let g = snap_all r (initialize g.initialized r g) in
        let o =
          emit_all Float texts (ts_suffix_of r.ts) buf_max_size (all_rounds unknown r g)
            (started r g queue) in
        (
          record (flip_all g) {
            last_ts = r.ts;
            has_ts_suffix = true;
            cycle_num = next_cycle g.full_metrics_factor g.cycle_num;
          },
          conclude (first_pass || g.cycle_num == 0) r o,
        )
