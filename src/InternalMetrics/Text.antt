-- ===== src/InternalMetrics/Text.antt =====
-- Metrics as text, and the buffers that they are written to.
pub mod Digits
pub mod Rounds
use Prim.Native.String.{String}
use victoriametrics_importer.Prelude.{
  ℕ, zero, suc, ◌+◌, ◌-◌, ◌*◌, ◌/◌, ◌%◌, ◌<◌, Bool, true, false, ◌&&◌, Option, none, some, List, [],
  ◌∷◌, ◌++◌, ltb, leb, if◌then◌else◌, length,
}

abbrev pub Bytes : Type 0
Bytes = List ℕ

-- The digits of a number, before those of `out`; `fuel` is more than the number.
pub digits_before : (fuel : ℕ) → ℕ → Bytes → Bytes
digits_before zero n out = out
digits_before (suc f) n out =
    let rest = digits_before f (n / 10) ((48 + n % 10) ∷ out) in
    if ltb n 10 then (48 + n) ∷ out else rest

-- `strconv.FormatUint(n, 10)`
pub format_uint : ℕ → Bytes
unfolding digits_before
format_uint n = digits_before (suc n) n []

-- What a caption is made of: the metric's name, by the index of its statistic, and the labels beside
-- those that all metrics have.
pub data Caption : Type 0 where
  generator_dtime : (id : String) → Caption
  task_stat : (index : ℕ) → (id : String) → Caption
  task_avg_runtime : (id : String) → Caption
  compressor_stat : (index : ℕ) → (id : String) → Caption
  compressor_factor : (id : String) → Caption
  pool_stat : (index : ℕ) → Caption
  endpoint_stat : (index : ℕ) → (url : String) → Caption
  go_stat : (index : ℕ) → Caption
  generator_stat : (index : ℕ) → (id : String) → Caption
  proc_pcpu vmi_uptime vmi_build_info os_info os_release os_uptime : Caption

module _ (Float : Type 0) where
  pub data Value : Type 0 where
    number : ℕ → Value
    average : (total count : ℕ) → Value
    factor : Float → Value
    seconds : (since now : ℕ) → Value
    cpu_percent : (prev curr : Float) → (prev_ts ts : ℕ) → Value
    in_caption : Value

  abbrev pub Metric : Type 0
  Metric = Caption × Value

  pub record Texts : Type 0 where
    pub caption : Caption → Bytes
    pub fraction : Value → Bytes

  unfoldable pub value_text : Texts → Value → Bytes
  value_text texts (number n) = format_uint n
  value_text texts in_caption = []
  value_text texts (average total count) = texts.fraction (average total count)
  value_text texts (factor f) = texts.fraction (factor f)
  value_text texts (seconds since now) = texts.fraction (seconds since now)
  value_text texts (cpu_percent prev curr prev_ts ts) =
      texts.fraction (cpu_percent prev curr prev_ts ts)

  -- One metric, written to a buffer.
  pub write_metric : Texts → (ts_suffix : Bytes) → Metric → Bytes → Bytes
  write_metric texts ts_suffix (c, v) buf =
      buf ++ (texts.caption c ++ (value_text texts v ++ ts_suffix))

  pub write_metrics : Texts → (ts_suffix : Bytes) → List Metric → Bytes → Bytes
  write_metrics texts ts_suffix [] buf = buf
  write_metrics texts ts_suffix (m ∷ ms) buf =
      write_metrics texts ts_suffix ms (write_metric texts ts_suffix m buf)

  -- What a generateMetrics has: its two counts, its buffer, none for nil, and the metrics queue.
  pub record Out : Type 0 where
    pub metrics_count : ℕ
    pub partial_byte_count : ℕ
    pub buf : Option Bytes
    pub queue : List Bytes

  -- `if buf == nil { buf = mq.GetBuf() }`; the pool's buffers are empty.
  abbrev pub buf_or_new : Option Bytes → Bytes
  buf_or_new none = []
  buf_or_new (some b) = b

  -- `if n := buf.Len(); bufMaxSize > 0 && n >= bufMaxSize`
  pub flush_if : (full : Bool) → Bytes → Out → Out
  flush_if true b o = record o {
    partial_byte_count = o.partial_byte_count + length b;
    buf = none;
    queue = o.queue ++ b ∷ [];
  }
  flush_if false b o = record o { buf = some b }

  pub flush : (buf_max_size : ℕ) → Bytes → Out → Out
  flush buf_max_size b o = flush_if (ltb 0 buf_max_size && leb buf_max_size (length b)) b o

  -- The metrics of one round: a buffer, the writes, and the buffer to the queue if it is large enough.
  pub emit : Texts → (ts_suffix : Bytes) → (buf_max_size : ℕ) → List Metric → Out → Out
  emit texts ts_suffix buf_max_size ms o =
      flush buf_max_size (write_metrics texts ts_suffix ms (buf_or_new o.buf))
        (record o { metrics_count = o.metrics_count + length ms })

  pub emit_all : Texts → (ts_suffix : Bytes) → (buf_max_size : ℕ) → List (List Metric) → Out → Out
  emit_all texts ts_suffix buf_max_size [] o = o
  emit_all texts ts_suffix buf_max_size (g ∷ gs) o =
      emit_all texts ts_suffix buf_max_size gs (emit texts ts_suffix buf_max_size g o)
