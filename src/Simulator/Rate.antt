-- ===== src/Simulator/Rate.antt =====
-- logTrafficRate of the emulated endpoint: its reports on the traffic.
use victoriametrics_importer.Prelude.{ℕ, ◌+◌, ◌-◌, ltb, if◌then◌else◌}
use victoriametrics_importer.Simulator.{Endpoint}

-- What logTrafficRate keeps, and what it prints: the requests, the bytes, and the time since the last
-- report, of which the rates are quotients.
pub record Logger : Type 0 where
  pub stats_time : ℕ
  pub next_log_time : ℕ

pub record Report : Type 0 where
  pub requests : ℕ
  pub body_bytes : ℕ
  pub total_bytes : ℕ
  pub elapsed : ℕ

unfoldable pub start_log : (now : ℕ) → Endpoint → Logger × Endpoint
start_log now ep = (
  record { stats_time = now; next_log_time = now },
  record ep { traffic_byte_count = 0; body_byte_count = 0 },
)

-- `time.Sleep(time.Until(nextLogTime))`, at `now`, which wakes up `late` after it.
unfoldable pub wake : (now next_log_time late : ℕ) → ℕ
wake now next_log_time late = if ltb now next_log_time then next_log_time + late else now + late

-- One round of the loop.
unfoldable pub log_round : (interval now late : ℕ) → Logger → Endpoint → Report × Logger × Endpoint
log_round interval now late lg ep =
    let next_log_time = lg.next_log_time + interval in
    let stats_time = wake now next_log_time late in
    (
      record {
        requests = ep.request_count;
        body_bytes = ep.body_byte_count;
        total_bytes = ep.traffic_byte_count;
        elapsed = stats_time - lg.stats_time;
      },
      record { stats_time = stats_time; next_log_time = next_log_time },
      record ep { traffic_byte_count = 0; body_byte_count = 0; request_count = 0 },
    )
