-- ===== src/Pool/Create.antt =====
-- NewHttpEndpointPool of vmi/internal/http_endpoint_pool.go, with its configuration. What the
-- libraries give comes as an argument: parsed numbers, durations and URLs, the random offset, rounded,
-- and the shuffle, which permutes the list. Texts are ASCII bytes, URLs excepted, and durations
-- nanoseconds.
pub mod Created
mod Tests
use Prim.Native.String.{String}
use victoriametrics_importer.Prelude.{
  ℕ, zero, suc, ◌+◌, ◌-◌, ◌*◌, ◌≡◌, ◌≢◌, refl, sym, ap, subst, ◌∙◌, Bool, true, false, not, ◌&&◌,
  Option, none, some, List, [], ◌∷◌, ◌⊎◌, inl, inr, length, get_or, take, ltb, ◌==◌, if◌then◌else◌,
  arith,
}
use victoriametrics_importer.Prelude.Int.{ℤ, pos, negsuc, ◌+ℤ◌, ltb_ℤ}
use victoriametrics_importer.EndpointList.{Endpoint}
use victoriametrics_importer.Credit.{Credit}
use victoriametrics_importer.Credit.Spec.{
  Parsers, NewCredit, invalid, panics, replenished, new_credit_from_spec,
}
use victoriametrics_importer.Pool.{Pool, PoolStats, EndpointStats}
use victoriametrics_importer.Pool.Auth.{Bytes, Surroundings, build_html_basic_auth}
use victoriametrics_importer.Pool.Startup.{
  EndpointConfig, no_endpoint_stats, add_endpoints, configured,
}

abbrev pub second : ℕ
second = 1_000_000_000

pub record PoolConfig : Type 0 where
  pub endpoints : List EndpointConfig
  pub username : Bytes
  pub password : Bytes
  pub mark_unhealthy_threshold : ℤ
  pub shuffle : Bool
  pub healthy_rotate_interval : ℤ
  pub healthy_rotate_interval_offset : Bytes
  pub error_reset_interval : ℤ
  pub health_check_interval : ℤ
  pub healthy_max_wait : ℤ
  pub send_buffer_timeout : ℤ
  pub rate_limit_mbps : Bytes
  pub ignore_tls_verify : Bool
  pub tcp_conn_timeout : ℤ
  pub tcp_keep_alive : ℤ
  pub max_idle_conns : ℤ
  pub max_idle_conns_per_host : ℤ
  pub max_conns_per_host : ℤ
  pub idle_conn_timeout : ℤ
  pub response_timeout : ℤ

pub default_pool_config : PoolConfig
default_pool_config = record {
  endpoints = [];
  username = [];
  password = [];
  mark_unhealthy_threshold = pos 0;
  shuffle = false;
  healthy_rotate_interval = pos (300 * second);
  healthy_rotate_interval_offset = [];
  error_reset_interval = pos (60 * second);
  health_check_interval = pos (5 * second);
  healthy_max_wait = pos (10 * second);
  send_buffer_timeout = pos (20 * second);
  rate_limit_mbps = [];
  ignore_tls_verify = false;
  tcp_conn_timeout = pos (2 * second);
  tcp_keep_alive = pos (15 * second);
  max_idle_conns = pos 0;
  max_idle_conns_per_host = pos 1;
  max_conns_per_host = pos 0;
  idle_conn_timeout = pos (60 * second);
  response_timeout = pos (5 * second);
}

-- `percent` is the offset that a percentage of an interval comes to; `spread` the product with a random
-- number between -1 and 1, rounded to 100 milliseconds.
pub record Libraries : Type 0 where
  pub surroundings : Surroundings
  pub rates : Parsers
  pub percent : (interval : ℤ) → Bytes → ℕ ⊎ ℤ
  pub spread : ℤ → ℤ
  pub permute : List EndpointConfig → List EndpointConfig
  pub parses : String → Bool

-- The settings of http.Client and of its transport and dialer.
pub record Client : Type 0 where
  pub timeout : ℤ
  pub dial_timeout : ℤ
  pub keep_alive : ℤ
  pub idle_conn_timeout : ℤ
  pub max_idle_conns : ℤ
  pub max_idle_conns_per_host : ℤ
  pub max_conns_per_host : ℤ
  pub insecure_skip_verify : Bool

pub client_of : PoolConfig → Client
client_of cfg = record {
  timeout = cfg.response_timeout;
  dial_timeout = cfg.tcp_conn_timeout;
  keep_alive = cfg.tcp_keep_alive;
  idle_conn_timeout = cfg.idle_conn_timeout;
  max_idle_conns = cfg.max_idle_conns;
  max_idle_conns_per_host = cfg.max_idle_conns_per_host;
  max_conns_per_host = cfg.max_conns_per_host;
  insecure_skip_verify = cfg.ignore_tls_verify;
}

-- At least HTTP_ENDPOINT_POOL_HEALTHY_CHECK_MIN_INTERVAL.
pub at_least_min : ℤ → ℤ
at_least_min interval = if ltb_ℤ interval (pos second) then pos second else interval

-- '%'
percent_sign : ℕ
percent_sign = 37

parse_offset : Libraries → (interval : ℤ) → Bytes → ℕ ⊎ ℤ
unfolding percent_sign
parse_offset o interval offset =
    let l = length offset - 1 in
    if get_or offset l 0 == percent_sign
    then o.percent interval (take l offset)
    else o.rates.parse_duration offset

offset_by : Libraries → (interval : ℤ) → ℕ ⊎ ℤ → ℕ ⊎ ℤ
offset_by o interval (inl e) = inl e
offset_by o interval (inr offset) = inr (interval +ℤ o.spread offset)

-- The rotation interval with its random offset.
pub rotate_interval : Libraries → (interval : ℤ) → (offset : Bytes) → ℕ ⊎ ℤ
unfolding parse_offset offset_by
rotate_interval o interval [] = inr interval
rotate_interval o interval (c ∷ cs) =
    if ltb_ℤ (pos 0) interval
    then offset_by o interval (parse_offset o interval (c ∷ cs))
    else inr interval

pub data Rate : Type 0 where
  unlimited : Rate
  bad_spec : (e : ℕ) → Rate
  bad_ticker : Rate
  limited : Credit → Rate

limited_by : NewCredit → Rate
limited_by (invalid e) = bad_spec e
limited_by panics = bad_ticker
limited_by (replenished interval c) = limited c

pub rate_limit : Libraries → Bytes → Rate
unfolding limited_by
rate_limit o [] = unlimited
rate_limit o (c ∷ cs) = limited_by (new_credit_from_spec o.rates (c ∷ cs))

-- What stands at an address that is free.
abbrev no_endpoint : Endpoint
no_endpoint = record {
  url = "";
  mark_unhealthy_threshold = pos 1;
  healthy = false;
  num_errors = 0;
  error_ts = 0;
  prev = none;
  next = none;
}

-- `epPool`, before its endpoints.
pub new_pool : PoolConfig → (rotate : ℤ) → Pool
new_pool cfg rotate = record {
  list = record { head = none; tail = none; mem = λ a. no_endpoint };
  healthy_rotate_interval = rotate;
  healthy_head_change_ts = 0;
  first_use = true;
  error_reset_interval = cfg.error_reset_interval;
  healthy_max_wait = cfg.healthy_max_wait;
  healthy_poll_interval = 500_000_000;
  send_buffer_timeout = cfg.send_buffer_timeout;
  shutdown = false;
  health_checks = [];
  stats = record {
    healthy_rotate_count = 0;
    no_healthy_ep_error_count = 0;
    endpoint_stats = λ u. no_endpoint_stats;
  };
}

pub record HttpEndpointPool : Type 0 where
  pub pool : Pool
  pub authorization : Bytes
  pub health_check_interval : ℤ
  pub health_check_err_log_interval : ℕ
  pub credit : Option Credit
  pub client : Client

pub data Creation : Type 0 where
  bad_password bad_offset bad_rate : (e : ℕ) → Creation
  bad_url : Creation
  panicked : Creation
  created : HttpEndpointPool → Creation

-- The order that the endpoints are taken in.
pub shuffled : Libraries → (shuffle : Bool) → List EndpointConfig → List EndpointConfig
shuffled o shuffle cfgs = if shuffle && ltb 1 (length cfgs) then o.permute cfgs else cfgs

created_by : PoolConfig → (authorization : Bytes) → Option Credit → Option Pool → Creation
created_by cfg authorization credit none = bad_url
created_by cfg authorization credit (some p) = created (record {
  pool = p;
  authorization = authorization;
  health_check_interval = at_least_min cfg.health_check_interval;
  health_check_err_log_interval = 10 * second;
  credit = credit;
  client = client_of cfg;
})

endpoints_by :
    Libraries → PoolConfig → (authorization : Bytes) → Option Credit → (rotate : ℤ) → Creation
unfolding created_by
endpoints_by o cfg authorization credit rotate = created_by cfg authorization credit (
    add_endpoints o.parses cfg.mark_unhealthy_threshold
      (shuffled o cfg.shuffle (configured cfg.endpoints)) 1 (new_pool cfg rotate))

rate_by : Libraries → PoolConfig → (authorization : Bytes) → (rotate : ℤ) → Rate → Creation
unfolding endpoints_by
rate_by o cfg authorization rotate (bad_spec e) = bad_rate e
rate_by o cfg authorization rotate bad_ticker = panicked
rate_by o cfg authorization rotate unlimited = endpoints_by o cfg authorization none rotate
rate_by o cfg authorization rotate (limited c) = endpoints_by o cfg authorization (some c) rotate

rotate_by : Libraries → PoolConfig → (authorization : Bytes) → ℕ ⊎ ℤ → Creation
unfolding rate_by
rotate_by o cfg authorization (inl e) = bad_offset e
rotate_by o cfg authorization (inr rotate) =
    rate_by o cfg authorization rotate (rate_limit o cfg.rate_limit_mbps)

auth_by : Libraries → PoolConfig → ℕ ⊎ Bytes → Creation
unfolding rotate_by
auth_by o cfg (inl e) = bad_password e
auth_by o cfg (inr authorization) =
    rotate_by o cfg authorization
      (rotate_interval o cfg.healthy_rotate_interval cfg.healthy_rotate_interval_offset)

abbrev pub config_or_default : Option PoolConfig → PoolConfig
config_or_default none = default_pool_config
config_or_default (some cfg) = cfg

pub new_http_endpoint_pool : Libraries → Option PoolConfig → Creation
unfolding auth_by
new_http_endpoint_pool o pool_cfg =
    let cfg = config_or_default pool_cfg in
    auth_by o cfg (build_html_basic_auth o.surroundings cfg.username cfg.password)
