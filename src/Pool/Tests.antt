-- ===== src/Pool/Tests.antt =====
-- The theorems on the pool, at a pool of three endpoints: 1 and 2 are healthy, 3 is under health check.
use victoriametrics_importer.Prelude.{
  ◌*◌, ◌≢◌, refl, true, false, none, some, List, [], ◌∷◌, ◌==◌, if◌then◌else◌, arith,
}
use victoriametrics_importer.Prelude.Int.{pos}
use victoriametrics_importer.EndpointList.{Ptr, Endpoint, Dll}
use victoriametrics_importer.Pool.{
  Pool, PoolStats, Response, Op, report, selects, check, stops, run,
}
use victoriametrics_importer.Pool.Invariant.{Inv}
use victoriametrics_importer.Pool.History.{run-Inv}
use victoriametrics_importer.Pool.Send.{Naps, World, out_of_attempts, send_buffer}
use victoriametrics_importer.Pool.Send.Soundness.{IsSound, send_buffer-IsSound}
use victoriametrics_importer.Pool.Send.Outcomes.{Explains, send_buffer-Explains}
use victoriametrics_importer.Pool.Send.Bound.{Calm, deadline_of, send_buffer-ends}
use victoriametrics_importer.Pool.Startup.{EndpointConfig}

abbrev blank : Endpoint
blank = record {
  url = "http://localhost:8428";
  mark_unhealthy_threshold = pos 2;
  healthy = false;
  num_errors = 0;
  error_ts = 0;
  prev = none;
  next = none;
}

abbrev three_endpoints : Dll
three_endpoints = record {
  head = some 1;
  tail = some 2;
  mem = λ a.
      if a == 1
      then record blank { healthy = true; next = some 2 }
      else if a == 2
      then record blank { healthy = true; num_errors = 1; prev = some 1 }
      else blank;
}

abbrev no_stats : PoolStats
no_stats = record {
  healthy_rotate_count = 0;
  no_healthy_ep_error_count = 0;
  endpoint_stats = λ u. record {
    send_buffer_count = 0;
    send_buffer_byte_count = 0;
    send_buffer_error_count = 0;
    health_check_count = 0;
    health_check_error_count = 0;
  };
}

abbrev small_pool : Pool
small_pool = record {
  list = three_endpoints;
  healthy_rotate_interval = pos 5;
  healthy_head_change_ts = 0;
  first_use = false;
  error_reset_interval = pos 0;
  healthy_max_wait = pos 10;
  healthy_poll_interval = 2;
  send_buffer_timeout = pos 20;
  shutdown = false;
  health_checks = 3 ∷ [];
  stats = no_stats;
}

small_pool-Inv : Inv small_pool (1 ∷ 2 ∷ [])
small_pool-Inv = record {
  rep = record {
    head = refl;
    tail = refl;
    chain = (refl, refl, (refl, refl, tt));
    distinct = (refl, (refl, tt));
  };
  flags = λ a. ground arith;
  in_budget = λ a h. ground arith;
  thresholds = λ a. ground arith;
  apart = λ a h. ground arith;
  checks = (refl, tt);
}

abbrev ok_response : Response
ok_response = record { status = some 200; err = none }

abbrev history : List Op
history = selects 7 ∷ report 8 2 ∷ check 3 ok_response ∷ report 9 1 ∷ stops ∷ []

run-Inv_example : (ys : List Ptr) × Inv (run small_pool history) ys
run-Inv_example = run-Inv small_pool history (1 ∷ 2 ∷ []) small_pool-Inv

-- A clock that moves on by two, and nobody else at work.
abbrev quiet_naps : Naps
quiet_naps = record { clock = λ i. 2 * i; others = λ i. [] }

abbrev all_refuse : World
all_refuse = record {
  clock = λ n. 0;
  chosen_at = λ n. 1;
  naps = λ n. quiet_naps;
  respond = λ n ep. record { status = some 503; err = none };
  meanwhile = λ n. [];
  failed_at = λ n. 3;
  fuel = λ n. 10;
}

all_refuse-Calm : Calm all_refuse (deadline_of 0 (pos 20) small_pool) 2
all_refuse-Calm = record {
  quiet = λ n. refl;
  quiet_naps = λ n i. refl;
  sleeps = λ n i. omega arith;
  patience = λ n. ground arith;
}

send_buffer-ends_example : (send_buffer 5 all_refuse 100 0 (pos 20) small_pool).0 ≢ out_of_attempts
send_buffer-ends_example =
    send_buffer-ends 5 all_refuse 100 0 (pos 20) small_pool (1 ∷ 2 ∷ []) small_pool-Inv refl
      all_refuse-Calm (omega arith)

send_buffer-Explains_example :
    Explains all_refuse 1 (send_buffer 5 all_refuse 100 0 (pos 20) small_pool).0
send_buffer-Explains_example = send_buffer-Explains 5 all_refuse 100 0 (pos 20) small_pool

send_buffer-IsSound_example : IsSound (send_buffer 5 all_refuse 100 0 (pos 20) small_pool).1
send_buffer-IsSound_example =
    send_buffer-IsSound 5 all_refuse 100 0 (pos 20) small_pool (1 ∷ 2 ∷ [], small_pool-Inv)

abbrev empty_pool : Pool
empty_pool = record small_pool {
  list = record { head = none; tail = none; mem = λ a. blank };
  health_checks = [];
  first_use = true;
}

empty_pool-Inv : Inv empty_pool []
empty_pool-Inv = record {
  rep = record { head = refl; tail = refl; chain = tt; distinct = tt };
  flags = λ a. refl;
  in_budget = λ a h. ground (arith, h);
  thresholds = λ a. refl;
  apart = λ a h. refl;
  checks = tt;
}

abbrev two_configs : List EndpointConfig
two_configs =
    record { url = "http://a:8428"; mark_unhealthy_threshold = pos 0 }
    ∷ record { url = ""; mark_unhealthy_threshold = pos 4 }
    ∷ []
