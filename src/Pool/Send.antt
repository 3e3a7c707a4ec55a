-- ===== src/Pool/Send.antt =====
-- GetCurrentHealthy and SendBuffer of vmi/internal/http_endpoint_pool.go as wholes: their waits and
-- attempts, with everything that they read from outside in a `World`. The body that client.Do reads
-- and the request's headers are the client's business and left out.
pub mod Wait
pub mod Outcomes
pub mod Soundness
pub mod Budget
pub mod Bound
use victoriametrics_importer.Prelude.{
  ℕ, zero, suc, ◌+◌, ◌-◌, ◌<◌, Bool, true, false, not, ◌&&◌, Option, none, some, List, ltb, leb,
  if◌then◌else◌,
}
use victoriametrics_importer.Prelude.Int.{ℤ, pos, pos_part, neg_part, ltb_ℤ}
use victoriametrics_importer.EndpointList.{Ptr}
use victoriametrics_importer.Pool.{
  Pool, PoolStats, EndpointStats, Op, Response, add64, answered, code, sent, success, success_code,
  retry_code, update_stats, report_error, select, run,
}

-- What GetCurrentHealthy reads while it waits: the clock at its i-th look at the list, and what
-- other goroutines do to the pool in the sleep that follows.
pub record Naps : Type 0 where
  pub clock : ℕ → ℕ
  pub others : ℕ → List Op

-- The time `t.Add(d)`.
abbrev pub add_time : ℕ → ℤ → ℕ
add_time t d = t + pos_part d - neg_part d

pub data Waited : Type 0 where
  ready : Pool → Waited
  timed_out : Pool → Waited
  out_of_fuel : Pool → Waited

abbrev pub is_none {ℓ} : {A : Type ℓ} → Option A → Bool
is_none none = true
is_none (some a) = false

-- `for epPool.healthy.head == nil && !epPool.shutdown`
pub wait_loop : ℕ → Naps → (deadline i : ℕ) → Pool → Waited
wait_loop zero w deadline i p = out_of_fuel p
wait_loop (suc f) w deadline i p =
    let rest = wait_loop f w deadline (suc i) (run p (w.others i)) in
    if is_none p.head && not p.shutdown
    then if leb deadline (w.clock i) then timed_out p else rest
    else ready p

pub data Found : Type 0 where
  found : Option Ptr → Pool → Found
  stuck : Pool → Found

-- `now` is the clock behind the wait.
pub found_by : ℕ → Waited → Found
found_by now (ready p) = let (ep, q) = select now p in found ep q
found_by now (timed_out p) = found none p
found_by now (out_of_fuel p) = stuck p

-- GetCurrentHealthy(maxWait), called at the time `start`.
pub get_current_healthy : ℕ → Naps → (start now : ℕ) → ℤ → Pool → Found
unfolding wait_loop found_by
get_current_healthy f w start now max_wait p =
    let max_wait = if ltb_ℤ max_wait (pos 0) then p.healthy_max_wait else max_wait in
    found_by now (wait_loop f w (add_time start max_wait) 0 p)

-- What the attempts of SendBuffer read: the clock at each attempt and behind its wait, the wait,
-- what client.Do returns, what other goroutines do meanwhile, and the clock for an error.
pub record World : Type 0 where
  pub clock : ℕ → ℕ
  pub chosen_at : ℕ → ℕ
  pub naps : ℕ → Naps
  pub respond : ℕ → Ptr → Response
  pub meanwhile : ℕ → List Op
  pub failed_at : ℕ → ℕ
  pub fuel : ℕ → ℕ

pub data Outcome : Type 0 where
  delivered : Outcome
  no_healthy_endpoint : (attempt : ℕ) → Outcome
  refused : (attempt status : ℕ) → Outcome
  out_of_attempts : Outcome

pub count_no_healthy : Pool → Pool
count_no_healthy p = record p {
  stats = record (p.stats) {
    no_healthy_ep_error_count = add64 p.stats.no_healthy_ep_error_count 1;
  };
}

-- The counters of one attempt with a buffer of `size` bytes.
pub count_attempt : ℕ → Response → EndpointStats → EndpointStats
count_attempt size r e = record e {
  send_buffer_count = add64 e.send_buffer_count 1;
  send_buffer_byte_count =
      if sent r then add64 e.send_buffer_byte_count size else e.send_buffer_byte_count;
  send_buffer_error_count =
      if success r then e.send_buffer_error_count else add64 e.send_buffer_error_count 1;
}

abbrev pub non_retryable : Response → Bool
non_retryable r = sent r && not (retry_code (code r))

-- The pool behind the request of attempt `n` to `ep`, its statistics counted.
pub requested : World → ℕ → ℕ → Ptr → Pool → Pool
unfolding count_attempt
requested w size n ep p =
    let p = run p (w.meanwhile n) in
    record p { stats = update_stats (p.mem ep).url (count_attempt size (w.respond n ep)) p.stats }

-- The wait that attempt `n` asks for: `max(time.Until(deadline), 0)`.
abbrev pub time_left : World → ℕ → ℕ → ℤ
time_left w deadline n = pos (deadline - w.clock n)

-- The rest of an attempt, by `success` and `nonRetryable`; `retry` is the next attempt.
pub conclude :
    (success refused : Bool) → (n code : ℕ) → Pool → (Pool → Outcome × Pool) → Outcome × Pool
conclude true b n c q retry = (delivered, q)
conclude false true n c q retry = (refused n c, q)
conclude false false n c q retry = retry q

-- Attempt `n`, from the endpoint that it is given.
pub attempt : World → (size n : ℕ) → (Pool → Outcome × Pool) → Found → Outcome × Pool
unfolding conclude count_no_healthy
attempt w size n again (stuck q) = (out_of_attempts, q)
attempt w size n again (found none q) = (no_healthy_endpoint n, count_no_healthy q)
attempt w size n again (found (some ep) q) =
    let r = w.respond n ep in
    conclude (success r) (non_retryable r) n (code r) (requested w size n ep q)
      (λ q. again (report_error (w.failed_at n) ep q))

pub send_loop : ℕ → World → (size deadline n : ℕ) → Pool → Outcome × Pool
send_loop zero w size deadline n p = (out_of_attempts, p)
send_loop (suc f) w size deadline n p = attempt w size n (send_loop f w size deadline (suc n)) (
    get_current_healthy (suc (w.fuel n)) (w.naps n) (w.clock n) (w.chosen_at n)
      (time_left w deadline n) p)

-- SendBuffer(b, timeout, gzipped) for a buffer of `size` bytes, called at the time `start`.
pub send_buffer : ℕ → World → (size start : ℕ) → ℤ → Pool → Outcome × Pool
unfolding send_loop
send_buffer f w size start timeout p =
    let timeout = if ltb_ℤ timeout (pos 0) then p.send_buffer_timeout else timeout in
    send_loop f w size (add_time start timeout) 1 p
