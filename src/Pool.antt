-- ===== src/Pool.antt =====
-- The state of HttpEndpointPool in vmi/internal/http_endpoint_pool.go and the operations that run
-- under its lock: ReportError, MoveToHealthy, the part of GetCurrentHealthy behind the wait, one
-- tick of HealthCheck, and Shutdown. Times and intervals are nanoseconds; the one reading `now` of
-- an operation stands for the readings that the code takes while it holds the lock. Log lines are
-- left out. A health check goroutine is an entry of `health_checks` from `go` to its return.
pub mod Lists
pub mod Invariant
pub mod Errors
pub mod Rotation
pub mod Recovery
pub mod History
pub mod Send
mod Startup
pub mod Create
pub mod Auth
mod Tests
use Prim.Native.String.{String}
use text.Mathlib.Text.{◌==◌ as str_eq}
use victoriametrics_importer.Prelude.{
  ℕ, ◌+◌, ◌%◌, ◌^◌, Bool, true, false, not, ◌&&◌, ◌||◌, Option, none, some, List, [], ◌∷◌, ltb, leb,
  ◌==◌, if◌then◌else◌,
}
use victoriametrics_importer.Prelude.Int.{ℤ, pos, pos_part, neg_part, ltb_ℤ}
use victoriametrics_importer.Prelude.Sets.{has, erase}
use victoriametrics_importer.EndpointList.{Ptr, Endpoint, Dll, update, add_to_tail, remove}

-- The counters are uint64.
abbrev pub add64 : ℕ → ℕ → ℕ
add64 a b = (a + b) % 2 ^ 64

pub record EndpointStats : Type 0 where
  pub send_buffer_count : ℕ
  pub send_buffer_byte_count : ℕ
  pub send_buffer_error_count : ℕ
  pub health_check_count : ℕ
  pub health_check_error_count : ℕ

-- NewHttpEndpointPool makes an entry for the URL of every endpoint, so the map is a function.
pub record PoolStats : Type 0 where
  pub healthy_rotate_count : ℕ
  pub no_healthy_ep_error_count : ℕ
  pub endpoint_stats : String → EndpointStats

pub record Pool : Type 0 where
  pub list : Dll
  pub open list use {head, tail, mem}
  pub healthy_rotate_interval : ℤ
  pub healthy_head_change_ts : ℕ
  pub first_use : Bool
  pub error_reset_interval : ℤ
  pub healthy_max_wait : ℤ
  pub healthy_poll_interval : ℕ
  pub send_buffer_timeout : ℤ
  pub shutdown : Bool
  pub health_checks : List Ptr
  pub stats : PoolStats

-- `time.Since(ts) >= d`
abbrev pub elapsed : ℕ → ℕ → ℤ → Bool
elapsed now ts d = leb (ts + pos_part d) (now + neg_part d)

abbrev pub count_error : ℕ → Endpoint → Endpoint
count_error now e = record e { num_errors = e.num_errors + 1; error_ts = now }

abbrev pub set_healthy : Bool → Endpoint → Endpoint
set_healthy b e = record e { healthy = b }

abbrev pub reset_errors : Endpoint → Endpoint
reset_errors e = record e { num_errors = 0 }

abbrev pub on_list : (Dll → Dll) → Pool → Pool
on_list f p = record p { list = f p.list }

abbrev pub modify : Ptr → (Endpoint → Endpoint) → Dll → Dll
modify ep f s = record s { mem = update s.mem ep f }

-- `head == tail`
abbrev pub same_ptr : Option Ptr → Option Ptr → Bool
same_ptr none none = true
same_ptr (some a) (some b) = a == b
same_ptr none (some b) = false
same_ptr (some a) none = false

abbrev pub to_tail : Ptr → Dll → Dll
to_tail ep s = add_to_tail ep (remove ep s)

-- The branch of ReportError for a healthy endpoint with too few errors.
pub demote : Ptr → Pool → Pool
demote ep p =
    if same_ptr p.head p.tail then p else record (on_list (to_tail ep) p) { first_use = true }

-- `if !epPool.shutdown { ...; go epPool.HealthCheck(ep) }`
abbrev pub spawn : (shutdown : Bool) → Ptr → List Ptr → List Ptr
spawn true ep checks = checks
spawn false ep checks = ep ∷ checks

-- The branch of ReportError at the threshold.
pub retire : Ptr → Pool → Pool
retire ep p =
    let p = on_list (modify ep (set_healthy false)) (on_list (remove ep) p) in
    record p { health_checks = spawn p.shutdown ep p.health_checks }

-- The rest of ReportError, by `ep.healthy` and `ep.numErrors < ep.markUnhealthyThreshold`.
pub report_counted : Bool → Bool → Ptr → Pool → Pool
report_counted false tolerated ep p = p
report_counted true true ep p = demote ep p
report_counted true false ep p = retire ep p

abbrev pub counted : ℕ → Ptr → Pool → Pool
counted now ep p = on_list (modify ep (count_error now)) p

pub report_error : ℕ → Ptr → Pool → Pool
unfolding report_counted
report_error now ep p =
    let p = counted now ep p in
    let e = p.mem ep in
    report_counted e.healthy (ltb_ℤ (pos e.num_errors) e.mark_unhealthy_threshold) ep p

abbrev pub revive : Endpoint → Endpoint
revive e = reset_errors (set_healthy true e)

-- MoveToHealthy, by `ep.healthy`
move_by : Bool → Ptr → Pool → Pool
move_by true ep p = p
move_by false ep p = on_list (add_to_tail ep) (on_list (modify ep revive) p)

pub move_to_healthy : Ptr → Pool → Pool
unfolding move_by
move_to_healthy ep p = move_by (p.mem ep).healthy ep p

count_rotation : PoolStats → PoolStats
count_rotation s = record s { healthy_rotate_count = add64 s.healthy_rotate_count 1 }

-- `healthyRotateInterval == 0 || healthyRotateInterval > 0 && time.Since(...) >= ...`
abbrev pub rotation_due : ℕ → Pool → Bool
rotation_due now p =
    (pos_part p.healthy_rotate_interval == 0 && neg_part p.healthy_rotate_interval == 0)
    || (ltb 0 (pos_part p.healthy_rotate_interval)
        && elapsed now p.healthy_head_change_ts p.healthy_rotate_interval)

-- "Rotate as needed", by `epPool.firstUse`, the rotation's condition and `head == tail`
rotate_by : (first_use due same : Bool) → ℕ → Ptr → Pool → Pool
rotate_by true due same now ep p = record p { healthy_head_change_ts = now; first_use = false }
rotate_by false false same now ep p = p
rotate_by false true true now ep p = p
rotate_by false true false now ep p = record (on_list (to_tail ep) p) {
  healthy_head_change_ts = now;
  stats = count_rotation p.stats;
}

rotate : ℕ → Ptr → Pool → Pool
unfolding rotate_by
rotate now ep p = rotate_by p.first_use (rotation_due now p) (same_ptr p.head p.tail) now ep p

-- "Apply error reset as needed", for the head after the rotation
abbrev pub reset_due : ℕ → Ptr → Pool → Bool
reset_due now ep p =
    ltb 0 (p.mem ep).num_errors
    && ltb 0 (pos_part p.error_reset_interval)
    && elapsed now (p.mem ep).error_ts p.error_reset_interval

reset_by : Bool → Ptr → Pool → Pool
reset_by true ep p = on_list (modify ep reset_errors) p
reset_by false ep p = p

apply_reset : ℕ → Ptr → Pool → Pool
unfolding reset_by
apply_reset now ep p = reset_by (reset_due now ep p) ep p

finish : ℕ → Option Ptr → Pool → Option Ptr × Pool
unfolding apply_reset
finish now none p = (none, p)
finish now (some ep) p = (some ep, apply_reset now ep p)

-- GetCurrentHealthy from `ep := epPool.healthy.head` on
select_head : ℕ → Option Ptr → Pool → Option Ptr × Pool
unfolding rotate finish
select_head now none p = (none, p)
select_head now (some ep) p = let p = rotate now ep p in finish now p.head p

pub select : ℕ → Pool → Option Ptr × Pool
unfolding select_head
select now p = select_head now p.head p

-- What client.Do returns: the status code of a response, and the text of an error.
pub record Response : Type 0 where
  pub status : Option ℕ
  pub err : Option String

-- HttpEndpointPoolSuccessCodes and HttpEndpointPoolRetryCodes
abbrev pub success_code : ℕ → Bool
success_code c = (c == 200) || (c == 204)

abbrev pub retry_code : ℕ → Bool
retry_code c = false

-- `err == nil && res != nil`
abbrev pub answered : Option String → Option ℕ → Bool
answered none (some c) = true
answered none none = false
answered (some e) s = false

abbrev pub sent : Response → Bool
sent r = answered r.err r.status

abbrev pub code : Response → ℕ
code r = elim r.status [ none ↦ 0 | some c ↦ c ]

-- `sent && HttpEndpointPoolSuccessCodes[res.StatusCode]`
abbrev pub success : Response → Bool
success r = sent r && success_code (code r)

abbrev pub update_stats : String → (EndpointStats → EndpointStats) → PoolStats → PoolStats
update_stats url f s = record s {
  endpoint_stats = λ u. if str_eq u url then f (s.endpoint_stats u) else s.endpoint_stats u;
}

count_check : Bool → EndpointStats → EndpointStats
count_check healthy e =
    let e = record e { health_check_count = add64 e.health_check_count 1 } in
    if healthy
    then e
    else record e { health_check_error_count = add64 e.health_check_error_count 1 }

-- One tick of the goroutine HealthCheck(ep), and its return once the endpoint has answered.
check_by : Bool → Ptr → Pool → Pool
check_by true ep p =
    let q = move_to_healthy ep p in record q { health_checks = erase ep q.health_checks }
check_by false ep p = p

pub health_check : Ptr → Response → Pool → Pool
unfolding check_by count_check
health_check ep r p =
    let q = check_by (success r) ep p in
    record q { stats = update_stats (q.mem ep).url (count_check (success r)) q.stats }

-- The first locked part of Shutdown, and the goroutines that return when the context is done.
stop_by : (shutdown : Bool) → Pool → Pool
stop_by true p = p
stop_by false p = record p { shutdown = true; health_checks = [] }

pub stop : Pool → Pool
unfolding stop_by
stop p = stop_by p.shutdown p

-- What any goroutine may do to the pool between two locked sections of another. A health check
-- ticks only while its goroutine runs.
pub data Op : Type 0 where
  report : (now : ℕ) → Ptr → Op
  selects : (now : ℕ) → Op
  check : Ptr → Response → Op
  stops : Op

pub step : Pool → Op → Pool
step p (report now ep) = report_error now ep p
step p (selects now) = (select now p).1
step p (check ep r) = if has ep p.health_checks then health_check ep r p else p
step p stops = stop p

pub run : Pool → List Op → Pool
unfolding step
run p [] = p
run p (o ∷ os) = run (step p o) os
