-- ===== src/Runner.antt =====
-- Run of vmi/internal/runner.go, with InternalMetricsTaskBuilder of vmi/internal/internal_metrics.go:
-- the parts that it creates, the tasks that it adds and the deferred shutdowns, as effects in their
-- order. What the flags, the configuration and the constructors give is read as input; a Fatal ends
-- the program with no deferred call, a panic runs them.
mod Orderly
mod Ends
mod Tests
use Prim.Native.String.{String}
use victoriametrics_importer.Prelude.{
  ℕ, zero, suc, ◌<◌, Bool, true, false, not, Option, none, some, List, [], ◌∷◌, ◌++◌, map, ltb,
  ◌==◌, if◌then◌else◌,
}
use victoriametrics_importer.Prelude.Int.{ℤ, pos, negsuc, pos_part, neg_part}
use victoriametrics_importer.Scheduler.{Task, new_task}

abbrev pub Bytes : Type 0
Bytes = List ℕ

pub data Effect : Type 0 where
  opens_pool opens_compressors opens_stdout opens_scheduler : Effect
  adds : Task → Effect
  awaits_signal arms_timer stops_timer : Effect
  closes_scheduler closes_pool closes_compressors closes_stdout : Effect

pub data End : Type 0 where
  returned : (exit_code : ℕ) → End
  fatal panicked : End

-- How a constructor of a queue ends. NewCompressorPool and NewStdoutMetricsQueue panic where they make
-- a channel of a negative size, NewHttpEndpointPool where it makes a ticker with no interval.
pub data Made : Type 0 where
  succeeds fails panics : Made

-- Flags and configuration, and how each constructor ends; NewScheduler always succeeds or fails, and a
-- builder that fails is none.
pub record Settings : Type 0 where
  pub version_arg : Bool
  pub config_ok : Bool
  pub logger_ok : Bool
  pub hostname_arg : Bytes
  pub os_hostname : Option Bytes
  pub use_short_hostname : Bool
  pub shutdown_max_wait : ℤ
  pub use_stdout_arg : Bool
  pub pool : Made
  pub compressors : Made
  pub stdout : Made
  pub scheduler_ok : Bool
  pub builders : List (Option (List (String × ℤ)))
  pub internal_interval : ℤ

-- `Hostname[:i]` for the first dot, if it is not the first byte.
pub up_to_dot : Bytes → Bytes
up_to_dot [] = []
up_to_dot (c ∷ cs) = let rest = up_to_dot cs in if c == 46 then [] else c ∷ rest

pub short_hostname : Bytes → Bytes
short_hostname [] = []
short_hostname (c ∷ cs) = if c == 46 then c ∷ cs else c ∷ up_to_dot cs

pub hostname_by : (arg : Bytes) → Option Bytes → (use_short : Bool) → Option Bytes
hostname_by (c ∷ cs) os use_short = some (c ∷ cs)
hostname_by [] none use_short = none
hostname_by [] (some h) true = some (short_hostname h)
hostname_by [] (some h) false = some h

-- The tasks of all builders, none if one fails.
pub build_all : List (Option (List (String × ℤ))) → Option (List Task)
build_all [] = some []
build_all (none ∷ bs) = none
build_all (some gs ∷ bs) = elim (build_all bs) [
  | none ↦ none
  | some ts ↦ some (map (λ g. new_task g.0 g.1) gs ++ ts)
]

-- InternalMetricsTaskBuilder, nil if the interval is not positive.
pub internal_task : (interval : ℤ) → Option Task
internal_task interval =
    if ltb 0 (pos_part interval) then some (new_task "internal_metrics" interval) else none

-- `scheduler.AddNewTask(task)` for each task; false if one is nil.
pub add_all : List (Option Task) → List Effect × Bool
add_all [] = ([], true)
add_all (none ∷ ts) = ([], false)
add_all (some t ∷ ts) = let rest = add_all ts in (adds t ∷ rest.0, rest.1)

pub timer_stop : (wait : ℤ) → List Effect
timer_stop wait = if ltb 0 (pos_part wait) then stops_timer ∷ [] else []

pub timer_arm : (wait : ℤ) → List Effect
timer_arm wait = if ltb 0 (pos_part wait) then arms_timer ∷ [] else []

pub is_zero : ℤ → Bool
is_zero (pos n) = n == 0
is_zero (negsuc n) = false

-- The signal, and what follows it.
pub after_signal : (now : Bool) → (wait : ℤ) → (deferred : List Effect) → List Effect × End
after_signal true wait deferred = (awaits_signal ∷ [], fatal)
after_signal false wait deferred = (awaits_signal ∷ timer_arm wait ++ deferred, returned 0)

pub work_by : List Effect × Bool → (wait : ℤ) → (deferred : List Effect) → List Effect × End
work_by (es, false) wait deferred = (es ++ deferred, panicked)
work_by (es, true) wait deferred =
    let rest = after_signal (is_zero wait) wait deferred in (es ++ rest.0, rest.1)

pub tasks_by : Option (List Task) → Settings → (deferred : List Effect) → List Effect × End
tasks_by none s deferred = ([], fatal)
tasks_by (some ts) s deferred =
    work_by (add_all (map some ts ++ internal_task s.internal_interval ∷ [])) s.shutdown_max_wait
      deferred

pub scheduler_by : (ok : Bool) → Settings → (deferred : List Effect) → List Effect × End
scheduler_by false s deferred = ([], fatal)
scheduler_by true s deferred =
    let rest = tasks_by (build_all s.builders) s (closes_scheduler ∷ deferred) in
    (opens_scheduler ∷ rest.0, rest.1)

-- The pool's and the compressors' Shutdown are deferred together, behind both constructors.
pub compressors_by : (made : Made) → Settings → (deferred : List Effect) → List Effect × End
compressors_by fails s deferred = ([], fatal)
compressors_by panics s deferred = (deferred, panicked)
compressors_by succeeds s deferred =
    let rest = scheduler_by s.scheduler_ok s (closes_pool ∷ closes_compressors ∷ deferred) in
    (opens_compressors ∷ rest.0, rest.1)

pub pool_by : (made : Made) → Settings → (deferred : List Effect) → List Effect × End
pool_by fails s deferred = ([], fatal)
pool_by panics s deferred = (deferred, panicked)
pool_by succeeds s deferred =
    let rest = compressors_by s.compressors s deferred in (opens_pool ∷ rest.0, rest.1)

pub stdout_by : (made : Made) → Settings → (deferred : List Effect) → List Effect × End
stdout_by fails s deferred = ([], fatal)
stdout_by panics s deferred = (deferred, panicked)
stdout_by succeeds s deferred =
    let rest = scheduler_by s.scheduler_ok s (closes_stdout ∷ deferred) in
    (opens_stdout ∷ rest.0, rest.1)

pub queue_by : (use_stdout : Bool) → Settings → (deferred : List Effect) → List Effect × End
queue_by true s deferred = stdout_by s.stdout s deferred
queue_by false s deferred = pool_by s.pool s deferred

pub hosted_by : Option Bytes → Settings → List Effect × End
hosted_by none s = ([], returned 1)
hosted_by (some h) s = queue_by s.use_stdout_arg s (timer_stop s.shutdown_max_wait)

pub configured_by : (config_ok logger_ok : Bool) → Settings → List Effect × End
configured_by false logger_ok s = ([], returned 1)
configured_by true false s = ([], returned 1)
configured_by true true s =
    hosted_by (hostname_by s.hostname_arg s.os_hostname s.use_short_hostname) s

pub run_by : (version : Bool) → Settings → List Effect × End
run_by true s = ([], returned 0)
run_by false s = configured_by s.config_ok s.logger_ok s

pub run : Settings → List Effect × End
run s = run_by s.version_arg s
