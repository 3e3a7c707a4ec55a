-- ===== src/Runner/Orderly.antt =====
-- The order in which a run opens, uses and closes its parts.
use victoriametrics_importer.Prelude.{
  ℕ, ◌≡◌, ◌≢◌, refl, ◌∙◌, Bool, true, false, not, ◌&&◌, ◌||◌, Option, none, some, List, [], ◌∷◌,
  ◌++◌, map, ltb, Bool-cases, ◌⊎◌, inl, inr,
}
use victoriametrics_importer.Prelude.Int.{ℤ, pos_part}
use victoriametrics_importer.Scheduler.{Task}
use victoriametrics_importer.Runner.{
  Effect, opens_pool, opens_compressors, opens_stdout, opens_scheduler, adds, awaits_signal,
  arms_timer, stops_timer, closes_scheduler, closes_pool, closes_compressors, closes_stdout, End,
  fatal, panicked, Made, succeeds, fails, panics, Settings, hostname_by, build_all, internal_task,
  add_all, timer_stop, timer_arm, after_signal, work_by, tasks_by, scheduler_by, compressors_by,
  pool_by, stdout_by, queue_by, hosted_by, configured_by, run_by, run,
}

-- Which parts are open.
pub record Parts : Type 0 where
  pub pool : Bool
  pub compressors : Bool
  pub stdout : Bool
  pub scheduler : Bool

abbrev pub nothing_open : Parts
nothing_open = record { pool = false; compressors = false; stdout = false; scheduler = false }

abbrev given : Bool → Parts → Option Parts
given true p = some p
given false p = none

-- A part is opened once and closed while it is open. The compressors need the pool, the scheduler a
-- queue for the metrics; tasks are added to an open scheduler, and the signal is awaited with one.
-- What the tasks write to is closed behind the scheduler.
abbrev pub watch : Effect → Parts → Option Parts
watch opens_pool p = given (not p.pool) (record p { pool = true })
watch opens_compressors p = given (p.pool && not p.compressors) (record p { compressors = true })
watch opens_stdout p = given (not p.stdout) (record p { stdout = true })
watch opens_scheduler p =
    given ((p.compressors || p.stdout) && not p.scheduler) (record p { scheduler = true })
watch (adds t) p = given p.scheduler p
watch awaits_signal p = given p.scheduler p
watch arms_timer p = some p
watch stops_timer p = some p
watch closes_scheduler p = given p.scheduler (record p { scheduler = false })
watch closes_pool p = given (p.pool && not p.scheduler) (record p { pool = false })
watch closes_compressors p =
    given (p.compressors && not p.scheduler) (record p { compressors = false })
watch closes_stdout p = given (p.stdout && not p.scheduler) (record p { stdout = false })

abbrev pub watch_all : List Effect → Parts → Option Parts
watch_all [] p = some p
watch_all (e ∷ es) p = elim (watch e p) [ none ↦ none | some p' ↦ watch_all es p' ]

-- All that was opened is closed, in order, unless the program ended by a Fatal.
abbrev Closes : Parts → List Effect × End → Type 0
Closes p r = r.1 ≢ fatal → watch_all r.0 p ≡ some nothing_open

working : Bool → Parts
working stdout = record {
  pool = not stdout;
  compressors = not stdout;
  stdout = stdout;
  scheduler = true;
}

behind : Bool → List Effect → List Effect
behind true deferred = closes_stdout ∷ deferred
behind false deferred = closes_pool ∷ closes_compressors ∷ deferred

abbrev shutdowns : Bool → List Effect → List Effect
shutdowns b deferred = closes_scheduler ∷ behind b deferred

watch-timer_stop : (wait : ℤ) → watch_all (timer_stop wait) nothing_open ≡ some nothing_open
unfolding timer_stop
watch-timer_stop wait = elim (Bool-cases (ltb 0 (pos_part wait))) [
  | inl e ↦ rw e refl
  | inr e ↦ rw e refl
]

watch-shutdowns :
    (b : Bool) (wait : ℤ)
    → watch_all (shutdowns b (timer_stop wait)) (working b) ≡ some nothing_open
unfolding behind working
watch-shutdowns true wait = watch-timer_stop wait
watch-shutdowns false wait = watch-timer_stop wait

watch-arm :
    (wait : ℤ) (es : List Effect) (p : Parts) → watch_all (timer_arm wait ++ es) p ≡ watch_all es p
unfolding timer_arm
watch-arm wait es p = elim (Bool-cases (ltb 0 (pos_part wait))) [
  | inl e ↦ rw e refl
  | inr e ↦ rw e refl
]

watch-adds :
    (b : Bool) (ts : List (Option Task)) (es : List Effect)
    → watch_all ((add_all ts).0 ++ es) (working b) ≡ watch_all es (working b)
unfolding add_all working
watch-adds b [] es = refl
watch-adds b (none ∷ ts) es = refl
watch-adds b (some t ∷ ts) es = watch-adds b ts es

after_signal-Closes :
    (now b : Bool) (wait : ℤ)
    → Closes (working b) (after_signal now wait (shutdowns b (timer_stop wait)))
unfolding after_signal working
after_signal-Closes true b wait h = absurd (h refl)
after_signal-Closes false b wait h =
    watch-arm wait (shutdowns b (timer_stop wait)) (working b) ∙ watch-shutdowns b wait

work_by-Closes :
    (r : List Effect × Bool) (b : Bool) (wait : ℤ)
    → ((es : List Effect) → watch_all (r.0 ++ es) (working b) ≡ watch_all es (working b))
    → Closes (working b) (work_by r wait (shutdowns b (timer_stop wait)))
unfolding work_by
work_by-Closes (es, false) b wait k h = k (shutdowns b (timer_stop wait)) ∙ watch-shutdowns b wait
work_by-Closes (es, true) b wait k h =
    k (after_signal _ wait (shutdowns b (timer_stop wait))).0 ∙ after_signal-Closes _ b wait h

tasks_by-Closes :
    (o : Option (List Task)) (b : Bool) (s : Settings)
    → Closes (working b) (tasks_by o s (shutdowns b (timer_stop s.shutdown_max_wait)))
unfolding tasks_by
tasks_by-Closes none b s h = absurd (h refl)
tasks_by-Closes (some ts) b s h =
    work_by-Closes (add_all (map some ts ++ internal_task s.internal_interval ∷ [])) b
      s.shutdown_max_wait (watch-adds b (map some ts ++ internal_task s.internal_interval ∷ [])) h

scheduler_by-Closes :
    (ok b : Bool) (s : Settings)
    → Closes
        (record (working b) { scheduler = false })
        (scheduler_by ok s (behind b (timer_stop s.shutdown_max_wait)))
unfolding scheduler_by working
scheduler_by-Closes false b s h = absurd (h refl)
scheduler_by-Closes true true s h = tasks_by-Closes (build_all s.builders) true s h
scheduler_by-Closes true false s h = tasks_by-Closes (build_all s.builders) false s h

-- The pool alone.
abbrev pub pool_open : Parts
pool_open = record nothing_open { pool = true }

-- Of the parts, what a run leaves open.
abbrev Leaves : Parts → Settings → List Effect × End → Type 0
Leaves p s r =
    r.1 ≢ fatal
    → (watch_all r.0 p ≡ some nothing_open)
      ⊎ ((s.compressors ≡ panics) × (r.1 ≡ panicked) × (watch_all r.0 p ≡ some pool_open))

watch-timer_stop_pool : (wait : ℤ) → watch_all (timer_stop wait) pool_open ≡ some pool_open
unfolding timer_stop
watch-timer_stop_pool wait = elim (Bool-cases (ltb 0 (pos_part wait))) [
  | inl e ↦ rw e refl
  | inr e ↦ rw e refl
]

compressors_by-Leaves :
    (m : Made) (s : Settings)
    → s.compressors ≡ m
    → Leaves pool_open s (compressors_by m s (timer_stop s.shutdown_max_wait))
unfolding compressors_by behind working
compressors_by-Leaves fails s e h = absurd (h refl)
compressors_by-Leaves panics s e h = inr (e, refl, watch-timer_stop_pool s.shutdown_max_wait)
compressors_by-Leaves succeeds s e h = inl (scheduler_by-Closes s.scheduler_ok false s h)

pool_by-Leaves :
    (m : Made) (s : Settings) → Leaves nothing_open s (pool_by m s (timer_stop s.shutdown_max_wait))
unfolding pool_by
pool_by-Leaves fails s h = absurd (h refl)
pool_by-Leaves panics s h = inl (watch-timer_stop s.shutdown_max_wait)
pool_by-Leaves succeeds s h = compressors_by-Leaves s.compressors s refl h

stdout_by-Closes :
    (m : Made) (s : Settings) → Closes nothing_open (stdout_by m s (timer_stop s.shutdown_max_wait))
unfolding stdout_by behind working
stdout_by-Closes fails s h = absurd (h refl)
stdout_by-Closes panics s h = watch-timer_stop s.shutdown_max_wait
stdout_by-Closes succeeds s h = scheduler_by-Closes s.scheduler_ok true s h

queue_by-Leaves :
    (b : Bool) (s : Settings)
    → Leaves nothing_open s (queue_by b s (timer_stop s.shutdown_max_wait))
unfolding queue_by
queue_by-Leaves true s h = inl (stdout_by-Closes s.stdout s h)
queue_by-Leaves false s h = pool_by-Leaves s.pool s h

hosted_by-Leaves : (o : Option (List ℕ)) (s : Settings) → Leaves nothing_open s (hosted_by o s)
unfolding hosted_by
hosted_by-Leaves none s h = inl refl
hosted_by-Leaves (some n) s h = queue_by-Leaves s.use_stdout_arg s h

configured_by-Leaves : (c l : Bool) (s : Settings) → Leaves nothing_open s (configured_by c l s)
unfolding configured_by
configured_by-Leaves false l s h = inl refl
configured_by-Leaves true false s h = inl refl
configured_by-Leaves true true s h =
    hosted_by-Leaves (hostname_by s.hostname_arg s.os_hostname s.use_short_hostname) s h

run_by-Leaves : (b : Bool) (s : Settings) → Leaves nothing_open s (run_by b s)
unfolding run_by
run_by-Leaves true s h = inl refl
run_by-Leaves false s h = configured_by-Leaves s.config_ok s.logger_ok s h

-- A run that does not end in a Fatal opens and closes its parts in order, a panic included: nothing is
-- opened twice, the scheduler only behind a queue for the metrics, tasks are added and the signal is
-- awaited while it is open, it is closed before what its tasks write to; and nothing is left open,
-- unless the constructor of the compressors panics and so ends the run: then the pool of endpoints, and
-- nothing else, may be left open.
pub run-watch_all :
    (s : Settings)
    → (run s).1 ≢ fatal
    → (watch_all (run s).0 nothing_open ≡ some nothing_open)
      ⊎ ((s.compressors ≡ panics)
          × ((run s).1 ≡ panicked)
          × (watch_all (run s).0 nothing_open ≡ some pool_open))
unfolding run
run-watch_all s h = run_by-Leaves s.version_arg s h
