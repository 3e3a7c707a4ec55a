-- ===== src/Runner/Ends.antt =====
-- How a run ends, once its parts could be created.
use victoriametrics_importer.Prelude.{
  ℕ, ◌≡◌, refl, ap, ◌∙◌, Bool, true, false, ◌||◌, Option, none, some, List, [], ◌∷◌, ◌++◌, map, ltb,
  if◌then◌else◌, Bool-cases, inl, inr,
}
use victoriametrics_importer.Prelude.Int.{ℤ, pos_part}
use victoriametrics_importer.Scheduler.{Task}
use victoriametrics_importer.Runner.{
  Effect, closes_scheduler, closes_pool, closes_compressors, closes_stdout, End, returned, fatal,
  panicked, awaits_signal, succeeds, Settings, hostname_by, build_all, internal_task, add_all,
  is_zero, timer_stop, after_signal, work_by, tasks_by, scheduler_by, compressors_by, pool_by,
  stdout_by, queue_by, hosted_by, configured_by, run_by, run,
}

-- The queue that is asked for can be created.
abbrev pub QueueOk : (use_stdout : Bool) → Settings → Type 0
QueueOk true s = s.stdout ≡ succeeds
QueueOk false s = (s.pool ≡ succeeds) × (s.compressors ≡ succeeds)

-- The flags ask for a run, and everything that it needs can be had.
pub record IsFine (s : Settings) : Type 0 where
  pub runs : s.version_arg ≡ false
  pub configured : s.config_ok ≡ true
  pub logs : s.logger_ok ≡ true
  pub hosted :
      (h : List ℕ) × (hostname_by s.hostname_arg s.os_hostname s.use_short_hostname ≡ some h)
  pub queued : QueueOk s.use_stdout_arg s
  pub scheduled : s.scheduler_ok ≡ true
  pub built : (ts : List Task) × (build_all s.builders ≡ some ts)

abbrev pub end_of : Settings → End
end_of s =
    if ltb 0 (pos_part s.internal_interval)
    then (if is_zero s.shutdown_max_wait then fatal else returned 0)
    else panicked

-- Whether a signal is waited for.
abbrev is_wait : Effect → Bool
is_wait awaits_signal = true
is_wait _ = false

abbrev pub awaited : List Effect → Bool
awaited [] = false
awaited (e ∷ es) = is_wait e || awaited es

-- How a run ends, and whether it waited.
abbrev seen : List Effect × End → End × Bool
seen r = (r.1, awaited r.0)

abbrev expected : Settings → End × Bool
expected s = (end_of s, ltb 0 (pos_part s.internal_interval))

added :
    (ts : List Task) (interval : ℤ)
    → (add_all (map some ts ++ internal_task interval ∷ [])).1 ≡ ltb 0 (pos_part interval)
unfolding add_all internal_task
added [] interval = elim (Bool-cases (ltb 0 (pos_part interval))) [
  | inl e ↦ rw e refl
  | inr e ↦ rw e refl
]
added (t ∷ ts) interval = added ts interval

awaited-add_all :
    (ts : List (Option Task)) (es : List Effect) → awaited ((add_all ts).0 ++ es) ≡ awaited es
unfolding add_all
awaited-add_all [] es = refl
awaited-add_all (none ∷ ts) es = refl
awaited-add_all (some t ∷ ts) es = awaited-add_all ts es

awaited-timer_stop : (wait : ℤ) → awaited (timer_stop wait) ≡ false
unfolding timer_stop
awaited-timer_stop wait = elim (Bool-cases (ltb 0 (pos_part wait))) [
  | inl e ↦ rw e refl
  | inr e ↦ rw e refl
]

seen-after_signal :
    (now : Bool) (wait : ℤ) (d : List Effect)
    → seen (after_signal now wait d) ≡ ((if now then fatal else returned 0), true)
unfolding after_signal
seen-after_signal true wait d = refl
seen-after_signal false wait d = refl

seen-work_by :
    (r : List Effect × Bool) (wait : ℤ) (d : List Effect)
    → ((es : List Effect) → awaited (r.0 ++ es) ≡ awaited es)
    → awaited d ≡ false
    → seen (work_by r wait d)
      ≡ ((if r.1 then (if is_zero wait then fatal else returned 0) else panicked), r.1)
unfolding work_by
seen-work_by (es, true) wait d quiet e =
    let rest = after_signal (is_zero wait) wait d in
    ap (λ b. (rest.1, b)) (quiet rest.0) ∙ seen-after_signal (is_zero wait) wait d
seen-work_by (es, false) wait d quiet e = ap (λ b. (panicked, b)) (quiet d ∙ e)

seen-scheduler_by :
    (s : Settings) (d : List Effect)
    → awaited d ≡ false
    → IsFine s
    → seen (scheduler_by s.scheduler_ok s d) ≡ expected s
unfolding scheduler_by tasks_by
seen-scheduler_by s d q f =
    let (ts, b) = f.built in
    let tasks = map some ts ++ internal_task s.internal_interval ∷ [] in
    ap (λ k. seen (scheduler_by k s d)) f.scheduled
    ∙ ap (λ o. seen (tasks_by o s (closes_scheduler ∷ d))) b
    ∙ seen-work_by (add_all tasks) s.shutdown_max_wait (closes_scheduler ∷ d)
        (awaited-add_all tasks) q
    ∙ ap
        (λ k. (
          (if k then (if is_zero s.shutdown_max_wait then fatal else returned 0) else panicked),
          k,
        ))
        (added ts s.internal_interval)

seen-queue_by :
    (b : Bool) (s : Settings) (d : List Effect)
    → QueueOk b s
    → awaited d ≡ false
    → IsFine s
    → seen (queue_by b s d) ≡ expected s
unfolding queue_by pool_by compressors_by stdout_by
seen-queue_by true s d q w f =
    ap (λ k. seen (stdout_by k s d)) q ∙ seen-scheduler_by s (closes_stdout ∷ d) w f
seen-queue_by false s d q w f =
    ap (λ k. seen (pool_by k s d)) q.0
    ∙ ap (λ k. seen (compressors_by k s d)) q.1
    ∙ seen-scheduler_by s (closes_pool ∷ closes_compressors ∷ d) w f

seen-run : (s : Settings) → IsFine s → seen (run s) ≡ expected s
unfolding run run_by configured_by hosted_by
seen-run s f =
    let (h, e) = f.hosted in
    ap (λ v. seen (run_by v s)) f.runs
    ∙ ap (λ c. seen (configured_by c s.logger_ok s)) f.configured
    ∙ ap (λ l. seen (configured_by true l s)) f.logs
    ∙ ap (λ o. seen (hosted_by o s)) e
    ∙ seen-queue_by s.use_stdout_arg s (timer_stop s.shutdown_max_wait) f.queued
        (awaited-timer_stop s.shutdown_max_wait) f

-- If the flags ask for a run and everything that it needs can be had, the run waits for a signal
-- exactly if the interval of the internal metrics is positive; it then ends by a Fatal if there is to be
-- no wait at the shutdown, and with exit code 0 otherwise. Where the interval is not positive, so that
-- the internal metrics are disabled, a nil task is added to the scheduler and the run panics.
pub run-end :
    (s : Settings)
    → IsFine s
    → ((run s).1 ≡ end_of s) × (awaited (run s).0 ≡ ltb 0 (pos_part s.internal_interval))
run-end s f = (ap (λ r. r.0) (seen-run s f), ap (λ r. r.1) (seen-run s f))
