-- ===== src/Runner/Tests.antt =====
-- A run with one generator, and the same with the internal metrics disabled.
use victoriametrics_importer.Prelude.{
  ◌≡◌, ◌≢◌, refl, sym, ◌∙◌, ◌⊎◌, ltb, true, false, some, [], ◌∷◌,
}
use victoriametrics_importer.Prelude.Int.{pos, pos_part}
use victoriametrics_importer.Runner.{
  succeeds, panics, run_by, configured_by, hosted_by, queue_by, pool_by, compressors_by, timer_stop,
  Settings, fatal, panicked, build_all, hostname_by, run,
}
use victoriametrics_importer.Runner.Orderly.{nothing_open, pool_open, watch_all, run-watch_all}
use victoriametrics_importer.Runner.Ends.{IsFine, end_of, awaited, run-end}

abbrev disabled : Settings
disabled = record {
  version_arg = false;
  config_ok = true;
  logger_ok = true;
  hostname_arg = [];
  os_hostname = some (104 ∷ 46 ∷ 100 ∷ []);
  use_short_hostname = true;
  shutdown_max_wait = pos 5000000000;
  use_stdout_arg = false;
  pool = succeeds;
  compressors = succeeds;
  stdout = succeeds;
  scheduler_ok = true;
  builders = some (("counter", pos 5000000000) ∷ []) ∷ [];
  internal_interval = pos 0;
}

disabled-IsFine : IsFine disabled
unfolding build_all hostname_by
disabled-IsFine = record {
  runs = refl;
  configured = refl;
  logs = refl;
  hosted = (_, refl);
  queued = (refl, refl);
  scheduled = refl;
  built = (_, refl);
}

-- It panics.
ends_in_panic : end_of disabled ≡ panicked
ends_in_panic = refl

run-end_example :
    ((run disabled).1 ≡ end_of disabled)
    × (awaited (run disabled).0 ≡ ltb 0 (pos_part disabled.internal_interval))
run-end_example = run-end disabled disabled-IsFine

not_fatal : (run disabled).1 ≢ fatal
not_fatal h =
    let e : panicked ≡ fatal = sym (run-end disabled disabled-IsFine).0 ∙ h in absurd (cc e)

run-watch_all_example :
    (watch_all (run disabled).0 nothing_open ≡ some nothing_open)
    ⊎ ((disabled.compressors ≡ panics)
        × ((run disabled).1 ≡ panicked)
        × (watch_all (run disabled).0 nothing_open ≡ some pool_open))
run-watch_all_example = run-watch_all disabled not_fatal

-- Compressors with a queue of a negative size.
abbrev bad_compressors : Settings
bad_compressors = record disabled { compressors = panics }

-- The pool is left open.
pool_left : watch_all (run bad_compressors).0 nothing_open ≡ some pool_open
unfolding run run_by configured_by hosted_by hostname_by queue_by pool_by compressors_by timer_stop
pool_left = refl
