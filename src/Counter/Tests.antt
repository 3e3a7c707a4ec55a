-- ===== src/Counter/Tests.antt =====
-- The theorems on the counter's generator, at a counter that wraps round.
use victoriametrics_importer.Prelude.{ℕ, ◌≡◌, refl, true, some, List, [], ◌∷◌, arith}
use victoriametrics_importer.Prelude.Int.{pos}
use victoriametrics_importer.Counter.{Generator, unix_milli, load_val, run_task}
use victoriametrics_importer.Counter.Deltas.{Ran, add_deltas, AllVals, last_val, run_task-total}

-- A generator whose run at 2 s found the largest value.
abbrev at_the_top : Generator
at_the_top = record {
  cycle_num = 1;
  full_metrics_factor = pos 10;
  last_ts = 2_000_000_000;
  ts_suffix = some (unix_milli 2_000_000_000);
  val_0 = 4_294_967_295;
  val_1 = 0;
  zero_delta = true;
  current_index = some true;
}

at_the_top-Ran : Ran 2_000_000_000 4_294_967_295 at_the_top
unfolding load_val
at_the_top-Ran = record { index = true; at = refl; cached = refl; last = refl; stamped = refl }

abbrev samples : List (ℕ × ℕ)
samples = (4_000_000_000, 3) ∷ (6_000_000_000, 3) ∷ (8_000_000_000, 3) ∷ (10_000_000_000, 20) ∷ []

samples-AllVals : AllVals samples
samples-AllVals = (omega arith, (omega arith, (omega arith, (omega arith, tt))))

run_task-total_example :
    add_deltas (run_task samples at_the_top).0 4_294_967_295 ≡ last_val samples 4_294_967_295
run_task-total_example =
    run_task-total samples 2_000_000_000 4_294_967_295 at_the_top (omega arith) samples-AllVals
      at_the_top-Ran
