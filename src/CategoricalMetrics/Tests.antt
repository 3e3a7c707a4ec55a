-- ===== src/CategoricalMetrics/Tests.antt =====
-- The categorical generator on a few runs.
use victoriametrics_importer.Prelude.{ℕ, ◌≡◌, none, List, [], ◌∷◌, arith}
use victoriametrics_importer.Prelude.Int.{pos}
use victoriametrics_importer.CategoricalMetrics.{Bytes, new_categorical_metrics, run_task}
use victoriametrics_importer.CategoricalMetrics.Latest.{latest, expected, run_task-latest}

abbrev runs : List (ℕ × Bytes)
runs = (0, 97 ∷ []) ∷ (5, 98 ∷ []) ∷ (10, 98 ∷ []) ∷ (15, 97 ∷ []) ∷ []

run_task-latest_example :
    latest (98 ∷ []) (run_task runs (new_categorical_metrics (pos 12) 3)).0 none
    ≡ expected (98 ∷ []) runs none
run_task-latest_example =
    run_task-latest (pos 12) 3 (98 ∷ []) runs
      (omega arith, (omega arith, (omega arith, (omega arith, tt))))
