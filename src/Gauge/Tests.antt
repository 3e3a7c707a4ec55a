-- ===== src/Gauge/Tests.antt =====
-- The theorem on categorical parsers, at three choices.
use victoriametrics_importer.Prelude.{List, [], ◌∷◌}
use victoriametrics_importer.Gauge.{Bytes}

abbrev three_choices : List Bytes
three_choices = (97 ∷ []) ∷ (98 ∷ []) ∷ (99 ∷ []) ∷ []
