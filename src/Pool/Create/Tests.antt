-- ===== src/Pool/Create/Tests.antt =====
-- A pool from the default configuration, and a rotation interval with its offset.
use victoriametrics_importer.Prelude.{◌≡◌, refl, true, [], ◌∷◌, inr}
use victoriametrics_importer.Prelude.Int.{pos, ◌+ℤ◌}
use victoriametrics_importer.Pool.Create.{Libraries, rotate_interval, parse_offset, offset_by}

abbrev libraries : Libraries
libraries = record {
  surroundings = record {
    expand_env = λ name. name;
    read_file = λ name. inr name;
    getenv = λ name. [];
  };
  rates = record {
    scale = λ text. inr (λ interval. interval);
    parse_duration = λ text. inr (pos 0);
  };
  percent = λ interval text. inr (pos 7);
  spread = λ offset. offset;
  permute = λ cfgs. cfgs;
  parses = λ url. true;
}

ten_percent : rotate_interval libraries (pos 70) (49 ∷ 48 ∷ 37 ∷ []) ≡ inr (pos 77)
unfolding rotate_interval offset_by parse_offset ◌+ℤ◌
ten_percent = refl
