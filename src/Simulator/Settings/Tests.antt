-- ===== src/Simulator/Settings/Tests.antt =====
-- Settings from flags.
use Prim.Native.String.{String}
use victoriametrics_importer.Prelude.{◌≡◌, refl, none, ◌⊎◌, inl, inr}
use victoriametrics_importer.Prelude.Int.{pos}
use victoriametrics_importer.Simulator.Settings.{
  Flags, Fatal, Settings, to_stdout, settings, display_level, level_by, find_level, audit_target,
  listen_addr, interval_by, invalid_level,
}

abbrev flags : String → Flags
flags level = record {
  port = "8080";
  bind_addr = "localhost";
  display_level_name = level;
  audit_file_name = "-";
  display_body_limit = pos 512;
  traffic_stats_int = "0";
}

abbrev set : String → Fatal ⊎ Settings
set level = settings (λ name. none) (λ text. inr (pos 0)) (flags level)

headers_are_shown :
    set "headers"
    ≡ inr (record {
      shows = record { level = pos 1; body_limit = pos 512 };
      audit_to = to_stdout;
      interval = pos 0;
      addr = "localhost:8080";
    })
unfolding settings display_level level_by find_level audit_target listen_addr interval_by
headers_are_shown = refl

no_such_level : set "all" ≡ inl (invalid_level "all")
unfolding settings display_level level_by find_level
no_such_level = refl
