-- ===== src/Simulator/Settings.antt =====
-- The flags of the emulated endpoint's main, and the settings that it makes of them.
mod Tests
use Prim.Native.String.{String, ◌++◌ as append}
use text.Mathlib.Text.{◌==◌ as str_eq}
use victoriametrics_importer.Prelude.{
  ℕ, suc, Bool, true, false, not, Option, none, some, List, [], ◌∷◌, ◌⊎◌, inl, inr, if◌then◌else◌,
}
use victoriametrics_importer.Prelude.Int.{ℤ, pos, negsuc}
use victoriametrics_importer.Simulator.Decode.{Display}

-- The flags of main.
pub record Flags : Type 0 where
  pub port : String
  pub bind_addr : String
  pub display_level_name : String
  pub audit_file_name : String
  pub display_body_limit : ℤ
  pub traffic_stats_int : String

pub data Fatal : Type 0 where
  invalid_level : (name : String) → Fatal
  open_failed : (e : ℕ) → Fatal
  invalid_interval : (e : ℕ) → Fatal

pub data AuditTo : Type 0 where
  nowhere to_stdout : AuditTo
  to_file : (name : String) → AuditTo

pub record Settings : Type 0 where
  pub shows : Display
  pub audit_to : AuditTo
  pub interval : ℤ
  pub addr : String

abbrev pub display_level_names : List String
display_level_names = "request" ∷ "headers" ∷ "body" ∷ []

-- `for level, name := range displayLevelNames`
pub find_level : (name : String) → (level : ℕ) → List String → Option ℕ
find_level name level [] = none
find_level name level (n ∷ names) =
    let rest = find_level name (suc level) names in if str_eq n name then some level else rest

level_by : (given : Bool) → String → Fatal ⊎ ℤ
level_by false name = inr (negsuc 0)
level_by true name = elim (find_level name 0 display_level_names) [
  | none ↦ inl (invalid_level name)
  | some level ↦ inr (pos level)
]

pub display_level : String → Fatal ⊎ ℤ
unfolding level_by
display_level name = level_by (not (str_eq name "")) name

-- `os.OpenFile` is the argument, an error if it fails.
pub audit_target : (open_file : String → Option ℕ) → String → Fatal ⊎ AuditTo
audit_target open_file name =
    if str_eq name "-"
    then inr to_stdout
    else if str_eq name ""
    then inr nowhere
    else elim (open_file name) [ none ↦ inr (to_file name) | some e ↦ inl (open_failed e) ]

pub listen_addr : (bind_addr port : String) → String
listen_addr bind_addr port =
    if str_eq port "" then bind_addr else append bind_addr (append ":" port)

interval_by : (parsed : ℕ ⊎ ℤ) → Fatal ⊎ ℤ
interval_by (inl e) = inl (invalid_interval e)
interval_by (inr d) = inr d

-- `time.ParseDuration` is an argument too. The traffic is logged if the interval is positive.
pub settings :
    (open_file : String → Option ℕ) (parse_duration : String → ℕ ⊎ ℤ) → Flags → Fatal ⊎ Settings
unfolding interval_by
settings open_file parse_duration f = elim (display_level f.display_level_name) [
  | inl e ↦ inl e
  | inr level ↦ elim (audit_target open_file f.audit_file_name) [
    | inl e ↦ inl e
    | inr audit_to ↦ elim (interval_by (parse_duration f.traffic_stats_int)) [
      | inl e ↦ inl e
      | inr interval ↦ inr (record {
        shows = record { level = level; body_limit = f.display_body_limit };
        audit_to = audit_to;
        interval = interval;
        addr = listen_addr f.bind_addr f.port;
      })
    ]
  ]
]
