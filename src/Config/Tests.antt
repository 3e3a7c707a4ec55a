-- ===== src/Config/Tests.antt =====
-- A file with three sections, whose contents are numbers that are stored.
use Prim.Native.String.{String}
use victoriametrics_importer.Prelude.{ℕ, Option, some, List, [], ◌∷◌}
use victoriametrics_importer.Config.{Section, vmi_config, generators, root, load_config}
use victoriametrics_importer.Config.Sections.{nodes_of, Loads, load_config-Loads}

abbrev store : Section → ℕ → ℕ × ℕ → Option (ℕ × ℕ)
store vmi_config n c = some (n, c.1)
store generators n c = some (c.0, n)

abbrev sections : List (String × ℕ)
sections = ("vmi_config", 7) ∷ ("notes", 8) ∷ ("generators", 9) ∷ []

load_config-Loads_example :
    Loads ℕ
      (ℕ × ℕ)
      store
      sections
      (1, 2)
      (load_config ℕ (ℕ × ℕ) store (root (nodes_of ℕ (ℕ × ℕ) store sections)) (1, 2))
load_config-Loads_example = load_config-Loads ℕ (ℕ × ℕ) store sections (1, 2)
