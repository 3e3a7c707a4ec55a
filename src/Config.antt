-- ===== src/Config.antt =====
-- LoadConfig of vmi/internal/config.go over the nodes that the YAML library gives for a file. How that
-- library decodes a mapping into a configuration is a parameter.
mod Sections
mod Tests
use Prim.Native.String.{String}
use text.Mathlib.Text.{◌==◌ as str_eq}
use victoriametrics_importer.Prelude.{
  Bool, true, false, Option, none, some, List, [], ◌∷◌, if◌then◌else◌,
}

-- The two sections of a file.
pub data Section : Type 0 where
  vmi_config generators : Section

-- The section that a scalar names.
pub section_of : (value : String) → Option Section
section_of value =
    if str_eq value "vmi_config"
    then some vmi_config
    else if str_eq value "generators"
    then some generators
    else none

module _ (Content : Type 0) where
  -- A node of the root's content: keys and values in their order.
  pub data Node : Type 0 where
    scalar : (value : String) → Node
    mapping : Content → Node
    other : Node

  -- The document, if the file has one that is not empty.
  pub data Document : Type 0 where
    no_content : Document
    bad_root : Document
    root : List Node → Document

  module _ (Configs : Type 0) (decode : Section → Content → Configs → Option Configs) where
    -- `case VMI_CONFIG_SECTION_NAME:`, `case GENERATORS_SECTION_NAME:`
    pub to_cfg_by : Option Section → (to_cfg : Option Section) → Option Section
    to_cfg_by none to_cfg = to_cfg
    to_cfg_by (some s) to_cfg = some s

    pub decode_to : Option Section → Content → Configs → Option Configs
    decode_to none content cfg = some cfg
    decode_to (some s) content cfg = decode s content cfg

    -- The loop, none for an error.
    pub load_nodes : List Node → (to_cfg : Option Section) → Configs → Option Configs
    load_nodes [] to_cfg cfg = some cfg
    load_nodes (scalar value ∷ ns) to_cfg cfg =
        load_nodes ns (to_cfg_by (section_of value) to_cfg) cfg
    load_nodes (other ∷ ns) to_cfg cfg = load_nodes ns none cfg
    load_nodes (mapping content ∷ ns) to_cfg cfg = elim (decode_to to_cfg content cfg) [
      | none ↦ none
      | some cfg' ↦ load_nodes ns none cfg'
    ]

    pub load_config : Document → (defaults : Configs) → Option Configs
    load_config no_content cfg = some cfg
    load_config bad_root cfg = none
    load_config (root ns) cfg = load_nodes ns none cfg
