-- ===== src/Config/Sections.antt =====
-- A file that is made of sections.
use Prim.Native.String.{String}
use text.Mathlib.Text.{◌==◌ as str_eq}
use text.Mathlib.TextEquality.{eq_iff}
use victoriametrics_importer.Prelude.{
  ◌≡◌, ◌≢◌, refl, sym, subst, ap, ◌∙◌, false, Bool-cases, inl, inr, Option, none, some, List, [],
  ◌∷◌,
}
use victoriametrics_importer.Config.{
  Section, vmi_config, generators, section_of, Node, scalar, mapping, root, to_cfg_by, decode_to,
  load_nodes, load_config,
}

module _ (Content : Type 0) (Configs : Type 0)
    (decode : Section → Content → Configs → Option Configs) where
  -- The content of a root with these keys, each with a mapping.
  abbrev pub nodes_of : List (String × Content) → List (Node Content)
  nodes_of [] = []
  nodes_of ((k, c) ∷ kcs) = scalar k ∷ mapping c ∷ nodes_of kcs

  -- What loading sections over a configuration gives: those of the two names are decoded one after
  -- the other, each on top of what the ones before it left, up to the first that fails; those of any
  -- other name are passed over.
  pub data Loads : List (String × Content) → Configs → Option Configs → Type 0 where
    no_more : (cfg : Configs) → Loads [] cfg (some cfg)
    vmi_config_fails :
        (c : Content) (kcs : List (String × Content)) (cfg : Configs)
        → decode vmi_config c cfg ≡ none
        → Loads (("vmi_config", c) ∷ kcs) cfg none
    vmi_config_loaded :
        (c : Content) (kcs : List (String × Content)) (cfg cfg' : Configs) (r : Option Configs)
        → decode vmi_config c cfg ≡ some cfg'
        → Loads kcs cfg' r
        → Loads (("vmi_config", c) ∷ kcs) cfg r
    generators_fail :
        (c : Content) (kcs : List (String × Content)) (cfg : Configs)
        → decode generators c cfg ≡ none
        → Loads (("generators", c) ∷ kcs) cfg none
    generators_loaded :
        (c : Content) (kcs : List (String × Content)) (cfg cfg' : Configs) (r : Option Configs)
        → decode generators c cfg ≡ some cfg'
        → Loads kcs cfg' r
        → Loads (("generators", c) ∷ kcs) cfg r
    passed_over :
        (k : String) (c : Content) (kcs : List (String × Content)) (cfg : Configs)
        (r : Option Configs)
        → k ≢ "vmi_config"
        → k ≢ "generators"
        → Loads kcs cfg r
        → Loads ((k, c) ∷ kcs) cfg r

  go_on : List (String × Content) → Option Configs → Option Configs
  go_on kcs none = none
  go_on kcs (some cfg) = load_nodes Content Configs decode (nodes_of kcs) none cfg

  abbrev decoded : Option Section → Content → Configs → Option Configs
  decoded none c cfg = some cfg
  decoded (some s) c cfg = decode s c cfg

  -- A key and its mapping, by the section that the key names.
  load_section :
      (k : String) (c : Content) (kcs : List (String × Content)) (cfg : Configs)
      (o : Option Section)
      → section_of k ≡ o
      → load_nodes Content Configs decode (nodes_of ((k, c) ∷ kcs)) none cfg
        ≡ go_on kcs (decoded o c cfg)
  unfolding load_nodes go_on
  load_section k c kcs cfg o e =
      ap
        (λ z.
          elim (decode_to Content Configs decode (to_cfg_by Content Configs decode z none) c cfg) [
            | none ↦ none
            | some cfg' ↦ load_nodes Content Configs decode (nodes_of kcs) none cfg'
          ])
        e
      ∙ by_section o
    where
      by_result :
          (r : Option Configs)
          → (elim r [
            | none ↦ none
            | some cfg' ↦ load_nodes Content Configs decode (nodes_of kcs) none cfg'
          ])
            ≡ go_on kcs r
      by_result none = unfold go_on in refl
      by_result (some cfg') = unfold go_on in refl

      by_section :
          (o : Option Section)
          → (elim (decode_to Content Configs decode
              (to_cfg_by Content Configs decode o none)
              c
              cfg) [
                | none ↦ none
                | some cfg' ↦ load_nodes Content Configs decode (nodes_of kcs) none cfg'
              ])
            ≡ go_on kcs (decoded o c cfg)
      by_section none = unfold decode_to to_cfg_by go_on in refl
      by_section (some s) = unfold decode_to to_cfg_by in by_result (decode s c cfg)

  section-Loads :
      (s : Section) (name : String) (c : Content) (kcs : List (String × Content)) (cfg : Configs)
      → ((cfg : Configs) → Loads kcs cfg (go_on kcs (some cfg)))
      → (decode s c cfg ≡ none → Loads ((name, c) ∷ kcs) cfg none)
      → ((cfg' : Configs) (r : Option Configs)
          → decode s c cfg ≡ some cfg'
          → Loads kcs cfg' r
          → Loads ((name, c) ∷ kcs) cfg r)
      → Loads ((name, c) ∷ kcs) cfg (go_on kcs (decode s c cfg))
  section-Loads s name c kcs cfg rest fails loaded = by_result (decode s c cfg) refl
    where
      by_result :
          (r : Option Configs) → decode s c cfg ≡ r → Loads ((name, c) ∷ kcs) cfg (go_on kcs r)
      by_result none e = unfold go_on in fails e
      by_result (some cfg') e = loaded cfg' (go_on kcs (some cfg')) e (rest cfg')

  key-Loads :
      (k : String) (c : Content) (kcs : List (String × Content)) (cfg : Configs)
      → ((cfg : Configs) → Loads kcs cfg (go_on kcs (some cfg)))
      → Loads ((k, c) ∷ kcs) cfg (go_on kcs (decoded (section_of k) c cfg))
  unfolding section_of
  key-Loads k c kcs cfg rest = elim (Bool-cases (str_eq k "vmi_config")) [
    | inl e ↦ rw e (
        subst (λ z. Loads ((z, c) ∷ kcs) cfg (go_on kcs (decode vmi_config c cfg)))
          (sym ((eq_iff k "vmi_config").0 e))
          (section-Loads vmi_config "vmi_config" c kcs cfg rest (vmi_config_fails c kcs cfg)
            (vmi_config_loaded c kcs cfg)))
    | inr e ↦ elim (Bool-cases (str_eq k "generators")) [
      | inl h ↦
          rw (e, h)
            (subst (λ z. Loads ((z, c) ∷ kcs) cfg (go_on kcs (decode generators c cfg)))
              (sym ((eq_iff k "generators").0 h))
              (section-Loads generators "generators" c kcs cfg rest (generators_fail c kcs cfg)
                (generators_loaded c kcs cfg)))
      | inr h ↦
          rw (e, h)
            (passed_over k c kcs cfg (go_on kcs (some cfg)) (differs k "vmi_config" e)
              (differs k "generators" h) (rest cfg))
    ]
  ]
    where
      differs : (k name : String) → str_eq k name ≡ false → k ≢ name
      differs k name e h = absurd (cc (e, (eq_iff k name).1 h))

  load_nodes-Loads :
      (kcs : List (String × Content)) (cfg : Configs) → Loads kcs cfg (go_on kcs (some cfg))
  unfolding go_on load_nodes
  load_nodes-Loads [] cfg = no_more cfg
  load_nodes-Loads ((k, c) ∷ kcs) cfg =
      subst (Loads ((k, c) ∷ kcs) cfg) (sym (load_section k c kcs cfg (section_of k) refl))
        (key-Loads k c kcs cfg (load_nodes-Loads kcs))

  -- If every key of a file's root has a mapping, then loading the file decodes the mapping of each
  -- key "vmi_config" as the importer's section and of each key "generators" as the generators'
  -- section, in the order of the file and on top of the defaults, passes over the other keys, and
  -- fails with the first that cannot be decoded, whatever the YAML library decodes.
  pub load_config-Loads :
      (kcs : List (String × Content)) (defaults : Configs)
      → Loads kcs defaults (load_config Content Configs decode (root (nodes_of kcs)) defaults)
  unfolding load_config
  load_config-Loads kcs defaults = unfold go_on in load_nodes-Loads kcs defaults
