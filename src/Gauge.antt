-- ===== src/Gauge.antt =====
-- reference/parser/random_gauge.go and reference/parser/random_categorical.go: a number in a range,
-- and one of a list of choices, each repeated for some calls. What the generator of random numbers
-- gives is an argument of each call; Int31n panics, here none, for a bound that is not positive.
mod Choice
mod Tests
use victoriametrics_importer.Prelude.{
  ℕ, zero, suc, ◌+◌, ◌-◌, ◌%◌, ◌^◌, ◌<◌, Bool, true, false, Option, none, some, List, [], ◌∷◌, ltb,
  leb, ◌==◌, if◌then◌else◌, length, get_elem?,
}
use victoriametrics_importer.Prelude.Int.{ℤ, pos, negsuc, pos_part, neg_part, sub_ℕ}

-- An integer as an int32.
abbrev pub wrap_32 : ℤ → ℤ
wrap_32 z =
    let u = (pos_part z + (2 ^ 32 - neg_part z % 2 ^ 32)) % 2 ^ 32 in
    if ltb u (2 ^ 31) then pos u else negsuc (2 ^ 32 - u - 1)

abbrev pub add_32 : ℤ → ℤ → ℤ
add_32 a b = wrap_32 (sub_ℕ (pos_part a + pos_part b) (neg_part a + neg_part b))

abbrev pub sub_32 : ℤ → ℤ → ℤ
sub_32 a b = wrap_32 (sub_ℕ (pos_part a + neg_part b) (neg_part a + pos_part b))

-- The seed only chooses the generator of random numbers.
pub record GaugeConfig : Type 0 where
  pub min : ℤ
  pub max : ℤ
  pub max_repeat : ℤ

-- `val_bytes` is the number whose digits are in ValBytes.
pub record Gauge : Type 0 where
  pub val_int : ℤ
  pub val_bytes : Option ℤ
  pub count_left : ℕ

-- The updater of the value that NewRandomGaugeParser chooses: Int31n with its bound, Int31, or none.
pub data ValUpdater : Type 0 where
  int31n : (bound : ℤ) → ValUpdater
  int31 : ValUpdater
  no_updater : ValUpdater

pub val_updater_by : (span : ℤ) → ValUpdater
val_updater_by (pos zero) = no_updater
val_updater_by (pos (suc n)) = int31n (add_32 (pos (suc n)) (pos 1))
val_updater_by (negsuc n) = int31

pub val_updater : GaugeConfig → ValUpdater
val_updater cfg = val_updater_by (sub_32 cfg.max cfg.min)

pub new_gauge_by : ValUpdater → GaugeConfig → Gauge
new_gauge_by no_updater cfg = record { val_int = cfg.min; val_bytes = some cfg.min; count_left = 0 }
new_gauge_by int31 cfg = record { val_int = pos 0; val_bytes = none; count_left = 0 }
new_gauge_by (int31n bound) cfg = record { val_int = pos 0; val_bytes = none; count_left = 0 }

pub new_random_gauge_parser : GaugeConfig → Gauge
new_random_gauge_parser cfg = new_gauge_by (val_updater cfg) cfg

-- A new value, and its digits where they are asked for, and the number of its repetitions.
pub renew : (full : Bool) → GaugeConfig → (val : ℤ) → (repeats : ℕ) → Gauge → Gauge
renew full cfg val repeats g = record {
  val_int = val;
  val_bytes = if full then some val else g.val_bytes;
  count_left = if ltb 1 (pos_part cfg.max_repeat) then repeats else g.count_left;
}

pub update_by :
    ValUpdater → (full : Bool) → GaugeConfig → (drawn repeats : ℕ) → Gauge → Option Gauge
update_by no_updater full cfg drawn repeats g = some g
update_by int31 full cfg drawn repeats g =
    if ltb 0 g.count_left
    then some (record g { count_left = g.count_left - 1 })
    else some (renew full cfg (pos drawn) repeats g)
update_by (int31n bound) full cfg drawn repeats g =
    if ltb 0 g.count_left
    then some (record g { count_left = g.count_left - 1 })
    else if ltb 0 (pos_part bound)
    then some (renew full cfg (add_32 (pos drawn) cfg.min) repeats g)
    else none

pub update_gauge : (full : Bool) → GaugeConfig → (drawn repeats : ℕ) → Gauge → Option Gauge
update_gauge full cfg drawn repeats g = update_by (val_updater cfg) full cfg drawn repeats g

abbrev pub Bytes : Type 0
Bytes = List ℕ

pub record Categorical : Type 0 where
  pub val : Option Bytes
  pub choices : List Bytes
  pub selector : Option Gauge

abbrev pub selector_config : (choices : List Bytes) → (max_repeat : ℤ) → GaugeConfig
selector_config choices max_repeat = record {
  min = pos 0;
  max = pos (length choices - 1);
  max_repeat = max_repeat;
}

pub new_random_categorical_parser : (choices : List Bytes) → (max_repeat : ℤ) → Categorical
new_random_categorical_parser choices max_repeat = record {
  val = none;
  choices = choices;
  selector =
      if ltb 0 (length choices)
      then some (new_random_gauge_parser (selector_config choices max_repeat))
      else none;
}

-- `parser.choices[i]`, none for the panic out of range
pub choose : ℤ → List Bytes → Option Bytes
choose (pos i) choices = get_elem? choices i
choose (negsuc i) choices = none

pub pick_choice : Option Gauge → Categorical → Option Categorical
pick_choice none c = none
pick_choice (some g) c = elim (choose g.val_int c.choices) [
  | none ↦ none
  | some v ↦ some (record c { val = some v; selector = some g })
]

pub parse_by :
    Option Gauge → (max_repeat : ℤ) → (drawn repeats : ℕ) → Categorical → Option Categorical
parse_by none max_repeat drawn repeats c = some c
parse_by (some g) max_repeat drawn repeats c =
    pick_choice (update_gauge false (selector_config c.choices max_repeat) drawn repeats g) c

-- Parse of RandomCategoricalParser; none for a panic.
pub parse_categorical : (max_repeat : ℤ) → (drawn repeats : ℕ) → Categorical → Option Categorical
parse_categorical max_repeat drawn repeats c = parse_by c.selector max_repeat drawn repeats c
