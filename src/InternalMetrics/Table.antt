-- ===== src/InternalMetrics/Table.antt =====
-- Tables of statistics, a row of uint64 counters for each id, and the two copies of one that the
-- internal metrics keep. The order of a table stands for the order in which the code ranges over a
-- map.
pub mod Snapshot
pub mod Cells
pub mod Ids
use Prim.Native.String.{String}
use text.Mathlib.Text.{◌==◌ as str_eq}
use victoriametrics_importer.Prelude.{
  ℕ, zero, suc, ◌+◌, ◌-◌, ◌%◌, ◌^◌, Bool, true, false, not, Option, none, some, List, [], ◌∷◌,
  if◌then◌else◌, replicate, get_or,
}

abbrev pub Row : Type 0
Row = List ℕ

abbrev pub Table : Type 0
Table = List (String × Row)

unfoldable pub lookup : String → Table → Option Row
lookup id [] = none
lookup id ((k, row) ∷ rest) = if str_eq id k then some row else lookup id rest

pub insert : String → Row → Table → Table
insert id row [] = (id, row) ∷ []
insert id row ((k, old) ∷ rest) =
    let rest' = insert id row rest in if str_eq id k then (k, row) ∷ rest else (k, old) ∷ rest'

-- Go's `copy(to, from)`
unfoldable pub copy_row : (to from : Row) → Row
copy_row [] from = []
copy_row (t ∷ ts) [] = t ∷ ts
copy_row (t ∷ ts) (f ∷ fs) = f ∷ copy_row ts fs

abbrev pub row_or_new : (len : ℕ) → Option Row → Row
row_or_new len none = replicate len 0
row_or_new len (some row) = row

-- The loop of a SnapStats: each row is copied over the old one, or over a new one of `len` zeros.
pub snap_table : (len : ℕ) → (from to : Table) → Table
snap_table len [] to = to
snap_table len ((id, row) ∷ rest) to =
    snap_table len rest (insert id (copy_row (row_or_new len (lookup id to)) row) to)

-- A difference of uint64.
abbrev pub sub64 : ℕ → ℕ → ℕ
sub64 a b = (a + (2 ^ 64 - b % 2 ^ 64)) % 2 ^ 64

-- `val := curr[i]; if prev != nil { val -= prev[i] }`
pub delta : ℕ → (curr : Row) → (prev : Option Row) → ℕ
delta i curr none = get_or curr i 0
delta i curr (some prev) = sub64 (get_or curr i 0) (get_or prev i 0)

-- Two copies of a statistic, current and previous, nil at first; true for the index 1.
pub record Dual {ℓ} (S : Type ℓ) : Type ℓ where
  pub stats_0 : Option S
  pub stats_1 : Option S
  pub curr_index : Bool

pub new_dual {ℓ} : {S : Type ℓ} → Dual S
new_dual = record { stats_0 = none; stats_1 = none; curr_index = false }

pub at_index {ℓ} : {S : Type ℓ} → Bool → Dual S → Option S
at_index false d = d.stats_0
at_index true d = d.stats_1

abbrev pub curr_stats {ℓ} : {S : Type ℓ} → Dual S → Option S
curr_stats d = at_index d.curr_index d

abbrev pub prev_stats {ℓ} : {S : Type ℓ} → Dual S → Option S
prev_stats d = at_index (not d.curr_index) d

pub put_at {ℓ} : {S : Type ℓ} → Bool → S → Dual S → Dual S
put_at false s d = record d { stats_0 = some s }
put_at true s d = record d { stats_1 = some s }

-- `stats[currIndex] = s`, and `currIndex = 1 - currIndex`
abbrev pub put_curr {ℓ} : {S : Type ℓ} → S → Dual S → Dual S
put_curr s d = put_at d.curr_index s d

abbrev pub flip {ℓ} : {S : Type ℓ} → Dual S → Dual S
flip d = record d { curr_index = not d.curr_index }
