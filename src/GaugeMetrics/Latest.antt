-- ===== src/GaugeMetrics/Latest.antt =====
-- What a reader of the published lines knows of the gauge.
use victoriametrics_importer.Prelude.{
  ℕ, ◌≤◌, ◌≡◌, refl, sym, ap, ◌∙◌, Bool, true, false, not, ◌||◌, Option, none, some, List, [], ◌∷◌,
  ◌++◌, ltb, ◌==◌, length, length-replicate, replicate, drop, arith, Bool-cases, inl, inr,
}
use victoriametrics_importer.Prelude.Bytes.{bytes_eq, bytes_eq→eq}
use victoriametrics_importer.Prelude.Int.{ℤ}
use victoriametrics_importer.Counter.{unix_milli, index_or_0}
use victoriametrics_importer.InternalMetrics.Table.Snapshot.{copy_row_all, copy_row-drop}
use victoriametrics_importer.GaugeMetrics.{
  Bytes, Line, Generator, new_gauge_metrics, cache_val, store_val, load_val, has_prev, gauge_line,
  task_activity, run_task,
}

-- The value of the last line, if there is one, else that known before.
abbrev pub latest : List Line → Option Bytes → Option Bytes
latest [] o = o
latest (l ∷ ls) o = latest ls (some l.value)

abbrev pub last_val : List (ℕ × Bytes) → Option Bytes → Option Bytes
last_val [] o = o
last_val (x ∷ xs) o = last_val xs (some x.1)

abbrev pub AllOfLength : ℕ → List (ℕ × Bytes) → Type 0
AllOfLength n [] = Unit
AllOfLength n (x ∷ xs) = (length x.1 ≡ n) × AllOfLength n xs

not-false : (b : Bool) → not b ≡ false → b ≡ true
not-false true h = refl
not-false false h = cc

latest-append :
    (xs ys : List Line) (o : Option Bytes) → latest (xs ++ ys) o ≡ latest ys (latest xs o)
latest-append [] ys o = refl
latest-append (x ∷ xs) ys o = latest-append xs ys (some x.value)

pub cache_val-fits :
    (slot curr_val : Bytes) → length slot ≤ length curr_val → cache_val slot curr_val ≡ curr_val
unfolding cache_val
cache_val-fits slot v h = elim (Bool-cases (ltb (length slot) (length v))) [
  | inl t ↦ rw t (copy_row_all (replicate (length v) 0) v (length-replicate (length v) 0))
  | inr f ↦ rw f (copy_row_all slot v (ground arith))
]

-- A longer slot keeps its last bytes.
pub cache_val-longer :
    (slot curr_val : Bytes)
    → length curr_val ≤ length slot
    → cache_val slot curr_val ≡ curr_val ++ drop (length curr_val) slot
unfolding cache_val
cache_val-longer slot v h = elim (Bool-cases (ltb (length slot) (length v))) [
  | inl t ↦ absurd (ground arith)
  | inr f ↦ rw f (copy_row-drop slot v h)
]

pub load_val-store_val :
    (i : Bool) (v : Bytes) (g : Generator)
    → load_val i (store_val i v g) ≡ cache_val (load_val i g) v
unfolding load_val store_val
load_val-store_val false v g = refl
load_val-store_val true v g = refl

pub load_val-store_other :
    (i : Bool) (v : Bytes) (g : Generator) → load_val (not i) (store_val i v g) ≡ load_val (not i) g
unfolding load_val store_val
load_val-store_other false v g = refl
load_val-store_other true v g = refl

latest-gauge_line :
    (b : Bool) (v : Bytes) (s : ℕ) (o : Option Bytes)
    → (b ≡ false → o ≡ some v)
    → latest (gauge_line b v s) o ≡ some v
unfolding gauge_line
latest-gauge_line true v s o h = refl
latest-gauge_line false v s o h = h refl

-- Neither slot is longer than the values, and the one before holds what a reader knows.
Inv : ℕ → Option Bool → Generator → Option Bytes → Type 0
Inv n none g o = (i : Bool) → length (load_val i g) ≤ n
Inv n (some i) g o = ((j : Bool) → length (load_val j g) ≤ n) × (o ≡ some (load_val (not i) g))

-- A value that is not published is the one before.
unpublished :
    (index : Option Bool) (n : ℕ) (z : Bool) (v : Bytes) (g : Generator) (o : Option Bytes)
    → Inv n index g o
    → (not (has_prev index) || z || not (bytes_eq v (load_val (not (index_or_0 index)) g))) ≡ false
    → o ≡ some v
unfolding Inv
unpublished none n z v g o i h = cc
unpublished (some c) n true v g o i h = cc
unpublished (some c) n false v g o (w, k) h =
    k ∙ ap some (sym (bytes_eq→eq v (load_val (not c) g) (not-false _ h)))

pub load_val-eq :
    (i : Bool) (g h : Generator)
    → g.val_0 ≡ h.val_0
    → g.val_1 ≡ h.val_1
    → load_val i g ≡ load_val i h
unfolding load_val
load_val-eq false g h a b = a
load_val-eq true g h a b = b

both_indices : (P : Bool → Type 0) (i : Bool) → P i → P (not i) → (j : Bool) → P j
both_indices P false a b false = a
both_indices P false a b true = b
both_indices P true a b false = b
both_indices P true a b true = a

pub not-not : (b : Bool) → not (not b) ≡ b
not-not true = refl
not-not false = refl

Inv-length :
    (n : ℕ) (index : Option Bool) (g : Generator) (o : Option Bytes)
    → Inv n index g o
    → (i : Bool) → length (load_val i g) ≤ n
unfolding Inv
Inv-length n none g o i = i
Inv-length n (some c) g o i = i.0

-- One run.
activity-Inv :
    (n ts : ℕ) (v : Bytes) (g : Generator) (o : Option Bytes)
    → length v ≡ n
    → Inv n g.current_index g o
    → (latest (task_activity ts v g).0.lines o ≡ some v)
      × Inv n (task_activity ts v g).1.current_index (task_activity ts v g).1 (some v)
unfolding task_activity Inv
activity-Inv n ts v g o e i =
    let c = index_or_0 g.current_index in
    let g1 = store_val c v g in
    let w = Inv-length n g.current_index g o i in
    let now : load_val c g1 ≡ v =
      load_val-store_val c v g ∙ cache_val-fits (load_val c g) v (omega (arith, e, w c)) in
    let other : load_val (not c) g1 ≡ load_val (not c) g = load_val-store_other c v g in
    let g2 = record g1 { ts_suffix = some (unix_milli ts); last_ts = ts } in
    let g3 = (task_activity ts v g).1 in
    let prev : load_val (not c) g2 ≡ load_val (not c) g =
      load_val-eq (not c) g2 g1 refl refl ∙ other in
    let now3 : load_val c g3 ≡ v = load_val-eq c g3 g1 refl refl ∙ now in
    let other3 : load_val (not c) g3 ≡ load_val (not c) g =
      load_val-eq (not c) g3 g1 refl refl ∙ other in
    (
      latest-gauge_line _ v (unix_milli ts) o (λ h.
          unpublished g.current_index n (g2.cycle_num == 0) v g o i (
            ap (λ p. not (has_prev g.current_index) || (g2.cycle_num == 0) || not (bytes_eq v p))
              (sym prev)
            ∙ h)),
      (
        both_indices (λ j. length (load_val j g3) ≤ n) c (omega (arith, ap length now3, e))
            (omega (arith, ap length other3, w (not c))),
        ap some (sym (ap (λ j. load_val j g3) (not-not c) ∙ now3)),
      ),
    )

run_task-Inv :
    (n : ℕ) (xs : List (ℕ × Bytes)) (g : Generator) (o : Option Bytes)
    → AllOfLength n xs
    → Inv n g.current_index g o
    → latest (run_task xs g).0 o ≡ last_val xs o
unfolding run_task
run_task-Inv n [] g o l i = refl
run_task-Inv n (x ∷ xs) g o (l, ls) i =
    let step = activity-Inv n x.0 x.1 g o l i in
    let first = task_activity x.0 x.1 g in
    latest-append first.0.lines (run_task xs first.1).0 o
    ∙ ap (latest (run_task xs first.1).0) step.0
    ∙ run_task-Inv n xs first.1 (some x.1) ls step.1

load_val-new :
    (n : ℕ) (factor : ℤ) (cycle_num : ℕ) (i : Bool)
    → length (load_val i (new_gauge_metrics factor cycle_num)) ≤ n
unfolding new_gauge_metrics load_val
load_val-new n factor cycle_num false = omega arith
load_val-new n factor cycle_num true = omega arith

-- If all values that are read have the same length, then after any number of runs of a new generator,
-- with any cycle and full metrics factor, the last value published is the last that was read.
pub run_task-latest_val :
    (factor : ℤ) (cycle_num n : ℕ) (xs : List (ℕ × Bytes))
    → AllOfLength n xs
    → latest (run_task xs (new_gauge_metrics factor cycle_num)).0 none ≡ last_val xs none
unfolding new_gauge_metrics Inv
run_task-latest_val factor cycle_num n xs l =
    run_task-Inv n xs (new_gauge_metrics factor cycle_num) none l (load_val-new n factor cycle_num)
