-- ===== src/CategoricalMetrics/Latest.antt =====
-- What a reader of the published lines knows of the categories.
use victoriametrics_importer.Prelude.{
  ℕ, ◌<◌, ◌≡◌, refl, sym, ap, subst, ◌∙◌, Bool, true, false, not, ◌||◌, Option, none, some, List,
  [], ◌∷◌, ◌++◌, ◌==◌, if◌then◌else◌, length, arith, Bool-cases, inl, inr,
}
use victoriametrics_importer.Prelude.Bytes.{bytes_eq, bytes_eq→eq}
use victoriametrics_importer.Prelude.Int.{ℤ}
use victoriametrics_importer.Counter.{unix_milli}
use victoriametrics_importer.CategoricalMetrics.{
  Bytes, Line, Generator, new_categorical_metrics, inactive, change_category, active, task_activity,
  run_task,
}

abbrev shown : Bytes → Option Bytes → (value : Bool) → Option Bool → Option Bool
shown c none value o = o
shown c (some k) value o = if bytes_eq c k then some value else o

-- The last value of a category in the lines, if there is one, else that before them.
abbrev pub latest : Bytes → List Line → Option Bool → Option Bool
latest c [] o = o
latest c (l ∷ ls) o = latest c ls (shown c l.caption l.value o)

latest-append :
    (c : Bytes) (xs ys : List Line) (o : Option Bool)
    → latest c (xs ++ ys) o ≡ latest c ys (latest c xs o)
latest-append c [] ys o = refl
latest-append c (x ∷ xs) ys o = latest-append c xs ys (shown c x.caption x.value o)

abbrev demote : Option Bool → Option Bool
demote none = none
demote (some b) = some false

-- A category is at 1 when it is the one that was read, and at 0 from the next change on.
abbrev pub entered : Bytes → (curr_val : Bytes) → Option Bool → Option Bool
entered c v o = if bytes_eq c v then some true else demote o

abbrev pub expected : Bytes → List (ℕ × Bytes) → Option Bool → Option Bool
expected c [] o = o
expected c (x ∷ xs) o = expected c xs (entered c x.1 o)

abbrev pub AllNonempty : List (ℕ × Bytes) → Type 0
AllNonempty [] = Unit
AllNonempty (x ∷ xs) = (0 < length x.1) × AllNonempty xs

-- The caption and the category before, against what a reader knows of a category.
Inv : Bytes → Option Bytes → Bytes → Option Bool → Type 0
Inv c none l o = (l ≡ []) × (o ≡ none)
Inv c (some k) l o =
    (k ≡ l) × ((bytes_eq c l ≡ true → o ≡ some true) × (bytes_eq c l ≡ false → demote o ≡ o))

demote_twice : (o : Option Bool) → demote (demote o) ≡ demote o
demote_twice none = refl
demote_twice (some b) = refl

entered-Inv : (c v : Bytes) (o : Option Bool) → Inv c (some v) v (entered c v o)
unfolding Inv
entered-Inv c v o = (refl, (λ h. rw h refl, λ h. rw h (demote_twice o)))

or_true : (b : Bool) → (b || true) ≡ true
or_true true = refl
or_true false = refl

latest-active :
    (b : Bool) (c l : Bytes) (s : ℕ) (o : Option Bool)
    → Inv c (some l) l o
    → latest c (active b (some l) s) o ≡ entered c l o
unfolding active Inv
latest-active true c l s o (e, (h, k)) = elim (Bool-cases (bytes_eq c l)) [
  | inl t ↦ rw t refl
  | inr f ↦ rw f (sym (k f))
]
latest-active false c l s o (e, (h, k)) = elim (Bool-cases (bytes_eq c l)) [
  | inl t ↦ rw t (h t)
  | inr f ↦ rw f (sym (k f))
]

before_lem :
    (b : Bool) (o : Option Bool)
    → (b ≡ true → o ≡ some true)
    → (b ≡ false → demote o ≡ o)
    → (if b then some false else o) ≡ demote o
before_lem true o h d = sym (ap demote (h refl))
before_lem false o h d = sym (d refl)

-- The lines of a change: the category before at 0, then the new one at 1.
latest-changed :
    (m : Option Bytes) (c v l : Bytes) (s : ℕ) (o : Option Bool)
    → Inv c m l o
    → latest c (inactive m s ++ active true (some v) s) o ≡ entered c v o
unfolding inactive active Inv
latest-changed none c v l s o (e, n) = rw n refl
latest-changed (some k) c v l s o (e, (h, d)) = elim (Bool-cases (bytes_eq c v)) [
  | inl t ↦ rw t refl
  | inr f ↦ rw f (
      before_lem (bytes_eq c k) o (λ t. h (sym (ap (bytes_eq c) e) ∙ t))
        (λ t. d (sym (ap (bytes_eq c) e) ∙ t)))
]

-- The line of an unchanged category.
latest-same :
    (b : Bool) (m : Option Bytes) (c v l : Bytes) (s : ℕ) (o : Option Bool)
    → v ≡ l
    → 0 < length v
    → Inv c m l o
    → (latest c (active b m s) o ≡ entered c v o) × Inv c m l (entered c v o)
unfolding Inv
latest-same b none c v l s o e n (g, h) = absurd (omega (arith, n, ap length (e ∙ g)))
latest-same b (some k) c v l s o e n i = (
  ap (λ x. latest c (active b (some x) s) o) i.0
      ∙ latest-active b c l s o (refl, i.1)
      ∙ ap (λ x. entered c x o) (sym e),
  (
    i.0,
    subst
        (λ x.
          (bytes_eq c x ≡ true → entered c v o ≡ some true)
          × (bytes_eq c x ≡ false → demote (entered c v o) ≡ entered c v o))
        e (entered-Inv c v o).1,
  ),
)

not-false : (b : Bool) → not b ≡ false → b ≡ true
not-false true h = refl
not-false false h = cc

or_false : (b : Bool) → (b || false) ≡ b
or_false true = refl
or_false false = refl

-- One run.
change-Inv :
    (changed : Bool) (c v : Bytes) (s : ℕ) (o : Option Bool) (g : Generator)
    → not (bytes_eq v g.val) ≡ changed
    → 0 < length v
    → Inv c g.categorical_metric g.val o
    → let before = change_category changed v s g in
      (latest c
          (before.0 ++ active (before.1.cycle_num == 0 || changed) before.1.categorical_metric s)
          o
        ≡ entered c v o)
      × Inv c before.1.categorical_metric before.1.val (entered c v o)
unfolding change_category
change-Inv true c v s o g e n i =
    let lines : latest c
          (inactive g.categorical_metric s ++ active (g.cycle_num == 0 || true) (some v) s) o
        ≡ entered c v o =
      ap (λ b. latest c (inactive g.categorical_metric s ++ active b (some v) s) o)
        (or_true (g.cycle_num == 0))
      ∙ latest-changed g.categorical_metric c v g.val s o i in
    (lines, entered-Inv c v o)
change-Inv false c v s o g e n i =
    latest-same (g.cycle_num == 0 || false) g.categorical_metric c v g.val s o
      (bytes_eq→eq v g.val (not-false _ e)) n i

run_task-Inv :
    (c : Bytes) (xs : List (ℕ × Bytes)) (g : Generator) (o : Option Bool)
    → AllNonempty xs
    → Inv c g.categorical_metric g.val o
    → latest c (run_task xs g).0 o ≡ expected c xs o
unfolding run_task task_activity
run_task-Inv c [] g o n i = refl
run_task-Inv c (x ∷ xs) g o (n, ns) i =
    let g1 = record g { ts_suffix = some (unix_milli x.0); last_ts = x.0 } in
    let step = change-Inv _ c x.1 (unix_milli x.0) o g1 refl n i in
    let first = task_activity x.0 x.1 g in
    latest-append c first.0.lines (run_task xs first.1).0 o
    ∙ ap (latest c (run_task xs first.1).0) step.0
    ∙ run_task-Inv c xs first.1 (entered c x.1 o) ns step.1

-- If every category that is read is nonempty, then after any number of runs of a new generator, with
-- any cycle and full metrics factor, the last value published of a category is 1 if it is the last
-- that was read, 0 if it was read before but is not the last, and there is none if it was never read.
pub run_task-latest :
    (factor : ℤ) (cycle_num : ℕ) (c : Bytes) (xs : List (ℕ × Bytes))
    → AllNonempty xs
    → latest c (run_task xs (new_categorical_metrics factor cycle_num)).0 none ≡ expected c xs none
unfolding new_categorical_metrics Inv
run_task-latest factor cycle_num c xs n =
    run_task-Inv c xs (new_categorical_metrics factor cycle_num) none n (refl, refl)
