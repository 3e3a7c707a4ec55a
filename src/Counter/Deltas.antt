-- ===== src/Counter/Deltas.antt =====
-- What the generator publishes, against what a reader of the metrics expects of two samples.
use victoriametrics_importer.Prelude.{
  ℕ, ◌^◌, ◌<◌, ◌≡◌, refl, sym, ap, subst, ◌∙◌, Bool, true, false, not, ◌&&◌, Option, none, some,
  List, [], ◌∷◌, ◌++◌, ltb, ◌==◌, if◌then◌else◌, arith,
}
use victoriametrics_importer.Counter.{
  Metric, dtime, counter_delta, counter_rate, Generator, unix_milli, gen_base_metrics_start,
  store_val, load_val, delta_metrics, with_prev, activity_by, task_activity, run_task, add32, sub32,
}

-- A generator whose last run was at `ts` and found `val`.
pub record Ran (ts val : ℕ) (g : Generator) : Type 0 where
  pub index : Bool
  pub at : g.current_index ≡ some index
  pub cached : load_val (not index) g ≡ val
  pub last : g.last_ts ≡ ts
  pub stamped : g.ts_suffix ≡ some (unix_milli ts)

pub is_zero_delta : (val curr : ℕ) → Bool
is_zero_delta val curr = sub32 curr val == 0

-- The metrics of a sample after another: the interval, then the delta unless it and the one before
-- are 0 on a cycle that is not full, and the rate with it if time has passed.
pub published : (last_ts ts last_val val : ℕ) → (full was_zero : Bool) → List Metric
published last_ts ts last_val val full was_zero =
    dtime last_ts ts (unix_milli ts)
    ∷ (if is_zero_delta last_val val && not full && was_zero
        then []
        else counter_delta (sub32 val last_val) (unix_milli ts)
          ∷ (if ltb last_ts ts
              then counter_rate (sub32 val last_val) last_ts ts (unix_milli ts) ∷ []
              else []))

published_by :
    (i : Bool) (ts val t0 v0 : ℕ) (g : Generator)
    → load_val (not i) g ≡ v0
    → g.last_ts ≡ t0
    → g.ts_suffix ≡ some (unix_milli t0)
    → (activity_by (some i) ts val g).0 ≡ published t0 ts v0 val (g.cycle_num == 0) g.zero_delta
unfolding activity_by published is_zero_delta store_val load_val gen_base_metrics_start with_prev
    delta_metrics
published_by true ts val t0 v0 g e f k = ground (arith, e, f, k)
published_by false ts val t0 v0 g e f k = ground (arith, e, f, k)

activity_by-Ran :
    (index : Option Bool) (ts val : ℕ) (g : Generator) → Ran ts val (activity_by index ts val g).1
unfolding activity_by store_val load_val gen_base_metrics_start with_prev
activity_by-Ran none ts val g = record {
  index = true;
  at = refl;
  cached = refl;
  last = refl;
  stamped = refl;
}
activity_by-Ran (some true) ts val g = record {
  index = false;
  at = refl;
  cached = refl;
  last = refl;
  stamped = refl;
}
activity_by-Ran (some false) ts val g = record {
  index = true;
  at = refl;
  cached = refl;
  last = refl;
  stamped = refl;
}

-- After a run at one time with one value, a run publishes what the two samples call for, the cycle
-- and the delta before it given, and leaves a generator that has the new time and value.
pub task_activity-published :
    (ts val t0 v0 : ℕ) (g : Generator)
    → Ran t0 v0 g
    → ((task_activity ts val g).0 ≡ published t0 ts v0 val (g.cycle_num == 0) g.zero_delta)
      × Ran ts val (task_activity ts val g).1
unfolding task_activity
task_activity-published ts val t0 v0 g r = (
  subst (λ o. (activity_by o ts val g).0 ≡ published t0 ts v0 val (g.cycle_num == 0) g.zero_delta)
      (sym r.at) (published_by r.index ts val t0 v0 g r.cached r.last r.stamped),
  activity_by-Ran g.current_index ts val g,
)

-- What a reader has who adds up the deltas.
pub add_deltas : List Metric → ℕ → ℕ
add_deltas [] v = v
add_deltas (counter_delta delta stamp ∷ ms) v = add_deltas ms (add32 v delta)
add_deltas (dtime last_ts ts stamp ∷ ms) v = add_deltas ms v
add_deltas (counter_rate delta last_ts ts stamp ∷ ms) v = add_deltas ms v

add_deltas-append :
    (ms ns : List Metric) (v : ℕ) → add_deltas (ms ++ ns) v ≡ add_deltas ns (add_deltas ms v)
unfolding add_deltas
add_deltas-append [] ns v = refl
add_deltas-append (counter_delta delta stamp ∷ ms) ns v = add_deltas-append ms ns (add32 v delta)
add_deltas-append (dtime last_ts ts stamp ∷ ms) ns v = add_deltas-append ms ns v
add_deltas-append (counter_rate delta last_ts ts stamp ∷ ms) ns v = add_deltas-append ms ns v

add_deltas-published :
    (t0 ts v0 val : ℕ) (full was_zero : Bool)
    → v0 < 2 ^ 32
    → val < 2 ^ 32
    → add_deltas (published t0 ts v0 val full was_zero) v0 ≡ val
unfolding add_deltas published is_zero_delta
add_deltas-published t0 ts v0 val full was_zero h k = ground arith

abbrev pub AllVals : List (ℕ × ℕ) → Type 0
AllVals [] = Unit {0}
AllVals (x ∷ xs) = x.1 < 2 ^ 32 × AllVals xs

-- The value of the last sample.
abbrev pub last_val : List (ℕ × ℕ) → ℕ → ℕ
last_val [] v = v
last_val (x ∷ xs) v = last_val xs x.1

-- Runs after a first one, with values of 32 bits, publish deltas that add up, as uint32, from the
-- first value to the last: the deltas left out, and a counter that wraps round, lose nothing.
pub run_task-total :
    (xs : List (ℕ × ℕ)) (t0 v0 : ℕ) (g : Generator)
    → v0 < 2 ^ 32
    → AllVals xs
    → Ran t0 v0 g
    → add_deltas (run_task xs g).0 v0 ≡ last_val xs v0
unfolding run_task
run_task-total [] t0 v0 g h a r = unfold add_deltas in refl
run_task-total (x ∷ xs) t0 v0 g h a r =
    let first = task_activity x.0 x.1 g in
    let p = task_activity-published x.0 x.1 t0 v0 g r in
    add_deltas-append first.0 (run_task xs first.1).0 v0
    ∙ ap (add_deltas (run_task xs first.1).0)
        (ap (λ ms. add_deltas ms v0) p.0 ∙ add_deltas-published t0 x.0 v0 x.1 _ _ h a.0)
    ∙ run_task-total xs x.0 x.1 first.1 a.0 a.1 p.1
