-- ===== src/InternalMetrics/Sources/Sums.antt =====
-- What is published of a task's counter over many runs.
use Prim.Native.String.{String}
use victoriametrics_importer.Prelude.{
  ℕ, ◌+◌, ◌%◌, ◌^◌, ◌<◌, ◌≡◌, refl, sym, ap, subst, ◌∙◌, Bool, not, Option, none, some, List, [],
  ◌∷◌, get_or, arith,
}
use victoriametrics_importer.InternalMetrics.Table.{
  Row, Table, lookup, snap_table, delta, Dual, new_dual, at_index, put_at, curr_stats, prev_stats,
  flip,
}
use victoriametrics_importer.InternalMetrics.Table.Cells.{
  curr-put_at, prev-put_at, index-put_at, prev-flip, curr-flip, at-new_dual,
}
use victoriametrics_importer.InternalMetrics.Table.Snapshot.{
  IsTable, IsWide, or_else, lookup-snap_table, lookup-empty, IsWide-empty, snap_table-IsWide,
  value_of, value_of-delta,
}
use victoriametrics_importer.InternalMetrics.Sources.{
  task_stats_len, table_or_empty, lookup_prev, snap_scheduler, scheduler_rounds,
}
use victoriametrics_importer.InternalMetrics.Table.Ids.{IsIds, IsIds-snap_table}
use victoriametrics_importer.InternalMetrics.Sources.Rounds.{rounds_sum, rounds_sum-delta}

-- Over runs with these readings, each a snapshot, the metrics of generateMetrics and a flip: the sum
-- of what the metrics with the caption of the task's counter publish.
abbrev pub published_sum : (Float : Type 0) → (i : ℕ) → String → List Table → Dual Table → ℕ
published_sum Float i id [] d = 0
published_sum Float i id (t ∷ ts) d =
    let snapped = snap_scheduler t d in
    rounds_sum Float i id
      (scheduler_rounds Float (table_or_empty (curr_stats snapped)) (prev_stats snapped))
    + published_sum Float i id ts (flip snapped)

-- The counter in the last reading.
pub last_value : (i : ℕ) → String → List Table → ℕ → ℕ
last_value i id [] v = v
last_value i id (t ∷ ts) v = last_value i id ts (value_of i (lookup id t))

-- Each reading has distinct tasks with whole rows, and one for this task, whose counter is a uint64.
unfoldable pub IsReported : (i : ℕ) → String → List Table → Type 0
IsReported i id [] = Unit
IsReported i id (t ∷ ts) =
    IsTable task_stats_len t
    × (((row : Row) × ((lookup id t ≡ some row) × (get_or row i 0 < 2 ^ 64))) × IsReported i id ts)

-- The cells' tables have whole rows and distinct ids.
IsDual : Dual Table → Type 0
IsDual d =
    IsWide task_stats_len (table_or_empty (curr_stats d))
    × IsWide task_stats_len (table_or_empty (prev_stats d))
    × IsIds (table_or_empty (curr_stats d))
    × IsIds (table_or_empty (prev_stats d))

curr-snap_scheduler :
    (t : Table) (d : Dual Table)
    → curr_stats (snap_scheduler t d)
      ≡ some (snap_table task_stats_len t (table_or_empty (curr_stats d)))
unfolding snap_scheduler
curr-snap_scheduler t d =
    let s = snap_table task_stats_len t (table_or_empty (curr_stats d)) in
    ap (λ b. at_index b (put_at d.curr_index s d)) (index-put_at d.curr_index s d)
    ∙ curr-put_at d.curr_index s d

prev-snap_scheduler : (t : Table) (d : Dual Table) → prev_stats (snap_scheduler t d) ≡ prev_stats d
unfolding snap_scheduler
prev-snap_scheduler t d =
    let s = snap_table task_stats_len t (table_or_empty (curr_stats d)) in
    ap (λ b. at_index (not b) (put_at d.curr_index s d)) (index-put_at d.curr_index s d)
    ∙ prev-put_at d.curr_index s d

-- A run's arithmetic.
sum_step :
    (v p s r l : ℕ) → (v + p) % 2 ^ 64 ≡ r → (r + s) % 2 ^ 64 ≡ l → (v + (p + s)) % 2 ^ 64 ≡ l
sum_step v p s r l h g = omega (arith, h, g)

-- What a snapshot has of a task that is reported.
row-snap_scheduler :
    (id : String) (t : Table) (d : Dual Table) (row : Row)
    → IsTable task_stats_len t
    → IsDual d
    → lookup id t ≡ some row
    → lookup id (table_or_empty (curr_stats (snap_scheduler t d))) ≡ some row
unfolding IsDual
row-snap_scheduler id t d row f w e =
    ap (λ o. lookup id (table_or_empty o)) (curr-snap_scheduler t d)
    ∙ lookup-snap_table task_stats_len id t (table_or_empty (curr_stats d)) f w.0
    ∙ ap (λ o. or_else o (lookup id (table_or_empty (curr_stats d)))) e

IsDual-snap_scheduler :
    (t : Table) (d : Dual Table)
    → IsTable task_stats_len t
    → IsDual d
    → IsDual (flip (snap_scheduler t d))
unfolding IsDual
IsDual-snap_scheduler t d f w =
    let snapped = snap_scheduler t d in
    (
      subst (λ o. IsWide task_stats_len (table_or_empty o))
          (sym (curr-flip snapped ∙ prev-snap_scheduler t d)) w.1,
      subst (λ o. IsWide task_stats_len (table_or_empty o))
          (sym (prev-flip snapped ∙ curr-snap_scheduler t d))
          (snap_table-IsWide task_stats_len t (table_or_empty (curr_stats d)) f w.0),
      subst (λ o. IsIds (table_or_empty o)) (sym (curr-flip snapped ∙ prev-snap_scheduler t d)) w.3,
      subst (λ o. IsIds (table_or_empty o)) (sym (prev-flip snapped ∙ curr-snap_scheduler t d))
          (IsIds-snap_table task_stats_len t (table_or_empty (curr_stats d)) w.2),
    )

lookup_prev-table_or_empty :
    (id : String) (o : Option Table) → lookup_prev id o ≡ lookup id (table_or_empty o)
lookup_prev-table_or_empty id none = sym (lookup-empty id)
lookup_prev-table_or_empty id (some t) = refl

IsIds-snap_scheduler :
    (t : Table) (d : Dual Table)
    → IsDual d
    → IsIds (table_or_empty (curr_stats (snap_scheduler t d)))
unfolding IsDual
IsIds-snap_scheduler t d w =
    subst (λ o. IsIds (table_or_empty o)) (sym (curr-snap_scheduler t d))
      (IsIds-snap_table task_stats_len t (table_or_empty (curr_stats d)) w.2)

-- The counter's value before the first run and the deltas of all runs give its last value.
sum_from :
    (Float : Type 0) (i : ℕ) (id : String) (ts : List Table) (d : Dual Table)
    → i < 5
    → IsReported i id ts
    → IsDual d
    → value_of i (lookup_prev id (prev_stats d)) < 2 ^ 64
    → (value_of i (lookup_prev id (prev_stats d)) + published_sum Float i id ts d) % 2 ^ 64
      ≡ last_value i id ts (value_of i (lookup_prev id (prev_stats d)))
unfolding IsReported last_value
sum_from Float i id [] d h r w l = omega (arith, l)
sum_from Float i id (t ∷ ts) d h (f, ((row, (e, b)), rest)) w l =
    let snapped = snap_scheduler t d in
    let o = lookup_prev id (prev_stats d) in
    let now = row-snap_scheduler id t d row f w e in
    let later : lookup_prev id (prev_stats (flip snapped)) ≡ some row =
      lookup_prev-table_or_empty id (prev_stats (flip snapped))
      ∙ ap (λ c. lookup id (table_or_empty c)) (prev-flip snapped)
      ∙ now in
    let ih =
      sum_from Float i id ts (flip snapped) h rest (IsDual-snap_scheduler t d f w)
        (subst (λ q. value_of i q < 2 ^ 64) (sym later) b) in
    let ih =
      subst
        (λ q.
          (value_of i q + published_sum Float i id ts (flip snapped)) % 2 ^ 64
          ≡ last_value i id ts (value_of i q))
        later ih in
    let p =
      rounds_sum-delta Float i id (table_or_empty (curr_stats snapped)) (prev_stats snapped) row h
        (IsIds-snap_scheduler t d w) now
      ∙ ap (λ q. delta i row (lookup_prev id q)) (prev-snap_scheduler t d) in
    ap (λ n. (value_of i o + (n + published_sum Float i id ts (flip snapped))) % 2 ^ 64) p
    ∙ sum_step (value_of i o) (delta i row o) (published_sum Float i id ts (flip snapped))
        (get_or row i 0) _ (value_of-delta i row o b l) ih
    ∙ ap (λ q. last_value i id ts (value_of i q)) (sym e)

-- Over runs whose readings all report a task, with distinct ids, whole rows and the counter below
-- 2 ^ 64: for each of the five counters of a task that are published, the numbers of all metrics with
-- its caption in what the runs' generateMetrics write add up, modulo 2 ^ 64, to the counter in the last
-- reading, so that nothing is lost or published twice between runs.
pub published_sum-last_value :
    (Float : Type 0) (i : ℕ) (id : String) (ts : List Table)
    → i < 5
    → IsReported i id ts
    → published_sum Float i id ts new_dual % 2 ^ 64 ≡ last_value i id ts 0
unfolding IsDual
published_sum-last_value Float i id ts h r =
    let wide : (b : Bool)
        → IsWide task_stats_len (table_or_empty (at_index b (new_dual {S = Table}))) =
      λ b.
        subst (λ o. IsWide task_stats_len (table_or_empty o)) (sym (at-new_dual b))
          (IsWide-empty task_stats_len) in
    let ids : (b : Bool) → IsIds (table_or_empty (at_index b (new_dual {S = Table}))) =
      λ b. subst (λ o. IsIds (table_or_empty o)) (sym (at-new_dual b)) (unfold IsIds in tt) in
    let gone : lookup_prev id (prev_stats (new_dual {S = Table})) ≡ none =
      ap (lookup_prev id) (at-new_dual (not (new_dual {S = Table}).curr_index)) in
    let total =
      subst
        (λ q.
          (value_of i q + published_sum Float i id ts new_dual) % 2 ^ 64
          ≡ last_value i id ts (value_of i q))
        gone
        (sum_from Float i id ts new_dual h r (wide _, wide _, ids _, ids _)
          (subst (λ q. value_of i q < 2 ^ 64) (sym gone) (omega arith))) in
    omega (arith, total)
