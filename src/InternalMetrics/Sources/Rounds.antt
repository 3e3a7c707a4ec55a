-- ===== src/InternalMetrics/Sources/Rounds.antt =====
-- What the rounds of the scheduler's metrics have of one counter of one task.
use Prim.Native.String.{String}
use mathlib.Core.Option.{some_inj}
use text.Mathlib.Text.{◌==◌ as str_eq}
use text.Mathlib.TextEquality.{eq_iff}
use victoriametrics_importer.Prelude.{
  ℕ, zero, suc, ◌+◌, ◌<◌, ◌≡◌, refl, sym, ap, ◌∙◌, Bool, true, false, ◌&&◌, Option, none, some,
  List, [], ◌∷◌, ◌==◌, ltb, if◌then◌else◌, arith, Bool-cases, inl, inr,
}
use victoriametrics_importer.InternalMetrics.Table.{Row, Table, lookup, delta}
use victoriametrics_importer.InternalMetrics.Table.Ids.{IsIds, str_eq-flip}
use victoriametrics_importer.InternalMetrics.Text.{Caption, task_stat, Value, number, Metric}
use victoriametrics_importer.InternalMetrics.Sources.{
  total_runtime, executed_count, lookup_prev, deltas, task_average, task_metrics, scheduler_rounds,
}

module _ (Float : Type 0) where
  -- The number of a metric, if its caption is that of the task's counter with this index.
  abbrev pub is_stat : (i : ℕ) → String → Caption → Bool
  is_stat i id (task_stat j name) = j == i && str_eq name id
  is_stat i id _ = false

  abbrev pub number_of : Value Float → ℕ
  number_of (number n) = n
  number_of _ = 0

  -- What the metrics of a round, and those of all rounds, publish of the counter.
  abbrev pub round_sum : (i : ℕ) → String → List (Metric Float) → ℕ
  round_sum i id [] = 0
  round_sum i id ((c, v) ∷ ms) = (if is_stat i id c then number_of v else 0) + round_sum i id ms

  abbrev pub rounds_sum : (i : ℕ) → String → List (List (Metric Float)) → ℕ
  rounds_sum i id [] = 0
  rounds_sum i id (ms ∷ rounds) = round_sum i id ms + rounds_sum i id rounds

  round_sum-task_average :
      (i : ℕ) (id name : String) (runtime executed : ℕ)
      → round_sum i id (task_average Float name runtime executed) ≡ 0
  unfolding task_average
  round_sum-task_average i id name runtime executed = elim (Bool-cases (ltb 0 executed)) [
    | inl e ↦ rw e refl
    | inr e ↦ rw e refl
  ]

  -- The average runtime is no counter; each of the others is published once.
  pub round_sum-task_metrics :
      (i : ℕ) (id name : String) (curr : Row) (prev : Option Row)
      → i < 5
      → round_sum i id (task_metrics Float name curr prev)
        ≡ (if str_eq name id then delta i curr prev else 0)
  unfolding task_metrics deltas
  round_sum-task_metrics i id name curr prev h = by_name i (str_eq name id) h (
      round_sum-task_average i id name (delta total_runtime curr prev)
        (delta executed_count curr prev))
    where
      by_name :
          (i : ℕ) (b : Bool) {rest : ℕ}
          → i < 5
          → rest ≡ 0
          → (if 0 == i && b then delta 0 curr prev else 0)
              + ((if 1 == i && b then delta 1 curr prev else 0)
                  + ((if 2 == i && b then delta 2 curr prev else 0)
                      + ((if 3 == i && b then delta 3 curr prev else 0)
                          + ((if 4 == i && b then delta 4 curr prev else 0) + rest))))
            ≡ (if b then delta i curr prev else 0)
      by_name zero true h e = omega (arith, e)
      by_name (suc zero) true h e = omega (arith, e)
      by_name (suc (suc zero)) true h e = omega (arith, e)
      by_name (suc (suc (suc zero))) true h e = omega (arith, e)
      by_name (suc (suc (suc (suc zero)))) true h e = omega (arith, e)
      by_name (suc (suc (suc (suc (suc n))))) true h e = absurd (omega (arith, h))
      by_name i false h e = ground (arith, e)

  absent_sum :
      (i : ℕ) (id : String) (t : Table) (prev : Option Table)
      → i < 5
      → lookup id t ≡ none
      → rounds_sum i id (scheduler_rounds Float t prev) ≡ 0
  unfolding scheduler_rounds lookup
  absent_sum i id [] prev h e = refl
  absent_sum i id ((k, row) ∷ rest) prev h e = elim (Bool-cases (str_eq id k)) [
    | inl s ↦ absurd (cc (sym e ∙ ap (λ b. if b then some row else lookup id rest) s))
    | inr s ↦
        let head =
          round_sum-task_metrics i id k row (lookup_prev k prev) h
          ∙ ap (λ b. if b then delta i row (lookup_prev k prev) else 0) (str_eq-flip id k s) in
        let tail =
          absent_sum i id rest prev h
            (sym (ap (λ b. if b then some row else lookup id rest) s) ∙ e) in
        omega (arith, head, tail)
  ]

  -- Where the table has a row for the task, the rounds publish its delta, once.
  pub rounds_sum-delta :
      (i : ℕ) (id : String) (t : Table) (prev : Option Table) (row : Row)
      → i < 5
      → IsIds t
      → lookup id t ≡ some row
      → rounds_sum i id (scheduler_rounds Float t prev) ≡ delta i row (lookup_prev id prev)
  unfolding scheduler_rounds lookup IsIds
  rounds_sum-delta i id [] prev row h ids e = absurd (cc e)
  rounds_sum-delta i id ((k, r) ∷ rest) prev row h (fresh, ids) e =
      elim (Bool-cases (str_eq id k)) [
        | inl s ↦
            let same : id ≡ k = (eq_iff id k).0 s in
            let found : r ≡ row =
              some_inj.0 (sym (ap (λ b. if b then some r else lookup id rest) s) ∙ e) in
            let head =
              round_sum-task_metrics i id k r (lookup_prev k prev) h
              ∙ ap (λ b. if b then delta i r (lookup_prev k prev) else 0)
                  ((eq_iff k id).1 (sym same))
              ∙ ap (λ x. delta i r (lookup_prev x prev)) (sym same)
              ∙ ap (λ x. delta i x (lookup_prev id prev)) found in
            let tail = absent_sum i id rest prev h (ap (λ x. lookup x rest) same ∙ fresh) in
            omega (arith, head, tail)
        | inr s ↦
            let head =
              round_sum-task_metrics i id k r (lookup_prev k prev) h
              ∙ ap (λ b. if b then delta i r (lookup_prev k prev) else 0) (str_eq-flip id k s) in
            let tail =
              rounds_sum-delta i id rest prev row h ids
                (sym (ap (λ b. if b then some r else lookup id rest) s) ∙ e) in
            omega (arith, head, tail)
      ]
