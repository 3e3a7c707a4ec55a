-- ===== src/Scheduler/System/Progress.antt =====
-- When the dispatcher and the workers can go on, and when their bounded queues hold them up.
use Prim.Native.String.{String}
use victoriametrics_importer.Prelude.{
  ℕ, ◌+◌, ◌≤◌, ◌<◌, ◌≡◌, ◌⊎◌, refl, ap, Bool, true, none, some, List, [], ◌∷◌, ltb, length, arith,
  Bool-cases, Option-cases, inl, inr,
}
use victoriametrics_importer.Prelude.Int.{ℤ}
use victoriametrics_importer.Scheduler.{Task, todo_q_len, task_q_len}
use victoriametrics_importer.Scheduler.System.{
  HeapLib, Sched, receive, fire, hand_off, start, finish, send_back, count, initial, Reaches,
}
use victoriametrics_importer.Scheduler.System.Conserve.{by_id, present, held_count}
use victoriametrics_importer.Scheduler.System.Counted.{adds, reachable_present}
use victoriametrics_importer.Scheduler.System.Keeps.{Inv}
use victoriametrics_importer.Scheduler.System.Stable.{reachable-Inv}
use victoriametrics_importer.Scheduler.System.Enabled.{
  CanStep, step-CanStep, finish-enabled, start-enabled, send_back-enabled, hand_off-enabled,
  receive-enabled, fire-enabled,
}

abbrev pub any : String → Bool
any id = true

List-cases {ℓ} :
    {A : Type ℓ} (xs : List A) → (xs ≡ []) ⊎ ((x : A) × ((ys : List A) × (xs ≡ x ∷ ys)))
List-cases [] = inl refl
List-cases (x ∷ xs) = inr (x, (xs, refl))

count-length : (ts : List Task) → count (by_id any) ts ≡ length ts
count-length [] = refl
count-length (t ∷ ts) = omega (arith, count-length ts)

lt_or_le : (m n : ℕ) → (m < n) ⊎ (n ≤ m)
lt_or_le m n = elim (Bool-cases (ltb m n)) [
  | inl e ↦ inl (ground (arith, e))
  | inr e ↦ inr (ground (arith, e))
]

nothing_present :
    (s : Sched)
    → 0 < present any s
    → s.running ≡ []
    → s.todo_q ≡ []
    → s.held ≡ none
    → s.task_q ≡ []
    → s.returning ≡ []
    → s.tasks ≡ []
    → ⊥
nothing_present s p r d h e f g =
    let none_in : (ts : List Task) → ts ≡ [] → count (by_id any) ts ≡ 0 =
      λ ts k. ap (count (by_id any)) k in
    omega (
      arith,
      p,
      none_in _ r,
      none_in _ d,
      ap (held_count any) h,
      none_in _ e,
      none_in _ f,
      none_in _ g,
    )

-- Both queues are full, the dispatcher waits to send to the one and every worker to the other.
pub record IsJammed (s : Sched) : Type 0 where
  pub holds : (t : Task) × (s.held ≡ some t)
  pub todo_full : todo_q_len ≤ length s.todo_q
  pub task_full : task_q_len ≤ length s.task_q
  pub idle : s.running ≡ []
  pub waiting : s.workers ≤ length s.returning

module _ (lib : HeapLib) where
  -- With the dispatcher and the workers idle, something that is left is in the heap or comes back.
  idle-CanStep :
      (s : Sched)
      → Inv lib s
      → s.running ≡ []
      → s.todo_q ≡ []
      → s.held ≡ none
      → 0 < present any s
      → CanStep lib s
  idle-CanStep s v r d h p = elim (List-cases s.task_q) [
    | inr (t, (ts, e)) ↦ step-CanStep lib (receive 0) s tt v (receive-enabled lib s t ts h e)
    | inl e ↦ elim (List-cases s.returning) [
      | inr (t, (ts, f)) ↦
          step-CanStep lib (send_back 0) s tt v
            (send_back-enabled lib s t ts f (omega (arith, ap length e)))
      | inl f ↦ elim (List-cases s.tasks) [
        | inr (t, (ts, g)) ↦ step-CanStep lib fire s tt v (fire-enabled lib s t ts h g)
        | inl g ↦ absurd (nothing_present s p r d h e f g)
      ]
    ]
  ]

  -- With every worker waiting to send a task back.
  waiting-CanStep :
      (s : Sched)
      → Inv lib s
      → s.running ≡ []
      → 0 < length s.returning
      → s.workers ≤ length s.returning
      → CanStep lib s ⊎ IsJammed s
  waiting-CanStep s v r p w = elim (lt_or_le (length s.task_q) task_q_len) [
    | inl room ↦ elim (List-cases s.returning) [
      | inl e ↦ absurd (omega (arith, ap length e, p))
      | inr (t, (ts, e)) ↦
          inl (step-CanStep lib (send_back 0) s tt v (send_back-enabled lib s t ts e room))
    ]
    | inr full ↦ elim (Option-cases s.held) [
      | inl h ↦ elim (List-cases s.task_q) [
        | inl e ↦ absurd (omega (arith, ap length e, full))
        | inr (t, (ts, e)) ↦
            inl (step-CanStep lib (receive 0) s tt v (receive-enabled lib s t ts h e))
      ]
      | inr (t, h) ↦ elim (lt_or_le (length s.todo_q) todo_q_len) [
        | inl room ↦ inl (step-CanStep lib hand_off s tt v (hand_off-enabled lib s t h room))
        | inr much ↦
            inr
              (record { holds = (t, h); todo_full = much; task_full = full; idle = r; waiting = w })
      ]
    ]
  ]

  step_or_IsJammed :
      (s : Sched) → Inv lib s → 0 < s.workers → 0 < present any s → CanStep lib s ⊎ IsJammed s
  step_or_IsJammed s v w p = elim (List-cases s.running) [
    | inr (t, (ts, e)) ↦
        inl (step-CanStep lib (finish 0 0 0 true) s tt v (finish-enabled lib s t ts e))
    | inl r ↦ elim (List-cases s.todo_q) [
      | inr (t, (ts, e)) ↦ elim (lt_or_le (length s.returning) s.workers) [
        | inl room ↦ inl (
            step-CanStep lib start s tt v
              (start-enabled lib s t ts e (omega (arith, ap length r, room))))
        | inr all ↦ waiting-CanStep s v r (omega arith) all
      ]
      | inl d ↦ elim (Option-cases s.held) [
        | inr (t, h) ↦ inl (
            step-CanStep lib hand_off s tt v
              (hand_off-enabled lib s t h (omega (arith, ap length d))))
        | inl h ↦ inl (idle-CanStep s v r d h p)
      ]
    ]
  ]

  jammed_present : (s : Sched) → IsJammed s → todo_q_len + task_q_len + s.workers < present any s
  jammed_present s j =
      let h = ap (held_count any) j.holds.1 in
      omega (
        arith,
        j.todo_full,
        j.task_full,
        j.waiting,
        h,
        count-length s.todo_q,
        count-length s.task_q,
        count-length s.returning,
      )

  -- In a state that the scheduler can reach, with at least one worker and a task that is left, the
  -- dispatcher or a worker can make a step, unless the dispatcher waits to send to a full queue of
  -- due tasks while every worker waits to send to a full queue of added tasks.
  pub reachable-IsJammed :
      (configured : ℤ) (available : ℕ) (s : Sched)
      → Reaches lib (initial lib configured available) s
      → 0 < s.workers
      → 0 < present any s
      → CanStep lib s ⊎ IsJammed s
  reachable-IsJammed configured available s r w p =
      step_or_IsJammed s (reachable-Inv lib configured available s r).0 w p

  -- In a state that the scheduler can reach, with at least one worker and a task that is left, the
  -- dispatcher or a worker can make a step, if no more tasks were added than the two queues have room
  -- for and one for each worker: the bounded queues never stop the scheduler then.
  pub reachable-CanStep :
      (configured : ℤ) (available : ℕ) (s : Sched)
      (r : Reaches lib (initial lib configured available) s)
      → 0 < s.workers
      → 0 < present any s
      → adds any lib r ≤ todo_q_len + task_q_len + s.workers
      → CanStep lib s
  reachable-CanStep configured available s r w p few =
      elim (reachable-IsJammed configured available s r w p) [
        | inl c ↦ c
        | inr j ↦ absurd (
            omega
              (arith, jammed_present s j, reachable_present any lib configured available s r, few))
      ]
