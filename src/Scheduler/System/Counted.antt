-- ===== src/Scheduler/System/Counted.antt =====
-- The tasks of the states that the scheduler reaches, by the steps that lead there.
use Prim.Native.String.{String}
use victoriametrics_importer.Prelude.{ℕ, ◌+◌, ◌≡◌, refl, subst, Bool, arith}
use victoriametrics_importer.Prelude.Int.{ℤ}
use victoriametrics_importer.Scheduler.{prepare_new_task}
use victoriametrics_importer.Scheduler.System.{
  HeapLib, Sched, Outcome, Event, add_new, receive, fire, hand_off, start, finish, send_back, step,
  initial, Reaches, here, then_step, pick, arm, enqueue, receive_from, fire_by,
}
use victoriametrics_importer.Scheduler.System.Conserve.{
  present, added, dropped, Balances, pick-IsPicked, arm-present, enqueue-Balances,
  receive_from-Balances, fire_by-Balances, hand_off_by-Balances, start_by-Balances,
  finish_by-Balances, send_back_by-Balances,
}
use victoriametrics_importer.Scheduler.System.Keeps.{Inv, arm-Inv}
use victoriametrics_importer.Scheduler.System.Stable.{reachable-Inv}

module _ (q : String → Bool) (lib : HeapLib) where
  no_more : (o : Outcome) (n l : ℕ) → Balances q n l o → Balances q (0 + n) l o
  no_more o n l h = subst (λ k. Balances q k l o) (omega arith) h

  step-Balances :
      (e : Event) (s : Sched)
      → Inv lib s
      → Balances q (added q e + present q s) (dropped q e s) (step lib e s)
  unfolding step enqueue prepare_new_task
  step-Balances (add_new t) s v =
      unfold prepare_new_task in enqueue-Balances q lib (prepare_new_task t) s
  step-Balances (receive now) s v = no_more _ (present q s) 0 (
      subst
        (λ n. Balances q n 0 (receive_from lib (arm lib s).held (arm lib s).task_q now (arm lib s)))
        (arm-present q lib s)
        (receive_from-Balances q lib (arm lib s).held (arm lib s).task_q now (arm lib s) refl refl))
  step-Balances fire s v = no_more _ (present q s) 0 (
      subst
        (λ n.
          Balances q n 0
            (fire_by lib (arm lib s).held (arm lib s).active_timer (arm lib s).tasks (arm lib s)))
        (arm-present q lib s)
        (fire_by-Balances q lib (arm lib s).held (arm lib s).active_timer (arm lib s).tasks
          (arm lib s) refl refl (arm-Inv lib s v).heap))
  step-Balances hand_off s v = no_more _ (present q s) 0 (hand_off_by-Balances q lib s.held s refl)
  step-Balances start s v = no_more _ (present q s) 0 (start_by-Balances q lib s.todo_q s refl)
  step-Balances (finish i end_ts runtime requeue) s v = no_more _ (present q s) _ (
      finish_by-Balances q lib (pick i s.running) end_ts runtime requeue s
        (pick-IsPicked q i s.running))
  step-Balances (send_back i) s v =
      no_more _ (present q s) 0
        (send_back_by-Balances q lib (pick i s.returning) s (pick-IsPicked q i s.returning))

  -- The tasks added, and those dropped, on the way to a state.
  abbrev pub adds : {s u : Sched} → Reaches lib s u → ℕ
  adds here = 0
  adds (then_step r e p) = added q e + adds r

  abbrev pub drops : {s u : Sched} → Reaches lib s u → ℕ
  drops here = 0
  drops (then_step {t} r e p) = dropped q e t + drops r

  -- In every state that the scheduler can reach, the tasks whose id passes a test, in the heap, in the
  -- two queues, held by the dispatcher, run by workers or on their way back, are as many as were added
  -- less those that asked not to be queued again: the scheduler neither loses nor doubles a task.
  pub reachable_present :
      (configured : ℤ) (available : ℕ) (s : Sched)
      (r : Reaches lib (initial lib configured available) s)
      → present q s + drops r ≡ adds r
  unfolding initial
  reachable_present configured available s here = omega arith
  reachable_present configured available s (then_step {t} r e p) =
      let h = reachable_present configured available t r in
      let k =
        subst (Balances q (added q e + present q t) (dropped q e t)) p
          (step-Balances e t (reachable-Inv lib configured available t r).0) in
      omega (arith, h, k)
