-- ===== src/Scheduler/System/Tests.antt =====
-- The theorems on the scheduler's states, with the binary heap.
use victoriametrics_importer.Prelude.{◌+◌, ◌≡◌, ◌≤◌, ◌<◌, ◌⊎◌, refl, arith}
use victoriametrics_importer.Prelude.Int.{pos, ◌-ℤ◌}
use victoriametrics_importer.Scheduler.{
  Task, num_workers, todo_q_len, task_q_len, new_task, prepare_new_task, nearest_multiple,
  compliant_task_interval,
}
use victoriametrics_importer.Scheduler.System.{
  Sched, schedule, panics, Event, add_new, receive, step, initial, Reaches, here, then_step, arm,
  receive_from, enqueue, arm_by, receive_by, receive_new,
}
use victoriametrics_importer.Scheduler.Heap.Laws.{binary_heap}
use victoriametrics_importer.Scheduler.System.Keeps.{Inv}
use victoriametrics_importer.Scheduler.System.Conserve.{present}
use victoriametrics_importer.Scheduler.System.Counted.{adds, drops, reachable_present}
use victoriametrics_importer.Scheduler.System.Enabled.{CanStep}
use victoriametrics_importer.Scheduler.System.Progress.{
  any, IsJammed, reachable-IsJammed, reachable-CanStep,
}
use victoriametrics_importer.Scheduler.System.Stable.{reachable-Inv}

abbrev every_second : Task
every_second = new_task "reader" (pos 1_000_000_000)

abbrev started : Sched
started = initial binary_heap (pos 2) 4

-- The states after a task is added and received.
added_Reaches : (s : Sched) × Reaches binary_heap started s
unfolding step initial enqueue arm receive_from arm_by receive_by receive_new prepare_new_task
    nearest_multiple compliant_task_interval ◌-ℤ◌ new_task
added_Reaches =
    (_, then_step (then_step here (add_new every_second) refl) (receive 5_300_000_000) refl)

reachable-Inv_example :
    Inv binary_heap added_Reaches.0 × ((e : Event) → ¬ step binary_heap e added_Reaches.0 ≡ panics)
reachable-Inv_example = reachable-Inv binary_heap (pos 2) 4 added_Reaches.0 added_Reaches.1

added_then_received : Reaches binary_heap started added_Reaches.0
added_then_received = added_Reaches.1

reachable_present_example :
    present any added_Reaches.0 + drops any binary_heap added_then_received
    ≡ adds any binary_heap added_then_received
reachable_present_example =
    reachable_present any binary_heap (pos 2) 4 added_Reaches.0 added_then_received

added_workers : 0 < added_Reaches.0.workers
unfolding added_Reaches schedule num_workers
added_workers = omega arith

added_present : 0 < present any added_Reaches.0
unfolding added_Reaches schedule
added_present = omega arith

added_few :
    adds any binary_heap added_then_received ≤ todo_q_len + task_q_len + added_Reaches.0.workers
unfolding added_Reaches added_then_received
added_few = omega arith

reachable-IsJammed_example : CanStep binary_heap added_Reaches.0 ⊎ IsJammed added_Reaches.0
reachable-IsJammed_example =
    reachable-IsJammed binary_heap (pos 2) 4 added_Reaches.0 added_then_received added_workers
      added_present

reachable-CanStep_example : CanStep binary_heap added_Reaches.0
reachable-CanStep_example =
    reachable-CanStep binary_heap (pos 2) 4 added_Reaches.0 added_then_received added_workers
      added_present added_few
