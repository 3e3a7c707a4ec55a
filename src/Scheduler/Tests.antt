-- ===== src/Scheduler/Tests.antt =====
-- The theorems on intervals and scheduling times, at one task.
use victoriametrics_importer.Prelude.{refl, arith}
use victoriametrics_importer.Prelude.Int.{pos}
use victoriametrics_importer.Scheduler.{Task, new_task, next_slot}
use victoriametrics_importer.Scheduler.NextTs.{IsSlot, next_slot-IsSlot}

abbrev every_second : Task
every_second = new_task "reader" (pos 1_000_000_000)

next_slot-IsSlot_example :
    IsSlot 5_300_000_000 1_000_000_000 every_second (next_slot 5_300_000_000 every_second)
unfolding new_task
next_slot-IsSlot_example =
    next_slot-IsSlot 5_300_000_000 1_000_000_000 every_second (omega arith) refl
