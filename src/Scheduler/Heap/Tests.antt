-- ===== src/Scheduler/Heap/Tests.antt =====
-- Runs of heap.Push and heap.Pop on three tasks.
use victoriametrics_importer.Prelude.{
  ℕ, zero, suc, ◌+◌, ◌≡◌, refl, Bool, true, List, [], ◌∷◌, ltb, arith,
}
use victoriametrics_importer.Prelude.Int.{pos}
use victoriametrics_importer.Scheduler.{Task}
use victoriametrics_importer.Scheduler.System.{one, count}
use victoriametrics_importer.Scheduler.Heap.{swap, up, down, lesser_child, heap_push, heap_pop}
use victoriametrics_importer.Scheduler.Heap.Laws.{IsHeap, heap_push-refines, heap_pop-refines}

abbrev due : ℕ → Task
due t = record {
  id = "reader";
  next_ts = t;
  interval = pos 1_000_000_000;
  added_by_worker = true;
  last_executed = 0;
}

abbrev three : List Task
three = due 20 ∷ due 50 ∷ due 30 ∷ []

three-IsHeap : IsHeap three
three-IsHeap zero p q = absurd (omega (arith, p))
three-IsHeap (suc zero) p q = omega arith
three-IsHeap (suc (suc zero)) p q = omega arith
three-IsHeap (suc (suc (suc c))) p q = absurd (omega (arith, q))

earlier_goes_up : heap_push three (due 10) ≡ due 10 ∷ due 20 ∷ due 30 ∷ due 50 ∷ []
unfolding heap_push up swap
earlier_goes_up = refl

last_goes_down :
    heap_pop (due 10 ∷ due 20 ∷ due 30 ∷ due 50 ∷ []) ≡ (due 10, due 20 ∷ due 50 ∷ due 30 ∷ [])
unfolding heap_pop down swap lesser_child
last_goes_down = refl

heap_push-refines_example :
    IsHeap (heap_push three (due 10))
    × ((p : Task → Bool) → count p (heap_push three (due 10)) ≡ one p (due 10) + count p three)
heap_push-refines_example = heap_push-refines three (due 10) three-IsHeap

heap_pop-refines_example :
    ((heap_pop three).0 ≡ due 20)
    × IsHeap (heap_pop three).1
    × ((p : Task → Bool) → count p (heap_pop three).1 ≡ count p (due 50 ∷ due 30 ∷ []))
    × (count (λ u. ltb u.next_ts 20) (heap_pop three).1 ≡ 0)
heap_pop-refines_example = heap_pop-refines (due 20) (due 50 ∷ due 30 ∷ []) three-IsHeap
