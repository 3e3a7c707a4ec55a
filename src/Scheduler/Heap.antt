-- ===== src/Scheduler/Heap.antt =====
-- The scheduler's tasks as a heap: Less, Swap, Push and Pop of vmi/internal/scheduler.go under the Push
-- and Pop of container/heap, whose loops sift an entry up or down. All indices are in range.
pub mod Swaps
pub mod Order
pub mod Up
pub mod Down
pub mod Laws
mod Tests
use victoriametrics_importer.Prelude.{
  ℕ, zero, suc, ◌+◌, ◌-◌, ◌*◌, ◌/◌, Bool, false, not, ◌&&◌, ◌||◌, List, [], ◌∷◌, ◌++◌, ltb, leb,
  ◌==◌, if◌then◌else◌, length, get_or, set, take,
}
use victoriametrics_importer.Prelude.Int.{pos}
use victoriametrics_importer.Scheduler.{Task}

abbrev pub no_task : Task
no_task = record {
  id = "";
  next_ts = 0;
  interval = pos 0;
  added_by_worker = false;
  last_executed = 0;
}

-- `tasks[i]`
abbrev pub get : List Task → ℕ → Task
get a i = get_or a i no_task

abbrev pub key : List Task → ℕ → ℕ
key a i = (get a i).next_ts

abbrev pub less : List Task → (i j : ℕ) → Bool
less a i j = ltb (key a i) (key a j)

pub swap : List Task → (i j : ℕ) → List Task
swap a i j = set (set a i (get a j)) j (get a i)

-- The scheduler's own Push, at the end, and Pop, from the end.
abbrev pub push_last : List Task → Task → List Task
push_last a t = a ++ t ∷ []

abbrev pub pop_last : List Task → Task × List Task
pop_last a = let new_len = length a - 1 in (get a new_len, take new_len a)

abbrev pub parent : ℕ → ℕ
parent j = (j - 1) / 2

-- `up(h, j)`; each round halves j.
pub up : (fuel : ℕ) → List Task → (j : ℕ) → List Task
up zero a j = a
up (suc f) a j =
    let rest = up f (swap a (parent j) j) (parent j) in
    if parent j == j || not (less a j (parent j)) then a else rest

-- The lesser child of i within the first n entries, which have a left child of i.
pub lesser_child : List Task → (i n : ℕ) → ℕ
lesser_child a i n =
    let j1 = 2 * i + 1 in let j2 = j1 + 1 in if ltb j2 n && less a j2 j1 then j2 else j1

-- `down(h, i, n)`; each round at least doubles i.
pub down : (fuel : ℕ) → List Task → (i n : ℕ) → List Task
down zero a i n = a
down (suc f) a i n =
    let j = lesser_child a i n in
    let rest = down f (swap a i j) j n in if leb n (2 * i + 1) || not (less a j i) then a else rest

-- `heap.Push(scheduler, task)`
pub heap_push : List Task → Task → List Task
heap_push a t = let b = push_last a t in up (length b) b (length b - 1)

-- `heap.Pop(scheduler)`
pub heap_pop : List Task → Task × List Task
heap_pop a = let n = length a - 1 in pop_last (down (n + 1) (swap a 0 n) 0 n)
