-- ===== src/Compressor/States.antt =====
-- Start and Shutdown, called in any order and any number of times.
use victoriametrics_importer.Prelude.{
  ℕ, ◌+◌, ◌≤◌, Bool, true, false, List, [], ◌∷◌, if◌then◌else◌, arith,
}
use victoriametrics_importer.Compressor.{PoolState, created, running, stopped, start, shutdown}

-- One call, true for Start.
abbrev pub call : Bool → PoolState → PoolState × Bool
call true s = start s
call false s = shutdown s

-- How many of the calls started the compressors, and how many closed the queue.
pub effects : List Bool → PoolState → ℕ × ℕ
effects [] s = (0, 0)
effects (c ∷ cs) s =
    let rest = effects cs (call c s).0 in
    if (call c s).1 then (if c then (rest.0 + 1, rest.1) else (rest.0, rest.1 + 1)) else rest

abbrev starts_left : PoolState → ℕ
starts_left created = 1
starts_left running = 0
starts_left stopped = 0

abbrev closes_left : PoolState → ℕ
closes_left created = 1
closes_left running = 1
closes_left stopped = 0

effects-bound :
    (cs : List Bool) (s : PoolState)
    → ((effects cs s).0 ≤ starts_left s) × ((effects cs s).1 ≤ closes_left s)
unfolding effects start shutdown
effects-bound [] s = (omega arith, omega arith)
effects-bound (true ∷ cs) created = ground (arith, effects-bound cs running)
effects-bound (true ∷ cs) running = effects-bound cs running
effects-bound (true ∷ cs) stopped = effects-bound cs stopped
effects-bound (false ∷ cs) created = ground (arith, effects-bound cs stopped)
effects-bound (false ∷ cs) running = ground (arith, effects-bound cs stopped)
effects-bound (false ∷ cs) stopped = effects-bound cs stopped

-- Whatever calls of Start and Shutdown a new pool gets, and in whatever order, the compressors are
-- started at most once and the queue is closed at most once.
pub effects-once : (cs : List Bool) → ((effects cs created).0 ≤ 1) × ((effects cs created).1 ≤ 1)
effects-once cs = effects-bound cs created
