-- ===== src/AvailableCpus.antt =====
-- GetAvailableCPUCount of vmi/internal/available_cpus_linux.go. The masks of the affinity and the
-- number that the runtime knows are input; a mask is a uint64.
mod Bits
mod Counts
mod Tests
use Prim.Native.Nat.{bit_and}
use victoriametrics_importer.Prelude.{
  ℕ, zero, suc, ◌+◌, ◌-◌, ◌^◌, ◌<◌, Bool, true, Option, none, some, List, [], ◌∷◌, ltb, ◌==◌,
  if◌then◌else◌,
}

-- `for cpuMask != 0`, on the count so far; each round clears a bit, and a mask has 64.
pub count_mask : (fuel : ℕ) → (cpu_mask count : ℕ) → ℕ
count_mask zero cpu_mask count = count
count_mask (suc f) cpu_mask count =
    let rest = count_mask f (bit_and cpu_mask (cpu_mask - 1)) (count + 1) in
    if cpu_mask == 0 then count else rest

pub count_masks : List ℕ → (count : ℕ) → ℕ
count_masks [] count = count
count_masks (cpu_mask ∷ masks) count = count_masks masks (count_mask 64 cpu_mask count)

-- The masks, or none if they cannot be had.
pub get_available_cpu_count : (cpu_set : Option (List ℕ)) → (num_cpu : ℕ) → ℕ
get_available_cpu_count none num_cpu = num_cpu
get_available_cpu_count (some cpu_set) num_cpu =
    let count = count_masks cpu_set 0 in if ltb num_cpu count then num_cpu else count
