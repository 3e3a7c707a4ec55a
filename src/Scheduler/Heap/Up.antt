-- ===== src/Scheduler/Heap/Up.antt =====
-- Sifting an entry up.
use victoriametrics_importer.Prelude.{
  ℕ, zero, suc, ◌≤◌, ◌<◌, ◌≡◌, ◌≢◌, not, ◌||◌, List, ◌==◌, length, arith,
}
use victoriametrics_importer.Scheduler.{Task}
use victoriametrics_importer.Scheduler.Heap.{key, swap, parent, less, up}
use victoriametrics_importer.Scheduler.Heap.Swaps.{length-swap, key-swap}
use victoriametrics_importer.Scheduler.Heap.Order.{
  IsHeapTo, IsBridged, SameTasks, SameTasks-refl, SameTasks-swap, by_test,
}

-- Only j may be before its parent.
pub record UpInv (n : ℕ) (a : List Task) (j : ℕ) : Type 0 where
  pub inside : j < n
  pub within : n ≡ length a
  pub edges : (c : ℕ) → 0 < c → c < n → c ≢ j → key a (parent c) ≤ key a c
  pub bridged : IsBridged n a j

UpInv-swap :
    (n : ℕ) (a : List Task) (j : ℕ)
    → UpInv n a j
    → 0 < j
    → key a j < key a (parent j)
    → UpInv n (swap a (parent j) j) (parent j)
UpInv-swap n a j v p below =
    let low : parent j < length a = omega (arith, v.inside, v.within) in
    let at = key-swap a (parent j) j low (omega (arith, v.inside, v.within)) in
    record {
      inside = omega (arith, v.inside);
      within = omega (arith, v.within, length-swap a (parent j) j);
      edges = λ c q r t. ground (arith, at c, at (parent c), v.edges c, v.bridged c);
      bridged =
          λ c q r t u. ground (arith, at c, at (parent (parent j)), v.edges c, v.edges (parent j));
    }

pub up-SameTasks : (f : ℕ) (a : List Task) (j : ℕ) → j < length a → SameTasks a (up f a j)
unfolding up
up-SameTasks zero a j h = SameTasks-refl a
up-SameTasks (suc k) a j h =
    let low : parent j < length a = omega (arith, h) in
    by_test (SameTasks a) (parent j == j || not (less a j (parent j))) (λ e. SameTasks-refl a)
      (λ e. SameTasks-swap a (up k (swap a (parent j) j) (parent j)) (parent j) j low h (
        up-SameTasks k (swap a (parent j) j) (parent j)
          (omega (arith, low, length-swap a (parent j) j))))

pub up-IsHeapTo : (f n : ℕ) (a : List Task) (j : ℕ) → j < f → UpInv n a j → IsHeapTo n (up f a j)
unfolding up
up-IsHeapTo zero n a j f v = absurd (omega (arith, f))
up-IsHeapTo (suc k) n a j f v =
    by_test (IsHeapTo n) (parent j == j || not (less a j (parent j)))
      (λ e c p q. ground (arith, v.edges c))
      (λ e.
        up-IsHeapTo k n (swap a (parent j) j) (parent j) (ground arith)
          (UpInv-swap n a j v (ground arith) (ground arith)))
