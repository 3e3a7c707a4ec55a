-- ===== src/Scheduler/Heap/Order.antt =====
-- The order of a heap in the first entries of a list.
use victoriametrics_importer.Prelude.{
  ℕ, zero, suc, ◌≤◌, ◌<◌, ◌≡◌, refl, ◌∙◌, Bool, true, false, List, if◌then◌else◌, length, arith,
}
use victoriametrics_importer.Scheduler.{Task}
use victoriametrics_importer.Scheduler.System.{count}
use victoriametrics_importer.Scheduler.Heap.{key, swap, parent}
use victoriametrics_importer.Scheduler.Heap.Swaps.{length-swap, count-swap}

-- No entry among the first n is before its parent.
abbrev pub IsHeapTo : ℕ → List Task → Type 0
IsHeapTo n a = (c : ℕ) → 0 < c → c < n → key a (parent c) ≤ key a c

-- The children of j are not before j's parent.
abbrev pub IsBridged : ℕ → List Task → ℕ → Type 0
IsBridged n a j = (c : ℕ) → 0 < c → c < n → parent c ≡ j → 0 < j → key a (parent j) ≤ key a c

-- The same tasks, in other places.
pub record SameTasks (a b : List Task) : Type 0 where
  pub lengths : length b ≡ length a
  pub counts : (p : Task → Bool) → count p b ≡ count p a

pub SameTasks-refl : (a : List Task) → SameTasks a a
SameTasks-refl a = record { lengths = refl; counts = λ p. refl }

pub SameTasks-swap :
    (a b : List Task) (i j : ℕ)
    → i < length a
    → j < length a
    → SameTasks (swap a i j) b
    → SameTasks a b
SameTasks-swap a b i j p q s = record {
  lengths = s.lengths ∙ length-swap a i j;
  counts = λ r. s.counts r ∙ count-swap r a i j p q;
}

-- A property of both results of a test, each under what its branch knows.
pub by_test :
    (P : List Task → Type 0) {a b : List Task} (t : Bool)
    → (t ≡ true → P a)
    → (t ≡ false → P b)
    → P (if t then a else b)
by_test P true f g = f refl
by_test P false f g = g refl

root_least_below :
    (f n : ℕ) (a : List Task) (i : ℕ) → IsHeapTo n a → i < f → i < n → key a 0 ≤ key a i
root_least_below zero n a i h f p = absurd (omega (arith, f))
root_least_below (suc k) n a i h f p = ground (arith, h i, root_least_below k n a (parent i) h)

pub root_least : (n : ℕ) (a : List Task) (i : ℕ) → IsHeapTo n a → i < n → key a 0 ≤ key a i
root_least n a i h p = root_least_below (suc i) n a i h (omega arith) p
