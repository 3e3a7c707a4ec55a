-- ===== src/Scheduler/Heap/Down.antt =====
-- Sifting an entry down.
use victoriametrics_importer.Prelude.{
  ℕ, zero, suc, ◌+◌, ◌-◌, ◌*◌, ◌≤◌, ◌<◌, ◌≡◌, ◌≢◌, ◌⊎◌, inl, inr, refl, ◌∙◌, Bool-cases, true, not,
  ◌||◌, List, leb, length, arith,
}
use victoriametrics_importer.Scheduler.{Task}
use victoriametrics_importer.Scheduler.Heap.{key, get, swap, parent, less, lesser_child, down}
use victoriametrics_importer.Scheduler.Heap.Swaps.{length-swap, get-swap, key-swap}
use victoriametrics_importer.Scheduler.Heap.Order.{
  IsHeapTo, IsBridged, SameTasks, SameTasks-refl, SameTasks-swap, by_test,
}

-- Only the children of i may be before it.
pub record DownInv (n : ℕ) (a : List Task) (i : ℕ) : Type 0 where
  pub within : n ≤ length a
  pub edges : (c : ℕ) → 0 < c → c < n → parent c ≢ i → key a (parent c) ≤ key a c
  pub bridged : IsBridged n a i

record IsLesserChild (n : ℕ) (a : List Task) (i m : ℕ) : Type 0 where
  inside : m < n
  child : (m ≡ 2 * i + 1) ⊎ (m ≡ 2 * i + 2)
  least : (c : ℕ) → 0 < c → c < n → parent c ≡ i → key a m ≤ key a c

lesser_child-IsLesserChild :
    (n : ℕ) (a : List Task) (i : ℕ) → 2 * i + 1 < n → IsLesserChild n a i (lesser_child a i n)
unfolding lesser_child
lesser_child-IsLesserChild n a i h = record {
  inside = ground arith;
  child = ground arith;
  least = λ c p q r. ground arith;
}

DownInv-swap :
    (n : ℕ) (a : List Task) (i m : ℕ)
    → DownInv n a i
    → IsLesserChild n a i m
    → key a m < key a i
    → DownInv n (swap a i m) m
DownInv-swap n a i m v s below =
    let low : m < length a = omega (arith, s.inside, v.within) in
    let high : i < length a = omega (arith, low, s.child) in
    let at = key-swap a i m high low in
    record {
      within = omega (arith, v.within, length-swap a i m);
      edges = λ c q r t.
          ground (arith, at c, at (parent c), v.edges c, v.bridged m, s.least c, s.child);
      bridged = λ c q r t u. ground (arith, at c, at (parent m), v.edges c, s.child);
    }

-- A heap in the first n entries, of the same tasks, with the n-th untouched.
pub record Settled (n : ℕ) (a b : List Task) : Type 0 where
  pub order : IsHeapTo n b
  pub tasks : SameTasks a b
  pub last : get b n ≡ get a n

settled-ordered :
    (n : ℕ) (a : List Task) (i : ℕ)
    → DownInv n a i
    → leb n (2 * i + 1) || not (less a (lesser_child a i n) i) ≡ true
    → IsHeapTo n a
settled-ordered n a i v e c p q = elim (Bool-cases (leb n (2 * i + 1))) [
  | inl leaf ↦ ground (arith, v.edges c)
  | inr has_child ↦
      let s = lesser_child-IsLesserChild n a i (ground arith) in
      ground (arith, v.edges c, s.least c)
]

get-swap_other :
    (a : List Task) (i j k : ℕ)
    → i < length a
    → j < length a
    → i < k
    → j < k
    → get (swap a i j) k ≡ get a k
get-swap_other a i j k p q r s = get-swap a i j k p q ∙ ground arith

pub down-Settled :
    (f n : ℕ) (a : List Task) (i : ℕ) → n - i < f → DownInv n a i → Settled n a (down f a i n)
unfolding down
down-Settled zero n a i f v = absurd (omega (arith, f))
down-Settled (suc k) n a i f v =
    by_test (Settled n a) (leb n (2 * i + 1) || not (less a (lesser_child a i n) i))
      (λ e. record {
        order = λ c p q. settled-ordered n a i v e c p q;
        tasks = SameTasks-refl a;
        last = refl;
      })
      (λ e.
        let m = lesser_child a i n in
        let s = lesser_child-IsLesserChild n a i (ground arith) in
        let low : m < length a = omega (arith, s.inside, v.within) in
        let high : i < length a = omega (arith, low, s.child) in
        let r =
          down-Settled k n (swap a i m) m (omega (arith, f, s.child, s.inside))
            (DownInv-swap n a i m v s (ground arith)) in
        record {
          order = r.order;
          tasks = SameTasks-swap a (down k (swap a i m) m n) i m high low r.tasks;
          last =
              r.last
              ∙ get-swap_other a i m n high low (omega (arith, s.inside, s.child))
                  (omega (arith, s.inside, s.child));
        })
