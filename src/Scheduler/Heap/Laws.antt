-- ===== src/Scheduler/Heap/Laws.antt =====
-- heap.Push and heap.Pop over the scheduler's tasks, and the interface that they fill.
use victoriametrics_importer.Prelude.{
  ℕ, zero, suc, ◌+◌, ◌-◌, ◌≤◌, ◌<◌, ◌≡◌, refl, ap, sym, subst, ◌∙◌, Bool, List, [], ◌∷◌, ltb,
  length, length-append, take, arith,
}
use victoriametrics_importer.Scheduler.{Task}
use victoriametrics_importer.Scheduler.System.{one, count, HeapLib}
use victoriametrics_importer.Scheduler.Heap.{
  get, key, swap, parent, down, push_last, pop_last, heap_push, heap_pop,
}
use victoriametrics_importer.Scheduler.Heap.Swaps.{length-swap, get-swap, key-swap, count-swap}
use victoriametrics_importer.Scheduler.Heap.Order.{IsHeapTo, SameTasks, root_least}
use victoriametrics_importer.Scheduler.Heap.Up.{UpInv, up-SameTasks, up-IsHeapTo}
use victoriametrics_importer.Scheduler.Heap.Down.{Settled, down-Settled}

abbrev pub IsHeap : List Task → Type 0
IsHeap a = IsHeapTo (length a) a

get-push_last : (a : List Task) (t : Task) (k : ℕ) → k < length a → get (push_last a t) k ≡ get a k
get-push_last [] t k h = absurd (omega (arith, h))
get-push_last (x ∷ a) t zero h = refl
get-push_last (x ∷ a) t (suc k) h = get-push_last a t k (omega (arith, h))

count-push_last :
    (p : Task → Bool) (a : List Task) (t : Task) → count p (push_last a t) ≡ one p t + count p a
count-push_last p [] t = refl
count-push_last p (x ∷ a) t = omega (arith, count-push_last p a t)

push_last-UpInv :
    (a : List Task) (t : Task)
    → IsHeap a
    → UpInv (length (push_last a t)) (push_last a t) (length (push_last a t) - 1)
push_last-UpInv a t h =
    let size = length-append a (t ∷ []) in
    record {
      inside = omega (arith, size);
      within = refl;
      edges = λ c p q r.
          subst (λ x. x ≤ key (push_last a t) c)
            (sym
              (ap (λ u. u.next_ts) (get-push_last a t (parent c) (omega (arith, p, q, r, size)))))
            (subst (λ x. key a (parent c) ≤ x)
              (sym (ap (λ u. u.next_ts) (get-push_last a t c (omega (arith, q, r, size)))))
              (h c p (omega (arith, q, r, size))));
      bridged = λ c p q r s. absurd (omega (arith, p, q, r, s, size));
    }

heap_push-ordered :
    (a : List Task) (t : Task) → IsHeap a → IsHeapTo (length (push_last a t)) (heap_push a t)
unfolding heap_push
heap_push-ordered a t h =
    up-IsHeapTo (length (push_last a t)) (length (push_last a t)) (push_last a t)
      (length (push_last a t) - 1) (omega (arith, length-append a (t ∷ []))) (push_last-UpInv a t h)

pub heap_push-SameTasks : (a : List Task) (t : Task) → SameTasks (push_last a t) (heap_push a t)
unfolding heap_push
heap_push-SameTasks a t =
    up-SameTasks (length (push_last a t)) (push_last a t) (length (push_last a t) - 1)
      (omega (arith, length-append a (t ∷ [])))

pub heap_push-IsHeap : (a : List Task) (t : Task) → IsHeap a → IsHeap (heap_push a t)
heap_push-IsHeap a t h =
    subst (λ n. IsHeapTo n (heap_push a t)) (sym (heap_push-SameTasks a t).lengths)
      (heap_push-ordered a t h)

pub heap_push-count :
    (p : Task → Bool) (a : List Task) (t : Task) → count p (heap_push a t) ≡ one p t + count p a
heap_push-count p a t = (heap_push-SameTasks a t).counts p ∙ count-push_last p a t

length-take_le : (n : ℕ) (a : List Task) → n ≤ length a → length (take n a) ≡ n
length-take_le zero a h = refl
length-take_le (suc n) [] h = absurd (omega (arith, h))
length-take_le (suc n) (x ∷ a) h = ap suc (length-take_le n a (omega (arith, h)))

get-take : (n : ℕ) (a : List Task) (k : ℕ) → k < n → get (take n a) k ≡ get a k
get-take zero a k h = absurd (omega (arith, h))
get-take (suc n) [] k h = refl
get-take (suc n) (x ∷ a) zero h = refl
get-take (suc n) (x ∷ a) (suc k) h = get-take n a k (omega (arith, h))

count-take :
    (p : Task → Bool) (n : ℕ) (a : List Task)
    → length a ≡ suc n
    → count p a ≡ one p (get a n) + count p (take n a)
count-take p n [] h = absurd (omega (arith, h))
count-take p zero (x ∷ []) h = refl
count-take p zero (x ∷ y ∷ a) h = absurd (omega (arith, h))
count-take p (suc n) (x ∷ a) h = omega (arith, count-take p n a (omega (arith, h)))

-- The list that `heap.Pop` sifts down to, before the scheduler's own Pop.
sifted : Task → List Task → List Task
sifted t ts = down (length ts + 1) (swap (t ∷ ts) 0 (length ts)) 0 (length ts)

sifted-Settled :
    (t : Task) (ts : List Task)
    → IsHeap (t ∷ ts)
    → Settled (length ts) (swap (t ∷ ts) 0 (length ts)) (sifted t ts)
unfolding sifted
sifted-Settled t ts h =
    let at = key-swap (t ∷ ts) 0 (length ts) (omega arith) (omega arith) in
    down-Settled (length ts + 1) (length ts) (swap (t ∷ ts) 0 (length ts)) 0 (omega arith) record {
      within = omega (arith, length-swap (t ∷ ts) 0 (length ts));
      edges = λ c p q r. ground (arith, at c, at (parent c), h c);
      bridged = λ c p q r s. absurd (omega (arith, s));
    }

length-sifted :
    (t : Task) (ts : List Task) → IsHeap (t ∷ ts) → length (sifted t ts) ≡ suc (length ts)
length-sifted t ts h = (sifted-Settled t ts h).tasks.lengths ∙ length-swap (t ∷ ts) 0 (length ts)

sifted_last : (t : Task) (ts : List Task) → IsHeap (t ∷ ts) → get (sifted t ts) (length ts) ≡ t
sifted_last t ts h =
    (sifted-Settled t ts h).last
    ∙ get-swap (t ∷ ts) 0 (length ts) (length ts) (omega arith) (omega arith)
    ∙ ground arith

heap_pop_is :
    (t : Task) (ts : List Task)
    → IsHeap (t ∷ ts)
    → heap_pop (t ∷ ts) ≡ (t, take (length ts) (sifted t ts))
unfolding heap_pop sifted
heap_pop_is t ts h =
    let size : length (sifted t ts) - 1 ≡ length ts = omega (arith, length-sifted t ts h) in
    let shrunk : suc (length ts) - 1 ≡ length ts = omega arith in
    ap (λ n. pop_last (down (n + 1) (swap (t ∷ ts) 0 n) 0 n)) shrunk
    ∙ ap (λ n. (get (sifted t ts) n, take n (sifted t ts))) size
    ∙ ap (λ u. (u, take (length ts) (sifted t ts))) (sifted_last t ts h)

rest-IsHeap :
    (t : Task) (ts : List Task) → IsHeap (t ∷ ts) → IsHeap (take (length ts) (sifted t ts))
rest-IsHeap t ts h c p q =
    let size = length-sifted t ts h in
    let small : c < length ts =
      omega (arith, q, length-take_le (length ts) (sifted t ts) (omega (arith, size))) in
    let at =
      λ (k : ℕ) (l : k < length ts). ap (λ u. u.next_ts) (get-take (length ts) (sifted t ts) k l) in
    let before = (sifted-Settled t ts h).order c p small in
    omega (arith, before, at c small, at (parent c) (omega (arith, p, small)))

rest-count :
    (p : Task → Bool) (t : Task) (ts : List Task)
    → IsHeap (t ∷ ts)
    → count p (take (length ts) (sifted t ts)) ≡ count p ts
rest-count p t ts h =
    let whole = count-take p (length ts) (sifted t ts) (length-sifted t ts h) in
    let same = (sifted-Settled t ts h).tasks.counts p in
    let exchanged = count-swap p (t ∷ ts) 0 (length ts) (omega arith) (omega arith) in
    omega (arith, whole, same, exchanged, ap (one p) (sifted_last t ts h))

-- The tasks that are before a bound, when none of the entries is.
count-none :
    (bound : ℕ) (ts : List Task)
    → ((i : ℕ) → i < length ts → bound ≤ key ts i)
    → count (λ u. ltb u.next_ts bound) ts ≡ 0
count-none bound [] h = refl
count-none bound (t ∷ ts) h =
    ground (arith, h 0 (omega arith), count-none bound ts (λ i p. h (suc i) (omega (arith, p))))

pub none_before :
    (t : Task) (ts : List Task) → IsHeap (t ∷ ts) → count (λ u. ltb u.next_ts t.next_ts) ts ≡ 0
none_before t ts h =
    count-none t.next_ts ts
      (λ i p. root_least (suc (length ts)) (t ∷ ts) (suc i) h (omega (arith, p)))

-- A push keeps the heap, and the tasks are the old ones and the new one: every test of tasks counts
-- one more if the new one passes it.
pub heap_push-refines :
    (a : List Task) (t : Task)
    → IsHeap a
    → IsHeap (heap_push a t) × ((p : Task → Bool) → count p (heap_push a t) ≡ one p t + count p a)
heap_push-refines a t h = (heap_push-IsHeap a t h, λ p. heap_push-count p a t)

-- A pop of a heap that has tasks gives the first; the rest is a heap again, of the other tasks, none
-- of which has an earlier time than the one taken out.
pub heap_pop-refines :
    (t : Task) (ts : List Task)
    → IsHeap (t ∷ ts)
    → ((heap_pop (t ∷ ts)).0 ≡ t)
      × IsHeap (heap_pop (t ∷ ts)).1
      × ((p : Task → Bool) → count p (heap_pop (t ∷ ts)).1 ≡ count p ts)
      × (count (λ u. ltb u.next_ts t.next_ts) (heap_pop (t ∷ ts)).1 ≡ 0)
heap_pop-refines t ts h =
    let counts =
      λ (p : Task → Bool). ap (λ r. count p r.1) (heap_pop_is t ts h) ∙ rest-count p t ts h in
    (
      ap (λ r. r.0) (heap_pop_is t ts h),
      subst (λ r. IsHeap r.1) (sym (heap_pop_is t ts h)) (rest-IsHeap t ts h),
      counts,
      counts (λ u. ltb u.next_ts t.next_ts) ∙ none_before t ts h,
    )

-- The scheduler's heap as the interface that the system takes.
abbrev pub binary_heap : HeapLib
binary_heap = record {
  IsHeap = IsHeap;
  push = heap_push;
  pop = λ t ts. (heap_pop (t ∷ ts)).1;
  empty-IsHeap = λ c p q. absurd (omega (arith, q));
  push-IsHeap = heap_push-IsHeap;
  pop-IsHeap = λ t ts h. (heap_pop-refines t ts h).1;
  push-count = heap_push-count;
  pop-count = λ p t ts h. (heap_pop-refines t ts h).2 p;
  first-least = none_before;
}
