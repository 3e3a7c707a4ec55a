-- ===== src/Scheduler/Heap/Swaps.antt =====
-- What an exchange of two entries does to the entries and to their number.
use victoriametrics_importer.Prelude.{
  ℕ, zero, suc, ◌+◌, ◌<◌, ◌≡◌, refl, ap, ◌∙◌, Bool, true, false, List, [], ◌∷◌, ◌==◌, if◌then◌else◌,
  length, length-set, set, arith,
}
use victoriametrics_importer.Scheduler.{Task}
use victoriametrics_importer.Scheduler.System.{one, count}
use victoriametrics_importer.Scheduler.Heap.{get, key, swap}

if_same : (b : Bool) (t : Task) → (if b then t else t) ≡ t
if_same true t = refl
if_same false t = refl

get-set :
    (a : List Task) (i j : ℕ) (v : Task)
    → i < length a
    → get (set a i v) j ≡ (if i == j then v else get a j)
get-set [] i j v h = absurd (omega (arith, h))
get-set (x ∷ a) zero zero v h = refl
get-set (x ∷ a) (suc i) (suc j) v h = ground (arith, get-set a i j v (omega (arith, h)))
get-set (x ∷ a) zero (suc j) v h = ground arith
get-set (x ∷ a) (suc i) zero v h = ground arith

get-set_idle : (a : List Task) (i j : ℕ) → i < length a → get (set a i (get a j)) j ≡ get a j
get-set_idle a i j h = rw (get-set a i j (get a j) h) (if_same (i == j) (get a j))

pub length-swap : (a : List Task) (i j : ℕ) → length (swap a i j) ≡ length a
unfolding swap
length-swap a i j = length-set (set a i (get a j)) j (get a i) ∙ length-set a i (get a j)

pub get-swap :
    (a : List Task) (i j k : ℕ)
    → i < length a
    → j < length a
    → get (swap a i j) k ≡ (if j == k then get a i else if i == k then get a j else get a k)
unfolding swap
get-swap a i j k p q =
    rw
      (
        get-set (set a i (get a j)) j k (get a i) (omega (arith, length-set a i (get a j), q)),
        get-set a i k (get a j) p,
      )
      refl

pub count-set :
    (p : Task → Bool) (a : List Task) (i : ℕ) (v : Task)
    → i < length a
    → count p (set a i v) + one p (get a i) ≡ count p a + one p v
count-set p [] i v h = absurd (omega (arith, h))
count-set p (x ∷ a) zero v h = omega arith
count-set p (x ∷ a) (suc i) v h = omega (arith, count-set p a i v (omega (arith, h)))

pub count-swap :
    (p : Task → Bool) (a : List Task) (i j : ℕ)
    → i < length a
    → j < length a
    → count p (swap a i j) ≡ count p a
unfolding swap
count-swap p a i j h k =
    let first = count-set p a i (get a j) h in
    let second =
      count-set p (set a i (get a j)) j (get a i) (omega (arith, length-set a i (get a j), k)) in
    omega (arith, first, second, ap (one p) (get-set_idle a i j h))

next_ts-if :
    (b : Bool) (t u : Task) → (if b then t else u).next_ts ≡ (if b then t.next_ts else u.next_ts)
next_ts-if true t u = refl
next_ts-if false t u = refl

pub key-swap :
    (a : List Task) (i j : ℕ)
    → i < length a
    → j < length a
    → (k : ℕ)
    → key (swap a i j) k ≡ (if j == k then key a i else if i == k then key a j else key a k)
key-swap a i j p q k =
    ap (λ t. t.next_ts) (get-swap a i j k p q)
    ∙ next_ts-if (j == k) (get a i) (if i == k then get a j else get a k)
    ∙ ap (λ x. if j == k then key a i else x) (next_ts-if (i == k) (get a j) (get a k))
