-- ===== src/BufferPool/Owners.antt =====
-- The buffers that a pool holds as a stack, next to those that its users hold.
use victoriametrics_importer.Prelude.{
  ℕ, zero, suc, ◌≤◌, ◌<◌, ◌≡◌, refl, ap, ◌∙◌, Bool, true, false, List, [], ◌∷◌, ◌++◌, leb, length,
  get_or, set, arith, Bool-cases, inl, inr, length-append, length-set,
}
use victoriametrics_importer.Prelude.Sets.{
  has, Distinct, erase, has-append, has-erase_self, has-erase_absent, erase-Distinct,
}
use victoriametrics_importer.Prelude.Int.{pos_part}
use victoriametrics_importer.BufferPool.{BufPool, push_by}

-- The buffers that the pool holds, the next to be handed out first.
abbrev pub stack_of : (n : ℕ) → List ℕ → List ℕ
stack_of zero pool = []
stack_of (suc n) pool = get_or pool n 0 ∷ stack_of n pool

abbrev pub idle : BufPool → List ℕ
idle p = stack_of p.pool_size p.pool

abbrev pub AllBelow : ℕ → List ℕ → Type 0
AllBelow n [] = Unit {0}
AllBelow n (x ∷ xs) = x < n × AllBelow n xs

get_or-append : (xs : List ℕ) (b n : ℕ) → n < length xs → get_or (xs ++ b ∷ []) n 0 ≡ get_or xs n 0
get_or-append [] b n h = absurd (omega arith)
get_or-append (x ∷ xs) b zero h = refl
get_or-append (x ∷ xs) b (suc n) h = get_or-append xs b n (omega arith)

get_or-append_end : (xs : List ℕ) (b : ℕ) → get_or (xs ++ b ∷ []) (length xs) 0 ≡ b
get_or-append_end [] b = refl
get_or-append_end (x ∷ xs) b = get_or-append_end xs b

get_or-set_below : (xs : List ℕ) (b m n : ℕ) → n < m → get_or (set xs m b) n 0 ≡ get_or xs n 0
get_or-set_below [] b m n h = refl
get_or-set_below (x ∷ xs) b zero n h = absurd (omega arith)
get_or-set_below (x ∷ xs) b (suc m) zero h = refl
get_or-set_below (x ∷ xs) b (suc m) (suc n) h = get_or-set_below xs b m n (omega arith)

get_or-set_self : (xs : List ℕ) (b n : ℕ) → n < length xs → get_or (set xs n b) n 0 ≡ b
get_or-set_self [] b n h = absurd (omega arith)
get_or-set_self (x ∷ xs) b zero h = refl
get_or-set_self (x ∷ xs) b (suc n) h = get_or-set_self xs b n (omega arith)

stack_of-append :
    (n : ℕ) (xs : List ℕ) (b : ℕ) → n ≤ length xs → stack_of n (xs ++ b ∷ []) ≡ stack_of n xs
stack_of-append zero xs b h = refl
stack_of-append (suc n) xs b h =
    rw (get_or-append xs b n (omega arith)) (rw (stack_of-append n xs b (omega arith)) refl)

stack_of-set : (n m : ℕ) (xs : List ℕ) (b : ℕ) → n ≤ m → stack_of n (set xs m b) ≡ stack_of n xs
stack_of-set zero m xs b h = refl
stack_of-set (suc n) m xs b h =
    rw (get_or-set_below xs b m n (omega arith)) (rw (stack_of-set n m xs b (omega arith)) refl)

-- A buffer that is not discarded comes on top of the idle ones, the others as they were.
pub push_by-idle :
    (b : ℕ) (p : BufPool)
    → p.pool_size ≤ length p.pool
    → idle (push_by (leb (length p.pool) p.pool_size) b p) ≡ b ∷ idle p
unfolding push_by
push_by-idle b p h = elim (Bool-cases (leb (length p.pool) p.pool_size)) [
  | inl e ↦ rw e (over (ground arith))
  | inr e ↦ rw e (within (ground arith))
]
  where
    over : p.pool_size ≡ length p.pool → idle (push_by true b p) ≡ b ∷ idle p
    over e =
        rw (ap (λ n. get_or (p.pool ++ b ∷ []) n 0) e ∙ get_or-append_end p.pool b)
          (rw (stack_of-append p.pool_size p.pool b h) refl)

    within : p.pool_size < length p.pool → idle (push_by false b p) ≡ b ∷ idle p
    within l =
        rw (get_or-set_self p.pool b p.pool_size l)
          (rw (stack_of-set p.pool_size p.pool_size p.pool b (omega arith)) refl)

-- What the pool keeps right: every buffer has one place, and the pool never grows past its limit.
pub record IsSound (p : BufPool) (out : List ℕ) : Type 0 where
  pub fits : p.pool_size ≤ length p.pool
  pub once : Distinct (idle p ++ out)
  pub made : AllBelow p.fresh (idle p ++ out)
  pub capped : 0 < pos_part p.max_pool_size → p.pool_size ≤ pos_part p.max_pool_size

pub push_by-size :
    (over : Bool) (b : ℕ) (p : BufPool) → (push_by over b p).pool_size ≡ suc p.pool_size
unfolding push_by
push_by-size true b p = refl
push_by-size false b p = refl

pub push_by-fits :
    (b : ℕ) (p : BufPool)
    → p.pool_size ≤ length p.pool
    → suc p.pool_size ≤ length (push_by (leb (length p.pool) p.pool_size) b p).pool
unfolding push_by
push_by-fits b p h = elim (Bool-cases (leb (length p.pool) p.pool_size)) [
  | inl e ↦ rw e (rw (length-append p.pool (b ∷ [])) (omega arith))
  | inr e ↦ rw e (rw (length-set p.pool p.pool_size b) (ground arith))
]

pub push_by-same :
    (over : Bool) (b : ℕ) (p : BufPool)
    → ((push_by over b p).fresh ≡ p.fresh) × ((push_by over b p).max_pool_size ≡ p.max_pool_size)
unfolding push_by
push_by-same true b p = (refl, refl)
push_by-same false b p = (refl, refl)

pub below-fresh : (n : ℕ) (xs : List ℕ) → AllBelow n xs → has n xs ≡ false
below-fresh n [] h = refl
below-fresh n (x ∷ xs) h = ground (arith, below-fresh n xs h.1)

pub AllBelow-suc : (n : ℕ) (xs : List ℕ) → AllBelow n xs → AllBelow (suc n) xs
AllBelow-suc n [] h = tt
AllBelow-suc n (x ∷ xs) h = (omega arith, AllBelow-suc n xs h.1)

-- A member of a list of distinct addresses may be put anywhere in it.
pub insert-Distinct :
    (xs ys : List ℕ) (b : ℕ)
    → Distinct (xs ++ ys)
    → has b (xs ++ ys) ≡ false
    → Distinct (xs ++ b ∷ ys)
insert-Distinct [] ys b d h = (h, d)
insert-Distinct (x ∷ xs) ys b d h = (
  ground (arith, d.0, h, has-append x xs (b ∷ ys), has-append x xs ys),
  insert-Distinct xs ys b d.1 (ground arith),
)

has-insert : (xs ys : List ℕ) (b c : ℕ) → has c (xs ++ b ∷ ys) ≡ has c (b ∷ xs ++ ys)
has-insert [] ys b c = refl
has-insert (x ∷ xs) ys b c = ground (arith, has-insert xs ys b c)

pub insert-AllBelow :
    (n : ℕ) (xs ys : List ℕ) (b : ℕ) → b < n → AllBelow n (xs ++ ys) → AllBelow n (xs ++ b ∷ ys)
insert-AllBelow n [] ys b l h = (l, h)
insert-AllBelow n (x ∷ xs) ys b l h = (h.0, insert-AllBelow n xs ys b l h.1)

pub take_out-Distinct :
    (xs ys : List ℕ) (b : ℕ)
    → Distinct (xs ++ ys)
    → has b ys ≡ true
    → Distinct (b ∷ xs ++ erase b ys)
take_out-Distinct [] ys b d h = (has-erase_self b ys d, erase-Distinct b ys d)
take_out-Distinct (x ∷ xs) ys b d h =
    let r = take_out-Distinct xs ys b d.1 h in
    (
      ground (arith, r.0, d.0, has-append x xs ys),
      (
        ground
            (arith, d.0, has-append x xs ys, has-append x xs (erase b ys), has-erase_absent b x ys),
        r.1,
      ),
    )

pub erase-AllBelow : (n : ℕ) (ys : List ℕ) (b : ℕ) → AllBelow n ys → AllBelow n (erase b ys)
erase-AllBelow n [] b h = tt
erase-AllBelow n (y ∷ ys) b h = ground (arith, h, erase-AllBelow n ys b h.1)

pub has-AllBelow : (n : ℕ) (ys : List ℕ) (b : ℕ) → has b ys ≡ true → AllBelow n ys → b < n
has-AllBelow n [] b h a = absurd (cc h)
has-AllBelow n (y ∷ ys) b h a = ground (arith, h, a.0, has-AllBelow n ys b)

pub append-AllBelow :
    (n : ℕ) (xs ys : List ℕ) → AllBelow n (xs ++ ys) → AllBelow n xs × AllBelow n ys
append-AllBelow n [] ys h = (tt, h)
append-AllBelow n (x ∷ xs) ys h = let r = append-AllBelow n xs ys h.1 in ((h.0, r.0), r.1)

pub of-AllBelow : (n : ℕ) (xs ys : List ℕ) → AllBelow n xs → AllBelow n ys → AllBelow n (xs ++ ys)
of-AllBelow n [] ys h k = k
of-AllBelow n (x ∷ xs) ys h k = (h.0, of-AllBelow n xs ys h.1 k)
