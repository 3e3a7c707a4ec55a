-- ===== src/BufferPool/Sharing.antt =====
-- GetBuf and ReturnBuf with several users of one pool.
use victoriametrics_importer.Prelude.{
  ℕ, zero, suc, ◌-◌, ◌≤◌, ◌<◌, ◌≡◌, refl, sym, subst, Bool, true, false, Option, none, some, List,
  [], ◌∷◌, ◌++◌, ltb, leb, length, get_or, arith, Bool-cases, inl, inr,
}
use victoriametrics_importer.Prelude.Sets.{has, Distinct, erase}
use victoriametrics_importer.Prelude.Int.{pos_part}
use victoriametrics_importer.BufferPool.{
  BufPool, get_buf, get_buf_by, at_capacity, push_by, return_by, return_buf, Use, take_one,
  give_back, Shared, follow_all,
}
use victoriametrics_importer.BufferPool.Owners.{
  stack_of, idle, AllBelow, push_by-idle, push_by-size, push_by-fits, push_by-same, below-fresh,
  AllBelow-suc, insert-Distinct, insert-AllBelow, take_out-Distinct, erase-AllBelow, has-AllBelow,
  append-AllBelow, of-AllBelow, IsSound,
}

pred_suc : (n : ℕ) → n ≡ suc n - 1
pred_suc n = omega arith

stack_of-top :
    (n : ℕ) (pool : List ℕ)
    → 0 < n
    → stack_of n pool ≡ get_or pool (n - 1) 0 ∷ stack_of (n - 1) pool
stack_of-top zero pool h = absurd (omega arith)
stack_of-top (suc n) pool h =
    subst (λ k. get_or pool n 0 ∷ stack_of n pool ≡ get_or pool k 0 ∷ stack_of k pool) (pred_suc n)
      refl

append-Distinct : (xs ys : List ℕ) → Distinct (xs ++ ys) → Distinct ys
append-Distinct [] ys d = d
append-Distinct (x ∷ xs) ys d = append-Distinct xs ys d.1

swap-Distinct : (xs ys : List ℕ) (b : ℕ) → Distinct (b ∷ xs ++ ys) → Distinct (xs ++ b ∷ ys)
swap-Distinct xs ys b d = insert-Distinct xs ys b d.1 d.0

-- What GetBuf gives: a buffer that is empty and that nobody holds, and a sound pool.
pub record IsGot (p : BufPool) (out : List ℕ) (b : ℕ) (q : BufPool) : Type 0 where
  pub unused : has b out ≡ false
  pub empty : q.contents b ≡ []
  pub sound : IsSound q (b ∷ out)

get_buf_by-IsGot :
    (found : Bool) (p : BufPool) (out : List ℕ)
    → ltb 0 p.pool_size ≡ found
    → IsSound p out
    → IsGot p out (get_buf_by found p).0 (get_buf_by found p).1
unfolding get_buf_by
get_buf_by-IsGot true p out e s =
    let n : 0 < p.pool_size = ground arith in
    let b = get_or p.pool (p.pool_size - 1) 0 in
    let rest = stack_of (p.pool_size - 1) p.pool in
    let top : idle p ≡ b ∷ rest = stack_of-top p.pool_size p.pool n in
    let d : Distinct (b ∷ rest ++ out) = subst (λ l. Distinct (l ++ out)) top s.once in
    let m : AllBelow p.fresh (b ∷ rest ++ out) =
      subst (λ l. AllBelow p.fresh (l ++ out)) top s.made in
    let w : Distinct (rest ++ b ∷ out) = swap-Distinct rest out b d in
    record {
      unused = (append-Distinct rest (b ∷ out) w).0;
      empty = ground arith;
      sound = record {
        fits = omega (arith, s.fits);
        once = w;
        made = insert-AllBelow p.fresh rest out b m.0 m.1;
        capped = λ h. omega (arith, s.capped h);
      };
    }
get_buf_by-IsGot false p out e s =
    let u = below-fresh p.fresh (idle p ++ out) s.made in
    let w = insert-Distinct (idle p) out p.fresh s.once u in
    record {
      unused = (append-Distinct (idle p) (p.fresh ∷ out) w).0;
      empty = ground arith;
      sound = record {
        fits = s.fits;
        once = w;
        made =
            insert-AllBelow (suc p.fresh) (idle p) out p.fresh (omega arith)
              (AllBelow-suc p.fresh (idle p ++ out) s.made);
        capped = s.capped;
      };
    }

-- From a sound pool GetBuf hands out a buffer that is empty and that no user holds, and leaves a
-- sound pool.
pub get_buf-IsGot :
    (p : BufPool) (out : List ℕ) → IsSound p out → IsGot p out (get_buf p).0 (get_buf p).1
unfolding get_buf
get_buf-IsGot p out s = get_buf_by-IsGot (ltb 0 p.pool_size) p out refl s

-- ReturnBuf, of a buffer that its user holds, leaves a sound pool.
pub return_buf-IsSound :
    (b : ℕ) (p : BufPool) (out : List ℕ)
    → has b out ≡ true
    → IsSound p out
    → IsSound (return_buf (some b) p) (erase b out)
unfolding return_buf
return_buf-IsSound b p out h s = by_full (at_capacity p) refl
  where
    d : Distinct (b ∷ idle p ++ erase b out)
    d = take_out-Distinct (idle p) out b s.once h

    parts : AllBelow p.fresh (idle p) × AllBelow p.fresh out
    parts = append-AllBelow p.fresh (idle p) out s.made

    m : AllBelow p.fresh (idle p ++ erase b out)
    m = of-AllBelow p.fresh (idle p) (erase b out) parts.0 (erase-AllBelow p.fresh out b parts.1)

    by_full : (full : Bool) → at_capacity p ≡ full → IsSound (return_by full b p) (erase b out)
    by_full true e =
        unfold return_by in record { fits = s.fits; once = d.1; made = m; capped = s.capped }
    by_full false e =
        let over = leb (length p.pool) p.pool_size in
        let same = push_by-same over b p in
        unfold return_by in
        record {
          fits =
              subst (λ n. n ≤ length (push_by over b p).pool) (sym (push_by-size over b p))
                (push_by-fits b p s.fits);
          once = subst (λ l. Distinct (l ++ erase b out)) (sym (push_by-idle b p s.fits)) d;
          made =
              subst (λ n. AllBelow n (idle (push_by over b p) ++ erase b out)) (sym same.0)
                (subst (λ l. AllBelow p.fresh (l ++ erase b out)) (sym (push_by-idle b p s.fits))
                  (has-AllBelow p.fresh out b h parts.1, m));
          capped = λ k.
              let k' : 0 < pos_part p.max_pool_size = subst (λ z. 0 < pos_part z) same.1 k in
              rw (push_by-size over b p) (rw same.1 (room k' e));
        }
      where
        room :
            0 < pos_part p.max_pool_size
            → at_capacity p ≡ false
            → suc p.pool_size ≤ pos_part p.max_pool_size
        room k e = unfold at_capacity in ground (arith, k, e)

-- A pool that is sound stays so through any run of its users, in which each buffer given back is
-- one that somebody holds: each buffer has one place, idle or with one user, and no more are idle
-- than the limit allows.
pub follow_all-IsSound :
    (us : List Use) (w v : Shared)
    → IsSound w.bufs w.out
    → follow_all us w ≡ some v
    → IsSound v.bufs v.out
unfolding follow_all
follow_all-IsSound [] w v s e = subst (λ o. OfSome o) e s
  where
    OfSome : Option Shared → Type 0
    OfSome none = Unit {0}
    OfSome (some u) = IsSound u.bufs u.out
follow_all-IsSound (take_one ∷ us) w v s e =
    follow_all-IsSound us _ v (get_buf-IsGot w.bufs w.out s).sound e
follow_all-IsSound (give_back b ∷ us) w v s e = elim (Bool-cases (has b w.out)) [
  | inl h ↦ follow_all-IsSound us _ v (return_buf-IsSound b w.bufs w.out h s) (ground arith)
  | inr h ↦ absurd (ground arith)
]
