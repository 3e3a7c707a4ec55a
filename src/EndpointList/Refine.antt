-- ===== src/EndpointList/Refine.antt =====
-- The doubly linked list against the list of its addresses, under AddToTail and Remove.
use victoriametrics_importer.Prelude.{
  ◌≡◌, refl, sym, ap, subst, ◌∙◌, true, false, Option, none, some, List, [], ◌∷◌, ◌++◌, arith, ◌==◌,
  Bool-cases,
}
use victoriametrics_importer.Prelude.Sets.{has, Distinct, erase, concat-Distinct}
use victoriametrics_importer.Prelude.Sets.{erase-Distinct, split}
use victoriametrics_importer.EndpointList.{Ptr, Endpoint, Store, Dll, insert, add_to_tail, remove}
use victoriametrics_importer.EndpointList.Seg.{
  first, last, Seg, LastNext, last-append, Seg-append, Seg-left, Seg-right, Seg-relink, FirstPrev,
  Seg-reprev, Distinct-left, Distinct-right, Distinct-apart,
}

-- The list `s` consists of the distinct endpoints `xs`, in order.
pub record Rep (s : Dll) (xs : List Ptr) : Type 0 where
  pub head : s.head ≡ first xs none
  pub tail : s.tail ≡ last none xs
  pub chain : Seg s.mem none xs none
  pub distinct : Distinct xs

-- What an endpoint holds beside its links.
abbrev pub payload : Endpoint → Endpoint
payload e = record e { prev = none; next = none }

abbrev pub SamePayload : Dll → Dll → Type 0
SamePayload s s' = (a : Ptr) → payload (s'.mem a) ≡ payload (s.mem a)

last_next :
    (m : Store) (pr : Option Ptr) (x : Ptr) (xs : List Ptr) (nx : Option Ptr)
    → Seg m pr (x ∷ xs) nx
    → LastNext (last (some x) xs) nx m
last_next m pr x [] nx s = s.1
last_next m pr x (y ∷ xs) nx s = last_next m (some x) y xs nx s.2

-- The effect of AddToTail on the store, behind the last endpoint `l`.
record Appended (p l : Ptr) (s s' : Dll) : Type 0 where
  head : s'.head ≡ s.head
  tail : s'.tail ≡ some p
  own_prev : (s'.mem p).prev ≡ some l
  own_next : (s'.mem p).next ≡ none
  linked : (s'.mem l).next ≡ some p
  prevs : (a : Ptr) → (a == p) ≡ false → (s'.mem a).prev ≡ (s.mem a).prev
  nexts : (a : Ptr) → (a == p) ≡ false → (a == l) ≡ false → (s'.mem a).next ≡ (s.mem a).next
  same : SamePayload s s'

append_effect :
    (p l : Ptr) (s : Dll)
    → s.tail ≡ some l
    → (s.mem l).next ≡ none
    → (l == p) ≡ false
    → Appended p l s (add_to_tail p s)
unfolding add_to_tail insert
append_effect p l s t n ne = rw t (record {
  head = ground arith;
  tail = ground arith;
  own_prev = ground arith;
  own_next = ground arith;
  linked = ground arith;
  prevs = λ a i. ground arith;
  nexts = λ a i j. ground arith;
  same = λ a. ground arith;
})

ne_of_has : (a b : Ptr) (xs : List Ptr) → has a xs ≡ true → has b xs ≡ false → (a == b) ≡ false
ne_of_has a b [] h k = absurd (cc)
ne_of_has a b (x ∷ xs) h k = ground (arith, ne_of_has a b xs)

pub last_mem :
    (x : Ptr) (xs : List Ptr) (l : Ptr) → last (some x) xs ≡ some l → has l (x ∷ xs) ≡ true
last_mem x [] l e = ground arith
last_mem x (y ∷ xs) l e = ground (arith, last_mem y xs l e)

append_first : (p : Ptr) (s : Dll) → Rep s [] → Rep (add_to_tail p s) (p ∷ [])
unfolding add_to_tail insert
append_first p s r = rw r.tail (record {
  head = ground arith;
  tail = ground arith;
  chain = ground arith;
  distinct = ground arith;
})

append_behind :
    (p l x : Ptr) (xs : List Ptr) (s s' : Dll)
    → last (some x) xs ≡ some l
    → has p (x ∷ xs) ≡ false
    → Rep s (x ∷ xs)
    → Appended p l s s'
    → Rep s' (x ∷ xs ++ p ∷ [])
append_behind p l x xs s s' e fresh r a = record {
  head = a.head ∙ r.head;
  tail = a.tail ∙ sym (last-append (some x) xs (p ∷ []));
  chain =
      Seg-append s'.mem none (x ∷ xs) (p ∷ []) none
        (Seg-relink s.mem s'.mem none (x ∷ xs) none (some p) r.distinct
          (λ b i. a.prevs b (ne_of_has b p (x ∷ xs) i fresh))
          (λ b i no. a.nexts b (ne_of_has b p (x ∷ xs) i fresh) (ground (arith, no, e)))
          (rw e a.linked) r.chain)
        (a.own_prev ∙ sym e, a.own_next, tt);
  distinct = concat-Distinct p (x ∷ xs) r.distinct fresh;
}

last_some : (x : Ptr) (xs : List Ptr) → (l : Ptr) × (last (some x) xs ≡ some l)
last_some x [] = (x, refl)
last_some x (y ∷ xs) = last_some y xs

append_facts :
    (p x : Ptr) (xs : List Ptr) (s : Dll)
    → has p (x ∷ xs) ≡ false
    → Rep s (x ∷ xs)
    → (l : Ptr) × (last (some x) xs ≡ some l) × Appended p l s (add_to_tail p s)
append_facts p x xs s fresh r =
    let (l, e) = last_some x xs in
    let end : (s.mem l).next ≡ none =
      subst (λ o. LastNext o none s.mem) e (last_next s.mem none x xs none r.chain) in
    (l, e, append_effect p l s (r.tail ∙ e) end (ne_of_has l p (x ∷ xs) (last_mem x xs l e) fresh))

-- Where the list consists of distinct endpoints linked both ways, AddToTail of one that is not
-- among them leaves the list with it at the end.
pub add_to_tail-Rep :
    (p : Ptr) (xs : List Ptr) (s : Dll)
    → has p xs ≡ false
    → Rep s xs
    → Rep (add_to_tail p s) (xs ++ p ∷ [])
add_to_tail-Rep p [] s fresh r = append_first p s r
add_to_tail-Rep p (x ∷ xs) s fresh r =
    let (l, e, a) = append_facts p x xs s fresh r in append_behind p l x xs s _ e fresh r a

pub add_to_tail-SamePayload : (p : Ptr) (s : Dll) → SamePayload s (add_to_tail p s)
unfolding add_to_tail insert
add_to_tail-SamePayload p s a = payload_lem p s.tail s a
  where
    payload_lem : (p : Ptr) (t : Option Ptr) (s : Dll) → SamePayload s (insert p t s)
    payload_lem p none s a = ground arith
    payload_lem p (some t) s a = ground arith

abbrev new_head : Option Ptr → Option Ptr → Option Ptr → Option Ptr
new_head none nx h = nx
new_head (some _) nx h = h

-- The effect of Remove on the neighbours `pr` and `nx` of `p`.
record Unlinked (p : Ptr) (pr nx : Option Ptr) (s s' : Dll) : Type 0 where
  head : s'.head ≡ new_head pr nx s.head
  tail : s'.tail ≡ new_head nx pr s.tail
  forth : LastNext pr nx s'.mem
  back : FirstPrev nx pr s'.mem
  prevs : (a : Ptr) → (a == p) ≡ false → (nx ≡ some a → ⊥) → (s'.mem a).prev ≡ (s.mem a).prev
  nexts : (a : Ptr) → (a == p) ≡ false → (pr ≡ some a → ⊥) → (s'.mem a).next ≡ (s.mem a).next
  own : ((s'.mem p).prev ≡ none) × ((s'.mem p).next ≡ none)
  same : SamePayload s s'

abbrev Other : Ptr → Option Ptr → Type 0
Other p none = Unit {0}
Other p (some a) = (a == p) ≡ false

remove_effect :
    (p : Ptr) (pr nx : Option Ptr) (s : Dll)
    → (s.mem p).prev ≡ pr
    → (s.mem p).next ≡ nx
    → Other p pr
    → Other p nx
    → Unlinked p pr nx s (remove p s)
unfolding remove
remove_effect p none none s e f o q =
    rw (e, f)
      (record {
        head = ground arith;
        tail = ground arith;
        forth = tt;
        back = tt;
        prevs = λ a i j. ground arith;
        nexts = λ a i j. ground arith;
        own = ground arith;
        same = λ a. ground arith;
      })
remove_effect p (some l) none s e f o q =
    rw (e, f)
      (record {
        head = ground arith;
        tail = ground arith;
        forth = ground arith;
        back = tt;
        prevs = λ a i j. ground arith;
        nexts = λ a i j. ground arith;
        own = ground arith;
        same = λ a. ground arith;
      })
remove_effect p none (some n) s e f o q =
    rw (e, f)
      (record {
        head = ground arith;
        tail = ground arith;
        forth = tt;
        back = ground arith;
        prevs = λ a i j. ground arith;
        nexts = λ a i j. ground arith;
        own = ground arith;
        same = λ a. ground arith;
      })
remove_effect p (some l) (some n) s e f o q =
    rw (e, f)
      (record {
        head = ground arith;
        tail = ground arith;
        forth = ground arith;
        back = ground arith;
        prevs = λ a i j. ground arith;
        nexts = λ a i j. ground arith;
        own = ground arith;
        same = λ a. ground arith;
      })

last-Other :
    (p : Ptr) (pr : Option Ptr) (xs : List Ptr)
    → has p xs ≡ false
    → Other p pr
    → Other p (last pr xs)
last-Other p pr [] h o = o
last-Other p pr (x ∷ xs) h o = last-Other p (some x) xs (ground arith) (ground arith)

first-Other : (p : Ptr) (xs : List Ptr) → has p xs ≡ false → Other p (first xs none)
first-Other p [] h = tt
first-Other p (x ∷ xs) h = ground arith

-- The parts of a list around one of its endpoints.
record Around (p : Ptr) (bs cs : List Ptr) (s : Dll) : Type 0 where
  before : has p bs ≡ false
  after : has p cs ≡ false
  prev : (s.mem p).prev ≡ last none bs
  next : (s.mem p).next ≡ first cs none
  left : Seg s.mem none bs (some p)
  right : Seg s.mem (some p) cs none

around : (p : Ptr) (bs cs : List Ptr) (s : Dll) → Rep s (bs ++ p ∷ cs) → Around p bs cs s
around p bs cs s r =
    let right = Seg-right s.mem none bs (p ∷ cs) none r.chain in
    record {
      before = ground (arith, Distinct-apart p bs (p ∷ cs) r.distinct, Bool-cases (has p bs));
      after = (Distinct-right bs (p ∷ cs) r.distinct).0;
      prev = right.0;
      next = right.1;
      left = Seg-left s.mem none bs (p ∷ cs) none r.chain;
      right = right.2;
    }

new_head-first :
    (bs cs : List Ptr) (p : Ptr)
    → new_head (last none bs) (first cs none) (first (bs ++ p ∷ cs) none) ≡ first (bs ++ cs) none
new_head-first [] cs p = refl
new_head-first (x ∷ bs) cs p = new_head-behind x bs
  where
    new_head-behind :
        (y : Ptr) (ds : List Ptr) → new_head (last (some y) ds) (first cs none) (some x) ≡ some x
    new_head-behind y [] = refl
    new_head-behind y (z ∷ ds) = new_head-behind z ds

new_head-last :
    (bs cs : List Ptr) (p : Ptr)
    → new_head (first cs none) (last none bs) (last none (bs ++ p ∷ cs)) ≡ last none (bs ++ cs)
new_head-last bs [] p = rw (last-append none bs []) refl
new_head-last bs (x ∷ cs) p =
    rw (last-append none bs (p ∷ x ∷ cs), last-append none bs (x ∷ cs)) refl

joined :
    (p : Ptr) (bs cs : List Ptr) (s s' : Dll)
    → Rep s (bs ++ p ∷ cs)
    → Around p bs cs s
    → Unlinked p (last none bs) (first cs none) s s'
    → Distinct (bs ++ cs)
    → Rep s' (bs ++ cs)
joined p bs cs s s' r a u d = record {
  head = u.head ∙ ap (new_head (last none bs) (first cs none)) r.head ∙ new_head-first bs cs p;
  tail = u.tail ∙ ap (new_head (first cs none) (last none bs)) r.tail ∙ new_head-last bs cs p;
  chain =
      Seg-append s'.mem none bs cs none
        (Seg-relink s.mem s'.mem none bs (some p) (first cs none) (Distinct-left bs cs d)
          (λ b i. u.prevs b (ne_of_has b p bs i a.before) (λ e. apart b i e))
          (λ b i no. u.nexts b (ne_of_has b p bs i a.before) no) u.forth a.left)
        (Seg-reprev s.mem s'.mem (some p) (last none bs) cs none (Distinct-right bs cs d)
          (λ b i. u.nexts b (ne_of_has b p cs i a.after) (λ e. behind b i e))
          (λ b i no. u.prevs b (ne_of_has b p cs i a.after) no) u.back a.right);
  distinct = d;
}
  where
    first_mem : (b : Ptr) (xs : List Ptr) → first xs none ≡ some b → has b xs ≡ true
    first_mem b [] e = absurd (cc)
    first_mem b (x ∷ xs) e = ground arith

    apart : (b : Ptr) → has b bs ≡ true → first cs none ≡ some b → ⊥
    apart b i e = ground (arith, Distinct-apart b bs cs d i, first_mem b cs e)

    end_mem : (b : Ptr) (xs : List Ptr) → last none xs ≡ some b → has b xs ≡ true
    end_mem b [] e = absurd (cc)
    end_mem b (x ∷ xs) e = last_mem x xs b e

    behind : (b : Ptr) → has b cs ≡ true → last none bs ≡ some b → ⊥
    behind b i e = ground (arith, Distinct-apart b bs cs d (end_mem b bs e))

-- Where the list consists of distinct endpoints linked both ways, Remove of one of them leaves the
-- list of the others in their order, and clears the links of the one removed.
pub remove-Rep :
    (p : Ptr) (xs : List Ptr) (s : Dll)
    → has p xs ≡ true
    → Rep s xs
    → Rep (remove p s) (erase p xs)
      × ((remove p s).mem p).prev ≡ none
      × ((remove p s).mem p).next ≡ none
remove-Rep p xs s h r =
    let c = split p xs h in
    let r' : Rep s (c.before ++ p ∷ c.after) = subst (Rep s) c.whole r in
    let a = around p c.before c.after s r' in
    let u =
      remove_effect p (last none c.before) (first c.after none) s a.prev a.next
        (last-Other p none c.before a.before tt) (first-Other p c.after a.after) in
    let d : Distinct (c.before ++ c.after) =
      subst Distinct c.rest (erase-Distinct p xs r.distinct) in
    (
      subst (Rep (remove p s)) (sym c.rest) (joined p c.before c.after s _ r' a u d),
      u.own.0,
      u.own.1,
    )

pub remove-SamePayload : (p : Ptr) (s : Dll) → SamePayload s (remove p s)
unfolding remove
remove-SamePayload p s a = ground arith
