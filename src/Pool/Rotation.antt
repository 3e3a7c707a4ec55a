-- ===== src/Pool/Rotation.antt =====
-- GetCurrentHealthy behind its wait: the rotation of the healthy list, and the error reset.
use victoriametrics_importer.Prelude.{
  ℕ, ◌≡◌, refl, sym, ap, subst, ◌∙◌, Bool, true, false, Option, none, some, List, [], ◌∷◌, ◌++◌,
  arith, if◌then◌else◌,
}
use victoriametrics_importer.Prelude.Sets.{has, has_head, erase_head}
use victoriametrics_importer.EndpointList.{Ptr}
use victoriametrics_importer.Pool.{Pool, select, on_list, modify, reset_errors, same_ptr, to_tail}
use victoriametrics_importer.Pool.Lists.{modify-Rep, single}
use victoriametrics_importer.EndpointList.Seg.{first}
use victoriametrics_importer.Pool.{
  rotation_due, rotate, rotate_by, reset_by, reset_due, apply_reset, select_head, finish,
}
use victoriametrics_importer.Pool.Invariant.{
  Inv, below, update_self, update_other, at_or_other, Inv-same, to_tail-Inv,
}

-- The healthy list after a selection: its head goes to the tail when a rotation is due.
abbrev pub rotated : ℕ → Pool → List Ptr → List Ptr
rotated now p [] = []
rotated now p (x ∷ xs) =
    if p.first_use then x ∷ xs else if rotation_due now p then xs ++ x ∷ [] else x ∷ xs

module _ (now : ℕ) (p : Pool) (x : Ptr) (xs : List Ptr) (v : Inv p (x ∷ xs)) where
  rotate_by-Inv :
      (used due same : Bool)
      → same_ptr p.head p.tail ≡ same
      → Inv
          (rotate_by used due same now x p)
          (if used then x ∷ xs else if due then xs ++ x ∷ [] else x ∷ xs)
  unfolding rotate_by
  rotate_by-Inv true due same e = Inv-same p _ _ refl refl v
  rotate_by-Inv false false same e = v
  rotate_by-Inv false true true e =
      subst (Inv p)
        (sym (single x (x ∷ xs) p.list (has_head x xs) v.rep e)
          ∙ ap (λ l. l ++ x ∷ []) (erase_head x xs))
        v
  rotate_by-Inv false true false e = Inv-same (on_list (to_tail x) p) _ _ refl refl (
      subst (Inv _) (ap (λ l. l ++ x ∷ []) (erase_head x xs))
        (to_tail-Inv x p (x ∷ xs) (has_head x xs) v))

  rotate-Inv : Inv (rotate now x p) (rotated now p (x ∷ xs))
  unfolding rotate
  rotate-Inv = rotate_by-Inv p.first_use (rotation_due now p) (same_ptr p.head p.tail) refl

reset_by-Inv :
    (b : Bool) (ep : Ptr) (p : Pool) (xs : List Ptr) → Inv p xs → Inv (reset_by b ep p) xs
unfolding reset_by
reset_by-Inv false ep p xs v = v
reset_by-Inv true ep p xs v = record {
  rep = modify-Rep ep reset_errors p.list xs (λ e. (refl, refl)) v.rep;
  flags = λ a. ground (arith, v.flags a);
  in_budget = λ a.
      at_or_other ep a
        (λ b. has b xs ≡ true → below ((on_list (modify ep reset_errors) p).mem b) ≡ true)
        (λ i. ap below (update_self p.mem ep reset_errors) ∙ v.thresholds ep)
        (λ e i. ap below (update_other p.mem ep a reset_errors e) ∙ v.in_budget a i);
  thresholds = λ a. ground (arith, v.thresholds a);
  apart = v.apart;
  checks = v.checks;
}

apply_reset-Inv :
    (now : ℕ) (ep : Ptr) (p : Pool) (xs : List Ptr) → Inv p xs → Inv (apply_reset now ep p) xs
unfolding apply_reset
apply_reset-Inv now ep p xs v = reset_by-Inv (reset_due now ep p) ep p xs v

finish-Inv :
    (now : ℕ) (o : Option Ptr) (p : Pool) (xs : List Ptr)
    → Inv p xs
    → Inv (finish now o p).1 xs × ((finish now o p).0 ≡ o)
unfolding finish
finish-Inv now none p xs v = (v, refl)
finish-Inv now (some ep) p xs v = (apply_reset-Inv now ep p xs v, refl)

-- Where the invariant holds, a selection keeps it with the list rotated if that is due, and
-- returns the head of that list, none if it is empty.
pub select-Inv :
    (now : ℕ) (p : Pool) (xs : List Ptr)
    → Inv p xs
    → Inv (select now p).1 (rotated now p xs) × ((select now p).0 ≡ first (rotated now p xs) none)
unfolding select select_head
select-Inv now p xs v = by_list xs v
  where
    by_list :
        (xs : List Ptr)
        → Inv p xs
        → Inv (select now p).1 (rotated now p xs)
          × ((select now p).0 ≡ first (rotated now p xs) none)
    by_list [] v =
        subst (λ o. Inv (select_head now o p).1 [] × ((select_head now o p).0 ≡ none))
          (sym v.rep.head) (v, refl)
    by_list (x ∷ xs) v =
        let w = rotate-Inv now p x xs v in
        let (a, b) = finish-Inv now (rotate now x p).head (rotate now x p) _ w in
        subst
          (λ o.
            Inv (select_head now o p).1 (rotated now p (x ∷ xs))
            × ((select_head now o p).0 ≡ first (rotated now p (x ∷ xs)) none))
          (sym v.rep.head) (a, b ∙ w.rep.head)
