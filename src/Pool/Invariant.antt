-- ===== src/Pool/Invariant.antt =====
-- The invariant of the pool, and the list of healthy endpoints that each operation leaves.
use victoriametrics_importer.Prelude.{
  ◌≡◌, sym, ap, subst, ◌∙◌, Bool, true, false, List, [], ◌∷◌, ◌++◌, arith, ◌==◌, Bool-cases, inl,
  inr, ==_iff,
}
use victoriametrics_importer.Prelude.Int.{pos, ltb_ℤ}
use victoriametrics_importer.Prelude.Sets.{has, Distinct, erase, has-append, has-erase_ne}
use victoriametrics_importer.EndpointList.{Ptr, Endpoint, Store, update}
use victoriametrics_importer.EndpointList.Refine.{Rep, SamePayload}
use victoriametrics_importer.Pool.{Pool, on_list, to_tail}
use victoriametrics_importer.Pool.Lists.{to_tail-Rep, to_tail-SamePayload}

-- `numErrors < markUnhealthyThreshold`, and `0 < markUnhealthyThreshold`
abbrev pub below : Endpoint → Bool
below e = ltb_ℤ (pos e.num_errors) e.mark_unhealthy_threshold

abbrev pub positive : Endpoint → Bool
positive e = ltb_ℤ (pos 0) e.mark_unhealthy_threshold

-- The healthy list consists of `xs`: exactly the endpoints marked healthy, each with fewer errors
-- than its threshold, and none of them under health check.
pub record Inv (p : Pool) (xs : List Ptr) : Type 0 where
  pub rep : Rep p.list xs
  pub flags : (a : Ptr) → (p.mem a).healthy ≡ has a xs
  pub in_budget : (a : Ptr) → has a xs ≡ true → below (p.mem a) ≡ true
  pub thresholds : (a : Ptr) → positive (p.mem a) ≡ true
  pub apart : (a : Ptr) → has a p.health_checks ≡ true → has a xs ≡ false
  pub checks : Distinct p.health_checks

pub has-to_tail :
    (a ep : Ptr) (xs : List Ptr)
    → has ep xs ≡ true
    → Distinct xs
    → has a (erase ep xs ++ ep ∷ []) ≡ has a xs
has-to_tail a ep xs h d = elim (Bool-cases (a == ep)) [
  | inl e ↦ ground (arith, has-append a (erase ep xs) (ep ∷ []))
  | inr e ↦ ground (arith, has-append a (erase ep xs) (ep ∷ []), has-erase_ne ep a xs)
]

pub update_self : (s : Store) (ep : Ptr) (f : Endpoint → Endpoint) → update s ep f ep ≡ f (s ep)
update_self s ep f = ground arith

pub update_other :
    (s : Store) (ep a : Ptr) (f : Endpoint → Endpoint) → (ep == a) ≡ false → update s ep f a ≡ s a
update_other s ep a f e = rw e

-- A property of every endpoint, by its proof at `ep` and at the others.
pub at_or_other : (ep a : Ptr) (P : Ptr → Type 0) → P ep → ((ep == a) ≡ false → P a) → P a
at_or_other ep a P here other = elim (Bool-cases (ep == a)) [
  | inl e ↦ subst P ((==_iff ep a).0 e) here
  | inr e ↦ other e
]

-- The invariant reads the list and the health checks only.
pub Inv-same :
    (p q : Pool) (xs : List Ptr)
    → q.list ≡ p.list
    → q.health_checks ≡ p.health_checks
    → Inv p xs
    → Inv q xs
Inv-same p q xs e f v = record {
  rep = rw e v.rep;
  flags = rw e v.flags;
  in_budget = rw e v.in_budget;
  thresholds = rw e v.thresholds;
  apart = rw f v.apart;
  checks = rw f v.checks;
}

-- The move to the tail, whatever it is done for.
pub to_tail-Inv :
    (ep : Ptr) (p : Pool) (xs : List Ptr)
    → has ep xs ≡ true
    → Inv p xs
    → Inv (on_list (to_tail ep) p) (erase ep xs ++ ep ∷ [])
to_tail-Inv ep p xs h v = record {
  rep = to_tail-Rep ep xs p.list h v.rep;
  flags = λ a. ap (λ (e : Endpoint). e.healthy) (same a) ∙ v.flags a ∙ sym (kept a);
  in_budget = λ a i. ap below (same a) ∙ v.in_budget a (sym (kept a) ∙ i);
  thresholds = λ a. ap positive (same a) ∙ v.thresholds a;
  apart = λ a i. kept a ∙ v.apart a i;
  checks = v.checks;
}
  where
    same : SamePayload p.list (to_tail ep p.list)
    same = to_tail-SamePayload ep p.list

    kept : (a : Ptr) → has a (erase ep xs ++ ep ∷ []) ≡ has a xs
    kept a = has-to_tail a ep xs h v.rep.distinct
