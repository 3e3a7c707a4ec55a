-- ===== src/Pool/Send/Budget.antt =====
-- How many more errors the healthy endpoints can take together.
use victoriametrics_importer.Prelude.{
  ℕ, ◌+◌, ◌-◌, ◌<◌, ◌≡◌, refl, ap, ◌∙◌, true, false, Bool-cases, inl, inr, List, [], ◌∷◌, ◌++◌,
  arith, ◌==◌,
}
use victoriametrics_importer.Prelude.Int.{pos_part}
use victoriametrics_importer.Prelude.Sets.{has, erase, has-erase_self}
use victoriametrics_importer.EndpointList.{Ptr, Endpoint, Store}
use victoriametrics_importer.EndpointList.Refine.{payload}
use victoriametrics_importer.Pool.{
  Pool, report_error, counted, count_error, demote, retire, report_counted,
}
use victoriametrics_importer.Pool.Invariant.{Inv, update_self, update_other}
use victoriametrics_importer.Pool.Errors.{
  tolerated, reported, report_error-branch, retired_other, demoted_same,
}

-- The errors that an endpoint can still take.
abbrev pub weight : Endpoint → ℕ
weight e = pos_part e.mark_unhealthy_threshold - e.num_errors

abbrev pub budget : Store → List Ptr → ℕ
budget m [] = 0
budget m (x ∷ xs) = weight (m x) + budget m xs

pub budget-append : (m : Store) (xs ys : List Ptr) → budget m (xs ++ ys) ≡ budget m xs + budget m ys
budget-append m [] ys = omega arith
budget-append m (x ∷ xs) ys = omega (arith, budget-append m xs ys)

pub budget-same :
    (m m' : Store) (xs : List Ptr)
    → ((a : Ptr) → has a xs ≡ true → weight (m' a) ≡ weight (m a))
    → budget m' xs ≡ budget m xs
budget-same m m' [] same = refl
budget-same m m' (x ∷ xs) same =
    omega (arith, same x (ground arith), budget-same m m' xs (λ a i. same a (ground arith)))

budget-erase :
    (m : Store) (ep : Ptr) (xs : List Ptr)
    → has ep xs ≡ true
    → budget m xs ≡ weight (m ep) + budget m (erase ep xs)
budget-erase m ep [] h = absurd (cc)
budget-erase m ep (x ∷ xs) h = elim (Bool-cases (ep == x)) [
  | inl e ↦ ground arith
  | inr e ↦ ground (arith, budget-erase m ep xs)
]

module _ (now : ℕ) (ep : Ptr) (p : Pool) (xs : List Ptr) (v : Inv p xs)
    (held : has ep xs ≡ true) where
  rest_same :
      (m : Store)
      → ((a : Ptr) → (ep == a) ≡ false → payload (m a) ≡ payload (p.mem a))
      → budget m (erase ep xs) ≡ budget p.mem (erase ep xs)
  rest_same m same = budget-same p.mem m (erase ep xs) λ a i.
      ap weight (same a (ground (arith, has-erase_self ep xs v.rep.distinct, Bool-cases (ep == a))))

  own : 0 < weight (p.mem ep)
  own = ground (arith, v.in_budget ep held)

  demote_less : budget (demote ep (counted now ep p)).mem (erase ep xs ++ ep ∷ []) < budget p.mem xs
  demote_less =
      let m = (demote ep (counted now ep p)).mem in
      let same = demoted_same now ep p xs v in
      let less : weight (m ep) ≡ weight (p.mem ep) - 1 =
        ap weight (same ep) ∙ (ap weight (update_self p.mem ep (count_error now)) ∙ omega arith) in
      omega (
        arith,
        budget-append m (erase ep xs) (ep ∷ []),
        budget-erase p.mem ep xs held,
        less,
        own,
        rest_same m (λ a e. same a ∙ ap payload (update_other p.mem ep a (count_error now) e)),
      )

  retire_less : budget (retire ep (counted now ep p)).mem (erase ep xs) < budget p.mem xs
  retire_less = omega (
    arith,
    budget-erase p.mem ep xs held,
    own,
    rest_same (retire ep (counted now ep p)).mem (retired_other now ep p xs v),
  )

  -- Each error of a healthy endpoint uses up some of the budget.
  pub report_error-budget : budget (report_error now ep p).mem (reported ep p xs) < budget p.mem xs
  unfolding report_counted
  report_error-budget = rw held (elim (Bool-cases (tolerated ep p)) [
    | inl t ↦ rw (report_error-branch now ep p xs v true true held t, t) demote_less
    | inr t ↦ rw (report_error-branch now ep p xs v true false held t, t) retire_less
  ])
