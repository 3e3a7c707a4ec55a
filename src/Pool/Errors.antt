-- ===== src/Pool/Errors.antt =====
-- ReportError: which list it leaves.
use victoriametrics_importer.Prelude.{
  ℕ, ◌+◌, ◌≡◌, refl, sym, ap, ap₂, ◌∙◌, Bool, true, false, List, [], ◌∷◌, ◌++◌, arith, ◌==◌,
  Bool-cases, inl, inr, if◌then◌else◌,
}
use victoriametrics_importer.Prelude.Int.{pos, ltb_ℤ}
use victoriametrics_importer.Prelude.Sets.{
  has, Distinct, erase, has-erase_ne, has-erase_self, has-erase_absent,
}
use victoriametrics_importer.EndpointList.{Ptr, Endpoint, remove}
use victoriametrics_importer.EndpointList.Refine.{
  Rep, SamePayload, payload, remove-Rep, remove-SamePayload,
}
use victoriametrics_importer.Pool.{
  Pool, report_error, on_list, count_error, set_healthy, same_ptr, to_tail, report_counted, counted,
  spawn, demote, retire,
}
use victoriametrics_importer.Pool.Lists.{modify-Rep, to_tail-SamePayload, single}
use victoriametrics_importer.Pool.Invariant.{
  Inv, below, positive, update_self, update_other, at_or_other, Inv-same, to_tail-Inv,
}

-- Whether the errors of `ep`, one more counted, stay below its threshold.
abbrev pub tolerated : Ptr → Pool → Bool
tolerated ep p = ltb_ℤ (pos ((p.mem ep).num_errors + 1)) (p.mem ep).mark_unhealthy_threshold

-- The healthy list after ReportError.
abbrev pub reported : Ptr → Pool → List Ptr → List Ptr
reported ep p xs =
    if has ep xs then if tolerated ep p then erase ep xs ++ ep ∷ [] else erase ep xs else xs

spawn-Distinct :
    (b : Bool) (ep : Ptr) (cs : List Ptr)
    → Distinct cs
    → has ep cs ≡ false
    → Distinct (spawn b ep cs)
spawn-Distinct true ep cs d h = d
spawn-Distinct false ep cs d h = (h, d)

has-spawn :
    (b : Bool) (a ep : Ptr) (cs : List Ptr) → (a == ep) ≡ false → has a (spawn b ep cs) ≡ has a cs
has-spawn true a ep cs e = refl
has-spawn false a ep cs e = rw e

module _ (now : ℕ) (ep : Ptr) (p : Pool) (xs : List Ptr) (v : Inv p xs) where
  pub report_error-branch :
      (h t : Bool)
      → has ep xs ≡ h
      → tolerated ep p ≡ t
      → report_error now ep p ≡ report_counted h t ep (counted now ep p)
  unfolding report_error
  report_error-branch h t e f =
      let self = update_self p.mem ep (count_error now) in
      ap₂ (λ a b. report_counted a b ep (counted now ep p))
        (ap (λ (x : Endpoint). x.healthy) self ∙ v.flags ep ∙ e)
        (ap (λ (x : Endpoint). ltb_ℤ (pos x.num_errors) x.mark_unhealthy_threshold) self ∙ f)

  pub demoted_same : SamePayload (counted now ep p).list (demote ep (counted now ep p)).list
  unfolding demote
  demoted_same a = elim (Bool-cases (same_ptr p.head p.tail)) [
    | inl e ↦ rw e
    | inr e ↦ rw e (to_tail-SamePayload ep (counted now ep p).list a)
  ]

  counted-Rep : Rep (counted now ep p).list xs
  counted-Rep = modify-Rep ep (count_error now) p.list xs (λ e. (refl, refl)) v.rep

  counted_below :
      (has ep xs ≡ true → tolerated ep p ≡ true)
      → (a : Ptr) → has a xs ≡ true
      → below ((counted now ep p).mem a) ≡ true
  counted_below ok a =
      at_or_other ep a (λ b. has b xs ≡ true → below ((counted now ep p).mem b) ≡ true)
        (λ i. ap below (update_self p.mem ep (count_error now)) ∙ ok i)
        (λ e i. ap below (update_other p.mem ep a (count_error now) e) ∙ v.in_budget a i)

  counted-Inv : (has ep xs ≡ true → tolerated ep p ≡ true) → Inv (counted now ep p) xs
  counted-Inv ok = record {
    rep = counted-Rep;
    flags = λ a. ground (arith, v.flags a);
    in_budget = counted_below ok;
    thresholds = λ a. ground (arith, v.thresholds a);
    apart = v.apart;
    checks = v.checks;
  }

  demoted-Inv :
      has ep xs ≡ true
      → tolerated ep p ≡ true
      → Inv (demote ep (counted now ep p)) (erase ep xs ++ ep ∷ [])
  unfolding demote
  demoted-Inv h t =
      let c = counted-Inv (λ _. t) in
      elim (Bool-cases (same_ptr p.head p.tail)) [
        | inl e ↦ rw (e, single ep xs p.list h v.rep e) c
        | inr e ↦ rw e (
            Inv-same (on_list (to_tail ep) (counted now ep p)) _ _ refl refl
              (to_tail-Inv ep (counted now ep p) xs h c))
      ]

  removed : SamePayload (counted now ep p).list (remove ep (counted now ep p).list)
  removed = remove-SamePayload ep (counted now ep p).list

  -- The endpoints other than `ep` hold what they held.
  pub retired_other :
      (a : Ptr)
      → (ep == a) ≡ false
      → payload ((retire ep (counted now ep p)).mem a) ≡ payload (p.mem a)
  unfolding retire
  retired_other a e = rw e (removed a ∙ ap payload (update_other p.mem ep a (count_error now) e))

  retired_thresholds : (a : Ptr) → positive ((retire ep (counted now ep p)).mem a) ≡ true
  unfolding retire
  retired_thresholds a =
      at_or_other ep a (λ b. positive ((retire ep (counted now ep p)).mem b) ≡ true)
        (ap positive (update_self (remove ep (counted now ep p).list).mem ep (set_healthy false))
          ∙ ap positive (removed ep)
          ∙ ap positive (update_self p.mem ep (count_error now))
          ∙ v.thresholds ep)
        (λ e. ap positive (retired_other a e) ∙ v.thresholds a)

  retired_flag : (a : Ptr) → ((retire ep (counted now ep p)).mem a).healthy ≡ has a (erase ep xs)
  unfolding retire
  retired_flag a =
      at_or_other ep a (λ b. ((retire ep (counted now ep p)).mem b).healthy ≡ has b (erase ep xs))
        (ap (λ (e : Endpoint). e.healthy)
            (update_self (remove ep (counted now ep p).list).mem ep (set_healthy false))
          ∙ sym (has-erase_self ep xs v.rep.distinct))
        (λ e.
          ap (λ (x : Endpoint). x.healthy) (retired_other a e)
          ∙ v.flags a
          ∙ sym (has-erase_ne ep a xs (ground arith)))

  retired_budget :
      (a : Ptr) → has a (erase ep xs) ≡ true → below ((retire ep (counted now ep p)).mem a) ≡ true
  unfolding retire
  retired_budget a =
      at_or_other ep a
        (λ b. has b (erase ep xs) ≡ true → below ((retire ep (counted now ep p)).mem b) ≡ true)
        (λ i. absurd (cc (i, has-erase_self ep xs v.rep.distinct)))
        (λ e i.
          ap below (retired_other a e)
          ∙ v.in_budget a (sym (has-erase_ne ep a xs (ground arith)) ∙ i))

  retired-Inv : has ep xs ≡ true → Inv (retire ep (counted now ep p)) (erase ep xs)
  unfolding retire
  retired-Inv h = record {
    rep =
        modify-Rep ep (set_healthy false) _ (erase ep xs) (λ e. (refl, refl))
          (remove-Rep ep xs (counted now ep p).list h counted-Rep).0;
    flags = retired_flag;
    in_budget = retired_budget;
    thresholds = retired_thresholds;
    apart = λ a.
        at_or_other ep a
          (λ b. has b (spawn p.shutdown ep p.health_checks) ≡ true → has b (erase ep xs) ≡ false)
          (λ i. has-erase_self ep xs v.rep.distinct)
          (λ e i.
            has-erase_absent ep a xs
              (v.apart a (sym (has-spawn p.shutdown a ep p.health_checks (ground arith)) ∙ i)));
    checks =
        spawn-Distinct p.shutdown ep p.health_checks v.checks
          (ground (arith, v.apart ep, Bool-cases (has ep p.health_checks)));
  }

  -- Where the invariant holds, ReportError keeps it: an endpoint that is healthy goes to the tail
  -- if its errors, with the new one, stay below its threshold, and leaves the list otherwise; for
  -- one that is not healthy the list stays.
  pub report_error-Inv : Inv (report_error now ep p) (reported ep p xs)
  unfolding report_counted
  report_error-Inv = elim (Bool-cases (has ep xs)) [
    | inr out ↦
        rw (report_error-branch false (tolerated ep p) out refl, out) (counted-Inv (λ i. cc))
    | inl held ↦ elim (Bool-cases (tolerated ep p)) [
      | inl t ↦ rw (report_error-branch true true held t, held, t) (demoted-Inv held t)
      | inr t ↦ rw (report_error-branch true false held t, held, t) (retired-Inv held)
    ]
  ]
