-- ===== src/Pool/Recovery.antt =====
-- MoveToHealthy, one tick of HealthCheck, and Shutdown.
use victoriametrics_importer.Prelude.{
  ◌≡◌, refl, sym, ap, subst, ◌∙◌, Bool, true, false, List, [], ◌∷◌, ◌++◌, arith, ◌==◌,
  if◌then◌else◌,
}
use victoriametrics_importer.Prelude.Sets.{
  has, erase, has-append, has_of_erase, has-erase_self, erase-Distinct,
}
use victoriametrics_importer.EndpointList.{Ptr, Endpoint, Dll, add_to_tail}
use victoriametrics_importer.EndpointList.Refine.{
  SamePayload, payload, add_to_tail-Rep, add_to_tail-SamePayload,
}
use victoriametrics_importer.Pool.{
  Pool, Response, move_to_healthy, move_by, health_check, check_by, stop, stop_by, modify, revive,
  success,
}
use victoriametrics_importer.Pool.Lists.{modify-Rep}
use victoriametrics_importer.Pool.Invariant.{
  Inv, below, positive, update_self, update_other, at_or_other, Inv-same,
}

module _ (ep : Ptr) (p : Pool) (xs : List Ptr) (v : Inv p xs) where
  revived : Dll
  revived = modify ep revive p.list

  moved : Dll
  moved = add_to_tail ep revived

  same : SamePayload revived moved
  unfolding moved
  same = add_to_tail-SamePayload ep revived

  moved_self : payload (moved.mem ep) ≡ payload (revive (p.mem ep))
  unfolding revived
  moved_self = same ep ∙ ap payload (update_self p.mem ep revive)

  moved_other : (a : Ptr) → (ep == a) ≡ false → payload (moved.mem a) ≡ payload (p.mem a)
  unfolding revived
  moved_other a e = same a ∙ ap payload (update_other p.mem ep a revive e)

  has-concat_ne : (a : Ptr) → (ep == a) ≡ false → has a (xs ++ ep ∷ []) ≡ has a xs
  has-concat_ne a e = ground (arith, has-append a xs (ep ∷ []))

  moved-Inv :
      has ep xs ≡ false → has ep p.health_checks ≡ false → Inv (move_by false ep p) (xs ++ ep ∷ [])
  unfolding move_by moved revived
  moved-Inv out idle = record {
    rep =
        add_to_tail-Rep ep xs (modify ep revive p.list) out
          (modify-Rep ep revive p.list xs (λ e. (refl, refl)) v.rep);
    flags = λ a.
        at_or_other ep a (λ b. (moved.mem b).healthy ≡ has b (xs ++ ep ∷ []))
          (ap (λ (e : Endpoint). e.healthy) moved_self ∙ ground (arith, has-append ep xs (ep ∷ [])))
          (λ e.
            ap (λ (x : Endpoint). x.healthy) (moved_other a e)
            ∙ v.flags a
            ∙ sym (has-concat_ne a e));
    in_budget = λ a.
        at_or_other ep a (λ b. has b (xs ++ ep ∷ []) ≡ true → below (moved.mem b) ≡ true)
          (λ i. ap below moved_self ∙ v.thresholds ep)
          (λ e i. ap below (moved_other a e) ∙ v.in_budget a (sym (has-concat_ne a e) ∙ i));
    thresholds = λ a.
        at_or_other ep a (λ b. positive (moved.mem b) ≡ true)
          (ap positive moved_self ∙ v.thresholds ep)
          (λ e. ap positive (moved_other a e) ∙ v.thresholds a);
    apart = λ a.
        at_or_other ep a (λ b. has b p.health_checks ≡ true → has b (xs ++ ep ∷ []) ≡ false)
          (λ i. absurd (cc (i, idle))) (λ e i. has-concat_ne a e ∙ v.apart a i);
    checks = v.checks;
  }

  -- Where the invariant holds and the endpoint is under no health check, MoveToHealthy keeps it:
  -- one that is not on the list goes to its tail, one that is leaves it as it was.
  pub move_to_healthy-Inv :
      has ep p.health_checks ≡ false
      → Inv (move_to_healthy ep p) (if has ep xs then xs else xs ++ ep ∷ [])
  unfolding move_to_healthy
  move_to_healthy-Inv idle = rw (v.flags ep) (by_membership (has ep xs) refl)
    where
      by_membership :
          (b : Bool) → has ep xs ≡ b → Inv (move_by b ep p) (if b then xs else xs ++ ep ∷ [])
      by_membership false e = moved-Inv e idle
      by_membership true e = v

move_by-list :
    (b : Bool) (ep : Ptr) (p : Pool) (cs : List Ptr)
    → (move_by b ep p).list ≡ (move_by b ep (record p { health_checks = cs })).list
unfolding move_by
move_by-list true ep p cs = refl
move_by-list false ep p cs = refl

move_by-checks : (b : Bool) (ep : Ptr) (p : Pool) → (move_by b ep p).health_checks ≡ p.health_checks
unfolding move_by
move_by-checks true ep p = refl
move_by-checks false ep p = refl

checked-Inv :
    (ep : Ptr) (p : Pool) (xs : List Ptr)
    → Inv p xs
    → has ep p.health_checks ≡ true
    → Inv (check_by true ep p) (xs ++ ep ∷ [])
unfolding check_by move_to_healthy
checked-Inv ep p xs v h = Inv-same (move_to_healthy ep q) _ _ (same_list _) (same_checks _) (
    subst (λ b. Inv (move_to_healthy ep q) (if b then xs else xs ++ ep ∷ [])) (v.apart ep h)
      (move_to_healthy-Inv ep q xs w (has-erase_self ep p.health_checks v.checks)))
  where
    q : Pool
    q = record p { health_checks = erase ep p.health_checks }

    w : Inv q xs
    w = record {
      rep = v.rep;
      flags = v.flags;
      in_budget = v.in_budget;
      thresholds = v.thresholds;
      apart = λ a i. v.apart a (has_of_erase ep a p.health_checks i);
      checks = erase-Distinct ep p.health_checks v.checks;
    }

    same_list : (b : Bool) → (move_by b ep p).list ≡ (move_by b ep q).list
    same_list b = move_by-list b ep p (erase ep p.health_checks)

    same_checks :
        (b : Bool) → erase ep (move_by b ep p).health_checks ≡ (move_by b ep q).health_checks
    same_checks b = ap (erase ep) (move_by-checks b ep p) ∙ sym (move_by-checks b ep q)

check_by-Inv :
    (b : Bool) (ep : Ptr) (p : Pool) (xs : List Ptr)
    → Inv p xs
    → has ep p.health_checks ≡ true
    → Inv (check_by b ep p) (if b then xs ++ ep ∷ [] else xs)
check_by-Inv true ep p xs v h = checked-Inv ep p xs v h
check_by-Inv false ep p xs v h = unfold check_by in v

-- Where the invariant holds, a tick of the health check that runs for an endpoint keeps it, and
-- puts the endpoint at the tail of the healthy list exactly if it answered with success.
pub health_check-Inv :
    (ep : Ptr) (r : Response) (p : Pool) (xs : List Ptr)
    → Inv p xs
    → has ep p.health_checks ≡ true
    → Inv (health_check ep r p) (if success r then xs ++ ep ∷ [] else xs)
unfolding health_check
health_check-Inv ep r p xs v h =
    Inv-same (check_by (success r) ep p) _ _ refl refl (check_by-Inv (success r) ep p xs v h)

pub stop-Inv : (p : Pool) (xs : List Ptr) → Inv p xs → Inv (stop p) xs
unfolding stop stop_by
stop-Inv p xs v = by_flag p.shutdown
  where
    by_flag : (b : Bool) → Inv (stop_by b p) xs
    by_flag true = v
    by_flag false = record {
      rep = v.rep;
      flags = v.flags;
      in_budget = v.in_budget;
      thresholds = v.thresholds;
      apart = λ a i. absurd (cc);
      checks = tt;
    }
