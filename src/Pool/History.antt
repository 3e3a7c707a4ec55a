-- ===== src/Pool/History.antt =====
-- The pool after any history of operations by its goroutines.
use victoriametrics_importer.Prelude.{
  ◌≡◌, refl, subst, Bool, true, false, ◌&&◌, List, [], ◌∷◌, ◌++◌, arith, if◌then◌else◌,
}
use victoriametrics_importer.Prelude.Sets.{has}
use victoriametrics_importer.EndpointList.{Ptr}
use victoriametrics_importer.Pool.{
  Pool, Op, report, selects, check, stops, step, run, health_check, success,
}
use victoriametrics_importer.Pool.Invariant.{Inv}
use victoriametrics_importer.Pool.Errors.{reported, report_error-Inv}
use victoriametrics_importer.Pool.Rotation.{rotated, select-Inv}
use victoriametrics_importer.Pool.Recovery.{health_check-Inv, stop-Inv}

-- The healthy list after one operation.
abbrev pub after : Pool → Op → List Ptr → List Ptr
after p (report now ep) xs = reported ep p xs
after p (selects now) xs = rotated now p xs
after p (check ep r) xs = if has ep p.health_checks && success r then xs ++ ep ∷ [] else xs
after p stops xs = xs

check_if-Inv :
    (b : Bool) (ep : Ptr) (p q : Pool) (xs ys : List Ptr)
    → Inv p xs
    → (b ≡ true → Inv q ys)
    → Inv (if b then q else p) (if b then ys else xs)
check_if-Inv true ep p q xs ys v w = w refl
check_if-Inv false ep p q xs ys v w = v

-- Every operation keeps the invariant, and changes the healthy list as `after` says.
pub step-Inv : (p : Pool) (o : Op) (xs : List Ptr) → Inv p xs → Inv (step p o) (after p o xs)
unfolding step
step-Inv p (report now ep) xs v = report_error-Inv now ep p xs v
step-Inv p (selects now) xs v = (select-Inv now p xs v).0
step-Inv p (check ep r) xs v =
    subst (Inv _) (nested (has ep p.health_checks) (success r) (xs ++ ep ∷ []) xs) (
      check_if-Inv (has ep p.health_checks) ep p (health_check ep r p) xs
        (if success r then xs ++ ep ∷ [] else xs) v (health_check-Inv ep r p xs v))
  where
    nested :
        (b c : Bool) (ys zs : List Ptr)
        → (if b then if c then ys else zs else zs) ≡ (if b && c then ys else zs)
    nested b c ys zs = ground arith
step-Inv p stops xs v = stop-Inv p xs v

-- From a pool whose invariant holds with some healthy list, any history of error reports,
-- selections, health check ticks and shutdowns leads to a pool whose invariant holds with some
-- healthy list.
pub run-Inv :
    (p : Pool) (os : List Op) (xs : List Ptr) → Inv p xs → (ys : List Ptr) × Inv (run p os) ys
unfolding run
run-Inv p [] xs v = (xs, v)
run-Inv p (o ∷ os) xs v = run-Inv (step p o) os (after p o xs) (step-Inv p o xs v)
