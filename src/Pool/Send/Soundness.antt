-- ===== src/Pool/Send/Soundness.antt =====
-- SendBuffer and the invariant of the pool.
use victoriametrics_importer.Prelude.{
  ℕ, zero, suc, refl, Bool, true, false, ◌&&◌, not, none, some, List, if◌then◌else◌, leb,
}
use victoriametrics_importer.Prelude.Int.{ℤ}
use victoriametrics_importer.EndpointList.{Ptr}
use victoriametrics_importer.Pool.{Pool, report_error, run, code, success}
use victoriametrics_importer.Pool.Invariant.{Inv, Inv-same}
use victoriametrics_importer.Pool.Errors.{reported, report_error-Inv}
use victoriametrics_importer.Pool.Rotation.{rotated, select-Inv}
use victoriametrics_importer.Pool.History.{run-Inv}
use victoriametrics_importer.Pool.Send.{
  World, Naps, Waited, Found, found, stuck, Outcome, get_current_healthy, send_loop, attempt,
  conclude, requested, wait_loop, found_by, ready, timed_out, out_of_fuel, non_retryable,
  send_buffer, count_no_healthy, is_none,
}

-- A pool with some list of healthy endpoints.
abbrev pub IsSound : Pool → Type 0
IsSound p = (xs : List Ptr) × Inv p xs

waited_pool : Waited → Pool
waited_pool (ready p) = p
waited_pool (timed_out p) = p
waited_pool (out_of_fuel p) = p

wait_loop-IsSound :
    (f : ℕ) (w : Naps) (deadline i : ℕ) (p : Pool)
    → IsSound p
    → IsSound (waited_pool (wait_loop f w deadline i p))
unfolding wait_loop waited_pool
wait_loop-IsSound zero w deadline i p v = v
wait_loop-IsSound (suc f) w deadline i p v =
    by_tests (is_none p.head && not p.shutdown) (leb deadline (w.clock i)) _
      (wait_loop-IsSound f w deadline (suc i) (run p (w.others i)) (run-Inv p (w.others i) v.0 v.1))
  where
    by_tests :
        (b c : Bool) (r : Waited)
        → IsSound (waited_pool r)
        → IsSound (waited_pool (if b then if c then timed_out p else r else ready p))
    by_tests true true r u = v
    by_tests true false r u = u
    by_tests false c r u = v

found_pool : Found → Pool
found_pool (found o p) = p
found_pool (stuck p) = p

found_by-IsSound :
    (now : ℕ) (r : Waited) → IsSound (waited_pool r) → IsSound (found_pool (found_by now r))
unfolding found_by found_pool waited_pool
found_by-IsSound now (ready p) v = (rotated now p v.0, (select-Inv now p v.0 v.1).0)
found_by-IsSound now (timed_out p) v = v
found_by-IsSound now (out_of_fuel p) v = v

report-IsSound : (now : ℕ) (ep : Ptr) (p : Pool) → IsSound p → IsSound (report_error now ep p)
report-IsSound now ep p v = (reported ep p v.0, report_error-Inv now ep p v.0 v.1)

requested-IsSound :
    (w : World) (size n : ℕ) (ep : Ptr) (p : Pool) → IsSound p → IsSound (requested w size n ep p)
unfolding requested
requested-IsSound w size n ep p v =
    let (ys, u) = run-Inv p (w.meanwhile n) v.0 v.1 in (ys, Inv-same _ _ ys refl refl u)

conclude-IsSound :
    (a b : Bool) (n c : ℕ) (q : Pool) (retry : Pool → Outcome × Pool)
    → IsSound q
    → IsSound (retry q).1
    → IsSound (conclude a b n c q retry).1
unfolding conclude
conclude-IsSound true b n c q retry v u = v
conclude-IsSound false true n c q retry v u = v
conclude-IsSound false false n c q retry v u = u

attempt-IsSound :
    (w : World) (size n : ℕ) (again : Pool → Outcome × Pool) (g : Found)
    → IsSound (found_pool g)
    → ((p : Pool) → IsSound p → IsSound (again p).1)
    → IsSound (attempt w size n again g).1
unfolding attempt found_pool count_no_healthy
attempt-IsSound w size n again (stuck q) v h = v
attempt-IsSound w size n again (found none q) v h = (v.0, Inv-same q _ v.0 refl refl v.1)
attempt-IsSound w size n again (found (some ep) q) v h =
    let u = requested-IsSound w size n ep q v in
    conclude-IsSound (success (w.respond n ep)) (non_retryable (w.respond n ep)) n
      (code (w.respond n ep)) _ (λ p. again (report_error (w.failed_at n) ep p)) u
      (h _ (report-IsSound (w.failed_at n) ep _ u))

send_loop-IsSound :
    (f : ℕ) (w : World) (size deadline n : ℕ) (p : Pool)
    → IsSound p
    → IsSound (send_loop f w size deadline n p).1
unfolding send_loop get_current_healthy
send_loop-IsSound zero w size deadline n p v = v
send_loop-IsSound (suc f) w size deadline n p v =
    attempt-IsSound w size n _ _
      (found_by-IsSound (w.chosen_at n) _ (wait_loop-IsSound (suc (w.fuel n)) (w.naps n) _ 0 p v))
      (send_loop-IsSound f w size deadline (suc n))

-- SendBuffer keeps the invariant of the pool, for some healthy list, whatever the endpoints answer
-- and whatever other goroutines do during its waits and requests.
pub send_buffer-IsSound :
    (f : ℕ) (w : World) (size start : ℕ) (timeout : ℤ) (p : Pool)
    → IsSound p
    → IsSound (send_buffer f w size start timeout p).1
unfolding send_buffer
send_buffer-IsSound f w size start timeout p v = send_loop-IsSound f w size _ 1 p v
