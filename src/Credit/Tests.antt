-- ===== src/Credit/Tests.antt =====
-- The theorems on the credit, at a small credit.
use victoriametrics_importer.Prelude.{◌≢◌, refl, inr, List, [], ◌∷◌, replicate, arith}
use victoriametrics_importer.Prelude.Int.{pos, pos_part}
use victoriametrics_importer.Credit.{
  Credit, new_credit, tick, Move, event, call, waiting, acceptable, get_credit, run_credit,
}
use victoriametrics_importer.Credit.Grant.{Served, get_credit-Served}
use victoriametrics_importer.Credit.Bucket.{Balance, IsRunning, ticks, run_credit-Balance}
use victoriametrics_importer.Credit.Ends.{get_credit-ends}

-- Five a tick, ten at most.
abbrev small_credit : Credit
small_credit = new_credit (pos 5) (pos 10)

abbrev small_history : List Move
small_history = call (pos 4) (pos 1) ∷ event tick ∷ call (pos 6) (pos 6) ∷ []

get_credit-Served_example :
    Served
      (pos 7)
      (acceptable (pos 7) (pos 7))
      (tick ∷ [])
      small_credit
      (get_credit (pos 7) (pos 7) (tick ∷ []) small_credit)
get_credit-Served_example = get_credit-Served (pos 7) (pos 7) (tick ∷ []) small_credit (omega arith)

get_credit-ends_example :
    get_credit (pos 7) (pos 7) (replicate 1 tick) small_credit ≢ waiting small_credit
unfolding new_credit
get_credit-ends_example =
    get_credit-ends 1 (pos 7) (pos 7) small_credit 5 (ground arith) refl (inr (ground arith))
      (ground arith) small_credit

small_history-IsRunning : IsRunning small_history
small_history-IsRunning = (ground arith, (ground arith, tt))

run_credit-Balance_example :
    Balance
      (pos_part small_credit.current)
      5
      (ticks small_history)
      (run_credit small_history small_credit)
unfolding new_credit
run_credit-Balance_example =
    run_credit-Balance small_history small_credit 5 small_history-IsRunning (ground arith) refl
