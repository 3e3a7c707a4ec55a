-- ===== src/Credit.antt =====
-- The credit based rate limit, from vmi/internal/rate_controller.go: NewCredit, the replenishing
-- goroutine and GetCredit of Credit. The condition variable is a schedule: GetCredit looks at the
-- credit again behind each event that broadcasts. An int is a ℤ; it does not overflow.
pub mod Grant
pub mod Bucket
pub mod Ends
pub mod Reader
pub mod Spec
mod Tests
use victoriametrics_importer.Prelude.{
  ℕ, ◌+◌, ◌≡◌, Bool, true, false, not, ◌&&◌, ◌||◌, List, [], ◌∷◌, if◌then◌else◌,
}
use victoriametrics_importer.Prelude.Int.{ℤ, pos, negsuc, ◌+ℤ◌, ◌-ℤ◌, ltb_ℤ}

pub record Credit : Type 0 where
  pub current : ℤ
  pub max_value : ℤ
  pub replenish_value : ℤ

-- `CREDIT_UNLIMITED`
abbrev pub credit_unlimited : ℤ
credit_unlimited = negsuc 0

abbrev pub min_ℤ : ℤ → ℤ → ℤ
min_ℤ a b = if ltb_ℤ b a then b else a

abbrev pub max_ℤ : ℤ → ℤ → ℤ
max_ℤ a b = if ltb_ℤ a b then b else a

-- NewCredit, with the first credit that startReplenish sets.
pub new_credit : (replenish_value max_value : ℤ) → Credit
new_credit replenish_value max_value = record {
  current = replenish_value;
  max_value = if ltb_ℤ (pos 0) max_value then max_ℤ replenish_value max_value else max_value;
  replenish_value = replenish_value;
}

-- One round of the goroutine: a tick of its ticker, or the end of its context.
pub data Event : Type 0 where
  tick done : Event

pub replenish : Event → Credit → Credit
replenish done c = record c { current = credit_unlimited }
replenish tick c =
    let current = c.current +ℤ c.replenish_value in
    record c {
      current =
          if ltb_ℤ (pos 0) c.max_value && ltb_ℤ c.max_value current then c.max_value else current;
    }

-- `minAcceptable`, as GetCredit adjusts it.
abbrev pub acceptable : (desired min_acceptable : ℤ) → ℤ
acceptable desired min_acceptable =
    if ltb_ℤ min_acceptable (pos 0) || ltb_ℤ desired min_acceptable then desired else min_acceptable

-- `c.current >= 0 && c.current < minAcceptable`
abbrev pub must_wait : Credit → ℤ → Bool
must_wait c least = not (ltb_ℤ c.current (pos 0)) && ltb_ℤ c.current least

-- The part of GetCredit behind the wait.
pub take_credit : ℤ → Credit → ℤ × Credit
take_credit desired c =
    if ltb_ℤ c.current (pos 0)
    then (desired, c)
    else (let got = min_ℤ desired c.current in (got, record c { current = c.current -ℤ got }))

-- GetCredit against the events that follow its call: what it returns, the credit it leaves and the
-- events that are left, or the credit at which it still waits.
pub data Request : Type 0 where
  granted : ℤ → Credit → List Event → Request
  waiting : Credit → Request

grant_after : ℤ × Credit → List Event → Request
grant_after (got, c) es = granted got c es

wait_credit : (desired least : ℤ) → List Event → Credit → Request
unfolding grant_after take_credit
wait_credit desired least [] c =
    if must_wait c least then waiting c else grant_after (take_credit desired c) []
wait_credit desired least (e ∷ es) c =
    let later = wait_credit desired least es (replenish e c) in
    if must_wait c least then later else grant_after (take_credit desired c) (e ∷ es)

pub get_credit : (desired min_acceptable : ℤ) → List Event → Credit → Request
unfolding wait_credit
get_credit desired min_acceptable es c =
    wait_credit desired (acceptable desired min_acceptable) es c

-- What several callers and the goroutine do to one Credit. A call that would wait does nothing
-- until it is made again.
pub data Move : Type 0 where
  event : Event → Move
  call : (desired min_acceptable : ℤ) → Move

step_credit : Move → Credit → ℤ × Credit
step_credit (event e) c = (pos 0, replenish e c)
step_credit (call desired min_acceptable) c =
    if must_wait c (acceptable desired min_acceptable) then (pos 0, c) else take_credit desired c

-- The sum of all grants, and the credit that is left.
pub run_credit : List Move → Credit → ℤ × Credit
unfolding step_credit
run_credit [] c = (pos 0, c)
run_credit (m ∷ ms) c =
    let (got, c) = step_credit m c in let (rest, c) = run_credit ms c in (got +ℤ rest, c)
