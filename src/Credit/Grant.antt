-- ===== src/Credit/Grant.antt =====
-- One call of GetCredit.
use victoriametrics_importer.Prelude.{
  ◌≡◌, refl, ap, ◌++◌, inl, inr, true, false, Bool-cases, List, [], ◌∷◌, arith,
}
use victoriametrics_importer.Prelude.Int.{ℤ, pos, ◌+ℤ◌, ◌-ℤ◌, ◌≤ℤ◌}
use victoriametrics_importer.Credit.{
  Credit, Event, credit_unlimited, acceptable, must_wait, take_credit, replenish, Request, granted,
  waiting, get_credit, wait_credit, grant_after,
}

-- What a caller may rely on: within the range asked for, and paid for out of the credit unless that
-- is unlimited.
abbrev pub IsGrant : (desired least : ℤ) → (before : Credit) → ℤ → Credit → Type 0
IsGrant desired least before got after =
    (least ≤ℤ got)
    × (got ≤ℤ desired)
    × ((pos 0 ≤ℤ before.current) → (got ≤ℤ before.current) × (pos 0 ≤ℤ after.current))
    × ((pos 0 ≤ℤ before.current) → before.current ≡ after.current +ℤ got)
    × ((before.current ≤ℤ credit_unlimited) → (got ≡ desired) × (after ≡ before))

take_credit-IsGrant :
    (desired least : ℤ) (c : Credit)
    → least ≤ℤ desired
    → must_wait c least ≡ false
    → IsGrant desired least c (take_credit desired c).0 (take_credit desired c).1
unfolding take_credit ◌-ℤ◌ ◌+ℤ◌
take_credit-IsGrant desired least c h w =
    (ground arith, ground arith, λ n. ground arith, λ n. ground arith, λ n. ground arith)

-- `0 <= minAcceptable <= desired` after the adjustment.
acceptable_range :
    (desired least : ℤ)
    → pos 0 ≤ℤ desired
    → (pos 0 ≤ℤ acceptable desired least) × (acceptable desired least ≤ℤ desired)
acceptable_range desired least h = ground arith

pub replenish_all : List Event → Credit → Credit
replenish_all [] c = c
replenish_all (e ∷ es) c = replenish_all es (replenish e c)

-- What a request that does not wait any more has got, out of which credit.
abbrev pub Served : (desired least : ℤ) → List Event → Credit → Request → Type 0
Served desired least es c (waiting c') = (must_wait c' least ≡ true) × (c' ≡ replenish_all es c)
Served desired least es c (granted got c' rest) =
    (fired : List Event) × (es ≡ fired ++ rest)
    × IsGrant desired least (replenish_all fired c) got c'

Served-later :
    (desired least : ℤ) (e : Event) (es : List Event) (c : Credit) (r : Request)
    → Served desired least es (replenish e c) r
    → Served desired least (e ∷ es) c r
unfolding replenish_all
Served-later desired least e es c (waiting c') s = s
Served-later desired least e es c (granted got c' rest) (fired, split, grant) =
    (e ∷ fired, ap (◌∷◌ e) split, grant)

Served-now :
    (desired least : ℤ) (es : List Event) (c : Credit)
    → least ≤ℤ desired
    → must_wait c least ≡ false
    → Served desired least es c (grant_after (take_credit desired c) es)
unfolding grant_after replenish_all
Served-now desired least es c h w = ([], refl, take_credit-IsGrant desired least c h w)

wait_credit-Served :
    (desired least : ℤ) (es : List Event) (c : Credit)
    → least ≤ℤ desired
    → Served desired least es c (wait_credit desired least es c)
unfolding wait_credit replenish_all
wait_credit-Served desired least [] c h = elim (Bool-cases (must_wait c least)) [
  | inl w ↦ rw w (w, refl)
  | inr w ↦ rw w (Served-now desired least [] c h w)
]
wait_credit-Served desired least (e ∷ es) c h = elim (Bool-cases (must_wait c least)) [
  | inl w ↦
      rw w (
        Served-later desired least e es c _ (wait_credit-Served desired least es (replenish e c) h))
  | inr w ↦ rw w (Served-now desired least (e ∷ es) c h w)
]

-- A call for a desired amount that is not negative waits through some of the events, and is then
-- granted an amount in its range out of the credit at that point; or it still waits at the end, for
-- want of credit.
pub get_credit-Served :
    (desired least : ℤ) (es : List Event) (c : Credit)
    → pos 0 ≤ℤ desired
    → Served desired (acceptable desired least) es c (get_credit desired least es c)
unfolding get_credit
get_credit-Served desired least es c h =
    wait_credit-Served desired (acceptable desired least) es c (acceptable_range desired least h).1
