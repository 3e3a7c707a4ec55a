-- ===== src/Credit/Spec.antt =====
-- ParseCreditRateSpec and NewCreditFromSpec of vmi/internal/rate_controller.go. Texts are ASCII bytes;
-- strconv.ParseFloat with the product that makes a value of it, and time.ParseDuration, are arguments.
-- Durations are nanoseconds.
mod Tests
use victoriametrics_importer.Prelude.{
  ℕ, take-append, drop-append_cons, zero, suc, ◌+◌, ◌≡◌, refl, sym, ap, ap₂, ◌∙◌, Bool, true, false,
  Option, none, some, List, [], ◌∷◌, ◌++◌, ◌⊎◌, inl, inr, length, take, drop, ◌==◌, if◌then◌else◌,
  arith,
}
use victoriametrics_importer.Prelude.Int.{ℤ, pos, ltb_ℤ}
use victoriametrics_importer.Prelude.Sets.{has}
use victoriametrics_importer.Prelude.Ascii.{index-absent, index-append, index, shift}
use victoriametrics_importer.Credit.{Credit, new_credit}

abbrev pub Bytes : Type 0
Bytes = List ℕ

abbrev pub colon : ℕ
colon = 58

-- "1s"
abbrev pub one_second : Bytes
one_second = 49 ∷ 115 ∷ []

-- `scale` is `mbpsf * 1_000_000 / 8 * float64(replenishInt) / float64(1*time.Second)` as an int, for
-- the number that a text stands for.
pub record Parsers : Type 0 where
  pub scale : Bytes → ℕ ⊎ (ℤ → ℤ)
  pub parse_duration : Bytes → ℕ ⊎ ℤ

-- The number and the interval of a specification.
abbrev pub split_at : Option ℕ → Bytes → Bytes × Bytes
split_at none spec = (spec, one_second)
split_at (some i) spec = (take i spec, drop (i + 1) spec)

interval_of : (ℤ → ℤ) → ℕ ⊎ ℤ → ℕ ⊎ (ℤ × ℤ)
interval_of value (inl e) = inl e
interval_of value (inr interval) = inr (value interval, interval)

pub rate_of : ℕ ⊎ (ℤ → ℤ) → ℕ ⊎ ℤ → ℕ ⊎ (ℤ × ℤ)
unfolding interval_of
rate_of (inl e) interval = inl e
rate_of (inr value) interval = interval_of value interval

pub parse_credit_rate_spec : Parsers → Bytes → ℕ ⊎ (ℤ × ℤ)
unfolding rate_of
parse_credit_rate_spec p spec =
    let parts = split_at (index spec colon) spec in
    rate_of (p.scale parts.0) (p.parse_duration parts.1)

-- time.NewTicker panics at an interval that is not positive.
pub data NewCredit : Type 0 where
  invalid : (e : ℕ) → NewCredit
  panics : NewCredit
  replenished : (interval : ℤ) → Credit → NewCredit

credit_of : ℕ ⊎ (ℤ × ℤ) → NewCredit
credit_of (inl e) = invalid e
credit_of (inr (value, interval)) =
    if ltb_ℤ (pos 0) interval then replenished interval (new_credit value (pos 0)) else panics

pub new_credit_from_spec : Parsers → Bytes → NewCredit
unfolding credit_of
new_credit_from_spec p spec = credit_of (parse_credit_rate_spec p spec)

-- A specification without a colon means the same as with ":1s" behind it, and in general the number is
-- what stands before the first colon and the interval what stands behind it.
pub parse_credit_rate_spec-parts :
    (p : Parsers) (mbps interval : Bytes)
    → has colon mbps ≡ false
    → (parse_credit_rate_spec p mbps ≡ parse_credit_rate_spec p (mbps ++ colon ∷ one_second))
      × (parse_credit_rate_spec p (mbps ++ colon ∷ interval)
          ≡ rate_of (p.scale mbps) (p.parse_duration interval))
unfolding parse_credit_rate_spec
parse_credit_rate_spec-parts p mbps interval h =
    let plain : split_at (index mbps colon) mbps ≡ (mbps, one_second) =
      ap (λ i. split_at i mbps) (index-absent colon mbps h) in
    (
      ap (λ x. rate_of (p.scale x.0) (p.parse_duration x.1)) (plain ∙ sym (split-parts one_second)),
      ap (λ x. rate_of (p.scale x.0) (p.parse_duration x.1)) (split-parts interval),
    )
  where
    next : (n : ℕ) → n + 1 ≡ suc n
    next n = omega arith

    split-parts :
        (t : Bytes) → split_at (index (mbps ++ colon ∷ t) colon) (mbps ++ colon ∷ t) ≡ (mbps, t)
    split-parts t =
        ap (λ i. split_at i (mbps ++ colon ∷ t)) (index-append colon mbps t h)
        ∙ ap₂ (λ x y. (x, y)) (take-append mbps (colon ∷ t))
            (ap (λ n. drop n (mbps ++ colon ∷ t)) (next (length mbps))
              ∙ drop-append_cons mbps t colon)
