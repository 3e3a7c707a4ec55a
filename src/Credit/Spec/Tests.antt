-- ===== src/Credit/Spec/Tests.antt =====
-- A rate without an interval, and one with an interval of no length.
use victoriametrics_importer.Prelude.{◌≡◌, refl, [], ◌∷◌, ◌++◌, inr}
use victoriametrics_importer.Prelude.Int.{pos}
use victoriametrics_importer.Credit.Spec.{
  Parsers, colon, one_second, parse_credit_rate_spec, rate_of, interval_of,
  parse_credit_rate_spec-parts, new_credit_from_spec, credit_of, panics,
}

abbrev rates : Parsers
rates = record { scale = λ text. inr (λ interval. interval); parse_duration = λ text. inr (pos 0) }

-- "10" and "0s"
parse_credit_rate_spec-parts_example :
    (parse_credit_rate_spec rates (49 ∷ 48 ∷ [])
      ≡ parse_credit_rate_spec rates ((49 ∷ 48 ∷ []) ++ colon ∷ one_second))
    × (parse_credit_rate_spec rates ((49 ∷ 48 ∷ []) ++ colon ∷ 48 ∷ 115 ∷ [])
        ≡ rate_of (rates.scale (49 ∷ 48 ∷ [])) (rates.parse_duration (48 ∷ 115 ∷ [])))
parse_credit_rate_spec-parts_example =
    parse_credit_rate_spec-parts rates (49 ∷ 48 ∷ []) (48 ∷ 115 ∷ []) refl

-- A ticker of an interval that is not positive.
no_interval : new_credit_from_spec rates (49 ∷ 48 ∷ []) ≡ panics
unfolding new_credit_from_spec credit_of parse_credit_rate_spec rate_of interval_of
no_interval = refl
