-- ===== src/Credit/Reader/Tests.antt =====
-- The theorems on the reader, at a buffer of four bytes.
use victoriametrics_importer.Prelude.{ℕ, ◌≡◌, refl, List, [], ◌∷◌, min, arith}
use victoriametrics_importer.Prelude.Int.{ℤ, pos}
use victoriametrics_importer.Credit.Reader.{
  Reader, new_credit_reader, rewind, close, read, read_by, read_open, read_granted, eof,
}
use victoriametrics_importer.Credit.Reader.Stream.{
  IsFrugal, Ask, Use, reads, closes, use_reader, read_again, rewind-rereads,
}

abbrev four_bytes : Reader
four_bytes = new_credit_reader (pos 1) (10 ∷ 11 ∷ 12 ∷ 13 ∷ [])

-- At most two bytes at a time are granted.
abbrev two_at_most : ℕ → ℤ → ℕ
two_at_most desired least = min desired 2

two_at_most-IsFrugal : IsFrugal two_at_most
two_at_most-IsFrugal desired least = omega arith

-- The second call is granted one byte only.
abbrev one : ℕ → ℤ → ℕ
one desired least = min desired 1

one-IsFrugal : IsFrugal one
one-IsFrugal desired least = omega arith

abbrev first_attempt : List Use
first_attempt = reads (3, two_at_most) ∷ closes ∷ []

abbrev second_attempt : List Ask
second_attempt = (3, two_at_most) ∷ (3, one) ∷ (3, two_at_most) ∷ []

second_attempt_ends :
    (read two_at_most 5 (read_again (pos 1) (10 ∷ 11 ∷ 12 ∷ []) first_attempt second_attempt).1).0
    ≡ eof
unfolding read read_by read_open read_granted use_reader rewind close new_credit_reader
second_attempt_ends = refl

rewind-rereads_example :
    (read_again (pos 1) (10 ∷ 11 ∷ 12 ∷ []) first_attempt second_attempt).0 ≡ 10 ∷ 11 ∷ 12 ∷ []
rewind-rereads_example =
    rewind-rereads (pos 1) (10 ∷ 11 ∷ 12 ∷ []) first_attempt second_attempt (5, two_at_most)
      (two_at_most-IsFrugal, (one-IsFrugal, (two_at_most-IsFrugal, tt))) second_attempt_ends
