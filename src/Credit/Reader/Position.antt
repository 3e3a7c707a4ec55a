-- ===== src/Credit/Reader/Position.antt =====
-- Seek: where it leaves the pointer, and how that compares with io.Seeker.
use victoriametrics_importer.Prelude.{
  ℕ, ◌-◌, ◌<◌, ◌≡◌, refl, Bool, true, false, Option, some, none, arith, Bool-cases, inl, inr,
}
use victoriametrics_importer.Prelude.Int.{ℤ, pos, ◌+ℤ◌, ◌-ℤ◌}
use victoriametrics_importer.Credit.Reader.{
  Reader, Whence, seek_end, SeekResult, at, invalid_whence, invalid_offset, seek, new_position,
  seek_to, place, outside,
}

-- The pointer moves to an index of the buffer, or the call fails or the reader is closed and nothing
-- changes; the result is where the pointer then stands.
abbrev pub IsSought : Reader → SeekResult → Reader → Type 0
IsSought cr (at p) cr' =
    (p ≡ pos cr'.r)
    × (cr' ≡ record cr { r = cr'.r })
    × (cr.closed ≡ true → cr' ≡ cr)
    × (cr.closed ≡ false → cr'.r < cr.n)
IsSought cr invalid_whence cr' = cr' ≡ cr
IsSought cr invalid_offset cr' = cr' ≡ cr

place-IsSought :
    (closed : Bool) (new_r : ℤ) (cr : Reader)
    → cr.closed ≡ closed
    → outside new_r cr ≡ false
    → IsSought cr (place closed new_r cr).0 (place closed new_r cr).1
unfolding place
place-IsSought true new_r cr c e = (refl, refl, λ _. refl, λ open'. absurd (cc (c, open')))
place-IsSought false new_r cr c e =
    (ground arith, refl, λ shut. absurd (cc (c, shut)), λ _. ground arith)

seek_to-IsSought : (o : Option ℤ) (cr : Reader) → IsSought cr (seek_to o cr).0 (seek_to o cr).1
unfolding seek_to
seek_to-IsSought none cr = refl
seek_to-IsSought (some new_r) cr = elim (Bool-cases (outside new_r cr)) [
  | inl e ↦ rw e refl
  | inr e ↦ rw e (place-IsSought cr.closed new_r cr refl e)
]

-- Seek returns where the pointer then stands and changes nothing but the pointer, which lies
-- within the buffer if the reader is open; on a closed reader it changes nothing, and neither does
-- it for a bad whence or a position outside of the buffer, which are errors.
pub seek-IsSought :
    (offset : ℤ) (whence : Whence) (cr : Reader)
    → IsSought cr (seek offset whence cr).0 (seek offset whence cr).1
unfolding seek
seek-IsSought offset whence cr = seek_to-IsSought (new_position offset whence cr) cr

-- On an open reader, seeking to k bytes before the end, k positive and less than the size, lands
-- one byte before the one that io.Seeker documents, and seeking from the end to the first byte is
-- refused.
pub seek_end-short :
    (k : ℕ) (cr : Reader)
    → cr.closed ≡ false
    → 0 < k
    → k < cr.n
    → ((seek (pos 0 -ℤ pos k) seek_end cr).0 ≡ at (pos (cr.n - k - 1)))
      × ((seek (pos 0 -ℤ pos cr.n) seek_end cr).0 ≡ invalid_offset)
unfolding seek
seek_end-short k cr open' h l = (inner, first_byte)
  where
    inner : (seek_to (new_position (pos 0 -ℤ pos k) seek_end cr) cr).0 ≡ at (pos (cr.n - k - 1))
    inner = unfold new_position seek_to place ◌+ℤ◌ ◌-ℤ◌ in ground arith

    first_byte : (seek_to (new_position (pos 0 -ℤ pos cr.n) seek_end cr) cr).0 ≡ invalid_offset
    first_byte = unfold new_position seek_to place ◌+ℤ◌ ◌-ℤ◌ in ground arith
