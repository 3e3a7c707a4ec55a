-- ===== src/Credit/Reader.antt =====
-- CreditReader of vmi/internal/rate_controller.go: NewCreditReader, Reuse, Rewind, Read, Seek and
-- Close. The controller is a parameter of each Read: what its GetCredit, which has a state, returns
-- for the request of that call. Bytes are numbers, the read pointer and the size are not negative.
pub mod Stream
pub mod Position
mod Tests
use victoriametrics_importer.Prelude.{
  ℕ, zero, suc, ◌+◌, ◌-◌, ◌≤◌, Bool, true, false, not, ◌||◌, List, [], ◌∷◌, ltb, leb, ◌==◌,
  if◌then◌else◌, length, take, drop, Option, none, some,
}
use victoriametrics_importer.Prelude.Int.{ℤ, pos, negsuc, pos_part, ◌+ℤ◌, ◌-ℤ◌, ltb_ℤ}

pub record Reader : Type 0 where
  pub min_c : ℤ
  pub b : List ℕ
  pub r : ℕ
  pub n : ℕ
  pub closed : Bool

pub new_credit_reader : (min_acceptable : ℤ) → List ℕ → Reader
new_credit_reader min_acceptable b = record {
  min_c = if ltb_ℤ min_acceptable (pos 0) then pos 0 else min_acceptable;
  b = b;
  r = 0;
  n = length b;
  closed = false;
}

pub reuse : (min_acceptable : ℤ) → List ℕ → Reader → Reader
reuse min_acceptable b cr = record cr {
  min_c = if ltb_ℤ min_acceptable (pos 0) then cr.min_c else min_acceptable;
  b = b;
  r = 0;
  n = length b;
}

pub rewind : Reader → Reader
rewind cr = record cr { r = 0; closed = false }

pub close : Reader → Reader
close cr = record cr { closed = true }

-- `b[s:e]`
abbrev pub slice : List ℕ → ℕ → ℕ → List ℕ
slice b s e = take (e - s) (drop s b)

-- What Read returns beside its count: the bytes that it copied, or io.EOF.
pub data ReadResult : Type 0 where
  bytes : List ℕ → ReadResult
  eof : ReadResult

-- Read(p) for a `p` of `len_p` bytes, by what GetCredit(toRead, cr.minC) returns.
read_granted : ℕ → Reader → ReadResult × Reader
read_granted got cr =
    if got == 0
    then (bytes [], cr)
    else (bytes (slice cr.b cr.r (cr.r + got)), record cr { r = cr.r + got })

read_open : (get_credit : ℕ → ℤ → ℕ) → (len_p : ℕ) → Reader → ReadResult × Reader
read_open get_credit len_p cr =
    let available = cr.n - cr.r in
    let to_read = if ltb available len_p then available else len_p in
    if leb cr.n cr.r
    then (eof, cr)
    else if len_p == 0
    then (bytes [], cr)
    else read_granted (get_credit to_read cr.min_c) cr

read_by : (closed : Bool) → (ℕ → ℤ → ℕ) → ℕ → Reader → ReadResult × Reader
unfolding read_open read_granted
read_by true get_credit len_p cr = (bytes [], cr)
read_by false get_credit len_p cr = read_open get_credit len_p cr

pub read : (get_credit : ℕ → ℤ → ℕ) → (len_p : ℕ) → Reader → ReadResult × Reader
unfolding read_by
read get_credit len_p cr = read_by cr.closed get_credit len_p cr

-- io.SeekStart, io.SeekCurrent and io.SeekEnd; any other whence is an error.
pub data Whence : Type 0 where
  seek_start seek_current seek_end other_whence : Whence

pub data SeekResult : Type 0 where
  at : ℤ → SeekResult
  invalid_whence : SeekResult
  invalid_offset : SeekResult

new_position : ℤ → Whence → Reader → Option ℤ
new_position offset seek_current cr = some (pos cr.r +ℤ offset)
new_position offset seek_start cr = some offset
new_position offset seek_end cr = some (pos cr.n -ℤ pos 1 +ℤ offset)
new_position offset other_whence cr = none

-- `if cr.closed`
place : (closed : Bool) → ℤ → Reader → SeekResult × Reader
place true new_r cr = (at (pos cr.r), cr)
place false new_r cr = (at new_r, record cr { r = pos_part new_r })

-- `newR < 0 || newR >= int64(cr.n)`
abbrev pub outside : ℤ → Reader → Bool
outside new_r cr = ltb_ℤ new_r (pos 0) || not (ltb_ℤ new_r (pos cr.n))

seek_to : Option ℤ → Reader → SeekResult × Reader
unfolding place
seek_to none cr = (invalid_whence, cr)
seek_to (some new_r) cr =
    if outside new_r cr then (invalid_offset, cr) else place cr.closed new_r cr

pub seek : ℤ → Whence → Reader → SeekResult × Reader
unfolding new_position seek_to
seek offset whence cr = seek_to (new_position offset whence cr) cr
