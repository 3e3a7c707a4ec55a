-- ===== src/BufferPool.antt =====
-- vmi/internal/readfile_buf_pool.go: the pool of reusable buffers, and ReadFile. A buffer is known by
-- its address; `contents` is the bytes that each buffer holds, and `fresh` the first address that no
-- buffer has. A lock guards each operation, so that the operations are functions on the pool.
pub mod Owners
pub mod Sharing
mod Reading
pub mod Contents
mod Tests
use victoriametrics_importer.Prelude.{
  ℕ, zero, suc, ◌+◌, ◌-◌, ◌<◌, Bool, true, false, ◌&&◌, Option, none, some, List, [], ◌∷◌, ◌++◌,
  ◌⊎◌, inl, inr, ltb, leb, ◌==◌, if◌then◌else◌, length, get_or, set, take,
}
use victoriametrics_importer.Prelude.Int.{ℤ, pos_part}
use victoriametrics_importer.Prelude.Sets.{has, erase}

abbrev pub Bytes : Type 0
Bytes = List ℕ

pub record BufPool : Type 0 where
  pub pool : List ℕ
  pub max_pool_size : ℤ
  pub pool_size : ℕ
  pub max_read_size : ℤ
  pub contents : ℕ → Bytes
  pub fresh : ℕ

unfoldable pub new_read_file_buf_pool : (max_pool_size max_read_size : ℤ) → BufPool
new_read_file_buf_pool max_pool_size max_read_size = record {
  pool = [];
  max_pool_size = max_pool_size;
  pool_size = 0;
  max_read_size = max_read_size;
  contents = λ b. [];
  fresh = 0;
}

abbrev pub write_to : ℕ → Bytes → (ℕ → Bytes) → (ℕ → Bytes)
write_to b bytes m = λ c. if b == c then bytes else m c

-- The pool's last buffer, emptied, else a new one.
unfoldable pub get_buf_by : (found : Bool) → BufPool → ℕ × BufPool
get_buf_by true p =
    let b = get_or p.pool (p.pool_size - 1) 0 in
    (b, record p { pool_size = p.pool_size - 1; contents = write_to b [] p.contents })
get_buf_by false p =
    (p.fresh, record p { fresh = suc p.fresh; contents = write_to p.fresh [] p.contents })

unfoldable pub get_buf : BufPool → ℕ × BufPool
get_buf p = get_buf_by (ltb 0 p.pool_size) p

-- `p.maxPoolSize > 0 && p.poolSize >= p.maxPoolSize`
pub at_capacity : BufPool → Bool
at_capacity p = ltb 0 (pos_part p.max_pool_size) && leb (pos_part p.max_pool_size) p.pool_size

-- `append`, or a write over an entry that was handed out before.
pub push_by : (over : Bool) → ℕ → BufPool → BufPool
push_by true b p = record p { pool = p.pool ++ b ∷ []; pool_size = suc p.pool_size }
push_by false b p = record p { pool = set p.pool p.pool_size b; pool_size = suc p.pool_size }

pub return_by : (full : Bool) → ℕ → BufPool → BufPool
return_by true b p = p
return_by false b p = push_by (leb (length p.pool) p.pool_size) b p

pub return_buf : Option ℕ → BufPool → BufPool
return_buf none p = p
return_buf (some b) p = return_by (at_capacity p) b p

-- What reading a file to its end gives: its bytes, and the error that stops the reading, if any.
pub record File : Type 0 where
  pub bytes : Bytes
  pub stops_with : Option ℕ

pub data ReadError : Type 0 where
  open_failed read_failed : ℕ → ReadError
  end_of_file potential_truncation : ReadError

abbrev pub failed : Option ℕ → Option ReadError
failed none = none
failed (some e) = some (read_failed e)

-- `io.CopyN`: io.EOF, or the error, if fewer bytes than asked for came.
pub copy_n : ℕ → File → Bytes × Option ReadError
copy_n n f =
    if leb n (length f.bytes)
    then (take n f.bytes, none)
    else (f.bytes, elim f.stops_with [ none ↦ some end_of_file | some e ↦ some (read_failed e) ])

pub after_copy : Option ReadError → Option ReadError
after_copy none = some potential_truncation
after_copy (some end_of_file) = none
after_copy (some (open_failed e)) = some (open_failed e)
after_copy (some (read_failed e)) = some (read_failed e)
after_copy (some potential_truncation) = some potential_truncation

pub record ReadFile : Type 0 where
  pub buf : Option ℕ
  pub err : Option ReadError
  pub left : BufPool

-- The buffer goes to the caller when all was read or the limit was reached, else back to the pool.
pub hand_over : ℕ → Option ReadError → BufPool → ReadFile
hand_over b none p = record { buf = some b; err = none; left = p }
hand_over b (some potential_truncation) p = record {
  buf = some b;
  err = some potential_truncation;
  left = p;
}
hand_over b (some (open_failed e)) p = record {
  buf = none;
  err = some (open_failed e);
  left = return_buf (some b) p;
}
hand_over b (some (read_failed e)) p = record {
  buf = none;
  err = some (read_failed e);
  left = return_buf (some b) p;
}
hand_over b (some end_of_file) p = record {
  buf = none;
  err = some end_of_file;
  left = return_buf (some b) p;
}

-- `io.CopyN(b, f, n)`, `b.ReadFrom(f)`: what is read goes behind what the buffer holds.
pub fill : (limited : Bool) → File → ℕ → BufPool → ReadFile
fill true f b p =
    let read = copy_n (pos_part p.max_read_size) f in
    hand_over b (after_copy read.1)
      (record p { contents = write_to b (p.contents b ++ read.0) p.contents })
fill false f b p =
    hand_over b (failed f.stops_with)
      (record p { contents = write_to b (p.contents b ++ f.bytes) p.contents })

-- What os.Open gives, an error or the file, is an argument.
pub read_file : ℕ ⊎ File → BufPool → ReadFile
read_file (inl e) p = record { buf = none; err = some (open_failed e); left = p }
read_file (inr f) p = let got = get_buf p in fill (ltb 0 (pos_part p.max_read_size)) f got.0 got.1

-- What the users of one pool do: take a buffer, give one back that they hold.
pub data Use : Type 0 where
  take_one : Use
  give_back : ℕ → Use

pub record Shared : Type 0 where
  pub bufs : BufPool
  pub out : List ℕ

-- Every buffer given back is one that its user holds.
abbrev pub follow : Use → Shared → Option Shared
follow take_one w = let got = get_buf w.bufs in some (record { bufs = got.1; out = got.0 ∷ w.out })
follow (give_back b) w =
    if has b w.out
    then some (record { bufs = return_buf (some b) w.bufs; out = erase b w.out })
    else none

-- A run of uses, none if one gives back a buffer that nobody holds.
pub follow_all : List Use → Shared → Option Shared
follow_all [] w = some w
follow_all (u ∷ us) w = elim (follow u w) [ none ↦ none | some v ↦ follow_all us v ]
