-- ===== src/BytesBody.antt =====
-- BytesReadSeekCloser of vmi/internal/http_endpoint_pool.go, the body of a request that is sent again
-- after a failure, over the bytes.Reader that it wraps.
mod Rereads
mod Tests
use victoriametrics_importer.Prelude.{
  ℕ, zero, suc, ◌+◌, ◌-◌, ◌≤◌, Bool, true, false, Option, none, some, List, [], ◌∷◌, ◌++◌, ◌⊎◌, inl,
  inr, ltb, leb, ◌==◌, if◌then◌else◌, length, take, drop,
}
use victoriametrics_importer.Prelude.Int.{ℤ, pos, negsuc, ◌+ℤ◌, ltb_ℤ, pos_part}

abbrev pub Bytes : Type 0
Bytes = List ℕ

-- bytes.Reader: its bytes, and the index of the next.
pub record BytesReader : Type 0 where
  pub s : Bytes
  pub i : ℕ

pub record Body : Type 0 where
  pub rs : BytesReader
  pub closed : Bool
  pub closed_pos : ℕ

-- The bytes copied, or io.EOF.
pub data ReadResult : Type 0 where
  bytes : Bytes → ReadResult
  eof : ReadResult

abbrev pub advance : ℕ → Body → Body
advance i brsc = record brsc { rs = record brsc.rs { i = i } }

read_reader : (at_end : Bool) → (len_p : ℕ) → Body → ReadResult × Body
read_reader true len_p brsc = (eof, brsc)
read_reader false len_p brsc =
    let got = take len_p (drop brsc.rs.i brsc.rs.s) in
    (bytes got, advance (brsc.rs.i + length got) brsc)

read_by : (closed : Bool) → (len_p : ℕ) → Body → ReadResult × Body
unfolding read_reader
read_by true len_p brsc = (bytes [], brsc)
read_by false len_p brsc = read_reader (leb (length brsc.rs.s) brsc.rs.i) len_p brsc

pub read : (len_p : ℕ) → Body → ReadResult × Body
unfolding read_by
read len_p brsc = read_by brsc.closed len_p brsc

-- io.SeekStart, io.SeekCurrent and io.SeekEnd.
pub data Whence : Type 0 where
  seek_start seek_current seek_end : Whence

abbrev pub base_of : Whence → BytesReader → ℕ
base_of seek_start r = 0
base_of seek_current r = r.i
base_of seek_end r = length r.s

-- The new position, or an error if it is negative.
seek_reader : ℤ → Body → Option ℕ × Body
seek_reader target brsc =
    if ltb_ℤ target (pos 0)
    then (none, brsc)
    else (some (pos_part target), advance (pos_part target) brsc)

seek_by : (closed : Bool) → (offset : ℤ) → Whence → Body → Option ℕ × Body
unfolding seek_reader
seek_by true offset whence brsc = (some brsc.closed_pos, brsc)
seek_by false offset whence brsc = seek_reader (offset +ℤ pos (base_of whence brsc.rs)) brsc

pub seek : (offset : ℤ) → Whence → Body → Option ℕ × Body
unfolding seek_by
seek offset whence brsc = seek_by brsc.closed offset whence brsc

pub close : Body → Body
close brsc = record brsc { closed = true }

pub rewind : Body → Option ℕ × Body
rewind brsc = seek (pos 0) seek_start (record brsc { closed = false })

pub new_bytes_read_seek_closer : Bytes → Body
new_bytes_read_seek_closer b = record {
  rs = record { s = b; i = 0 };
  closed = length b == 0;
  closed_pos = length b;
}
