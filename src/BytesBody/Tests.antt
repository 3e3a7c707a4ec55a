-- ===== src/BytesBody/Tests.antt =====
-- A body that is read in part, closed and read again.
use victoriametrics_importer.Prelude.{ℕ, ◌≡◌, refl, some, List, [], ◌∷◌, arith}
use victoriametrics_importer.BytesBody.{
  Bytes, bytes, read, read_by, rewind, new_bytes_read_seek_closer,
}
use victoriametrics_importer.BytesBody.Rereads.{
  Use, reads, closes, use_all, read_all, rewind-read_all,
}

abbrev three_bytes : Bytes
three_bytes = 7 ∷ 8 ∷ 9 ∷ []

abbrev read_and_closed : List Use
read_and_closed = reads 2 ∷ closes ∷ reads 2 ∷ []

rewind-read_all_example :
    ((rewind (use_all read_and_closed (new_bytes_read_seek_closer three_bytes))).0 ≡ some 0)
    × (read_all 4 2 (rewind (use_all read_and_closed (new_bytes_read_seek_closer three_bytes))).1
        ≡ some three_bytes)
rewind-read_all_example =
    rewind-read_all read_and_closed three_bytes 4 2 (omega arith) (omega arith)

-- A body without bytes has nothing to read before a rewind, not even an end.
nothing_to_read :
    (n : ℕ) → read n (new_bytes_read_seek_closer []) ≡ (bytes [], new_bytes_read_seek_closer [])
unfolding read read_by new_bytes_read_seek_closer
nothing_to_read n = refl
