-- ===== src/BufferPool/Reading.antt =====
-- ReadFile: what the caller gets, and where the buffer is when it fails.
use victoriametrics_importer.Prelude.{
  ℕ, ◌≤◌, ◌<◌, ◌≡◌, refl, ap, ◌∙◌, subst, [], ◌++◌, Bool, true, false, Option, none, some, ltb, leb,
  length, take, arith, Bool-cases, inl, inr,
}
use victoriametrics_importer.Prelude.Int.{pos_part}
use victoriametrics_importer.BufferPool.{
  BufPool, Bytes, write_to, get_buf, get_buf_by, File, read_failed, end_of_file,
  potential_truncation, failed, copy_n, after_copy, hand_over, fill, ReadFile, read_file,
}

-- What one call of ReadFile promises of an opened file, with `limited` whether there is a limit and
-- `n` the limit: all the bytes and no error, or the first n of them and the truncation error, or the
-- reading's error and no buffer.
pub data Reads (limited : Bool) (n : ℕ) (f : File) (r : ReadFile) : Type 0 where
  whole :
      (b : ℕ)
      → (limited ≡ true → length f.bytes < n)
      → f.stops_with ≡ none
      → r.buf ≡ some b
      → r.err ≡ none
      → r.left.contents b ≡ f.bytes
      → Reads limited n f r
  cut :
      (b : ℕ)
      → limited ≡ true
      → n ≤ length f.bytes
      → r.buf ≡ some b
      → r.err ≡ some potential_truncation
      → r.left.contents b ≡ take n f.bytes
      → Reads limited n f r
  broken :
      (e : ℕ)
      → f.stops_with ≡ some e
      → r.buf ≡ none
      → r.err ≡ some (read_failed e)
      → Reads limited n f r

-- What is written behind the contents of an empty buffer.
appended : (b : ℕ) (xs : Bytes) (m : ℕ → Bytes) → m b ≡ [] → write_to b (m b ++ xs) m b ≡ xs
appended b xs m e = written ∙ ap (λ z. z ++ xs) e
  where
    written : write_to b (m b ++ xs) m b ≡ m b ++ xs
    written = ground arith

fill-Reads :
    (limited : Bool) (f : File) (b : ℕ) (p : BufPool)
    → p.contents b ≡ []
    → Reads limited (pos_part p.max_read_size) f (fill limited f b p)
unfolding fill hand_over
fill-Reads false f b p empty = by_stop f.stops_with refl
  where
    by_stop :
        (o : Option ℕ)
        → f.stops_with ≡ o
        → Reads false (pos_part p.max_read_size) f (
            hand_over b
              (failed o)
              (record p { contents = write_to b (p.contents b ++ f.bytes) p.contents }))
    by_stop none e = whole b (λ h. absurd (cc h)) e refl refl (appended b f.bytes p.contents empty)
    by_stop (some x) e = broken x e refl refl
fill-Reads true f b p empty = elim (Bool-cases (leb n (length f.bytes))) [
  | inl h ↦
      unfold copy_n after_copy in
      rw h (cut b refl (ground arith) refl refl (appended b (take n f.bytes) p.contents empty))
  | inr h ↦ unfold copy_n in rw h (by_stop f.stops_with refl (ground arith))
]
  where
    n : ℕ
    n = pos_part p.max_read_size

    by_stop :
        (o : Option ℕ)
        → f.stops_with ≡ o
        → length f.bytes < n
        → Reads true n f (
            hand_over b
              (after_copy (elim o [ none ↦ some end_of_file | some e ↦ some (read_failed e) ]))
              (record p { contents = write_to b (p.contents b ++ f.bytes) p.contents }))
    by_stop none e l =
        unfold after_copy in whole b (λ h. l) e refl refl (appended b f.bytes p.contents empty)
    by_stop (some x) e l = unfold after_copy in broken x e refl refl

get_buf-limit :
    (found : Bool) (p : BufPool) → (get_buf_by found p).1.max_read_size ≡ p.max_read_size
unfolding get_buf_by
get_buf-limit true p = refl
get_buf-limit false p = refl

-- The buffer that GetBuf gives is empty.
get_buf-empty :
    (found : Bool) (p : BufPool) → (get_buf_by found p).1.contents (get_buf_by found p).0 ≡ []
unfolding get_buf_by
get_buf-empty true p = ground arith
get_buf-empty false p = ground arith

-- ReadFile of a file that opens gives all its bytes in a buffer and no error, if the reading is not
-- broken off and, where there is a limit, they are fewer than it; the first bytes up to the limit and
-- the truncation error, if there are that many or more; or no buffer and the error that broke it off.
pub read_file-Reads :
    (f : File) (p : BufPool)
    → Reads (ltb 0 (pos_part p.max_read_size)) (pos_part p.max_read_size) f (read_file (inr f) p)
unfolding read_file get_buf
read_file-Reads f p =
    let g = get_buf_by (ltb 0 p.pool_size) p in
    subst
      (λ z.
        Reads (ltb 0 (pos_part p.max_read_size)) (pos_part z) f
          (fill (ltb 0 (pos_part p.max_read_size)) f g.0 g.1))
      (get_buf-limit (ltb 0 p.pool_size) p)
      (fill-Reads (ltb 0 (pos_part p.max_read_size)) f g.0 g.1
        (get_buf-empty (ltb 0 p.pool_size) p))
