-- ===== src/BufferPool/Contents.antt =====
-- What GetBuf and ReturnBuf do to the bytes in the buffers.
use victoriametrics_importer.Prelude.{◌≡◌, refl, ℕ, Bool, true, false, some, []}
use victoriametrics_importer.BufferPool.{
  BufPool, write_to, get_buf, get_buf_by, return_buf, return_by, push_by,
}

get_buf_by-contents :
    (found : Bool) (p : BufPool)
    → (get_buf_by found p).1.contents ≡ write_to (get_buf_by found p).0 [] p.contents
unfolding get_buf_by
get_buf_by-contents true p = refl
get_buf_by-contents false p = refl

push_by-contents : (over : Bool) (b : ℕ) (p : BufPool) → (push_by over b p).contents ≡ p.contents
unfolding push_by
push_by-contents true b p = refl
push_by-contents false b p = refl

return_by-contents :
    (full : Bool) (b : ℕ) (p : BufPool) → (return_by full b p).contents ≡ p.contents
unfolding return_by
return_by-contents true b p = refl
return_by-contents false b p = push_by-contents _ b p

pub return_buf-contents : (b : ℕ) (p : BufPool) → (return_buf (some b) p).contents ≡ p.contents
unfolding return_buf
return_buf-contents b p = return_by-contents _ b p

pub get_buf-contents : (p : BufPool) → (get_buf p).1.contents ≡ write_to (get_buf p).0 [] p.contents
unfolding get_buf
get_buf-contents p = get_buf_by-contents _ p
