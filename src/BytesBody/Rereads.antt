-- ===== src/BytesBody/Rereads.antt =====
-- What is read after a rewind.
use victoriametrics_importer.Prelude.{
  ℕ, zero, suc, ◌+◌, ◌-◌, ◌≤◌, ◌<◌, ◌≡◌, refl, sym, ap, ◌∙◌, Bool, true, false, Option, none, some,
  List, [], ◌∷◌, ◌++◌, inl, inr, leb, if◌then◌else◌, length, take, drop, length-take, length-drop,
  Bool-cases, arith,
}
use victoriametrics_importer.Prelude.Int.{ℤ, pos, ◌+ℤ◌}
use victoriametrics_importer.BytesBody.{
  Bytes, Body, ReadResult, bytes, eof, read_reader, read_by, read, Whence, seek_start, seek_reader,
  seek_by, seek, close, rewind, new_bytes_read_seek_closer,
}

-- What a run of the user does, and io.ReadAll with a buffer of some size: all up to io.EOF, or none if
-- it does not come in time.
pub data Use : Type 0 where
  reads : (len_p : ℕ) → Use
  seeks : ℤ → Whence → Use
  closes rewinds : Use

abbrev pub use_body : Use → Body → Body
use_body (reads len_p) brsc = (read len_p brsc).1
use_body (seeks offset whence) brsc = (seek offset whence brsc).1
use_body closes brsc = close brsc
use_body rewinds brsc = (rewind brsc).1

abbrev pub use_all : List Use → Body → Body
use_all [] brsc = brsc
use_all (u ∷ us) brsc = use_all us (use_body u brsc)

abbrev pub prepend : Bytes → Option Bytes → Option Bytes
prepend got none = none
prepend got (some rest) = some (got ++ rest)

abbrev pub collect : ReadResult → Option Bytes → Option Bytes
collect eof rest = some []
collect (bytes got) rest = prepend got rest

pub read_all : (fuel len_p : ℕ) → Body → Option Bytes
read_all zero len_p brsc = none
read_all (suc f) len_p brsc = let r = read len_p brsc in collect r.0 (read_all f len_p r.1)

-- The bytes never change.
same-if :
    (b : Bool) (x y : Option ℕ × Body) (s : Bytes)
    → x.1.rs.s ≡ s
    → y.1.rs.s ≡ s
    → (if b then x else y).1.rs.s ≡ s
same-if true x y s h k = h
same-if false x y s h k = k

seek_by-same :
    (closed : Bool) (offset : ℤ) (whence : Whence) (brsc : Body)
    → (seek_by closed offset whence brsc).1.rs.s ≡ brsc.rs.s
unfolding seek_by seek_reader
seek_by-same true offset whence brsc = refl
seek_by-same false offset whence brsc = same-if _ _ _ brsc.rs.s refl refl

read_reader-same :
    (at_end : Bool) (len_p : ℕ) (brsc : Body) → (read_reader at_end len_p brsc).1.rs.s ≡ brsc.rs.s
unfolding read_reader
read_reader-same true len_p brsc = refl
read_reader-same false len_p brsc = refl

read_by-same :
    (closed : Bool) (len_p : ℕ) (brsc : Body) → (read_by closed len_p brsc).1.rs.s ≡ brsc.rs.s
unfolding read_by
read_by-same true len_p brsc = refl
read_by-same false len_p brsc = read_reader-same _ len_p brsc

use_body-same : (u : Use) (brsc : Body) → (use_body u brsc).rs.s ≡ brsc.rs.s
unfolding read seek close rewind
use_body-same (reads len_p) brsc = read_by-same brsc.closed len_p brsc
use_body-same (seeks offset whence) brsc = seek_by-same brsc.closed offset whence brsc
use_body-same closes brsc = refl
use_body-same rewinds brsc = seek_by-same false (pos 0) seek_start (record brsc { closed = false })

use_all-same : (us : List Use) (brsc : Body) → (use_all us brsc).rs.s ≡ brsc.rs.s
use_all-same [] brsc = refl
use_all-same (u ∷ us) brsc = use_all-same us (use_body u brsc) ∙ use_body-same u brsc

abbrev opened : Bytes → (i closed_pos : ℕ) → Body
opened s i closed_pos = record {
  rs = record { s = s; i = i };
  closed = false;
  closed_pos = closed_pos;
}

rewind-opened : (brsc : Body) → rewind brsc ≡ (some 0, opened brsc.rs.s 0 brsc.closed_pos)
unfolding rewind seek seek_by seek_reader ◌+ℤ◌
rewind-opened brsc = refl

drop-all : (i : ℕ) (s : Bytes) → length s ≤ i → drop i s ≡ []
drop-all zero [] h = refl
drop-all zero (c ∷ s) h = absurd (omega (arith, h))
drop-all (suc i) [] h = refl
drop-all (suc i) (c ∷ s) h = drop-all i s (omega (arith, h))

drop-nil : (n : ℕ) → drop {A = ℕ} n [] ≡ []
drop-nil zero = refl
drop-nil (suc n) = refl

drop-drop : (i k : ℕ) (s : Bytes) → drop (i + k) s ≡ drop k (drop i s)
drop-drop zero k s = let e : 0 + k ≡ k = omega arith in ap (λ n. drop n s) e
drop-drop (suc i) k [] = drop-nil (suc i + k) ∙ sym (drop-nil k)
drop-drop (suc i) k (c ∷ s) =
    let e : suc i + k ≡ suc (i + k) = omega arith in ap (λ n. drop n (c ∷ s)) e ∙ drop-drop i k s

take-then_drop : (n : ℕ) (s : Bytes) → take n s ++ drop (length (take n s)) s ≡ s
take-then_drop zero s = refl
take-then_drop (suc n) [] = refl
take-then_drop (suc n) (c ∷ s) = ap (λ t. c ∷ t) (take-then_drop n s)

-- What is left is read, by a buffer that is not empty, in as many rounds as there are bytes and one.
read_all-rest :
    (f len_p : ℕ) (s : Bytes) (i closed_pos : ℕ)
    → 0 < len_p
    → length s - i < f
    → read_all f len_p (opened s i closed_pos) ≡ some (drop i s)
unfolding read_all read read_by
read_all-rest zero len_p s i closed_pos p h = absurd (omega (arith, h))
read_all-rest (suc f) len_p s i closed_pos p h = elim (Bool-cases (leb (length s) i)) [
  | inl e ↦
      ap
        (λ b.
          collect (read_reader b len_p (opened s i closed_pos)).0
            (read_all f len_p (read_reader b len_p (opened s i closed_pos)).1))
        e
      ∙ ended
      ∙ ap some (sym (drop-all i s (ground arith)))
  | inr e ↦
      let got = take len_p (drop i s) in
      let some_left : 0 < length got =
        omega (arith, length-take len_p (drop i s), length-drop i s, p, not_yet e) in
      ap
        (λ b.
          collect (read_reader b len_p (opened s i closed_pos)).0
            (read_all f len_p (read_reader b len_p (opened s i closed_pos)).1))
        e
      ∙ going
      ∙ ap (prepend got) (
          read_all-rest f len_p s (i + length got) closed_pos p
            (omega (arith, h, some_left, not_yet e)))
      ∙ ap (λ t. some (got ++ t)) (drop-drop i (length got) s)
      ∙ ap some (take-then_drop len_p (drop i s))
]
  where
    not_yet : leb (length s) i ≡ false → i < length s
    not_yet e = ground (arith, e)

    ended :
        collect
          (read_reader true len_p (opened s i closed_pos)).0
          (read_all f len_p (read_reader true len_p (opened s i closed_pos)).1)
        ≡ some []
    ended = unfold read_reader in refl

    going :
        collect
          (read_reader false len_p (opened s i closed_pos)).0
          (read_all f len_p (read_reader false len_p (opened s i closed_pos)).1)
        ≡ prepend
            (take len_p (drop i s))
            (read_all f len_p (opened s (i + length (take len_p (drop i s))) closed_pos))
    going = unfold read_reader in refl

-- Whatever was done with a body before, a rewind succeeds and what is read from then on, until io.EOF
-- comes, is all of its bytes from the first; it comes after as many reads as there are bytes, at most,
-- and one.
pub rewind-read_all :
    (us : List Use) (b : Bytes) (f len_p : ℕ)
    → 0 < len_p
    → length b < f
    → ((rewind (use_all us (new_bytes_read_seek_closer b))).0 ≡ some 0)
      × (read_all f len_p (rewind (use_all us (new_bytes_read_seek_closer b))).1 ≡ some b)
unfolding new_bytes_read_seek_closer
rewind-read_all us b f len_p p h =
    let start = new_bytes_read_seek_closer b in
    let back = rewind-opened (use_all us start) in
    (
      ap (λ x. x.0) back,
      ap (λ x. read_all f len_p x.1) back
          ∙ ap (λ s. read_all f len_p (opened s 0 (use_all us start).closed_pos))
              (use_all-same us start)
          ∙ read_all-rest f len_p b 0 (use_all us start).closed_pos p (omega (arith, h)),
    )
