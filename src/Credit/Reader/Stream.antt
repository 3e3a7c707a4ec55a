-- ===== src/Credit/Reader/Stream.antt =====
-- Sequences of reads of a CreditReader, and reads behind a Rewind.
use native.Mathlib.Nat.{le_trans}
use mathlib.Core.List.{append_assoc, append-nil}
use victoriametrics_importer.Prelude.{
  ℕ, zero, suc, ◌+◌, ◌-◌, ◌≤◌, ◌≡◌, refl, sym, ap, subst, ◌∙◌, Bool, true, false, List, [], ◌∷◌,
  ◌++◌, ltb, leb, ◌==◌, if◌then◌else◌, length, take, drop, take-append-drop, ap₂, map, arith,
  Bool-cases, inl, inr,
}
use victoriametrics_importer.Prelude.Int.{ℤ}
use victoriametrics_importer.Credit.Reader.{
  Reader, ReadResult, bytes, eof, slice, read, read_open, read_granted, read_by, rewind, close,
  new_credit_reader,
}

-- The reader is open, its size is that of its buffer, and its pointer lies within.
pub record IsOpen (cr : Reader) : Type 0 where
  pub opened : cr.closed ≡ false
  pub size : cr.n ≡ length cr.b
  pub within : cr.r ≤ cr.n

-- GetCredit grants no more than it was asked for.
abbrev pub IsFrugal : (ℕ → ℤ → ℕ) → Type 0
IsFrugal get_credit = (desired : ℕ) (least : ℤ) → get_credit desired least ≤ desired

abbrev pub content : ReadResult → List ℕ
content (bytes bs) = bs
content eof = []

drop_nil : (n : ℕ) → drop {A = ℕ} n [] ≡ []
drop_nil zero = refl
drop_nil (suc n) = refl

drop_add : (b : List ℕ) (m k : ℕ) → drop k (drop m b) ≡ drop (m + k) b
drop_add b zero k = ap (λ i. drop i b) (omega arith)
drop_add [] (suc m) k = drop_nil k ∙ sym (drop_nil (suc m + k))
drop_add (x ∷ b) (suc m) k =
    drop_add b m k ∙ ap (λ i. drop i (x ∷ b)) {x = suc (m + k)} {y = suc m + k} (omega arith)

-- The slice is what lies between the old pointer and the new one.
slice-append : (b : List ℕ) (r got : ℕ) → slice b r (r + got) ++ drop (r + got) b ≡ drop r b
slice-append b r got =
    ap₂ (λ x y. take x (drop r b) ++ y) (omega arith) (sym (drop_add b r got))
    ∙ take-append-drop got (drop r b)

-- What one Read does to an open reader.
record IsStep (cr : Reader) (out : ReadResult) (cr' : Reader) : Type 0 where
  open' : IsOpen cr'
  buffer : cr'.b ≡ cr.b
  forward : cr.r ≤ cr'.r
  consumed : content out ++ drop cr'.r cr.b ≡ drop cr.r cr.b

stay : (cr : Reader) (out : ReadResult) → content out ≡ [] → IsOpen cr → IsStep cr out cr
stay cr out e o = record { open' = o; buffer = refl; forward = omega arith; consumed = rw e }

read_granted-IsStep :
    (got : ℕ) (cr : Reader)
    → IsOpen cr
    → got ≤ cr.n - cr.r
    → IsStep cr (read_granted got cr).0 (read_granted got cr).1
unfolding read_granted
read_granted-IsStep got cr o h = elim (Bool-cases (got == 0)) [
  | inl e ↦ rw e (stay cr (bytes []) refl o)
  | inr e ↦ rw e (record {
    open' = record { opened = o.opened; size = o.size; within = omega (arith, o.within) };
    buffer = refl;
    forward = omega arith;
    consumed = slice-append cr.b cr.r got;
  })
]

read_open-IsStep :
    (get_credit : ℕ → ℤ → ℕ) (len_p : ℕ) (cr : Reader)
    → IsFrugal get_credit
    → IsOpen cr
    → IsStep cr (read_open get_credit len_p cr).0 (read_open get_credit len_p cr).1
unfolding read_open
read_open-IsStep get_credit len_p cr frugal o = elim (Bool-cases (leb cr.n cr.r)) [
  | inl e ↦ rw e (stay cr eof refl o)
  | inr e ↦ rw e (elim (Bool-cases (len_p == 0)) [
    | inl z ↦ rw z (stay cr (bytes []) refl o)
    | inr z ↦ rw z (
        read_granted-IsStep _ cr o (
          le_trans (frugal (if ltb (cr.n - cr.r) len_p then cr.n - cr.r else len_p) cr.min_c)
            (ground arith)))
  ])
]

read-IsStep :
    (get_credit : ℕ → ℤ → ℕ) (len_p : ℕ) (cr : Reader)
    → IsFrugal get_credit
    → IsOpen cr
    → IsStep cr (read get_credit len_p cr).0 (read get_credit len_p cr).1
unfolding read
read-IsStep get_credit len_p cr frugal o = by_closed cr.closed refl
  where
    by_closed :
        (c : Bool)
        → cr.closed ≡ c
        → IsStep cr (read_by c get_credit len_p cr).0 (read_by c get_credit len_p cr).1
    by_closed true e = absurd (cc (e, o.opened))
    by_closed false e = unfold read_by in read_open-IsStep get_credit len_p cr frugal o

-- A Read: the length of its slice, and what the controller's GetCredit returns at that call.
abbrev pub Ask : Type 0
Ask = ℕ × (ℕ → ℤ → ℕ)

-- At none of the calls is more credit granted than was asked for.
abbrev pub AllFrugal : List Ask → Type 0
AllFrugal [] = Unit
AllFrugal (a ∷ asks) = IsFrugal a.1 × AllFrugal asks

-- What the http client does with a request body.
pub data Use : Type 0 where
  reads : Ask → Use
  closes : Use

-- All the bytes that are read, and the reader behind.
unfoldable pub use_reader : List Use → Reader → List ℕ × Reader
use_reader [] cr = ([], cr)
use_reader (reads a ∷ us) cr =
    let (out, cr) = read a.1 a.0 cr in
    let (rest, cr) = use_reader us cr in (content out ++ rest, cr)
use_reader (closes ∷ us) cr = use_reader us (close cr)

abbrev pub reads_of : List Ask → List Use
reads_of = map reads

-- Reads of an open reader return what lies between its pointers.
pub reads_in_order :
    (asks : List Ask) (cr : Reader)
    → AllFrugal asks
    → IsOpen cr
    → let (out, cr') = use_reader (reads_of asks) cr in
      IsOpen cr' × (cr'.b ≡ cr.b) × (out ++ drop cr'.r cr.b ≡ drop cr.r cr.b)
unfolding use_reader
reads_in_order [] cr frugal o = (o, refl, refl)
reads_in_order (a ∷ asks) cr frugal o =
    let s = read-IsStep a.1 a.0 cr frugal.0 o in
    let next = (read a.1 a.0 cr).1 in
    let (o', b, e) = reads_in_order asks next frugal.1 s.open' in
    let end = use_reader (reads_of asks) next in
    (
      o',
      b ∙ s.buffer,
      append_assoc _ end.0 (drop end.1.r cr.b)
          ∙ ap (◌++◌ (content (read a.1 a.0 cr).0))
              (subst (λ l. end.0 ++ drop end.1.r l ≡ drop next.r l) s.buffer e)
          ∙ s.consumed,
    )

read-kept :
    (get_credit : ℕ → ℤ → ℕ) (len_p : ℕ) (cr : Reader)
    → ((read get_credit len_p cr).1.b ≡ cr.b) × ((read get_credit len_p cr).1.n ≡ cr.n)
unfolding read
read-kept get_credit len_p cr = by_closed cr.closed
  where
    by_closed :
        (c : Bool)
        → ((read_by c get_credit len_p cr).1.b ≡ cr.b)
          × ((read_by c get_credit len_p cr).1.n ≡ cr.n)
    by_closed true = unfold read_by in (refl, refl)
    by_closed false = unfold read_by read_open read_granted in ground arith

-- No use of a reader touches its buffer or its size.
use_reader-kept :
    (us : List Use) (cr : Reader)
    → ((use_reader us cr).1.b ≡ cr.b) × ((use_reader us cr).1.n ≡ cr.n)
unfolding use_reader close
use_reader-kept [] cr = (refl, refl)
use_reader-kept (closes ∷ us) cr = use_reader-kept us (close cr)
use_reader-kept (reads a ∷ us) cr =
    let k = read-kept a.1 a.0 cr in
    let (b, n) = use_reader-kept us (read a.1 a.0 cr).1 in (b ∙ k.0, n ∙ k.1)

-- io.EOF is returned at the end of the buffer only.
eof-end :
    (get_credit : ℕ → ℤ → ℕ) (len_p : ℕ) (cr : Reader)
    → IsOpen cr
    → (read get_credit len_p cr).0 ≡ eof
    → cr.r ≡ length cr.b
unfolding read
eof-end get_credit len_p cr o = by_closed cr.closed
  where
    by_closed : (c : Bool) → (read_by c get_credit len_p cr).0 ≡ eof → cr.r ≡ length cr.b
    by_closed true e = unfold read_by in absurd (cc e)
    by_closed false e = unfold read_by read_open read_granted in ground (arith, e, o.size, o.within)

drop_all : (b : List ℕ) → drop (length b) b ≡ []
drop_all [] = refl
drop_all (x ∷ b) = drop_all b

-- A first use of a new reader, Rewind, and the reads of a second attempt.
abbrev pub read_again : ℤ → List ℕ → (first : List Use) → (asks : List Ask) → List ℕ × Reader
read_again min_acceptable b first asks =
    use_reader (reads_of asks) (rewind (use_reader first (new_credit_reader min_acceptable b)).1)

-- Where no call of the second attempt is granted more credit than it asked for, each call with a
-- controller's answer of its own: whatever a first attempt read, and whether or not it closed the
-- reader, the reads behind a Rewind have returned exactly the whole buffer once io.EOF is reported.
pub rewind-rereads :
    (min_acceptable : ℤ) (b : List ℕ) (first : List Use) (asks : List Ask) (last : Ask)
    → AllFrugal asks
    → (read last.1 last.0 (read_again min_acceptable b first asks).1).0 ≡ eof
    → (read_again min_acceptable b first asks).0 ≡ b
unfolding rewind new_credit_reader
rewind-rereads min_acceptable b first asks last frugal e =
    let k = use_reader-kept first (new_credit_reader min_acceptable b) in
    let cr = rewind (use_reader first (new_credit_reader min_acceptable b)).1 in
    let o : IsOpen cr = record {
      opened = refl;
      size = k.1 ∙ ap length (sym k.0);
      within = omega arith;
    } in
    let (o', b', all) = reads_in_order asks cr frugal o in
    let end = use_reader (reads_of asks) cr in
    let behind : drop end.1.r cr.b ≡ [] =
      ap (λ i. drop i cr.b) (eof-end last.1 last.0 end.1 o' e ∙ ap length b') ∙ drop_all cr.b in
    sym (append-nil end.0) ∙ ap (◌++◌ end.0) (sym behind) ∙ all ∙ k.0
