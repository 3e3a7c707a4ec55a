-- ===== src/Compressor/Batches.antt =====
-- The buffers that a compressor reads, in the batches it sent and in the one it gathers.
use victoriametrics_importer.Prelude.{
  ℕ, ◌<◌, ◌≡◌, refl, sym, ap, subst, ◌∙◌, Bool, true, false, Option, none, some, List, [], ◌∷◌,
  ◌++◌, ◌==◌, if◌then◌else◌, arith,
}
use mathlib.Core.List.{append_assoc, append-nil}
use victoriametrics_importer.Compressor.{
  Bytes, Received, buffer, closed, timeout, Codec, Loop, Turn, turned, panics, begin, write, gather,
  send_batch, send_by, do_send,
}

abbrev pub flatten : List (List Bytes) → List Bytes
flatten [] = []
flatten (b ∷ bs) = b ++ flatten bs

flatten-append :
    (bs : List (List Bytes)) (b : List Bytes) → flatten (bs ++ b ∷ []) ≡ flatten bs ++ b
flatten-append [] b = append-nil b
flatten-append (c ∷ bs) b =
    ap (λ l. c ++ l) (flatten-append bs b) ∙ sym (append_assoc c (flatten bs) b)

abbrev pub nonempty : Option Bytes → List Bytes
nonempty none = []
nonempty (some []) = []
nonempty (some (x ∷ xs)) = (x ∷ xs) ∷ []

-- The buffers with content that come before the queue is closed.
abbrev pub fed : List Received → List Bytes
fed [] = []
fed (buffer buf writes accepted ∷ rs) = nonempty buf ++ fed rs
fed (closed accepted ∷ rs) = []
fed (timeout accepted ∷ rs) = fed rs

-- The writer takes every buffer.
abbrev pub AllWrite : List Received → Type 0
AllWrite [] = Unit {0}
AllWrite (buffer buf writes accepted ∷ rs) = (writes ≡ true) × AllWrite rs
AllWrite (closed accepted ∷ rs) = AllWrite rs
AllWrite (timeout accepted ∷ rs) = AllWrite rs

module _ {Factor : Type 0} where
  abbrev pub pending : Loop Factor → List Bytes
  pending l = if l.batch_read_count == 0 then [] else l.gz_buf

  pub record Flow (xs : List Bytes) (l : Loop Factor) : Type 0 where
    pub flow : flatten l.sent ++ pending l ≡ xs
    pub writer : 0 < l.batch_read_count → l.gz_writer ≡ true
    pub bytes : 0 < l.batch_read_count → 0 < l.batch_read_byte_count
    pub empty : l.batch_read_count ≡ 0 → l.batch_read_byte_count ≡ 0
    pub timer : l.timer_set ≡ true → 0 < l.batch_read_count
    pub sender : l.has_sender ≡ true

  write-Flow :
      (x : ℕ) (buf : Bytes) (xs : List Bytes) (l : Loop Factor)
      → flatten l.sent ++ l.gz_buf ≡ xs
      → l.gz_writer ≡ true
      → l.has_sender ≡ true
      → Flow (xs ++ (x ∷ buf) ∷ []) (write Factor true (x ∷ buf) l)
  unfolding write
  write-Flow x buf xs l e w s = record {
    flow = ground (arith, sym (append_assoc (flatten l.sent) l.gz_buf ((x ∷ buf) ∷ [])), e);
    writer = λ h. w;
    bytes = λ h. omega arith;
    empty = λ h. absurd (omega arith);
    timer = λ h. omega arith;
    sender = s;
  }

  begin-Flow :
      (first : Bool) (x : ℕ) (buf : Bytes) (xs : List Bytes) (l : Loop Factor)
      → (l.batch_read_count == 0) ≡ first
      → Flow xs l
      → Flow (xs ++ (x ∷ buf) ∷ []) (write Factor true (x ∷ buf) (begin Factor first l))
  begin-Flow true x buf xs l e f =
      write-Flow x buf xs (begin Factor true l) (unfold begin in ground (arith, f.flow, e))
        (unfold begin in refl) (unfold begin in f.sender)
  begin-Flow false x buf xs l e f =
      write-Flow x buf xs (begin Factor false l) (unfold begin in ground (arith, f.flow, e))
        (unfold begin in f.writer (ground arith)) (unfold begin in f.sender)

  pub gather-Flow :
      (buf : Option Bytes) (xs : List Bytes) (l : Loop Factor)
      → Flow xs l
      → Flow (xs ++ nonempty buf) (gather Factor buf true l)
  unfolding gather
  gather-Flow none xs l f = subst (λ ys. Flow ys l) (sym (append-nil xs)) f
  gather-Flow (some []) xs l f = subst (λ ys. Flow ys l) (sym (append-nil xs)) f
  gather-Flow (some (x ∷ buf)) xs l f = begin-Flow (l.batch_read_count == 0) x buf xs l refl f

  module _ (codec : Codec Factor) where
    send_batch-Flow :
        (accepted : Bool) (xs : List Bytes) (l : Loop Factor)
        → 0 < l.batch_read_count
        → Flow xs l
        → Flow xs (send_batch Factor codec accepted l)
    unfolding send_batch
    send_batch-Flow accepted xs l n f = record {
      flow = ground (
        arith,
        f.flow,
        f.sender,
        flatten-append l.sent l.gz_buf,
        append-nil (flatten (l.sent ++ l.gz_buf ∷ [])),
      );
      writer = λ h. absurd (omega arith);
      bytes = λ h. absurd (omega arith);
      empty = λ h. refl;
      timer = λ h. absurd (cc h);
      sender = f.sender;
    }

    -- Between two turns: nothing is left when the queue is closed, and the batch is below the limit.
    pub record Settled (xs : List Bytes) (l : Loop Factor) : Type 0 where
      pub gathered : Flow xs l
      pub over : l.is_open ≡ false → l.batch_read_count ≡ 0
      pub below : l.batch_read_byte_count < codec.read_byte_limit l.estimated_cf

    abbrev pub Good : List Bytes → (is_open : Bool) → Turn Factor → Type 0
    Good xs is_open (turned l) = Settled xs l × (l.is_open ≡ is_open)
    Good xs is_open panics = ⊥

    module _ (positive : (f : Factor) → 0 < codec.read_byte_limit f) where
      send_batch-Settled :
          (accepted : Bool) (xs : List Bytes) (l : Loop Factor)
          → 0 < l.batch_read_count
          → Flow xs l
          → Settled xs (send_batch Factor codec accepted l)
      unfolding send_batch
      send_batch-Settled accepted xs l n f = record {
        gathered = send_batch-Flow accepted xs l n f;
        over = λ h. refl;
        below = positive _;
      }

      pub sent-Good :
          (gz_writer accepted : Bool) (xs : List Bytes) (l : Loop Factor)
          → gz_writer ≡ true
          → 0 < l.batch_read_count
          → Flow xs l
          → Good xs l.is_open (send_by Factor codec true gz_writer accepted l)
      unfolding send_by send_batch
      sent-Good true accepted xs l e n f = (send_batch-Settled accepted xs l n f, refl)
      sent-Good false accepted xs l e n f = absurd (cc e)

      pub send_by-Good :
          (accepted : Bool) (xs : List Bytes) (l : Loop Factor)
          → Flow xs l
          → Good xs l.is_open (send_by Factor codec (do_send Factor codec l) l.gz_writer accepted l)
      send_by-Good accepted xs l f = by_test (do_send Factor codec l) refl
        where
          some_read : do_send Factor codec l ≡ true → 0 < l.batch_read_byte_count
          some_read e = unfold do_send in ground (arith, e, positive l.estimated_cf)

          by_test :
              (b : Bool)
              → do_send Factor codec l ≡ b
              → Good xs l.is_open (send_by Factor codec b l.gz_writer accepted l)
          by_test true e =
              let h = some_read e in
              let n : 0 < l.batch_read_count = ground (arith, h, f.empty) in
              sent-Good l.gz_writer accepted xs l (f.writer n) n f
          by_test false e =
              unfold send_by in
              (
                record {
                  gathered = f;
                  over = λ c. unfold do_send in ground (arith, c, e, f.bytes);
                  below = unfold do_send in ground (arith, e);
                },
                refl,
              )
