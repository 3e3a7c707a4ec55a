-- ===== src/Compressor/Delivery.antt =====
-- A whole run of a compressor's loop.
use victoriametrics_importer.Prelude.{
  ℕ, ◌<◌, ◌≡◌, refl, sym, ap, subst, ◌∙◌, Bool, true, false, Option, none, some, List, [], ◌∷◌,
  ◌++◌, ◌==◌, if◌then◌else◌, arith,
}
use mathlib.Core.List.{append_assoc, append-nil}
use victoriametrics_importer.Compressor.{
  Bytes, Received, buffer, closed, timeout, Codec, Loop, Turn, turned, panics, start_loop, gather,
  loop, begin, write, enabled, turn, run,
}
use victoriametrics_importer.Compressor.Batches.{
  flatten, nonempty, fed, AllWrite, pending, Flow, gather-Flow, Settled, Good, sent-Good,
  send_by-Good,
}

module _ {Factor : Type 0} (codec : Codec Factor)
    (positive : (f : Factor) → 0 < codec.read_byte_limit f) where
  gather-open :
      (buf : Option Bytes) (writes : Bool) (l : Loop Factor)
      → (gather Factor buf writes l).is_open ≡ l.is_open
  unfolding gather
  gather-open none writes l = refl
  gather-open (some []) writes l = refl
  gather-open (some (x ∷ xs)) writes l = begun (l.batch_read_count == 0) writes
    where
      begun :
          (first writes : Bool)
          → (write Factor writes (x ∷ xs) (begin Factor first l)).is_open ≡ l.is_open
      begun true true = unfold write begin in refl
      begun true false = unfold write begin in refl
      begun false true = unfold write begin in refl
      begun false false = unfold write begin in refl

  -- What a turn adds, and whether the queue is open after it.
  abbrev taken : Bool → Received → List Bytes
  taken false r = []
  taken true (buffer buf writes accepted) = nonempty buf
  taken true (closed accepted) = []
  taken true (timeout accepted) = []

  abbrev open_after : Bool → Received → Bool
  open_after false r = false
  open_after true (buffer buf writes accepted) = true
  open_after true (closed accepted) = false
  open_after true (timeout accepted) = true

  abbrev Writes : Received → Type 0
  Writes (buffer buf writes accepted) = writes ≡ true
  Writes (closed accepted) = Unit {0}
  Writes (timeout accepted) = Unit {0}

  passed :
      (xs : List Bytes) (l : Loop Factor)
      → Settled codec xs l
      → Good codec (xs ++ []) l.is_open (turned l)
  passed xs l s = (subst (λ ys. Settled codec ys l) (sym (append-nil xs)) s, refl)

  shut :
      (xs : List Bytes) (l : Loop Factor)
      → Settled codec xs l
      → Flow xs (record l { is_open = false })
  shut xs l s = record {
    flow = s.gathered.flow;
    writer = s.gathered.writer;
    bytes = s.gathered.bytes;
    empty = s.gathered.empty;
    timer = s.gathered.timer;
    sender = s.gathered.sender;
  }

  fired :
      (xs : List Bytes) (l : Loop Factor)
      → Settled codec xs l
      → Flow xs (record l { batch_timeout_count = 1; timer_set = false })
  fired xs l s = record {
    flow = s.gathered.flow;
    writer = s.gathered.writer;
    bytes = s.gathered.bytes;
    empty = s.gathered.empty;
    timer = λ e. absurd (cc e);
    sender = s.gathered.sender;
  }

  -- One turn of a loop whose queue is open.
  loop-Good :
      (r : Received) (xs : List Bytes) (l : Loop Factor)
      → Writes r
      → l.is_open ≡ true
      → enabled Factor codec r l ≡ true
      → Settled codec xs l
      → Good codec (xs ++ taken true r) (open_after true r) (loop Factor codec r l)
  unfolding loop
  loop-Good (buffer buf writes accepted) xs l w o e s =
      let f =
        subst (λ b. Flow (xs ++ nonempty buf) (gather Factor buf b l)) (sym w)
          (gather-Flow buf xs l s.gathered) in
      subst
        (λ b. Good codec (xs ++ nonempty buf) b (loop Factor codec (buffer buf writes accepted) l))
        (gather-open buf writes l ∙ o)
        (send_by-Good codec positive accepted (xs ++ nonempty buf) (gather Factor buf writes l) f)
  loop-Good (closed accepted) xs l w o e s =
      subst (λ ys. Good codec ys false (loop Factor codec (closed accepted) l))
        (sym (append-nil xs))
        (send_by-Good codec positive accepted xs (record l { is_open = false }) (shut xs l s))
  loop-Good (timeout accepted) xs l w o e s =
      let n : 0 < l.batch_read_count = s.gathered.timer (ground (arith, e)) in
      subst (λ b. Good codec (xs ++ []) b (loop Factor codec (timeout accepted) l)) o
        (subst (λ ys. Good codec ys l.is_open (loop Factor codec (timeout accepted) l))
          (sym (append-nil xs))
          (sent-Good codec positive l.gz_writer accepted xs _ (s.gathered.writer n) n
            (fired xs l s)))

  if-Good :
      (b : Bool) (xs : List Bytes) (c : Bool) (s t : Turn Factor)
      → (b ≡ true → Good codec xs c s)
      → (b ≡ false → Good codec xs c t)
      → Good codec xs c (if b then s else t)
  if-Good true xs c s t f g = f refl
  if-Good false xs c s t f g = g refl

  same_taken :
      (r : Received) (l : Loop Factor)
      → enabled Factor codec r l ≡ false
      → (taken l.is_open r ≡ []) × (open_after l.is_open r ≡ l.is_open)
  same_taken (buffer buf writes accepted) l e = rw e (refl, refl)
  same_taken (closed accepted) l e = rw e (refl, refl)
  same_taken (timeout accepted) l e = by_open l.is_open
    where
      by_open :
          (b : Bool) → (taken b (timeout accepted) ≡ []) × (open_after b (timeout accepted) ≡ b)
      by_open true = (refl, refl)
      by_open false = (refl, refl)

  enabled-open :
      (r : Received) (l : Loop Factor) → enabled Factor codec r l ≡ true → l.is_open ≡ true
  enabled-open (buffer buf writes accepted) l e = e
  enabled-open (closed accepted) l e = e
  enabled-open (timeout accepted) l e = ground (arith, e)

  turn-Good :
      (r : Received) (xs : List Bytes) (l : Loop Factor)
      → Writes r
      → Settled codec xs l
      → Good codec (xs ++ taken l.is_open r) (open_after l.is_open r) (turn Factor codec r l)
  turn-Good r xs l w s =
      if-Good (enabled Factor codec r l) (xs ++ taken l.is_open r) (open_after l.is_open r)
        (loop Factor codec r l) (turned l)
        (λ e.
          let o = enabled-open r l e in
          subst (λ b. Good codec (xs ++ taken b r) (open_after b r) (loop Factor codec r l)) (sym o)
            (loop-Good r xs l w o e s))
        (λ e.
          let k = same_taken r l e in
          subst (λ ys. Good codec (xs ++ ys) (open_after l.is_open r) (turned l)) (sym k.0)
            (subst (λ b. Good codec (xs ++ []) b (turned l)) (sym k.1) (passed xs l s)))

  abbrev fed_by : Bool → List Received → List Bytes
  fed_by true rs = fed rs
  fed_by false rs = []

  abbrev end_by : Bool → List Received → Bool
  end_by b [] = b
  end_by b (r ∷ rs) = end_by (open_after b r) rs

  fed_by-cons :
      (b : Bool) (r : Received) (rs : List Received)
      → taken b r ++ fed_by (open_after b r) rs ≡ fed_by b (r ∷ rs)
  fed_by-cons false r rs = refl
  fed_by-cons true (buffer buf writes accepted) rs = refl
  fed_by-cons true (closed accepted) rs = refl
  fed_by-cons true (timeout accepted) rs = refl

  AllWrite-cons : (r : Received) (rs : List Received) → AllWrite (r ∷ rs) → Writes r × AllWrite rs
  AllWrite-cons (buffer buf writes accepted) rs w = w
  AllWrite-cons (closed accepted) rs w = (tt, w)
  AllWrite-cons (timeout accepted) rs w = (tt, w)

  Ran : List Bytes → Turn Factor → Type 0
  Ran xs (turned l) = Settled codec xs l
  Ran xs panics = ⊥

  run-Ran :
      (rs : List Received) (xs : List Bytes) (l : Loop Factor)
      → AllWrite rs
      → Settled codec xs l
      → Ran (xs ++ fed_by l.is_open rs) (run Factor codec rs l)
  unfolding Ran run
  run-Ran [] xs l w s = by_open l.is_open
    where
      by_open : (b : Bool) → Settled codec (xs ++ fed_by b []) l
      by_open true = subst (λ ys. Settled codec ys l) (sym (append-nil xs)) s
      by_open false = subst (λ ys. Settled codec ys l) (sym (append-nil xs)) s
  run-Ran (r ∷ rs) xs l w s =
      let w' = AllWrite-cons r rs w in
      after (λ ys m t. run-Ran rs ys m w'.1 t) (turn Factor codec r l) (turn-Good r xs l w'.0 s)
    where
      after :
          ((ys : List Bytes) (m : Loop Factor)
            → Settled codec ys m
            → Ran (ys ++ fed_by m.is_open rs) (run Factor codec rs m))
          → (t : Turn Factor) → Good codec (xs ++ taken l.is_open r) (open_after l.is_open r) t
          → Ran
              (xs ++ fed_by l.is_open (r ∷ rs))
              (elim t [ turned m ↦ run Factor codec rs m | panics ↦ panics ])
      after rec (turned m) g =
          subst (λ ys. Ran ys (run Factor codec rs m))
            (ap (λ b. (xs ++ taken l.is_open r) ++ fed_by b rs) g.1
              ∙ append_assoc xs (taken l.is_open r) _
              ∙ ap (λ ys. xs ++ ys) (fed_by-cons l.is_open r rs))
            (rec _ m g.0)
      after rec panics g = g

  -- What a run comes to: it does not panic, and the batches sent with the one in progress hold the
  -- buffers `xs`; nothing is in progress when the queue is closed, and the batch is below the limit.
  pub data Delivers (xs : List Bytes) (t : Turn Factor) : Type 0 where
    delivers :
        (l : Loop Factor)
        → t ≡ turned l
        → flatten l.sent ++ pending l ≡ xs
        → (l.is_open ≡ false → flatten l.sent ≡ xs)
        → l.batch_read_byte_count < codec.read_byte_limit l.estimated_cf
        → Delivers xs t

  -- Started with a sender, and with a limit that is never 0, a compressor whose writer takes every
  -- buffer does not panic, whatever the queue and the timer deliver: the batches that it sent and the
  -- one that it gathers hold, in their order and each once, the buffers with content that it got
  -- before the queue was closed, and after that none is left to send; what it gathers stays below the limit.
  pub run-Delivers :
      (rs : List Received) (flush_interval : ℕ) (cf : Factor)
      → AllWrite rs
      → Delivers (fed rs) (run Factor codec rs (start_loop Factor true flush_interval cf))
  unfolding start_loop Ran
  run-Delivers rs flush_interval cf w = of_ran (run Factor codec rs _) (
      run-Ran rs [] (start_loop Factor true flush_interval cf) w (record {
        gathered = record {
          flow = refl;
          writer = λ h. absurd (omega arith);
          bytes = λ h. absurd (omega arith);
          empty = λ h. refl;
          timer = λ e. absurd (cc e);
          sender = refl;
        };
        over = λ e. absurd (cc e);
        below = positive cf;
      }))
    where
      of_ran : (t : Turn Factor) → Ran (fed rs) t → Delivers (fed rs) t
      of_ran (turned l) s =
          delivers l refl s.gathered.flow
            (λ c. ground (arith, s.gathered.flow, s.over c, append-nil (flatten l.sent))) s.below
      of_ran panics s = absurd s
