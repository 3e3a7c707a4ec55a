-- ===== src/StdoutQueue/Invariant.antt =====
-- The invariant of the queue, and what stdout shows when the queue is drained.
use mathlib.Core.List.{append-nil, append_assoc}
use victoriametrics_importer.Prelude.{
  ℕ, ◌≤◌, ◌≡◌, refl, sym, ap, ◌∙◌, Bool, true, false, List, [], ◌∷◌, ◌++◌, if◌then◌else◌, length,
  ◌==◌, ==_iff, Bool-cases, inl, inr, arith,
}
use victoriametrics_importer.Prelude.Sets.{has, Distinct}
use victoriametrics_importer.BufferPool.{Bytes, write_to}
use victoriametrics_importer.BufferPool.Owners.{IsSound}
use victoriametrics_importer.StdoutQueue.{
  Queue, header, shown, Event, get, fill, give_back, queue_buf, round, shutdown, Outcome, next,
  not_enabled, panics, is_with_user,
}

-- The invariant of the queue.
pub record Inv (q : Queue) : Type 0 where
  pub sound : IsSound q.buf_pool q.held
  pub inside : (b : ℕ) → has b q.queue ≡ true → has b q.held ≡ true
  pub once : Distinct q.queue
  pub room : length q.queue ≤ q.queue_size
  pub silent : q.first_use ≡ true → q.written ≡ []
  pub drained : q.looping ≡ false → q.queue ≡ []
  pub closed : q.looping ≡ false → q.is_open ≡ false

abbrev pub shown_all : (ℕ → Bytes) → List ℕ → Bytes
shown_all contents [] = []
shown_all contents (b ∷ bs) = shown (contents b) ++ shown_all contents bs

abbrev pub owed_header : (first_use : Bool) → Bytes
owed_header true = header
owed_header false = []

-- The header, and what stdout shows when the buffers of the queue are displayed too.
abbrev pub full : Queue → Bytes
full q = owed_header q.first_use ++ q.written ++ shown_all q.buf_pool.contents q.queue

-- What an event adds to it.
abbrev pub text : Event → Queue → Bytes
text get q = []
text (fill b bytes) q = []
text (give_back b) q = []
text (queue_buf b) q = shown (q.buf_pool.contents b)
text round q = []
text shutdown q = []

abbrev pub Keeps : Queue → Bytes → Outcome → Type 0
Keeps q x (next r) = Inv r × (full r ≡ full q ++ x)
Keeps q x not_enabled = Unit {0}
Keeps q x panics = Unit {0}

pub Keeps-if :
    (q : Queue) (x : Bytes) (o : Outcome) (b : Bool)
    → (b ≡ true → Keeps q x o)
    → Keeps q x (if b then o else not_enabled)
Keeps-if q x o true h = h refl
Keeps-if q x o false h = tt

pub write_to-other :
    (b c : ℕ) (bytes : Bytes) (m : ℕ → Bytes) (bs : List ℕ)
    → has b bs ≡ false
    → shown_all (write_to b bytes m) bs ≡ shown_all m bs
write_to-other b c bytes m [] h = refl
write_to-other b c bytes m (x ∷ bs) h = ground (arith, write_to-other b c bytes m bs)

pub shown_all-append :
    (m : ℕ → Bytes) (bs : List ℕ) (b : ℕ)
    → shown_all m (bs ++ b ∷ []) ≡ shown_all m bs ++ shown (m b)
shown_all-append m [] b = append-nil (shown (m b))
shown_all-append m (x ∷ bs) b =
    ap (λ l. shown (m x) ++ l) (shown_all-append m bs b)
    ∙ sym (append_assoc (shown (m x)) (shown_all m bs) (shown (m b)))

-- A buffer that a user holds is in the pool's books and not in the queue.
pub with_user :
    (b : ℕ) (q : Queue) → is_with_user b q ≡ true → (has b q.held ≡ true) × (has b q.queue ≡ false)
with_user b q h = ground (arith, h)

pub differ : (b c : ℕ) (bs : List ℕ) → has c bs ≡ true → has b bs ≡ false → (c == b) ≡ false
differ b c bs h k = elim (Bool-cases (c == b)) [
  | inl e ↦ absurd (cc ((==_iff c b).0 e, h, k))
  | inr e ↦ e
]
