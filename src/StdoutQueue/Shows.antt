-- ===== src/StdoutQueue/Shows.antt =====
-- Runs of the queue: what stdout shows, and how a shutdown ends.
use mathlib.Core.List.{append-nil, append_assoc}
use mathlib.Core.Option.{some_inj}
use Prim.Native.String.{String}
use victoriametrics_importer.Prelude.{
  ℕ, suc, ◌≡◌, refl, sym, ap, subst, ◌∙◌, Bool, true, false, Option, none, some, List, [], ◌∷◌,
  ◌++◌, length, replicate, arith, Bool-cases, inl, inr,
}
use victoriametrics_importer.Prelude.Int.{ℤ}
use victoriametrics_importer.BufferPool.{Bytes, new_read_file_buf_pool}
use victoriametrics_importer.StdoutQueue.{
  QueueConfig, config_or_default, Queue, new_queue, new_stdout_metrics_queue, header, write_header,
  write_buf, display, Event, round, shutdown, Outcome, next, not_enabled, panics, receive_from,
  close_by, step, follow, run,
}
use victoriametrics_importer.StdoutQueue.Invariant.{Inv, full, text, Keeps}
use victoriametrics_importer.StdoutQueue.Keeps.{step-Keeps}

abbrev pub text_after : Outcome → (Queue → Bytes) → Bytes
text_after (next r) f = f r
text_after not_enabled f = []
text_after panics f = []

-- The texts of the buffers that a run queues, as they are when they are queued.
abbrev pub texts : List Event → Queue → Bytes
texts [] q = []
texts (e ∷ es) q = text e q ++ text_after (step e q) (texts es)

follow-full :
    (es : List Event) (x : Bytes) (o : Outcome) (q r : Queue)
    → Keeps q x o
    → ((p : Queue) → Inv p → run es p ≡ some r → Inv r × (full r ≡ full p ++ texts es p))
    → follow (run es) o ≡ some r
    → Inv r × (full r ≡ full q ++ (x ++ text_after o (texts es)))
follow-full es x (next p) q r k f h =
    let rest = f p k.0 h in
    (rest.0, rest.1 ∙ ap (λ l. l ++ texts es p) k.1 ∙ append_assoc (full q) x (texts es p))
follow-full es x not_enabled q r k f h = absurd (cc h)
follow-full es x panics q r k f h = absurd (cc h)

run-full :
    (es : List Event) (q r : Queue)
    → Inv q
    → run es q ≡ some r
    → Inv r × (full r ≡ full q ++ texts es q)
unfolding run
run-full [] q r v h =
    let e : q ≡ r = some_inj.0 h in (subst Inv e v, sym (ap full e) ∙ sym (append-nil (full q)))
run-full (e ∷ es) q r v h =
    follow-full es (text e q) (step e q) q r (step-Keeps e q v) (λ p w k. run-full es p r w k) h

new_queue-Inv : (cfg : QueueConfig) (n : ℤ) → Inv (new_queue cfg n)
unfolding new_queue new_read_file_buf_pool
new_queue-Inv cfg n = record {
  sound = record { fits = omega arith; once = tt; made = tt; capped = λ h. omega arith };
  inside = λ b h. h;
  once = tt;
  room = omega arith;
  silent = λ h. refl;
  drained = λ h. refl;
  closed = λ h. absurd (cc h);
}

new_queue-full : (cfg : QueueConfig) (n : ℤ) → full (new_queue cfg n) ≡ header
unfolding new_queue
new_queue-full cfg n = refl

-- Whatever the users of a new queue do, as long as they use only buffers that they have: every buffer
-- stays in one place, and what stdout shows, with the header if it is still to come and with the
-- buffers that wait, is the header and the texts of all buffers queued, in order, each as it was when
-- it was queued.
pub run-shows :
    (ram_in_bytes : String → Option ℤ) (pool_cfg : Option QueueConfig) (es : List Event)
    (q r : Queue)
    → new_stdout_metrics_queue ram_in_bytes pool_cfg ≡ some q
    → run es q ≡ some r
    → Inv r × (full r ≡ header ++ texts es q)
unfolding new_stdout_metrics_queue
run-shows ram_in_bytes pool_cfg es q r =
    from_new (ram_in_bytes (config_or_default pool_cfg).batch_target_size)
  where
    from_new :
        (size : Option ℤ)
        → (elim size [ none ↦ none | some n ↦ some (new_queue (config_or_default pool_cfg) n) ])
          ≡ some q
        → run es q ≡ some r
        → Inv r × (full r ≡ header ++ texts es q)
    from_new none e h = absurd (cc e)
    from_new (some n) e h =
        let same : new_queue (config_or_default pool_cfg) n ≡ q = some_inj.0 e in
        let ran =
          run-full es q r (subst Inv same (new_queue-Inv (config_or_default pool_cfg) n)) h in
        (
          ran.0,
          ran.1
              ∙ ap (λ l. l ++ texts es q)
                  (sym (ap full same) ∙ new_queue-full (config_or_default pool_cfg) n),
        )

-- A run that ends the loop and shows what was queued.
pub record Drained (q : Queue) (es : List Event) : Type 0 where
  pub end : Queue
  pub ran : run es q ≡ some end
  pub ended : end.looping ≡ false
  pub empty : end.queue ≡ []
  pub same : full end ≡ full q

display-same :
    (first_use : Bool) (b : ℕ) (q : Queue)
    → ((display first_use b q).looping ≡ q.looping)
      × ((display first_use b q).is_open ≡ q.is_open)
      × ((display first_use b q).queue ≡ q.queue)
unfolding display write_header write_buf
display-same true b q = (refl, refl, refl)
display-same false b q = (refl, refl, refl)

round-is :
    (looping is_open : Bool) (bs : List ℕ) (q : Queue)
    → q.looping ≡ looping
    → q.is_open ≡ is_open
    → q.queue ≡ bs
    → step round q ≡ receive_from looping is_open bs q
unfolding step
round-is looping is_open bs q l o e =
    ap (λ x. receive_from x q.is_open q.queue q) l
    ∙ ap (λ x. receive_from looping x q.queue q) o
    ∙ ap (λ x. receive_from looping is_open x q) e

run-next :
    (e : Event) (es : List Event) (q p : Queue) → step e q ≡ next p → run (e ∷ es) q ≡ run es p
unfolding run
run-next e es q p h = ap (follow (run es)) h

step-next :
    (e : Event) (q p : Queue) → Inv q → step e q ≡ next p → Inv p × (full p ≡ full q ++ text e q)
step-next e q p v h = subst (Keeps q (text e q)) h (step-Keeps e q v)

drain :
    (bs : List ℕ) (q : Queue)
    → q.looping ≡ true
    → q.is_open ≡ false
    → q.queue ≡ bs
    → Inv q
    → Drained q (replicate (suc (length bs)) round)
unfolding receive_from run
drain [] q l o e v =
    let stop = round-is true false [] q l o e in
    let kept = step-next round q (record q { looping = false }) v stop in
    record {
      end = record q { looping = false };
      ran = run-next round [] q (record q { looping = false }) stop;
      ended = refl;
      empty = e;
      same = refl;
    }
drain (b ∷ bs) q l o e v =
    let p = display q.first_use b (record q { queue = bs }) in
    let go : step round q ≡ next p = round-is true false (b ∷ bs) q l o e in
    let kept = step-next round q p v go in
    let s = display-same q.first_use b (record q { queue = bs }) in
    let rest = drain bs p (s.0 ∙ l) (s.1 ∙ o) s.2 kept.0 in
    record {
      end = rest.end;
      ran = run-next round (replicate (suc (length bs)) round) q p go ∙ rest.ran;
      ended = rest.ended;
      empty = rest.empty;
      same = rest.same ∙ kept.1 ∙ append-nil (full q);
    }

still_looping : (q : Queue) → Inv q → q.is_open ≡ true → q.looping ≡ true
still_looping q v o = elim (Bool-cases q.looping) [
  | inl e ↦ e
  | inr e ↦ absurd (cc (v.closed e, o))
]

-- A queue that is shut down displays every buffer that waits, one a round, and one round later the
-- loop has ended: what stdout shows is all that was queued.
pub shutdown-Drained :
    (q : Queue)
    → Inv q
    → q.is_open ≡ true
    → Drained q (shutdown ∷ replicate (suc (length q.queue)) round)
unfolding step close_by run
shutdown-Drained q v o =
    let p = record q { is_open = false } in
    let close : step shutdown q ≡ next p = ap (λ x. close_by x q) o in
    let kept = step-next shutdown q p v close in
    let rest = drain q.queue p (still_looping q v o) refl refl kept.0 in
    record {
      end = rest.end;
      ran = run-next shutdown (replicate (suc (length q.queue)) round) q p close ∙ rest.ran;
      ended = rest.ended;
      empty = rest.empty;
      same = rest.same ∙ kept.1 ∙ append-nil (full q);
    }
