-- ===== src/StdoutQueue/Displayed.antt =====
-- A round of the loop with a buffer of the queue.
use mathlib.Core.List.{append-nil, append_assoc}
use victoriametrics_importer.Prelude.{
  ℕ, suc, ◌≤◌, ◌≡◌, sym, ap, subst, ◌∙◌, Bool, true, false, List, [], ◌∷◌, ◌++◌, length, arith,
}
use victoriametrics_importer.Prelude.Sets.{has, erase, has-erase_ne, Distinct}
use victoriametrics_importer.BufferPool.{Bytes}
use victoriametrics_importer.BufferPool.Contents.{return_buf-contents}
use victoriametrics_importer.BufferPool.Sharing.{return_buf-IsSound}
use victoriametrics_importer.StdoutQueue.{Queue, header, shown, write_header, write_buf, display}
use victoriametrics_importer.StdoutQueue.Invariant.{Inv, shown_all, owed_header, full, differ}

pub first_round : (h w x y : Bytes) → w ≡ [] → ((w ++ h) ++ x) ++ y ≡ (h ++ w) ++ (x ++ y)
first_round h [] x y e = append_assoc h x y ∙ ap (λ l. l ++ (x ++ y)) (sym (append-nil h))
first_round h (b ∷ w) x y e = absurd (cc e)

pub inside_rest :
    (b c : ℕ) (bs : List ℕ) (q : Queue)
    → q.queue ≡ b ∷ bs
    → Inv q
    → has c bs ≡ true
    → has c (erase b q.held) ≡ true
inside_rest b c bs q e v h =
    let d : Distinct (b ∷ bs) = subst Distinct e v.once in
    has-erase_ne b c q.held (differ b c bs h d.0) ∙ v.inside c (ap (has c) e ∙ ground (arith, h))

pub display-Inv :
    (first_use : Bool) (b : ℕ) (bs : List ℕ) (q : Queue)
    → q.looping ≡ true
    → q.first_use ≡ first_use
    → q.queue ≡ b ∷ bs
    → Inv q
    → Inv (display first_use b (record q { queue = bs }))
unfolding display write_header write_buf
display-Inv first_use b bs q l f e v =
    let d : Distinct (b ∷ bs) = subst Distinct e v.once in
    let held : has b q.held ≡ true = v.inside b (ap (has b) e ∙ ground arith) in
    let room : suc (length bs) ≤ q.queue_size = subst (λ l. length l ≤ q.queue_size) e v.room in
    by_header first_use f d held room
  where
    by_header :
        (u : Bool)
        → q.first_use ≡ u
        → Distinct (b ∷ bs)
        → has b q.held ≡ true
        → suc (length bs) ≤ q.queue_size
        → Inv (display u b (record q { queue = bs }))
    by_header true f d held room = record {
      sound = return_buf-IsSound b q.buf_pool q.held held v.sound;
      inside = λ c h. inside_rest b c bs q e v h;
      once = d.1;
      room = omega (arith, room);
      silent = λ h. absurd (cc h);
      drained = λ h. absurd (cc (h, l));
      closed = v.closed;
    }
    by_header false f d held room = record {
      sound = return_buf-IsSound b q.buf_pool q.held held v.sound;
      inside = λ c h. inside_rest b c bs q e v h;
      once = d.1;
      room = omega (arith, room);
      silent = λ h. absurd (cc (h, f));
      drained = λ h. absurd (cc (h, l));
      closed = v.closed;
    }

pub full_by :
    (u : Bool) (bs : List ℕ) (q : Queue)
    → q.first_use ≡ u
    → q.queue ≡ bs
    → full q ≡ owed_header u ++ q.written ++ shown_all q.buf_pool.contents bs
full_by u bs q f e =
    ap (λ w. owed_header w ++ q.written ++ shown_all q.buf_pool.contents q.queue) f
    ∙ ap (λ l. owed_header u ++ q.written ++ shown_all q.buf_pool.contents l) e

pub display-full :
    (first_use : Bool) (b : ℕ) (bs : List ℕ) (q : Queue)
    → q.first_use ≡ first_use
    → q.queue ≡ b ∷ bs
    → Inv q
    → full (display first_use b (record q { queue = bs })) ≡ full q
unfolding display write_header write_buf
display-full true b bs q f e v =
    ap (λ m. ((q.written ++ header) ++ shown (q.buf_pool.contents b)) ++ shown_all m bs)
      (return_buf-contents b q.buf_pool)
    ∙ first_round header q.written (shown (q.buf_pool.contents b))
        (shown_all q.buf_pool.contents bs) (v.silent f)
    ∙ sym (full_by true (b ∷ bs) q f e)
display-full false b bs q f e v =
    ap
      (λ m.
        owed_header q.first_use ++ (q.written ++ shown (q.buf_pool.contents b)) ++ shown_all m bs)
      (return_buf-contents b q.buf_pool)
    ∙ ap
        (λ u.
          owed_header u
          ++ (q.written ++ shown (q.buf_pool.contents b))
          ++ shown_all q.buf_pool.contents bs)
        f
    ∙ append_assoc q.written (shown (q.buf_pool.contents b)) (shown_all q.buf_pool.contents bs)
    ∙ sym (full_by false (b ∷ bs) q f e)
