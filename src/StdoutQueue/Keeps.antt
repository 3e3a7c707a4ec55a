-- ===== src/StdoutQueue/Keeps.antt =====
-- What each event keeps: every buffer has one place, and stdout shows what was queued.
use mathlib.Core.List.{append-nil, append_assoc}
use victoriametrics_importer.Prelude.{
  ℕ, ◌≡◌, refl, sym, ap, ◌∙◌, Bool, true, false, List, [], ◌∷◌, ◌++◌, ltb, length, length-append,
  arith,
}
use victoriametrics_importer.Prelude.Sets.{has, has-erase_ne, concat-Distinct, has-append}
use victoriametrics_importer.BufferPool.{Bytes, get_buf}
use victoriametrics_importer.BufferPool.Contents.{get_buf-contents, return_buf-contents}
use victoriametrics_importer.BufferPool.Sharing.{get_buf-IsGot, return_buf-IsSound}
use victoriametrics_importer.StdoutQueue.{
  Queue, shown, Event, get, fill, give_back, queue_buf, round, shutdown, is_with_user, send_to,
  receive_from, close_by, step,
}
use victoriametrics_importer.StdoutQueue.Invariant.{
  Inv, shown_all, owed_header, full, text, Keeps, Keeps-if, write_to-other, shown_all-append,
  with_user, differ,
}
use victoriametrics_importer.StdoutQueue.Displayed.{display-Inv, display-full}

get-Keeps : (q : Queue) → Inv q → Keeps q [] (step get q)
unfolding step
get-Keeps q v =
    let g = get_buf-IsGot q.buf_pool q.held v.sound in
    let b = (get_buf q.buf_pool).0 in
    let outside : has b q.queue ≡ false = not_inside b (v.inside b) g.unused in
    (
      record {
        sound = g.sound;
        inside = λ c h. ground (arith, v.inside c h);
        once = v.once;
        room = v.room;
        silent = v.silent;
        drained = v.drained;
        closed = v.closed;
      },
      ap (λ m. owed_header q.first_use ++ q.written ++ shown_all m q.queue)
            (get_buf-contents q.buf_pool)
          ∙ ap (λ l. owed_header q.first_use ++ q.written ++ l)
              (write_to-other b b [] q.buf_pool.contents q.queue outside)
          ∙ sym (append-nil (full q)),
    )
  where
    not_inside :
        (b : ℕ)
        → (has b q.queue ≡ true → has b q.held ≡ true)
        → has b q.held ≡ false
        → has b q.queue ≡ false
    not_inside b f h = ground (arith, f, h)

fill-Keeps : (b : ℕ) (bytes : Bytes) (q : Queue) → Inv q → Keeps q [] (step (fill b bytes) q)
unfolding step
fill-Keeps b bytes q v = Keeps-if q [] _ (is_with_user b q) λ h. (
  record {
    sound = record {
      fits = v.sound.fits;
      once = v.sound.once;
      made = v.sound.made;
      capped = v.sound.capped;
    };
    inside = v.inside;
    once = v.once;
    room = v.room;
    silent = v.silent;
    drained = v.drained;
    closed = v.closed;
  },
  ap (λ l. owed_header q.first_use ++ q.written ++ l)
        (write_to-other b b (q.buf_pool.contents b ++ bytes) q.buf_pool.contents q.queue
          (with_user b q h).1)
      ∙ sym (append-nil (full q)),
)

give_back-Keeps : (b : ℕ) (q : Queue) → Inv q → Keeps q [] (step (give_back b) q)
unfolding step
give_back-Keeps b q v = Keeps-if q [] _ (is_with_user b q) λ h.
    let w = with_user b q h in
    (
      record {
        sound = return_buf-IsSound b q.buf_pool q.held w.0 v.sound;
        inside = λ c k. has-erase_ne b c q.held (differ b c q.queue k w.1) ∙ v.inside c k;
        once = v.once;
        room = v.room;
        silent = v.silent;
        drained = v.drained;
        closed = v.closed;
      },
      ap (λ m. owed_header q.first_use ++ q.written ++ shown_all m q.queue)
            (return_buf-contents b q.buf_pool)
          ∙ sym (append-nil (full q)),
    )

send_to-Keeps :
    (is_open : Bool) (b : ℕ) (q : Queue)
    → q.is_open ≡ is_open
    → is_with_user b q ≡ true
    → Inv q
    → Keeps q (shown (q.buf_pool.contents b)) (send_to is_open b q)
unfolding send_to
send_to-Keeps false b q o h v = tt
send_to-Keeps true b q o h v =
    Keeps-if q (shown (q.buf_pool.contents b)) _ (ltb (length q.queue) q.queue_size) λ l.
      let w = with_user b q h in
      (
        record {
          sound = v.sound;
          inside = λ c k. ground (arith, has-append c q.queue (b ∷ []), v.inside c, w.0);
          once = concat-Distinct b q.queue v.once w.1;
          room = ground (arith, length-append q.queue (b ∷ []));
          silent = v.silent;
          drained = λ e. ground (arith, o, v.closed e);
          closed = v.closed;
        },
        ap (λ l. owed_header q.first_use ++ q.written ++ l)
              (shown_all-append q.buf_pool.contents q.queue b)
            ∙ sym (
                append_assoc (owed_header q.first_use ++ q.written)
                  (shown_all q.buf_pool.contents q.queue) (shown (q.buf_pool.contents b))),
      )

round-Keeps :
    (looping is_open : Bool) (bs : List ℕ) (q : Queue)
    → q.looping ≡ looping
    → q.is_open ≡ is_open
    → q.queue ≡ bs
    → Inv q
    → Keeps q [] (receive_from looping is_open bs q)
unfolding receive_from
round-Keeps false is_open bs q l o e v = tt
round-Keeps true true [] q l o e v = tt
round-Keeps true false [] q l o e v = (
  record {
    sound = v.sound;
    inside = v.inside;
    once = v.once;
    room = v.room;
    silent = v.silent;
    drained = λ h. e;
    closed = λ h. o;
  },
  sym (append-nil (full q)),
)
round-Keeps true is_open (b ∷ bs) q l o e v = (
  display-Inv q.first_use b bs q l refl e v,
  display-full q.first_use b bs q refl e v ∙ sym (append-nil (full q)),
)

close-Keeps :
    (is_open : Bool) (q : Queue) → q.looping ≡ q.looping → Inv q → Keeps q [] (close_by is_open q)
unfolding close_by
close-Keeps false q e v = tt
close-Keeps true q e v = (
  record {
    sound = v.sound;
    inside = v.inside;
    once = v.once;
    room = v.room;
    silent = v.silent;
    drained = v.drained;
    closed = λ h. refl;
  },
  sym (append-nil (full q)),
)

pub step-Keeps : (e : Event) (q : Queue) → Inv q → Keeps q (text e q) (step e q)
unfolding step
step-Keeps get q v = get-Keeps q v
step-Keeps (fill b bytes) q v = fill-Keeps b bytes q v
step-Keeps (give_back b) q v = give_back-Keeps b q v
step-Keeps (queue_buf b) q v =
    Keeps-if q (shown (q.buf_pool.contents b)) (send_to q.is_open b q) (is_with_user b q)
      λ h. send_to-Keeps q.is_open b q refl h v
step-Keeps round q v = round-Keeps q.looping q.is_open q.queue q refl refl refl v
step-Keeps shutdown q v = close-Keeps q.is_open q refl v
