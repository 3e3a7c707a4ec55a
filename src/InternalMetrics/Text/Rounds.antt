-- ===== src/InternalMetrics/Text/Rounds.antt =====
-- The buffers that hold a list of metrics, round by round.
use mathlib.Core.List.{append-nil, append_assoc}
use victoriametrics_importer.Prelude.{
  ℕ, ◌+◌, ◌≡◌, refl, sym, ap, subst, ◌∙◌, Bool, true, false, List, [], ◌∷◌, ◌++◌, length,
  length-append,
}
use victoriametrics_importer.InternalMetrics.Text.{
  Bytes, value_text, Metric, Texts, write_metric, write_metrics, Out, buf_or_new, flush_if, flush,
  emit, emit_all,
}

abbrev pub flatten {ℓ} : {A : Type ℓ} → List (List A) → List A
flatten [] = []
flatten (x ∷ xs) = x ++ flatten xs

pub flatten-append {ℓ} :
    {A : Type ℓ} (xs ys : List (List A)) → flatten (xs ++ ys) ≡ flatten xs ++ flatten ys
flatten-append [] ys = refl
flatten-append (x ∷ xs) ys =
    ap (λ t. x ++ t) (flatten-append xs ys) ∙ sym (append_assoc x (flatten xs) (flatten ys))

pub flatten-snoc {ℓ} :
    {A : Type ℓ} (xs : List (List A)) (x : List A) → flatten (xs ++ x ∷ []) ≡ flatten xs ++ x
flatten-snoc xs x = flatten-append xs (x ∷ []) ∙ ap (λ t. flatten xs ++ t) (append-nil x)

module _ (Float : Type 0) (texts : Texts Float) (ts_suffix : Bytes) where
  -- The text of metrics: caption, value and suffix of each.
  abbrev pub metrics_text : List (Metric Float) → Bytes
  metrics_text [] = []
  metrics_text ((c, v) ∷ ms) =
      (texts.caption c ++ (value_text Float texts v ++ ts_suffix)) ++ metrics_text ms

  pub metrics_text-append :
      (ms ns : List (Metric Float)) → metrics_text (ms ++ ns) ≡ metrics_text ms ++ metrics_text ns
  metrics_text-append [] ns = refl
  metrics_text-append ((c, v) ∷ ms) ns =
      ap (λ t. (texts.caption c ++ (value_text Float texts v ++ ts_suffix)) ++ t)
        (metrics_text-append ms ns)
      ∙ sym (
          append_assoc (texts.caption c ++ (value_text Float texts v ++ ts_suffix))
            (metrics_text ms) (metrics_text ns))

  pub write_metrics-append :
      (ms : List (Metric Float)) (b : Bytes)
      → write_metrics Float texts ts_suffix ms b ≡ b ++ metrics_text ms
  unfolding write_metrics write_metric
  write_metrics-append [] b = sym (append-nil b)
  write_metrics-append ((c, v) ∷ ms) b =
      write_metrics-append ms (b ++ (texts.caption c ++ (value_text Float texts v ++ ts_suffix)))
      ∙ append_assoc b (texts.caption c ++ (value_text Float texts v ++ ts_suffix))
          (metrics_text ms)

  -- The output holds these metrics, in the buffers that it has put in the queue and in its own, and
  -- has counted them and the bytes of the buffers in the queue.
  pub record Holds (o : Out Float) (before : List Bytes) (ms : List (Metric Float)) : Type 0 where
    pub fresh : List Bytes
    pub queued : o.queue ≡ before ++ fresh
    pub text : flatten fresh ++ buf_or_new Float o.buf ≡ metrics_text ms
    pub bytes : o.partial_byte_count ≡ length (flatten fresh)
    pub count : o.metrics_count ≡ length ms

  flush_if-Holds :
      (full : Bool) (b : Bytes) (o : Out Float) (before fresh : List Bytes)
      (ms : List (Metric Float))
      → o.queue ≡ before ++ fresh
      → flatten fresh ++ b ≡ metrics_text ms
      → o.partial_byte_count ≡ length (flatten fresh)
      → o.metrics_count ≡ length ms
      → Holds (flush_if Float full b o) before ms
  unfolding flush_if
  flush_if-Holds true b o before fresh ms q t p c = record {
    fresh = fresh ++ b ∷ [];
    queued = ap (λ x. x ++ b ∷ []) q ∙ append_assoc before fresh (b ∷ []);
    text = append-nil (flatten (fresh ++ b ∷ [])) ∙ flatten-snoc fresh b ∙ t;
    bytes =
        ap (λ n. n + length b) p
        ∙ sym (length-append (flatten fresh) b)
        ∙ ap length (sym (flatten-snoc fresh b));
    count = c;
  }
  flush_if-Holds false b o before fresh ms q t p c = record {
    fresh = fresh;
    queued = q;
    text = t;
    bytes = p;
    count = c;
  }

  emit-Holds :
      (buf_max_size : ℕ) (g : List (Metric Float)) (o : Out Float) (before : List Bytes)
      (ms : List (Metric Float))
      → Holds o before ms
      → Holds (emit Float texts ts_suffix buf_max_size g o) before (ms ++ g)
  unfolding emit flush
  emit-Holds buf_max_size g o before ms h =
      flush_if-Holds _ (write_metrics Float texts ts_suffix g (buf_or_new Float o.buf)) _ before
        h.fresh (ms ++ g) h.queued
        (ap (λ t. flatten h.fresh ++ t) (write_metrics-append g (buf_or_new Float o.buf))
          ∙ sym (append_assoc (flatten h.fresh) (buf_or_new Float o.buf) (metrics_text g))
          ∙ ap (λ t. t ++ metrics_text g) h.text
          ∙ sym (metrics_text-append ms g))
        h.bytes (ap (λ n. n + length g) h.count ∙ sym (length-append ms g))

  -- If the output holds some metrics, after the rounds it holds those of the rounds after them, in
  -- their order, whatever the size at which a buffer is queued.
  pub emit_all-Holds :
      (buf_max_size : ℕ) (gs : List (List (Metric Float))) (o : Out Float) (before : List Bytes)
      (ms : List (Metric Float))
      → Holds o before ms
      → Holds (emit_all Float texts ts_suffix buf_max_size gs o) before (ms ++ flatten gs)
  unfolding emit_all
  emit_all-Holds buf_max_size [] o before ms h =
      subst (λ x. Holds o before x) (sym (append-nil ms)) h
  emit_all-Holds buf_max_size (g ∷ gs) o before ms h =
      subst (λ x. Holds (emit_all Float texts ts_suffix buf_max_size (g ∷ gs) o) before x)
        (append_assoc ms g (flatten gs))
        (emit_all-Holds buf_max_size gs (emit Float texts ts_suffix buf_max_size g o) before
          (ms ++ g) (emit-Holds buf_max_size g o before ms h))
