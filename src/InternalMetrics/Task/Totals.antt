-- ===== src/InternalMetrics/Task/Totals.antt =====
-- What a run of the internal metrics puts in the queue, TaskAction of internal_metrics.go.
use Prim.Native.String.{String}
use mathlib.Core.List.{append-nil, append_assoc}
use victoriametrics_importer.Prelude.{
  ℕ, ◌+◌, ◌≡◌, refl, sym, ap, ◌∙◌, Bool, not, ◌||◌, List, [], ◌∷◌, ◌++◌, ◌==◌, length,
  length-append, arith,
}
use victoriametrics_importer.InternalMetrics.Text.{
  Bytes, generator_stat, number, Metric, Texts, write_metrics, Out, buf_or_new, format_uint,
  value_text,
}
use victoriametrics_importer.InternalMetrics.Text.Rounds.{
  flatten, flatten-snoc, metrics_text, metrics_text-append, write_metrics-append, Holds,
  emit_all-Holds,
}
use victoriametrics_importer.InternalMetrics.Task.{
  own_byte_count, ts_suffix_of, Internal, Reading, initialize, snap_all, all_rounds, base_metrics,
  uptime_metrics, info_metrics, own_metrics, started, conclude, task_action,
}
use victoriametrics_importer.InternalMetrics.Task.ByteCount.{own_byte_count_lem}

module _ (Float : Type 0) where
  -- The metrics of all sources, in the order in which they are published.
  pub source_metrics :
      (unknown : Float) → (id : String) → Reading Float → Internal Float → List (Metric Float)
  source_metrics unknown id r g =
      let snapped = snap_all Float r (initialize Float g.initialized r g) in
      base_metrics Float id r snapped ++ flatten (all_rounds Float unknown r snapped)

  abbrev pub is_full : Reading Float → Internal Float → Bool
  is_full r g = not g.initialized || ((initialize Float g.initialized r g).cycle_num == 0)

  -- The generator's metrics on itself.
  abbrev pub totals : (id : String) → (metrics_count byte_count : ℕ) → List (Metric Float)
  totals id metrics_count byte_count =
      own_metrics Float id metrics_count ++ (generator_stat 2 id, number byte_count) ∷ []

  module _ (texts : Texts Float) (unknown : Float) (buf_max_size : ℕ) (id : String) where
    started-Holds :
        (r : Reading Float) (g : Internal Float) (queue : List Bytes)
        → Holds Float texts
            (ts_suffix_of r.ts)
            (started Float texts unknown buf_max_size id r g queue)
            queue
            (base_metrics Float id r g)
    unfolding started
    started-Holds r g queue = record {
      fresh = [];
      queued = sym (append-nil queue);
      text = write_metrics-append Float texts (ts_suffix_of r.ts) (base_metrics Float id r g) [];
      bytes = refl;
      count = refl;
    }

    -- The queue has new buffers, whose bytes are the text of these metrics and of the totals.
    pub record Published (suffix : Bytes) (before after : List Bytes) (ms : List (Metric Float))
        : Type 0 where
      pub fresh : List Bytes
      pub queued : after ≡ before ++ fresh
      pub text :
          flatten fresh
          ≡ metrics_text Float texts suffix
              (ms ++ totals id (length ms + 3) (length (flatten fresh)))

    last_text :
        (suffix : Bytes) (id2 : String) (n : ℕ) (front b : Bytes)
        (ms more own : List (Metric Float))
        → front ++ b ≡ metrics_text Float texts suffix ms
        → front
            ++ ((write_metrics Float texts suffix (more ++ own) b
                  ++ texts.caption (generator_stat 2 id2))
                ++ (format_uint n ++ suffix))
          ≡ metrics_text Float texts suffix
              ((ms ++ more) ++ (own ++ (generator_stat 2 id2, number n) ∷ []))
    unfolding value_text
    last_text suffix id2 n front b ms more own h =
        let mt = metrics_text Float texts suffix in
        let w = write_metrics Float texts suffix (more ++ own) b in
        let cap = texts.caption (generator_stat 2 id2) in
        let tail = cap ++ (format_uint n ++ suffix) in
        let last : List (Metric Float) = (generator_stat 2 id2, number n) ∷ [] in
        ap (λ t. front ++ t) (append_assoc w cap (format_uint n ++ suffix))
        ∙ sym (append_assoc front w tail)
        ∙ ap (λ t. (front ++ t) ++ tail) (write_metrics-append Float texts suffix (more ++ own) b)
        ∙ ap (λ t. t ++ tail) (sym (append_assoc front b (mt (more ++ own))))
        ∙ ap (λ t. (t ++ mt (more ++ own)) ++ tail) h
        ∙ ap (λ t. t ++ tail) (sym (metrics_text-append Float texts suffix ms (more ++ own)))
        ∙ ap (λ t. mt (ms ++ (more ++ own)) ++ t) (sym (append-nil tail))
        ∙ sym (metrics_text-append Float texts suffix (ms ++ (more ++ own)) last)
        ∙ ap (λ t. mt (t ++ last)) (sym (append_assoc ms more own))
        ∙ ap mt (append_assoc (ms ++ more) own last)

    -- The published number of bytes is that of the buffers.
    last_bytes :
        (p f : ℕ) (b suffix front : Bytes)
        → p ≡ length front
        → f ≡ own_byte_count (p + length b + length suffix)
        → length (front ++ (b ++ (format_uint f ++ suffix))) ≡ f
    last_bytes p f b suffix front e ef =
        let h = own_byte_count_lem (p + length b + length suffix) in
        let k : length (format_uint f) + (p + length b + length suffix) ≡ f = rw ef h in
        length-append front (b ++ (format_uint f ++ suffix))
        ∙ ap (λ n. length front + n) (length-append b (format_uint f ++ suffix))
        ∙ ap (λ n. length front + (length b + n)) (length-append (format_uint f) suffix)
        ∙ omega (arith, k, e)

    conclude-Published :
        (full : Bool) (r : Reading Float) (o : Out Float) (queue : List Bytes)
        (ms : List (Metric Float))
        → Holds Float texts (ts_suffix_of r.ts) o queue ms
        → Published
            (ts_suffix_of r.ts)
            queue
            (conclude Float texts unknown buf_max_size id full r o)
            (ms ++ (uptime_metrics Float r ++ info_metrics Float full))
    unfolding conclude
    conclude-Published full r o queue ms h =
        let more = uptime_metrics Float r ++ info_metrics Float full in
        let count = o.metrics_count + length more + 3 in
        let suffix = ts_suffix_of r.ts in
        let b =
          write_metrics Float texts suffix (more ++ own_metrics Float id count)
            (buf_or_new Float o.buf)
          ++ texts.caption (generator_stat 2 id) in
        let n = own_byte_count (o.partial_byte_count + length b + length suffix) in
        let last = b ++ (format_uint n ++ suffix) in
        let bytes =
          ap length (flatten-snoc h.fresh last)
          ∙ last_bytes o.partial_byte_count n b suffix (flatten h.fresh) h.bytes refl in
        let metrics : count ≡ length (ms ++ more) + 3 =
          omega (arith, h.count, length-append ms more) in
        record {
          fresh = h.fresh ++ last ∷ [];
          queued = ap (λ q. q ++ last ∷ []) h.queued ∙ append_assoc queue h.fresh (last ∷ []);
          text =
              flatten-snoc h.fresh last
              ∙ last_text suffix id n (flatten h.fresh) (buf_or_new Float o.buf) ms more
                  (own_metrics Float id count) h.text
              ∙ ap (λ c. metrics_text Float texts suffix ((ms ++ more) ++ totals id c n)) metrics
              ∙ ap
                  (λ k.
                    metrics_text Float texts suffix
                      ((ms ++ more) ++ totals id (length (ms ++ more) + 3) k))
                  (sym bytes);
        }

    -- A run adds new buffers to the queue. Their bytes are, in order and whatever the size at which a
    -- buffer is queued, the text of the metrics of all sources, of the uptimes, of the information that
    -- belongs to a full cycle or the first run, and of the generator's three metrics on itself; these
    -- say the number of all metrics in the buffers, themselves included, and of all bytes in them,
    -- those of these numbers included.
    pub task_action-Published :
        (r : Reading Float) (g : Internal Float) (queue : List Bytes)
        → Published
            (ts_suffix_of r.ts)
            queue
            (task_action Float texts unknown buf_max_size id r g queue).1
            (source_metrics unknown id r g
              ++ (uptime_metrics Float r ++ info_metrics Float (is_full r g)))
    unfolding task_action source_metrics snap_all initialize
    task_action-Published r g queue =
        let snapped = snap_all Float r (initialize Float g.initialized r g) in
        conclude-Published (is_full r g) r _ queue _ (
          emit_all-Holds Float texts (ts_suffix_of r.ts) buf_max_size
            (all_rounds Float unknown r snapped) _ queue _ (started-Holds r snapped queue))
