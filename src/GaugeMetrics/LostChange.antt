-- ===== src/GaugeMetrics/LostChange.antt =====
-- A slot of the cache that is longer than the value written to it.
use victoriametrics_importer.Prelude.{
  ℕ, ◌≤◌, ◌<◌, ◌≡◌, ◌≢◌, refl, ap, ◌∙◌, Bool, true, false, not, ◌||◌, some, [], ◌++◌, ◌==◌, length,
  length-append, length-drop, drop, arith,
}
use victoriametrics_importer.Prelude.Bytes.{bytes_eq, bytes_eq_refl}
use victoriametrics_importer.Counter.{index_or_0, unix_milli}
use victoriametrics_importer.GaugeMetrics.{
  Bytes, Generator, store_val, load_val, has_prev, gauge_line, task_activity,
}
use victoriametrics_importer.GaugeMetrics.Latest.{
  cache_val-longer, load_val-store_val, load_val-store_other, load_val-eq, not-not,
}

-- What the slot that is written next holds after a value that is shorter.
abbrev pub with_rest : (v : Bytes) → (c : Bool) → Generator → Bytes
with_rest v c g = v ++ drop (length v) (load_val c g)

slot-task_activity :
    (ts : ℕ) (v : Bytes) (g : Generator) (c : Bool)
    → g.current_index ≡ some c
    → length v ≤ length (load_val c g)
    → load_val c (task_activity ts v g).1 ≡ with_rest v c g
unfolding task_activity
slot-task_activity ts v g c e h =
    load_val-eq c (task_activity ts v g).1 (store_val (index_or_0 g.current_index) v g) refl refl
    ∙ ap (λ i. load_val c (store_val (index_or_0 i) v g)) e
    ∙ load_val-store_val c v g
    ∙ cache_val-longer (load_val c g) v h

index-task_activity :
    (ts : ℕ) (v : Bytes) (g : Generator) (c : Bool)
    → g.current_index ≡ some c
    → (task_activity ts v g).1.current_index ≡ some (not c)
unfolding task_activity
index-task_activity ts v g c e = ap (λ i. some (not (index_or_0 i))) e

quiet :
    (h z e : Bool) (v : Bytes) (s : ℕ)
    → h ≡ true
    → z ≡ false
    → e ≡ true
    → gauge_line (not h || z || not e) v s ≡ []
unfolding gauge_line
quiet h z e v s a b c = simp (a, b, c)

cycle-store_val : (i : Bool) (v : Bytes) (g : Generator) → (store_val i v g).cycle_num ≡ g.cycle_num
unfolding store_val
cycle-store_val false v g = refl
cycle-store_val true v g = refl

-- A value that is what the other slot holds is not published.
unchanged :
    (ts : ℕ) (v : Bytes) (g : Generator) (c : Bool)
    → g.current_index ≡ some c
    → (g.cycle_num == 0) ≡ false
    → load_val (not c) g ≡ v
    → (task_activity ts v g).0.lines ≡ []
unfolding task_activity
unchanged ts v g c e z h =
    let i = index_or_0 g.current_index in
    let g2 = record (store_val i v g) { ts_suffix = some (unix_milli ts); last_ts = ts } in
    let prev : load_val (not i) g2 ≡ v =
      load_val-eq (not i) g2 (store_val i v g) refl refl
      ∙ load_val-store_other i v g
      ∙ ap (λ x. load_val (not (index_or_0 x)) g) e
      ∙ h in
    quiet (has_prev g.current_index) (g2.cycle_num == 0) (bytes_eq v (load_val (not i) g2)) v
      (unix_milli ts) (ap has_prev e) (ap (λ n. n == 0) (cycle-store_val i v g) ∙ z)
      (ap (bytes_eq v) prev ∙ bytes_eq_refl v)

append-ne : (v w : Bytes) → 0 < length w → v ++ w ≢ v
append-ne v w h e = absurd (omega (arith, ap length e, length-append v w, h))

-- If a generator that has run writes a value to a slot that holds a longer one, and the next run is
-- not a full cycle and reads the value with the rest of the longer one behind it, then the next run
-- publishes nothing, though the value has changed.
pub task_activity-lost_change :
    (ts ts2 : ℕ) (v : Bytes) (g : Generator) (c : Bool)
    → g.current_index ≡ some c
    → length v < length (load_val c g)
    → ((task_activity ts v g).1.cycle_num == 0) ≡ false
    → ((task_activity ts2 (with_rest v c g) (task_activity ts v g).1).0.lines ≡ [])
      × (with_rest v c g ≢ v)
task_activity-lost_change ts ts2 v g c e l z = (
  unchanged ts2 (with_rest v c g) (task_activity ts v g).1 (not c) (index-task_activity ts v g c e)
      z
      (ap (λ i. load_val i (task_activity ts v g).1) (not-not c)
        ∙ slot-task_activity ts v g c e (omega (arith, l))),
  append-ne v (drop (length v) (load_val c g))
      (omega (arith, l, length-drop (length v) (load_val c g))),
)
