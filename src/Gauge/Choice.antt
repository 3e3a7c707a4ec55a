-- ===== src/Gauge/Choice.antt =====
-- RandomCategoricalParser: its selector as an index of its choices.
use victoriametrics_importer.Prelude.{
  ℕ, zero, suc, ◌-◌, ◌^◌, ◌<◌, ◌≡◌, refl, sym, ap, subst, ◌∙◌, false, Option, none, some, List, [],
  ◌∷◌, ltb, length, get_elem?, arith, Bool-cases, inl, inr,
}
use victoriametrics_importer.Prelude.Int.{ℤ, pos}
use victoriametrics_importer.Gauge.{
  Gauge, ValUpdater, int31n, int31, no_updater, val_updater_by, val_updater, new_gauge_by,
  new_random_gauge_parser, renew, update_by, update_gauge, Bytes, Categorical, selector_config,
  new_random_categorical_parser, choose, pick_choice, parse_by, parse_categorical, sub_32, add_32,
}

-- The number of choices is one that the parser can tell apart with an int32.
abbrev pub Selectable : List Bytes → Type 0
Selectable choices = (0 < length choices) × (length choices < 2 ^ 31)

-- The parser holds its choices and a selector that points at one of them.
pub record IsReady (choices : List Bytes) (c : Categorical) : Type 0 where
  pub kept : c.choices ≡ choices
  pub gauge : Gauge
  pub selects : c.selector ≡ some gauge
  pub index : ℕ
  pub points : gauge.val_int ≡ pos index
  pub within : index < length choices

span-length :
    (choices : List Bytes) (r : ℤ)
    → Selectable choices
    → sub_32 (selector_config choices r).max (selector_config choices r).min
      ≡ pos (length choices - 1)
span-length choices r s = ground (arith, s)

-- The updater of the selector, by the number of choices.
updater-length :
    (n : ℕ) → suc (suc n) < 2 ^ 31 → val_updater_by (pos (suc n)) ≡ int31n (pos (suc (suc n)))
unfolding val_updater_by
updater-length n h = ap int31n (ground arith)

gauge-ready :
    (n : ℕ) (choices : List Bytes) (r : ℤ)
    → length choices ≡ suc n
    → suc n < 2 ^ 31
    → val_updater (selector_config choices r) ≡ val_updater_by (pos n)
unfolding val_updater
gauge-ready n choices r e h =
    ap val_updater_by (span-length choices r (omega arith, omega arith) ∙ ap pos (omega arith))

-- What an update of the selector comes to.
record IsIndex (k : ℕ) (o : Option Gauge) : Type 0 where
  gauge : Gauge
  result : o ≡ some gauge
  index : ℕ
  points : gauge.val_int ≡ pos index
  within : index < k

update_by-IsIndex :
    (n drawn repeats i : ℕ) (r : ℤ) (choices : List Bytes) (g : Gauge)
    → suc n < 2 ^ 31
    → drawn < suc n
    → g.val_int ≡ pos i
    → i < suc n
    → IsIndex
        (suc n)
        (update_by (val_updater_by (pos n)) false (selector_config choices r) drawn repeats g)
update_by-IsIndex zero drawn repeats i r choices g h d p w =
    unfold val_updater_by update_by in
    record { gauge = g; result = refl; index = i; points = p; within = w }
update_by-IsIndex (suc n) drawn repeats i r choices g h d p w =
    subst
      (λ u. IsIndex (suc (suc n)) (update_by u false (selector_config choices r) drawn repeats g))
      (sym (updater-length n h))
      (elim (Bool-cases (ltb 0 g.count_left)) [
        | inl e ↦
            unfold update_by in
            rw e (record {
              gauge = record g { count_left = g.count_left - 1 };
              result = refl;
              index = i;
              points = p;
              within = w;
            })
        | inr e ↦
            unfold update_by in
            rw e (record {
              gauge =
                  renew false (selector_config choices r) (add_32 (pos drawn) (pos 0)) repeats g;
              result = unfold renew in ground arith;
              index = drawn;
              points = unfold renew in ground (arith, h, d);
              within = d;
            })
      ])

get_elem?-some :
    (i : ℕ) (choices : List Bytes)
    → i < length choices
    → (v : Bytes) × (get_elem? choices i ≡ some v)
get_elem?-some i [] h = absurd (omega arith)
get_elem?-some zero (c ∷ cs) h = (c, refl)
get_elem?-some (suc i) (c ∷ cs) h = get_elem?-some i cs (omega arith)

-- What a call of Parse comes to: a parser that is ready and whose value is one of the choices.
pub data Chooses (choices : List Bytes) : Option Categorical → Type 0 where
  chooses :
      (c : Categorical) (i : ℕ) (v : Bytes)
      → get_elem? choices i ≡ some v
      → c.val ≡ some v
      → IsReady choices c
      → Chooses choices (some c)

picked :
    (choices : List Bytes) (c : Categorical) (o : Option Gauge)
    → c.choices ≡ choices
    → IsIndex (length choices) o
    → Chooses choices (pick_choice o c)
unfolding pick_choice choose
picked choices c o k x =
    let v = get_elem?-some x.index choices x.within in
    let e : choose x.gauge.val_int c.choices ≡ some v.0 =
      ap (λ i. choose i c.choices) x.points ∙ ap (λ l. get_elem? l x.index) k ∙ v.1 in
    subst (λ o. Chooses choices (pick_choice o c)) (sym x.result)
      (subst
        (λ z. Chooses choices (elim z [
          | none ↦ none
          | some w ↦ some (record c { val = some w; selector = some x.gauge })
        ]))
        (sym e)
        (chooses (record c { val = some v.0; selector = some x.gauge }) x.index v.0 v.1 refl
          (record {
            kept = k;
            gauge = x.gauge;
            selects = refl;
            index = x.index;
            points = x.points;
            within = x.within;
          })))

-- With draws in their range, a categorical parser that has from 1 to 2 ^ 31 - 1 choices does not
-- panic, its value is one of them after each call of Parse, and it is ready for the next.
parse_categorical-Chooses :
    (choices : List Bytes) (r : ℤ) (drawn repeats : ℕ) (c : Categorical)
    → Selectable choices
    → drawn < length choices
    → IsReady choices c
    → Chooses choices (parse_categorical r drawn repeats c)
unfolding parse_categorical parse_by update_gauge
parse_categorical-Chooses choices r drawn repeats c s d v =
    subst (λ o. Chooses choices (parse_by o r drawn repeats c)) (sym v.selects)
      (picked choices c _ v.kept (at_length (length choices - 1) (omega (arith, s.0))))
  where
    at_length :
        (n : ℕ)
        → length choices ≡ suc n
        → IsIndex (length choices) (
            update_by
              (val_updater (selector_config c.choices r))
              false
              (selector_config c.choices r)
              drawn
              repeats
              v.gauge)
    at_length n e =
        subst
          (λ l. IsIndex (length choices) (
            update_by (val_updater (selector_config l r)) false (selector_config l r) drawn repeats
              v.gauge))
          (sym v.kept)
          (subst
            (λ u.
              IsIndex (length choices)
                (update_by u false (selector_config choices r) drawn repeats v.gauge))
            (sym (gauge-ready n choices r e (omega (arith, s.1))))
            (subst
              (λ k. IsIndex k (
                update_by (val_updater_by (pos n)) false (selector_config choices r) drawn repeats
                  v.gauge))
              (sym e)
              (update_by-IsIndex n drawn repeats v.index r choices v.gauge (omega (arith, s.1))
                (omega arith) v.points (omega (arith, v.within)))))

-- A new parser is ready.
new_categorical-IsReady :
    (choices : List Bytes) (r : ℤ)
    → Selectable choices
    → IsReady choices (new_random_categorical_parser choices r)
unfolding new_random_categorical_parser new_random_gauge_parser
new_categorical-IsReady choices r s = record {
  kept = refl;
  gauge = new_gauge_by (val_updater (selector_config choices r)) (selector_config choices r);
  selects = ground (arith, s.0);
  index = 0;
  points = at_zero (val_updater (selector_config choices r));
  within = s.0;
}
  where
    at_zero : (u : ValUpdater) → (new_gauge_by u (selector_config choices r)).val_int ≡ pos 0
    at_zero no_updater = unfold new_gauge_by in refl
    at_zero int31 = unfold new_gauge_by in refl
    at_zero (int31n bound) = unfold new_gauge_by in refl

-- The calls of Parse of one parser, with what each draws.
pub parse_all : ℤ → List (ℕ × ℕ) → Categorical → Option Categorical
parse_all r [] c = some c
parse_all r (d ∷ ds) c = elim (parse_categorical r d.0 d.1 c) [
  | none ↦ none
  | some e ↦ parse_all r ds e
]

abbrev pub DrawsBelow : ℕ → List (ℕ × ℕ) → Type 0
DrawsBelow n [] = Unit {0}
DrawsBelow n (d ∷ ds) = d.0 < n × DrawsBelow n ds

parse_all-Chooses :
    (choices : List Bytes) (r : ℤ) (d : ℕ × ℕ) (ds : List (ℕ × ℕ)) (c : Categorical)
    → Selectable choices
    → d.0 < length choices
    → DrawsBelow (length choices) ds
    → IsReady choices c
    → Chooses choices (parse_all r (d ∷ ds) c)
unfolding parse_all
parse_all-Chooses choices r d ds c s b bs v =
    rest ds bs (parse_categorical r d.0 d.1 c) (parse_categorical-Chooses choices r d.0 d.1 c s b v)
  where
    rest :
        (ds : List (ℕ × ℕ))
        → DrawsBelow (length choices) ds
        → (o : Option Categorical) → Chooses choices o
        → Chooses choices (elim o [ none ↦ none | some e ↦ parse_all r ds e ])
    rest [] bs o (chooses c i v e f w) = chooses c i v e f w
    rest (x ∷ xs) bs o (chooses c i v e f w) =
        rest xs bs.1 (parse_categorical r x.0 x.1 c)
          (parse_categorical-Chooses choices r x.0 x.1 c s bs.0 w)

-- A new categorical parser of 1 to 2 ^ 31 - 1 choices, with draws in their range, does not panic,
-- and after one or more calls of Parse its value is one of the choices.
pub run_categorical-Chooses :
    (choices : List Bytes) (r : ℤ) (d : ℕ × ℕ) (ds : List (ℕ × ℕ))
    → Selectable choices
    → DrawsBelow (length choices) (d ∷ ds)
    → Chooses choices (parse_all r (d ∷ ds) (new_random_categorical_parser choices r))
run_categorical-Chooses choices r d ds s b =
    parse_all-Chooses choices r d ds _ s b.0 b.1 (new_categorical-IsReady choices r s)
