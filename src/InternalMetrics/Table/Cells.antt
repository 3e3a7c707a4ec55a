-- ===== src/InternalMetrics/Table/Cells.antt =====
-- The two copies of a statistic: the current one is written, and a flip makes it the previous one.
use victoriametrics_importer.Prelude.{◌≡◌, refl, Bool, true, false, not, none, some}
use victoriametrics_importer.InternalMetrics.Table.{
  Dual, new_dual, at_index, put_at, curr_stats, prev_stats, flip,
}

pub curr-put_at {ℓ} :
    {S : Type ℓ} (b : Bool) (s : S) (d : Dual S) → at_index b (put_at b s d) ≡ some s
unfolding at_index put_at
curr-put_at false s d = refl
curr-put_at true s d = refl

pub prev-put_at {ℓ} :
    {S : Type ℓ} (b : Bool) (s : S) (d : Dual S)
    → at_index (not b) (put_at b s d) ≡ at_index (not b) d
unfolding at_index put_at
prev-put_at false s d = refl
prev-put_at true s d = refl

pub index-put_at {ℓ} :
    {S : Type ℓ} (b : Bool) (s : S) (d : Dual S) → (put_at b s d).curr_index ≡ d.curr_index
unfolding put_at
index-put_at false s d = refl
index-put_at true s d = refl

at_index-flip {ℓ} :
    {S : Type ℓ} (b : Bool) (c : Bool) (d : Dual S)
    → at_index (not (not b)) (record d { curr_index = c }) ≡ at_index b d
unfolding at_index
at_index-flip false c d = refl
at_index-flip true c d = refl

pub prev-flip {ℓ} : {S : Type ℓ} (d : Dual S) → prev_stats (flip d) ≡ curr_stats d
prev-flip d = at_index-flip d.curr_index (not d.curr_index) d

at_index-same {ℓ} :
    {S : Type ℓ} (b : Bool) (c : Bool) (d : Dual S)
    → at_index b (record d { curr_index = c }) ≡ at_index b d
unfolding at_index
at_index-same false c d = refl
at_index-same true c d = refl

pub curr-flip {ℓ} : {S : Type ℓ} (d : Dual S) → curr_stats (flip d) ≡ prev_stats d
curr-flip d = at_index-same (not d.curr_index) (not d.curr_index) d

pub at-new_dual {ℓ} : {S : Type ℓ} (b : Bool) → at_index {S = S} b new_dual ≡ none
unfolding at_index new_dual
at-new_dual false = refl
at-new_dual true = refl
