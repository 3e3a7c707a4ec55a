-- ===== src/Scheduler/System/Known.antt =====
-- Tasks whose statistics are known, and lists of them.
use Prim.Native.String.{String}
use text.Mathlib.TextPositions.{eq_refl}
use victoriametrics_importer.Prelude.{
  ℕ, zero, suc, ◌≡◌, Bool, true, false, Option, none, some, List, [], ◌∷◌, ◌++◌, arith,
}
use victoriametrics_importer.Scheduler.{Task, TaskStats}
use victoriametrics_importer.Scheduler.System.{Stats, set_stats, pick}

abbrev pub All {ℓ} : (Task → Type ℓ) → List Task → Type ℓ
All P [] = Unit
All P (t ∷ ts) = P t × All P ts

abbrev pub is_some : Option TaskStats → Bool
is_some none = false
is_some (some st) = true

-- `stats[task.id] != nil`
abbrev pub Known : Stats → Task → Type 0
Known m t = is_some (m t.id) ≡ true

abbrev pub KnownIfBack : Stats → Task → Type 0
KnownIfBack m t = t.added_by_worker ≡ true → Known m t

abbrev pub HeldKnown : Stats → Option Task → Type 0
HeldKnown m none = Unit {0}
HeldKnown m (some t) = Known m t

abbrev pub Grows : Stats → Stats → Type 0
Grows m m' = (id : String) → is_some (m id) ≡ true → is_some (m' id) ≡ true

pub All-Known : (m m' : Stats) (ts : List Task) → Grows m m' → All (Known m) ts → All (Known m') ts
All-Known m m' [] g a = tt
All-Known m m' (t ∷ ts) g a = (g t.id a.0, All-Known m m' ts g a.1)

pub All-KnownIfBack :
    (m m' : Stats) (ts : List Task) → Grows m m' → All (KnownIfBack m) ts → All (KnownIfBack m') ts
All-KnownIfBack m m' [] g a = tt
All-KnownIfBack m m' (t ∷ ts) g a = (λ b. g t.id (a.0 b), All-KnownIfBack m m' ts g a.1)

pub held-Known : (m m' : Stats) (o : Option Task) → Grows m m' → HeldKnown m o → HeldKnown m' o
held-Known m m' none g h = tt
held-Known m m' (some t) g h = g t.id h

pub All-concat :
    (P : Task → Type 0) (ts : List Task) (t : Task) → All P ts → P t → All P (ts ++ t ∷ [])
All-concat P [] t a p = (p, tt)
All-concat P (u ∷ ts) t a p = (a.0, All-concat P ts t a.1 p)

pub set_stats-Grows : (id : String) (st : TaskStats) (m : Stats) → Grows m (set_stats id st m)
set_stats-Grows id st m u h = ground arith

pub set_stats_self :
    (id : String) (st : TaskStats) (m : Stats) → is_some (set_stats id st m id) ≡ true
set_stats_self id st m = simp eq_refl

-- Taking out one task leaves the others.
abbrev pub Picked : (Task → Type 0) → Option (Task × List Task) → Type 0
Picked P none = Unit {0}
Picked P (some (t, ts)) = P t × All P ts

pub pick-Picked : (P : Task → Type 0) (i : ℕ) (ts : List Task) → All P ts → Picked P (pick i ts)
unfolding pick
pick-Picked P i [] a = tt
pick-Picked P zero (t ∷ ts) a = a
pick-Picked P (suc i) (t ∷ ts) a = behind (pick i ts) (pick-Picked P i ts a.1)
  where
    behind :
        (o : Option (Task × List Task))
        → Picked P o
        → Picked P (elim o [ none ↦ none | some (u, us) ↦ some (u, t ∷ us) ])
    behind none b = tt
    behind (some (u, us)) b = (b.0, (a.0, b.1))
