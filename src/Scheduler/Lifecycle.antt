-- ===== src/Scheduler/Lifecycle.antt =====
-- SchedulerState, Start and Shutdown of vmi/internal/scheduler.go, called in any order.
use victoriametrics_importer.Prelude.{
  ◌≡◌, refl, Bool, true, false, List, [], ◌∷◌, ◌⊎◌, inl, inr, ap, subst, sym, if◌then◌else◌,
}

pub data SchedulerState : Type 0 where
  created running stopped : SchedulerState

-- The state after Start, and whether it starts the dispatcher and the workers.
pub start_scheduler : SchedulerState → SchedulerState × Bool
start_scheduler created = (running, true)
start_scheduler running = (running, false)
start_scheduler stopped = (stopped, false)

-- The state after Shutdown, and whether it cancels the context and waits.
pub shutdown_scheduler : SchedulerState → SchedulerState × Bool
shutdown_scheduler created = (stopped, true)
shutdown_scheduler running = (stopped, true)
shutdown_scheduler stopped = (stopped, false)

-- What a call does: it starts the goroutines, cancels them, or only logs.
pub data Effect : Type 0 where
  starts cancels : Effect

-- The calls, true for Start, and what they do in their order.
pub call_all : List Bool → SchedulerState → List Effect
call_all [] s = []
call_all (true ∷ cs) s =
    let after = start_scheduler s in
    let rest = call_all cs after.0 in if after.1 then starts ∷ rest else rest
call_all (false ∷ cs) s =
    let after = shutdown_scheduler s in
    let rest = call_all cs after.0 in if after.1 then cancels ∷ rest else rest

-- The goroutines are started once at most, and cancelled once at most, behind that.
pub data Orderly : List Effect → Type 0 where
  untouched : Orderly []
  started_only : Orderly (starts ∷ [])
  started_then_cancelled : Orderly (starts ∷ cancels ∷ [])
  cancelled_only : Orderly (cancels ∷ [])

nothing_more : (cs : List Bool) → call_all cs stopped ≡ []
unfolding call_all start_scheduler shutdown_scheduler
nothing_more [] = refl
nothing_more (true ∷ cs) = nothing_more cs
nothing_more (false ∷ cs) = nothing_more cs

once_running : (cs : List Bool) → (call_all cs running ≡ []) ⊎ (call_all cs running ≡ cancels ∷ [])
unfolding call_all start_scheduler shutdown_scheduler
once_running [] = inl refl
once_running (true ∷ cs) = once_running cs
once_running (false ∷ cs) = inr (ap (◌∷◌ cancels) (nothing_more cs))

-- However Start and Shutdown of a new scheduler are called, the dispatcher and the workers are
-- started once at most, are cancelled once at most, and are never started behind a cancellation.
pub call_all-Orderly : (cs : List Bool) → Orderly (call_all cs created)
unfolding call_all start_scheduler shutdown_scheduler
call_all-Orderly [] = untouched
call_all-Orderly (true ∷ cs) = elim (once_running cs) [
  | inl e ↦ subst (λ es. Orderly (starts ∷ es)) (sym e) started_only
  | inr e ↦ subst (λ es. Orderly (starts ∷ es)) (sym e) started_then_cancelled
]
call_all-Orderly (false ∷ cs) =
    subst (λ es. Orderly (cancels ∷ es)) (sym (nothing_more cs)) cancelled_only
