-- ===== src/Pool/Send/Outcomes.antt =====
-- What SendBuffer returns.
use native.Mathlib.Decide.{ℕ_discrete}
use victoriametrics_importer.Prelude.{
  ℕ, zero, suc, ◌≤◌, ◌<◌, ◌≡◌, refl, subst, Bool, true, false, none, some, arith,
}
use victoriametrics_importer.Prelude.Int.{ℤ}
use victoriametrics_importer.EndpointList.{Ptr}
use victoriametrics_importer.Pool.{Pool, code, sent, success, success_code}
use victoriametrics_importer.Pool.Send.{
  World, Found, found, stuck, Outcome, delivered, no_healthy_endpoint, refused, out_of_attempts,
  send_loop, attempt, conclude, requested, non_retryable, send_buffer,
}

-- Every attempt from `n` up to `k` got no response from the endpoint that it tried.
abbrev pub Unanswered : World → ℕ → ℕ → Type 0
Unanswered w n k = (j : ℕ) → n ≤ j → j < k → (ep : Ptr) × (sent (w.respond j ep) ≡ false)

-- What stands behind an outcome, from attempt `n` on.
abbrev pub Explains : World → ℕ → Outcome → Type 0
Explains w n delivered =
    (k : ℕ) × (ep : Ptr) × (n ≤ k) × Unanswered w n k × (success (w.respond k ep) ≡ true)
Explains w n (refused k c) =
    (ep : Ptr) × (n ≤ k)
    × Unanswered w n k
    × (sent (w.respond k ep) ≡ true)
    × (code (w.respond k ep) ≡ c)
    × (success_code c ≡ false)
Explains w n (no_healthy_endpoint k) = (n ≤ k) × Unanswered w n k
Explains w n out_of_attempts = Unit {0}

none_yet : (w : World) (n : ℕ) → Unanswered w n n
none_yet w n j h l = absurd (omega arith)

one_more :
    (w : World) (n k : ℕ) (ep : Ptr)
    → sent (w.respond n ep) ≡ false
    → Unanswered w (suc n) k
    → Unanswered w n k
one_more w n k ep e u j h l = elim (ℕ_discrete n j) [
  | yes same ↦ subst (λ i. (a : Ptr) × (sent (w.respond i a) ≡ false)) same (ep, e)
  | no other ↦ u j (omega arith) l
]

later :
    (w : World) (n : ℕ) (ep : Ptr) (o : Outcome)
    → sent (w.respond n ep) ≡ false
    → Explains w (suc n) o
    → Explains w n o
later w n ep delivered e (k, a, h, u, s) = (k, a, omega arith, one_more w n k ep e u, s)
later w n ep (refused k c) e (a, h, u, s, t, r) = (a, omega arith, one_more w n k ep e u, s, t, r)
later w n ep (no_healthy_endpoint k) e (h, u) = (omega arith, one_more w n k ep e u)
later w n ep out_of_attempts e h = tt

conclude-Explains :
    (w : World) (n : ℕ) (ep : Ptr) (q : Pool) (retry : Pool → Outcome × Pool)
    → Explains w (suc n) (retry q).0
    → Explains w n
        (conclude
          (success (w.respond n ep))
          (non_retryable (w.respond n ep))
          n
          (code (w.respond n ep))
          q
          retry).0
conclude-Explains w n ep q retry h =
    by_tests (success (w.respond n ep)) (non_retryable (w.respond n ep)) refl refl
  where
    by_tests :
        (a b : Bool)
        → success (w.respond n ep) ≡ a
        → non_retryable (w.respond n ep) ≡ b
        → Explains w n (conclude a b n (code (w.respond n ep)) q retry).0
    by_tests true b e f = unfold conclude in (n, ep, omega arith, none_yet w n, e)
    by_tests false true e f =
        unfold conclude in (ep, omega arith, none_yet w n, ground arith, refl, ground arith)
    by_tests false false e f = unfold conclude in later w n ep _ (ground arith) h

attempt-Explains :
    (w : World) (size n : ℕ) (again : Pool → Outcome × Pool) (g : Found)
    → ((p : Pool) → Explains w (suc n) (again p).0)
    → Explains w n (attempt w size n again g).0
unfolding attempt
attempt-Explains w size n again (stuck q) h = tt
attempt-Explains w size n again (found none q) h = (omega arith, none_yet w n)
attempt-Explains w size n again (found (some ep) q) h =
    conclude-Explains w n ep (requested w size n ep q) _ (h _)

send_loop-Explains :
    (f : ℕ) (w : World) (size deadline n : ℕ) (p : Pool)
    → Explains w n (send_loop f w size deadline n p).0
unfolding send_loop
send_loop-Explains zero w size deadline n p = tt
send_loop-Explains (suc f) w size deadline n p =
    attempt-Explains w size n _ _ (send_loop-Explains f w size deadline (suc n))

-- SendBuffer reports a delivery only for a response with a success code, a refusal only with the
-- code of a response without one, and it retries only where there was no response at all.
pub send_buffer-Explains :
    (f : ℕ) (w : World) (size start : ℕ) (timeout : ℤ) (p : Pool)
    → Explains w 1 (send_buffer f w size start timeout p).0
unfolding send_buffer
send_buffer-Explains f w size start timeout p = send_loop-Explains f w size _ 1 p
