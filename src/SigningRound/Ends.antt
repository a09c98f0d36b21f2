-- ===== src/SigningRound/Ends.antt =====
-- A batch can always be finished.
use joltifychain_bridge.Base.{ℕ, zero, suc, ◌+◌, ◌*◌, ◌<◌, ◌≤◌, arith, inl, inr}
use joltifychain_bridge.SigningRound.Steps.{Round, Step, Reach, start}
use joltifychain_bridge.SigningRound.Progress.{HasEnded, batch_progress}
use joltifychain_bridge.SigningRound.Bound.{steps, steps_bound}

first_step : {n : ℕ} {r s t : Round} → Step n r s → Reach n s t → Reach n r t
first_step step Reach.here = Reach.next Reach.here step
first_step step (Reach.next run last) = Reach.next (first_step step run) last

finish :
    (n k : ℕ) (r : Round)
    → 0 < n
    → (run : Reach n (start n) r) → 7 * n + 2 < steps run + k
    → (s : Round) × Reach n r s × HasEnded s
finish n zero r some_needed run enough = absurd (omega (arith, enough, steps_bound n r run))
finish n (suc k) r some_needed run enough = elim (batch_progress n r some_needed run).0 [
  | inl ended ↦ (r, Reach.here, ended)
  | inr (s, step) ↦
      let (t, onward, ended) =
        finish n k s some_needed (Reach.next run step) (omega (arith, enough)) in
      (t, first_step step onward, ended)
]

-- Whatever steps the goroutines of a batch of n transfers have taken, they are at most 7 n + 2, and
-- further steps lead to a state in which all goroutines have ended; so no order of the steps goes on
-- for ever or gets stuck.
pub batch_ends :
    (n : ℕ) (r : Round)
    → 0 < n
    → (run : Reach n (start n) r)
    → (steps run ≤ 7 * n + 2) × ((s : Round) × Reach n r s × HasEnded s)
batch_ends n r some_needed run =
    (steps_bound n r run, finish n (7 * n + 3) r some_needed run (omega arith))
