-- ===== src/SigningRound/Bound.antt =====
-- How many steps a batch can take.
use joltifychain_bridge.Base.{
  ℕ, zero, suc, ◌+◌, ◌*◌, ◌<◌, ◌≤◌, ◌≡◌, refl, arith, some, List, [], ◌∷◌, length, codes, replicate,
  ap,
}
use joltifychain_bridge.SigningRound.Steps.{
  Phase, starting, composing, awaiting, leaving, closing, left, Received, Collector, collecting,
  signing, finished, after_message, get_elem?, set, Round, Step, Reach, start, put,
}
use joltifychain_bridge.SigningRound.Invariant.{one_longer}

-- how much a goroutine still weighs: a message in the channel weighs one
abbrev rank : Phase → ℕ
rank starting = 7
rank composing = 6
rank awaiting = 4
rank leaving = 3
rank closing = 1
rank left = 0

abbrev collector_rank : Collector → ℕ
collector_rank (collecting received) = 2
collector_rank (signing received) = 1
collector_rank finished = 0

ranks : List Phase → ℕ
ranks [] = 0
ranks (p ∷ ws) = rank p + ranks ws

weight : Round → ℕ
weight r = ranks r.workers + length r.tss_req_chan + collector_rank r.collector

ranks-set :
    (ws : List Phase) (i : ℕ) (p q : Phase)
    → get_elem? ws i ≡ some p
    → ranks (set ws i q) + rank p ≡ ranks ws + rank q
unfolding ranks
ranks-set [] i p q h = cc
ranks-set (w ∷ ws) zero p q h = let same : w ≡ p = ground arith in rw same (omega arith)
ranks-set (w ∷ ws) (suc i) p q h = omega (arith, ranks-set ws i p q h)

after_message-le : (n : ℕ) (received : Received) → collector_rank (after_message n received) ≤ 2
unfolding after_message
after_message-le n received = ground arith

Step-lt : {n : ℕ} {r s : Round} → Step n r s → weight s < weight r
unfolding weight
Step-lt {n} {r} (Step.subscribed i clients at_i e) =
    omega (arith, ranks-set r.workers i starting composing at_i)
Step-lt {n} {r} (Step.requested i msg at_i room) = omega (
  arith,
  ranks-set r.workers i composing awaiting at_i,
  one_longer r.tss_req_chan (record { req_data = msg; index = i }),
)
Step-lt {n} {r} (Step.failed i at_i) = omega (arith, ranks-set r.workers i composing leaving at_i)
Step-lt {n} {r} (Step.answered i m rest at_i e) =
    omega (arith, ranks-set r.workers i awaiting leaving at_i)
Step-lt {n} {r} (Step.done i at_i room) = omega (
  arith,
  ranks-set r.workers i leaving closing at_i,
  one_longer r.tss_req_chan (record { req_data = codes "done"; index = i }),
)
Step-lt {n} {r} (Step.unsubscribed i at_i) = omega (arith, ranks-set r.workers i closing left at_i)
Step-lt {n} {r} (Step.collected received msg rest now full) =
    rw now (omega (arith, ap length full, after_message-le n (put msg.index msg.req_data received)))
Step-lt {n} {r} (Step.signed received signatures now) = rw now (omega arith)

-- the steps of a run
abbrev pub steps : {n : ℕ} {r s : Round} → Reach n r s → ℕ
steps Reach.here = 0
steps (Reach.next before step) = suc (steps before)

steps-le : {n : ℕ} {r s : Round} (run : Reach n r s) → steps run + weight s ≤ weight r
steps-le Reach.here = omega arith
steps-le (Reach.next before step) = omega (arith, steps-le before, Step-lt step)

ranks-replicate : (n : ℕ) → ranks (replicate n starting) ≡ 7 * n
unfolding ranks
ranks-replicate zero = refl
ranks-replicate (suc n) = omega (arith, ranks-replicate n)

-- A batch of n transfers takes at most 7 n + 2 steps.
pub steps_bound : (n : ℕ) (r : Round) (run : Reach n (start n) r) → steps run ≤ 7 * n + 2
unfolding weight start
steps_bound n r run = omega (arith, steps-le run, ranks-replicate n)
