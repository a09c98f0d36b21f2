-- ===== src/SigningRound/Keeps.antt =====
-- Every step of a batch keeps what `Invariant` states.
use joltifychain_bridge.Base.{
  ℕ, ◌<◌, ◌≡◌, ◌⊎◌, refl, ◌∙◌, subst, arith, Option, none, some, ◌∷◌, length, inl, inr,
  length-replicate,
}
use joltifychain_bridge.SigningRound.Broadcaster.{channel_of}
use joltifychain_bridge.SigningRound.Steps.{
  Phase, starting, composing, awaiting, leaving, closing, left, collecting, Round, Step, Reach,
  start,
}
use joltifychain_bridge.SigningRound.Phases.{
  waiting, taken, length-set, count-replicate, get_elem?-replicate,
}
use joltifychain_bridge.SigningRound.Invariant.{sent, Each, Total, WhileCollecting}
use joltifychain_bridge.SigningRound.Workers.{
  keeps_subscribed, keeps_requested, keeps_failed, keeps_answered, keeps_done, keeps_unsubscribed,
}
use joltifychain_bridge.SigningRound.Messages.{keeps_collected, keeps_signed}

-- The count of goroutines, the count of messages, and where each goroutine stands.
pub record IsSound (n : ℕ) (r : Round) : Type 0 where
  pub size : length r.workers ≡ n
  pub total : Total n r.workers r.tss_req_chan r.collector
  pub each : Each r.workers r.tss_req_chan r.clients r.collector

-- Every step keeps it.
pub Step-IsSound : {n : ℕ} {r s : Round} → Step n r s → IsSound n r → IsSound n s
Step-IsSound {n} {r} (Step.subscribed i clients at_i e) h =
    let (total, each) =
      keeps_subscribed n i r.workers r.tss_req_chan r.clients clients r.collector at_i e h.total
        h.each in
    record { size = length-set r.workers i composing ∙ h.size; total = total; each = each }
Step-IsSound {n} {r} (Step.requested i msg at_i room) h =
    let (total, each) =
      keeps_requested n i r.workers r.tss_req_chan r.clients msg r.collector at_i h.total h.each in
    record { size = length-set r.workers i awaiting ∙ h.size; total = total; each = each }
Step-IsSound {n} {r} (Step.failed i at_i) h =
    let (total, each) =
      keeps_failed n i r.workers r.tss_req_chan r.clients r.collector at_i h.total h.each in
    record { size = length-set r.workers i leaving ∙ h.size; total = total; each = each }
Step-IsSound {n} {r} (Step.answered i m rest at_i e) h =
    let (total, each) =
      keeps_answered n i r.workers r.tss_req_chan r.clients m rest r.collector at_i e h.total
        h.each in
    record { size = length-set r.workers i leaving ∙ h.size; total = total; each = each }
Step-IsSound {n} {r} (Step.done i at_i room) h =
    let (total, each) =
      keeps_done n i r.workers r.tss_req_chan r.clients r.collector at_i h.total h.each in
    record { size = length-set r.workers i closing ∙ h.size; total = total; each = each }
Step-IsSound {n} {r} (Step.unsubscribed i at_i) h =
    let (total, each) =
      keeps_unsubscribed n i r.workers r.tss_req_chan r.clients r.collector at_i h.total h.each in
    record { size = length-set r.workers i left ∙ h.size; total = total; each = each }
Step-IsSound {n} {r} (Step.collected received msg rest now full) h =
    let before : Total n r.workers (msg ∷ rest) (collecting received) =
      subst (λ c. Total n r.workers c (collecting received)) full
        (subst (Total n r.workers r.tss_req_chan) now h.total) in
    let each_before : Each r.workers (msg ∷ rest) r.clients (collecting received) =
      subst (λ c. Each r.workers c r.clients (collecting received)) full
        (subst (Each r.workers r.tss_req_chan r.clients) now h.each) in
    let (total, each) =
      keeps_collected n r.workers msg rest r.clients received h.size before each_before in
    record { size = h.size; total = total; each = each }
Step-IsSound {n} {r} (Step.signed received signatures now) h =
    let (total, each) =
      keeps_signed n r.workers r.tss_req_chan r.clients received signatures h.size
        (subst (Total n r.workers r.tss_req_chan) now h.total)
        (subst (Each r.workers r.tss_req_chan r.clients) now h.each) in
    record { size = h.size; total = total; each = each }

starts_fit : (w : Option Phase) → (w ≡ some starting) ⊎ (w ≡ none) → WhileCollecting w none 0
starts_fit w (inl e) = rw e (refl, refl)
starts_fit w (inr e) = rw e refl

pub start-IsSound : (n : ℕ) → 0 < n → IsSound n (start n)
unfolding start
start-IsSound n some_needed = record {
  size = length-replicate n starting;
  total = (omega (arith, count-replicate sent n starting refl), some_needed);
  each = λ i. unfold channel_of waiting taken in starts_fit _ (get_elem?-replicate n i starting);
}

pub Reach-IsSound : {n : ℕ} {r s : Round} → IsSound n r → Reach n r s → IsSound n s
Reach-IsSound h Reach.here = h
Reach-IsSound h (Reach.next before step) = Step-IsSound step (Reach-IsSound h before)
