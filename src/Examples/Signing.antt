-- ===== src/Examples/Signing.antt =====
-- Signing, sending and recording at concrete inputs.
use joltifychain_bridge.Base.{
  ℕ, ◌+◌, ◌*◌, ◌<◌, ◌≤◌, ◌≡◌, ◌⊎◌, refl, arith, true, none, some, [], ◌∷◌, codes, length,
}
use joltifychain_bridge.SigningRound.Broadcaster.{subscribe, channel_of, broadcast}
use joltifychain_bridge.SigningRound.Steps.{
  Phase, composing, awaiting, Round, Step, Reach, start, collecting, signing, finished, put,
  after_message, get_elem?,
}
use joltifychain_bridge.SigningRound.Progress.{HasEnded, sends, batch_progress}
use joltifychain_bridge.SigningRound.Bound.{steps}
use joltifychain_bridge.SigningRound.Ends.{batch_ends}

-- One transfer, from its first step to the signature.
abbrev subscribed_round : Round
subscribed_round = record {
  workers = composing ∷ [];
  tss_req_chan = [];
  clients = (0, []) ∷ [];
  collector = collecting [];
}

abbrev requested_round : Round
requested_round = record {
  workers = awaiting ∷ [];
  tss_req_chan = record { req_data = codes "h"; index = 0 } ∷ [];
  clients = (0, []) ∷ [];
  collector = collecting [];
}

abbrev collected_round : Round
collected_round = record {
  workers = awaiting ∷ [];
  tss_req_chan = [];
  clients = (0, []) ∷ [];
  collector = signing ((0, codes "h") ∷ []);
}

abbrev signed_round : Round
signed_round = record {
  workers = awaiting ∷ [];
  tss_req_chan = [];
  clients = (0, none ∷ []) ∷ [];
  collector = finished;
}

to_subscribed : Step 1 (start 1) subscribed_round
unfolding start subscribe channel_of
to_subscribed = Step.subscribed 0 ((0, []) ∷ []) refl refl

to_requested : Step 1 subscribed_round requested_round
to_requested = Step.requested 0 (codes "h") refl (omega arith)

to_collected : Step 1 requested_round collected_round
unfolding put after_message
to_collected = Step.collected [] (record { req_data = codes "h"; index = 0 }) [] refl refl

to_signed : Step 1 collected_round signed_round
unfolding broadcast
to_signed = Step.signed ((0, codes "h") ∷ []) none refl

abbrev run : Reach 1 (start 1) signed_round
run =
    Reach.next
      (Reach.next (Reach.next (Reach.next Reach.here to_subscribed) to_requested) to_collected)
      to_signed

batch_progress_example :
    (HasEnded signed_round ⊎ ((s : Round) × Step 1 signed_round s))
    × ((i : ℕ) (p : Phase)
        → get_elem? signed_round.workers i ≡ some p
        → sends p ≡ true
        → length signed_round.tss_req_chan < 1)
batch_progress_example = batch_progress 1 signed_round (omega arith) run

batch_ends_example : (steps run ≤ 7 * 1 + 2) × ((s : Round) × Reach 1 signed_round s × HasEnded s)
batch_ends_example = batch_ends 1 signed_round (omega arith) run
