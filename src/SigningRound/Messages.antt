-- ===== src/SigningRound/Messages.antt =====
-- A step of the collecting goroutine keeps what `Invariant` states.
use joltifychain_bridge.Base.{
  ℕ, suc, ◌+◌, ◌<◌, ◌≤◌, ◌≡◌, ◌≢◌, refl, ◌∙◌, arith, false, Option, none, some, List, [], ◌∷◌,
  length, inl, inr, Bool-cases, leb,
}
use joltifychain_bridge.SigningRound.Broadcaster.{
  Signatures, Clients, channel_of, broadcast, offer, channel_of-broadcast,
}
use joltifychain_bridge.SigningRound.Steps.{
  Phase, starting, composing, awaiting, leaving, closing, left, TssReq, Received, put, collecting,
  signing, finished, after_message, get_elem?,
}
use joltifychain_bridge.SigningRound.Phases.{
  waiting, taken, count-le, count-lt, length-put, taken-put,
}
use joltifychain_bridge.SigningRound.Invariant.{
  sent, pending, Each, Total, WhileCollecting, WhileSigning, AfterSigning,
}

at_most_one :
    (w : Option Phase) (channel : Option (List Signatures)) (messages : ℕ)
    → WhileCollecting w channel messages
    → messages ≤ 1
at_most_one none channel messages h = omega arith
at_most_one (some starting) channel messages h = omega arith
at_most_one (some composing) channel messages h = omega arith
at_most_one (some awaiting) channel messages h = omega arith
at_most_one (some leaving) channel messages h = omega arith
at_most_one (some closing) channel messages h = omega arith
at_most_one (some left) channel messages h = omega arith

all_sent :
    (w : Option Phase) (channel : Option (List Signatures)) (messages : ℕ)
    → ((p : Phase) → w ≡ some p → sent p ≢ false)
    → WhileCollecting w channel messages
    → WhileSigning w channel
all_sent none channel messages sends h = tt
all_sent (some starting) channel messages sends h = sends starting refl refl
all_sent (some composing) channel messages sends h = sends composing refl refl
all_sent (some awaiting) channel messages sends h = h.0
all_sent (some leaving) channel messages sends h = sends leaving refl refl
all_sent (some closing) channel messages sends h = tt
all_sent (some left) channel messages sends h = tt

module _ (n : ℕ) (ws : List Phase) (msg : TssReq) (rest : List TssReq) (clients : Clients)
    (received : Received) where
  abbrev now_received : Received
  now_received = put msg.index msg.req_data received

  not_received : Each ws (msg ∷ rest) clients (collecting received) → taken msg.index received ≡ 0
  unfolding waiting
  not_received each =
      let most =
        at_most_one (get_elem? ws msg.index) (channel_of msg.index clients)
          (waiting msg.index (msg ∷ rest) + taken msg.index received) (each msg.index) in
      ground arith

  same_messages :
      taken msg.index received ≡ 0
      → (j : ℕ) → waiting j (msg ∷ rest) + taken j received ≡ waiting j rest + taken j now_received
  unfolding waiting
  same_messages new j = omega (arith, taken-put msg.index j msg.req_data received new)

  pub keeps_collected :
      length ws ≡ n
      → Total n ws (msg ∷ rest) (collecting received)
      → Each ws (msg ∷ rest) clients (collecting received)
      → Total n ws rest (after_message n now_received)
        × Each ws rest clients (after_message n now_received)
  unfolding after_message
  keeps_collected size total each = elim (Bool-cases (leb n (length now_received))) [
    | inl full ↦
        let all : n ≤ length now_received = ground arith in
        rw full (
          omega (arith, total, all, longer, count-le sent ws),
          (λ j.
              all_sent (get_elem? ws j) (channel_of j clients)
                (waiting j (msg ∷ rest) + taken j received)
                (λ p at_j unsent.
                  absurd (omega (arith, total, all, longer, count-lt sent ws j p at_j unsent)))
                (each j)),
        )
    | inr more ↦
        let few : length now_received < n = ground arith in
        rw more ((omega (arith, total, longer), few), (λ j. rw (← same_messages new j) (each j)))
  ]
    where
      new : taken msg.index received ≡ 0
      new = not_received each

      longer : length now_received ≡ suc (length received)
      longer = length-put msg.index msg.req_data received new

signed_fits :
    (w : Option Phase) (channel : Option (List Signatures)) (signatures : Signatures)
    (channel' : Option (List Signatures))
    → (channel ≡ some [] → channel' ≡ some (signatures ∷ []))
    → WhileSigning w channel
    → AfterSigning w channel'
signed_fits none channel signatures channel' filled h = tt
signed_fits (some starting) channel signatures channel' filled h = h
signed_fits (some composing) channel signatures channel' filled h = h
signed_fits (some awaiting) channel signatures channel' filled h = (signatures, filled h)
signed_fits (some leaving) channel signatures channel' filled h = tt
signed_fits (some closing) channel signatures channel' filled h = tt
signed_fits (some left) channel signatures channel' filled h = tt

pub keeps_signed :
    (n : ℕ) (ws : List Phase) (chan : List TssReq) (clients : Clients) (received : Received)
    (signatures : Signatures)
    → length ws ≡ n
    → Total n ws chan (signing received)
    → Each ws chan clients (signing received)
    → Total n ws chan finished × Each ws chan (broadcast signatures clients) finished
keeps_signed n ws chan clients received signatures size total each = (
  omega (arith, total, count-le pending ws),
  (λ j.
      signed_fits (get_elem? ws j) (channel_of j clients) signatures _
        (λ empty. channel_of-broadcast j signatures clients ∙ (unfold offer in rw empty refl))
        (each j)),
)
