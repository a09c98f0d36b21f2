-- ===== src/SigningRound/Workers.antt =====
-- A step of one transfer's goroutine keeps what `Invariant` states.
use joltifychain_bridge.Base.{ℕ, ◌≡◌, refl, subst, arith, some, List, [], ◌∷◌, ◌++◌, Text, codes}
use joltifychain_bridge.Base.Outcome.{ok}
use joltifychain_bridge.SigningRound.Broadcaster.{
  Signatures, Clients, channel_of, subscribe, unsubscribe, without_first, channel_of-subscribe,
  channel_of-unsubscribe, channel_of-without_first,
}
use joltifychain_bridge.SigningRound.Steps.{
  Phase, starting, composing, awaiting, leaving, closing, left, TssReq, Collector, collecting,
  signing, finished, get_elem?, set,
}
use joltifychain_bridge.SigningRound.Phases.{waiting, count-set}
use joltifychain_bridge.SigningRound.Invariant.{
  sent, pending, Fits, Each, Total, one_moves, other_message, own_message, one_longer,
}

pub Fits-at :
    (ws : List Phase) (i : ℕ) (p : Phase) (chan : List TssReq) (clients : Clients) (col : Collector)
    → get_elem? ws i ≡ some p
    → Each ws chan clients col
    → Fits col (some p) (channel_of i clients) i (waiting i chan)
Fits-at ws i p chan clients col at_i each =
    subst (λ w. Fits col w (channel_of i clients) i (waiting i chan)) at_i (each i)

module _ (n i : ℕ) (ws : List Phase) (chan : List TssReq) (clients : Clients) where
  pub keeps_subscribed :
      (clients' : Clients) (col : Collector)
      → get_elem? ws i ≡ some starting
      → subscribe i clients ≡ ok clients'
      → Total n ws chan col
      → Each ws chan clients col
      → Total n (set ws i composing) chan col × Each (set ws i composing) chan clients' col
  keeps_subscribed clients' (collecting received) at_i e total each =
      let (free, none_sent) = Fits-at ws i starting chan clients (collecting received) at_i each in
      let opened : clients' ≡ (i, []) ∷ clients = cc (e, channel_of-subscribe i i clients free) in
      (
        omega (arith, total, count-set sent ws i starting composing at_i),
        rw opened (
            one_moves ws i starting composing chan chan clients ((i, []) ∷ clients) at_i
              (collecting received) (λ j other. unfold channel_of in rw other refl)
              (λ j other. refl) (λ _. (unfold channel_of in ground arith, none_sent)) each),
      )
  keeps_subscribed clients' (signing received) at_i e total each =
      absurd (Fits-at ws i starting chan clients (signing received) at_i each)
  keeps_subscribed clients' finished at_i e total each =
      absurd (Fits-at ws i starting chan clients finished at_i each)

  pub keeps_requested :
      (msg : Text) (col : Collector)
      → get_elem? ws i ≡ some composing
      → let chan' = chan ++ record { req_data = msg; index = i } ∷ [] in
        Total n ws chan col
        → Each ws chan clients col
        → Total n (set ws i awaiting) chan' col × Each (set ws i awaiting) chan' clients col
  keeps_requested msg (collecting received) at_i total each = (
    omega (arith, total, count-set sent ws i composing awaiting at_i, one_longer chan _),
    one_moves ws i composing awaiting chan _ clients clients at_i (collecting received)
        (λ j other. refl) (other_message i chan msg)
        (λ before. (before.0, omega (arith, before.1, own_message i chan msg))) each,
  )
  keeps_requested msg (signing received) at_i total each =
      absurd (Fits-at ws i composing chan clients (signing received) at_i each)
  keeps_requested msg finished at_i total each =
      absurd (Fits-at ws i composing chan clients finished at_i each)

  pub keeps_failed :
      (col : Collector)
      → get_elem? ws i ≡ some composing
      → Total n ws chan col
      → Each ws chan clients col
      → Total n (set ws i leaving) chan col × Each (set ws i leaving) chan clients col
  keeps_failed (collecting received) at_i total each = (
    omega (arith, total, count-set sent ws i composing leaving at_i),
    one_moves ws i composing leaving chan chan clients clients at_i (collecting received)
        (λ j other. refl) (λ j other. refl) (λ before. before.1) each,
  )
  keeps_failed (signing received) at_i total each =
      absurd (Fits-at ws i composing chan clients (signing received) at_i each)
  keeps_failed finished at_i total each =
      absurd (Fits-at ws i composing chan clients finished at_i each)

  pub keeps_answered :
      (m : Signatures) (rest : List Signatures) (col : Collector)
      → get_elem? ws i ≡ some awaiting
      → channel_of i clients ≡ some (m ∷ rest)
      → Total n ws chan col
      → Each ws chan clients col
      → Total n (set ws i leaving) chan col
        × Each (set ws i leaving) chan (without_first i clients) col
  keeps_answered m rest (collecting received) at_i e total each =
      let before = Fits-at ws i awaiting chan clients (collecting received) at_i each in
      absurd (cc (e, before.0))
  keeps_answered m rest (signing received) at_i e total each =
      let before = Fits-at ws i awaiting chan clients (signing received) at_i each in
      absurd (cc (e, before))
  keeps_answered m rest finished at_i e total each = (
    omega (arith, total, count-set pending ws i awaiting leaving at_i),
    one_moves ws i awaiting leaving chan chan clients _ at_i finished
        (λ j other. channel_of-without_first i j clients other) (λ j other. refl) (λ _. tt) each,
  )

  pub keeps_done :
      (col : Collector)
      → get_elem? ws i ≡ some leaving
      → let chan' = chan ++ record { req_data = codes "done"; index = i } ∷ [] in
        Total n ws chan col
        → Each ws chan clients col
        → Total n (set ws i closing) chan' col × Each (set ws i closing) chan' clients col
  keeps_done (collecting received) at_i total each = (
    omega (arith, total, count-set sent ws i leaving closing at_i, one_longer chan _),
    one_moves ws i leaving closing chan _ clients clients at_i (collecting received)
        (λ j other. refl) (other_message i chan (codes "done"))
        (λ before. omega (arith, before, own_message i chan (codes "done"))) each,
  )
  keeps_done (signing received) at_i total each =
      absurd (Fits-at ws i leaving chan clients (signing received) at_i each)
  keeps_done finished at_i total each = (
    omega (arith, total, count-set pending ws i leaving closing at_i, one_longer chan _),
    one_moves ws i leaving closing chan _ clients clients at_i finished (λ j other. refl)
        (other_message i chan (codes "done")) (λ _. tt) each,
  )

  pub keeps_unsubscribed :
      (col : Collector)
      → get_elem? ws i ≡ some closing
      → Total n ws chan col
      → Each ws chan clients col
      → Total n (set ws i left) chan col × Each (set ws i left) chan (unsubscribe i clients) col
  keeps_unsubscribed (collecting received) at_i total each = (
    omega (arith, total, count-set sent ws i closing left at_i),
    one_moves ws i closing left chan chan clients _ at_i (collecting received)
        (λ j other. channel_of-unsubscribe i j clients other) (λ j other. refl) (λ before. before)
        each,
  )
  keeps_unsubscribed (signing received) at_i total each = (
    total,
    one_moves ws i closing left chan chan clients _ at_i (signing received)
        (λ j other. channel_of-unsubscribe i j clients other) (λ j other. refl) (λ _. tt) each,
  )
  keeps_unsubscribed finished at_i total each = (
    omega (arith, total, count-set pending ws i closing left at_i),
    one_moves ws i closing left chan chan clients _ at_i finished
        (λ j other. channel_of-unsubscribe i j clients other) (λ j other. refl) (λ _. tt) each,
  )
