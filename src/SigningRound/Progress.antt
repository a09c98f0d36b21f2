-- ===== src/SigningRound/Progress.antt =====
-- A batch comes to its end: no goroutine waits for ever, and no run is longer than a bound.
use joltifychain_bridge.Base.{
  ℕ, ◌<◌, ◌≡◌, ◌⊎◌, refl, ap, subst, arith, Bool, true, false, some, none, List, [], ◌∷◌, length,
  inl, inr, All,
}
use joltifychain_bridge.SigningRound.Broadcaster.{Clients, channel_of, channel_of-subscribe}
use joltifychain_bridge.SigningRound.Steps.{
  Phase, starting, composing, awaiting, leaving, closing, left, TssReq, Received, Collector,
  collecting, signing, finished, get_elem?, Round, Step, Reach, start,
}
use joltifychain_bridge.SigningRound.Phases.{waiting, count-lt, count_pos, count-All, search_phase}
use joltifychain_bridge.SigningRound.Invariant.{sent, pending, Fits, Each, Total}
use joltifychain_bridge.SigningRound.Workers.{Fits-at}
use joltifychain_bridge.SigningRound.Keeps.{IsSound, start-IsSound, Reach-IsSound}

-- All goroutines are done.
abbrev pub HasEnded : Round → Type 0
HasEnded r = All (λ p. p ≡ left) r.workers × (r.collector ≡ finished)

-- a goroutine whose next action may be a message
abbrev pub sends : Phase → Bool
sends composing = true
sends leaving = true
sends starting = false
sends awaiting = false
sends closing = false
sends left = false

not_sent : (p : Phase) → sends p ≡ true → sent p ≡ false
not_sent composing h = refl
not_sent leaving h = refl
not_sent starting h = cc
not_sent awaiting h = cc
not_sent closing h = cc
not_sent left h = cc

module _ (n : ℕ) (ws : List Phase) (chan : List TssReq) (clients : Clients)
    (size : length ws ≡ n) where
  room_after :
      (i : ℕ) (p : Phase)
      → get_elem? ws i ≡ some p
      → sends p ≡ true
      → Total n ws chan finished
      → Each ws chan clients finished
      → length chan < n
  room_after i composing at_i h total each =
      absurd (Fits-at ws i composing chan clients finished at_i each)
  room_after i leaving at_i h total each =
      omega (arith, total, count_pos pending ws i leaving at_i refl)
  room_after i starting at_i h total each = cc
  room_after i awaiting at_i h total each = cc
  room_after i closing at_i h total each = cc
  room_after i left at_i h total each = cc

  room_to_send :
      (col : Collector) (i : ℕ) (p : Phase)
      → get_elem? ws i ≡ some p
      → sends p ≡ true
      → Total n ws chan col
      → Each ws chan clients col
      → length chan < n
  room_to_send (collecting received) i p at_i h total each =
      omega (arith, total, size, count-lt sent ws i p at_i (not_sent p h))
  room_to_send (signing received) i p at_i h total each =
      omega (arith, total, size, count-lt (λ _. false) ws i p at_i refl)
  room_to_send finished i p at_i h total each = room_after i p at_i h total each

-- a goroutine that can go on while messages are collected
abbrev can_move : Phase → Bool
can_move starting = true
can_move composing = true
can_move leaving = true
can_move closing = true
can_move awaiting = false
can_move left = false

abbrev not_left : Phase → Bool
not_left left = false
not_left starting = true
not_left composing = true
not_left awaiting = true
not_left leaving = true
not_left closing = true

stuck-sent : (p : Phase) → can_move p ≡ false → sent p ≡ true
stuck-sent awaiting h = refl
stuck-sent left h = refl
stuck-sent starting h = cc
stuck-sent composing h = cc
stuck-sent leaving h = cc
stuck-sent closing h = cc

only_left : (ws : List Phase) → All (λ p. not_left p ≡ false) ws → All (λ p. p ≡ left) ws
only_left [] h = tt
only_left (left ∷ ws) h = (refl, only_left ws h.1)
only_left (starting ∷ ws) h = absurd (cc (h.0))
only_left (composing ∷ ws) h = absurd (cc (h.0))
only_left (awaiting ∷ ws) h = absurd (cc (h.0))
only_left (leaving ∷ ws) h = absurd (cc (h.0))
only_left (closing ∷ ws) h = absurd (cc (h.0))

module _ (n : ℕ) (r : Round) (h : IsSound n r) where
  abbrev CanStep : Type 0
  CanStep = (s : Round) × Step n r s

  room :
      (i : ℕ) (p : Phase)
      → get_elem? r.workers i ≡ some p
      → sends p ≡ true
      → length r.tss_req_chan < n
  room i p at_i may_send =
      room_to_send n r.workers r.tss_req_chan r.clients h.size r.collector i p at_i may_send h.total
        h.each

  step_closing : (i : ℕ) → get_elem? r.workers i ≡ some closing → CanStep
  step_closing i at_i = (_, Step.unsubscribed i at_i)

  step_leaving : (i : ℕ) → get_elem? r.workers i ≡ some leaving → CanStep
  step_leaving i at_i = (_, Step.done i at_i (room i leaving at_i refl))

  module _ (received : Received) (e : r.collector ≡ collecting received) where
    Each-now : Each r.workers r.tss_req_chan r.clients (collecting received)
    Each-now = subst (Each r.workers r.tss_req_chan r.clients) e h.each

    step_starting : (i : ℕ) → get_elem? r.workers i ≡ some starting → CanStep
    step_starting i at_i =
        let (free, none_sent) =
          Fits-at r.workers i starting r.tss_req_chan r.clients (collecting received) at_i
            Each-now in
        (_, Step.subscribed i _ at_i (channel_of-subscribe i i r.clients free))

    step_moving : (i : ℕ) (p : Phase) → get_elem? r.workers i ≡ some p → can_move p ≡ true → CanStep
    step_moving i starting at_i m = step_starting i at_i
    step_moving i composing at_i m = (_, Step.failed i at_i)
    step_moving i leaving at_i m = step_leaving i at_i
    step_moving i closing at_i m = step_closing i at_i
    step_moving i awaiting at_i m = absurd (cc m)
    step_moving i left at_i m = absurd (cc m)

    step_collecting : (chan : List TssReq) → r.tss_req_chan ≡ chan → CanStep
    step_collecting (msg ∷ rest) full = (_, Step.collected received msg rest e full)
    step_collecting [] empty = elim (search_phase can_move r.workers) [
      | inl (i, p, at_i, m) ↦ step_moving i p at_i m
      | inr stuck ↦
          let total = subst (Total n r.workers r.tss_req_chan) e h.total in
          let none_waits : length r.tss_req_chan ≡ 0 = ap length empty in
          absurd (
            omega (
              arith,
              total,
              none_waits,
              h.size,
              count-All sent can_move r.workers stuck-sent stuck,
            ))
    ]

  module _ (e : r.collector ≡ finished) where
    Each-after : Each r.workers r.tss_req_chan r.clients finished
    Each-after = subst (Each r.workers r.tss_req_chan r.clients) e h.each

    Fits-after :
        (i : ℕ) (p : Phase)
        → get_elem? r.workers i ≡ some p
        → Fits finished (some p) (channel_of i r.clients) i (waiting i r.tss_req_chan)
    Fits-after i p at_i = Fits-at r.workers i p r.tss_req_chan r.clients finished at_i Each-after

    step_after : (i : ℕ) (p : Phase) → get_elem? r.workers i ≡ some p → not_left p ≡ true → CanStep
    step_after i starting at_i m = absurd (Fits-after i starting at_i)
    step_after i composing at_i m = absurd (Fits-after i composing at_i)
    step_after i awaiting at_i m =
        let (signatures, full) = Fits-after i awaiting at_i in
        (_, Step.answered i signatures [] at_i full)
    step_after i leaving at_i m = step_leaving i at_i
    step_after i closing at_i m = step_closing i at_i
    step_after i left at_i m = absurd (cc m)

  progress : (col : Collector) → r.collector ≡ col → HasEnded r ⊎ CanStep
  progress (collecting received) e = inr (step_collecting received e r.tss_req_chan refl)
  progress (signing received) e = inr (_, Step.signed received none e)
  progress finished e = elim (search_phase not_left r.workers) [
    | inl (i, p, at_i, m) ↦ inr (step_after e i p at_i m)
    | inr all_left ↦ inl (only_left r.workers all_left, e)
  ]

-- The goroutines of a batch never block one another for good: whatever steps were taken, all are
-- done, or one of them can go on; and a goroutine that is about to send a message finds room in the
-- channel.
pub batch_progress :
    (n : ℕ) (r : Round)
    → 0 < n
    → Reach n (start n) r
    → (HasEnded r ⊎ ((s : Round) × Step n r s))
      × ((i : ℕ) (p : Phase)
          → get_elem? r.workers i ≡ some p
          → sends p ≡ true
          → length r.tss_req_chan < n)
batch_progress n r some_needed reached =
    let h = Reach-IsSound (start-IsSound n some_needed) reached in
    (progress n r h r.collector refl, room n r h)
