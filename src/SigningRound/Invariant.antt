-- ===== src/SigningRound/Invariant.antt =====
-- What holds of a batch after any steps.
use joltifychain_bridge.Base.{
  ℕ, ◌+◌, ◌<◌, ◌≤◌, ◌≡◌, subst, arith, Bool, true, false, Option, none, some, List, [], ◌∷◌, ◌++◌,
  Text, length, length-append, ◌==◌, inl, inr, Bool-cases, ==_iff,
}
use joltifychain_bridge.SigningRound.Broadcaster.{Signatures, Clients, channel_of}
use joltifychain_bridge.SigningRound.Steps.{
  Phase, starting, composing, awaiting, leaving, closing, left, TssReq, Collector, collecting,
  signing, finished, get_elem?, set,
}
use joltifychain_bridge.SigningRound.Phases.{count, waiting, taken, get_elem?-set, waiting-append}

-- a goroutine that has sent a message while messages are collected
abbrev pub sent : Phase → Bool
sent awaiting = true
sent closing = true
sent left = true
sent starting = false
sent composing = false
sent leaving = false

-- a goroutine that has yet to send "done" after that
abbrev pub pending : Phase → Bool
pending awaiting = true
pending leaving = true
pending starting = false
pending composing = false
pending closing = false
pending left = false

-- What holds of a goroutine, its channel and the number of its messages while they are collected.
abbrev pub WhileCollecting : Option Phase → Option (List Signatures) → ℕ → Type 0
WhileCollecting none channel messages = messages ≡ 0
WhileCollecting (some starting) channel messages = (channel ≡ none) × (messages ≡ 0)
WhileCollecting (some composing) channel messages = (channel ≡ some []) × (messages ≡ 0)
WhileCollecting (some awaiting) channel messages = (channel ≡ some []) × (messages ≡ 1)
WhileCollecting (some leaving) channel messages = messages ≡ 0
WhileCollecting (some closing) channel messages = messages ≡ 1
WhileCollecting (some left) channel messages = messages ≡ 1

abbrev pub WhileSigning : Option Phase → Option (List Signatures) → Type 0
WhileSigning (some starting) channel = ⊥
WhileSigning (some composing) channel = ⊥
WhileSigning (some leaving) channel = ⊥
WhileSigning (some awaiting) channel = channel ≡ some []
WhileSigning (some closing) channel = Unit {0}
WhileSigning (some left) channel = Unit {0}
WhileSigning none channel = Unit {0}

abbrev pub AfterSigning : Option Phase → Option (List Signatures) → Type 0
AfterSigning (some starting) channel = ⊥
AfterSigning (some composing) channel = ⊥
AfterSigning (some awaiting) channel = (m : Signatures) × (channel ≡ some (m ∷ []))
AfterSigning (some leaving) channel = Unit {0}
AfterSigning (some closing) channel = Unit {0}
AfterSigning (some left) channel = Unit {0}
AfterSigning none channel = Unit {0}

abbrev pub Fits : Collector → Option Phase → Option (List Signatures) → ℕ → ℕ → Type 0
Fits (collecting received) phase channel i messages =
    WhileCollecting phase channel (messages + taken i received)
Fits (signing received) phase channel i messages = WhileSigning phase channel
Fits finished phase channel i messages = AfterSigning phase channel

abbrev pub Each : List Phase → List TssReq → Clients → Collector → Type 0
Each ws chan clients collector =
    (i : ℕ) → Fits collector (get_elem? ws i) (channel_of i clients) i (waiting i chan)

-- The messages, all counted.
abbrev pub Total : ℕ → List Phase → List TssReq → Collector → Type 0
Total n ws chan (collecting received) =
    (length chan + length received ≡ count sent ws) × (length received < n)
Total n ws chan (signing received) = length chan ≡ 0
Total n ws chan finished = length chan + count pending ws ≤ n

module _ (ws : List Phase) (i : ℕ) (p q : Phase) (chan chan' : List TssReq)
    (clients clients' : Clients) (at_i : get_elem? ws i ≡ some p) where
  -- One goroutine goes on, the others are as before.
  pub one_moves :
      (collector : Collector)
      → ((j : ℕ) → (i == j) ≡ false → channel_of j clients' ≡ channel_of j clients)
      → ((j : ℕ) → (i == j) ≡ false → waiting j chan' ≡ waiting j chan)
      → (Fits collector (some p) (channel_of i clients) i (waiting i chan)
          → Fits collector (some q) (channel_of i clients') i (waiting i chan'))
      → Each ws chan clients collector
      → Each (set ws i q) chan' clients' collector
  one_moves collector same_channel same_waiting moved each j = elim (Bool-cases (i == j)) [
    | inl here ↦
        let e : i ≡ j = (==_iff i j).0 here in
        let at_j : get_elem? (set ws i q) i ≡ some q =
          ground (arith, get_elem?-set ws i i p q at_i) in
        let before =
          subst (λ w. Fits collector w (channel_of i clients) i (waiting i chan)) at_i (each i) in
        rw (← e) (rw at_j (moved before))
    | inr other ↦
        let at_j : get_elem? (set ws i q) j ≡ get_elem? ws j =
          ground (arith, get_elem?-set ws i j p q at_i) in
        rw (at_j, same_channel j other, same_waiting j other) (each j)
  ]

-- A message of another goroutine does not count.
pub other_message :
    (i : ℕ) (chan : List TssReq) (d : Text) (j : ℕ)
    → (i == j) ≡ false
    → waiting j (chan ++ record { req_data = d; index = i } ∷ []) ≡ waiting j chan
other_message i chan d j other =
    ground (arith, waiting-append j chan (record { req_data = d; index = i }))

pub own_message :
    (i : ℕ) (chan : List TssReq) (d : Text)
    → waiting i (chan ++ record { req_data = d; index = i } ∷ []) ≡ waiting i chan + 1
own_message i chan d = ground (arith, waiting-append i chan (record { req_data = d; index = i }))

pub one_longer : (chan : List TssReq) (msg : TssReq) → length (chan ++ msg ∷ []) ≡ length chan + 1
one_longer chan msg = omega (arith, length-append {0} chan (msg ∷ []))
