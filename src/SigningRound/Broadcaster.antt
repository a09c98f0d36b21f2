-- ===== src/SigningRound/Broadcaster.antt =====
-- pubchain/broadcast.go: the channels, one for each client, on which the signatures are handed out.
use joltifychain_bridge.Base.{
  ℕ, false, Option, none, some, List, [], ◌∷◌, ◌≡◌, refl, arith, Text, ◌==◌, if◌then◌else◌,
}
use joltifychain_bridge.Base.Outcome.{Outcome, ok, err, already_subscribed}
use joltifychain_bridge.Base.SyncMap.{SyncMap}

-- map[string][]byte; none is the nil map
abbrev pub Signatures : Type 0
Signatures = Option (SyncMap Text)

-- the clients, each with what its channel of capacity 1 holds
abbrev pub Clients : Type 0
Clients = List (ℕ × List Signatures)

unfoldable pub channel_of : ℕ → Clients → Option (List Signatures)
channel_of id [] = none
channel_of id ((j, s) ∷ clients) = if j == id then some s else channel_of id clients

unfoldable pub new_channel : Option (List Signatures) → ℕ → Clients → Outcome Clients
new_channel none id clients = ok ((id, []) ∷ clients)
new_channel (some s) id clients = err already_subscribed

-- Subscribe
unfoldable pub subscribe : ℕ → Clients → Outcome Clients
unfolding new_channel
subscribe id clients = new_channel (channel_of id clients) id clients

-- Unsubscribe
unfoldable pub unsubscribe : ℕ → Clients → Clients
unsubscribe id [] = []
unsubscribe id ((j, s) ∷ clients) = if j == id then clients else (j, s) ∷ unsubscribe id clients

-- one send of Broadcast: a channel that holds something is left out, so that no send blocks
unfoldable pub offer : Signatures → List Signatures → List Signatures
offer ret [] = ret ∷ []
offer ret (s ∷ rest) = s ∷ rest

-- Broadcast
unfoldable pub broadcast : Signatures → Clients → Clients
unfolding offer
broadcast ret [] = []
broadcast ret ((j, s) ∷ clients) = (j, offer ret s) ∷ broadcast ret clients

-- `<-tssRespChan` of a client whose channel holds something
unfoldable pub without_first : ℕ → Clients → Clients
without_first id [] = []
without_first id ((j, []) ∷ clients) = (j, []) ∷ without_first id clients
without_first id ((j, m ∷ s) ∷ clients) =
    if j == id then (j, s) ∷ clients else (j, m ∷ s) ∷ without_first id clients

abbrev offered : Signatures → Option (List Signatures) → Option (List Signatures)
offered ret none = none
offered ret (some s) = some (offer ret s)

module _ (id j : ℕ) where
  -- A client that is not there can subscribe, and its channel is empty.
  pub channel_of-subscribe :
      (clients : Clients)
      → channel_of id clients ≡ none
      → subscribe id clients ≡ ok ((id, []) ∷ clients)
  unfolding subscribe
  channel_of-subscribe clients free = rw free refl

  pub channel_of-unsubscribe :
      (clients : Clients)
      → (id == j) ≡ false
      → channel_of j (unsubscribe id clients) ≡ channel_of j clients
  unfolding channel_of unsubscribe
  channel_of-unsubscribe [] other = refl
  channel_of-unsubscribe ((k, s) ∷ clients) other =
      ground (arith, channel_of-unsubscribe clients other)

  pub channel_of-without_first :
      (clients : Clients)
      → (id == j) ≡ false
      → channel_of j (without_first id clients) ≡ channel_of j clients
  unfolding channel_of without_first
  channel_of-without_first [] other = refl
  channel_of-without_first ((k, []) ∷ clients) other =
      ground (arith, channel_of-without_first clients other)
  channel_of-without_first ((k, m ∷ s) ∷ clients) other =
      ground (arith, channel_of-without_first clients other)

-- Broadcasting fills the empty channels.
pub channel_of-broadcast :
    (j : ℕ) (ret : Signatures) (clients : Clients)
    → channel_of j (broadcast ret clients) ≡ offered ret (channel_of j clients)
unfolding channel_of broadcast
channel_of-broadcast j ret [] = refl
channel_of-broadcast j ret ((k, s) ∷ clients) = ground (arith, channel_of-broadcast j ret clients)
