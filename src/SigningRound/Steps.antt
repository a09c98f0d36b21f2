-- ===== src/SigningRound/Steps.antt =====
-- The steps of the goroutines of one batch, in any order.
use joltifychain_bridge.Base.{
  ℕ, zero, suc, ◌<◌, ◌≡◌, Option, none, some, List, [], ◌∷◌, ◌++◌, Text, codes, length, leb,
  replicate, ◌==◌, if◌then◌else◌,
}
use joltifychain_bridge.Base.Outcome.{ok}
use joltifychain_bridge.SigningRound.Broadcaster.{
  Signatures, Clients, channel_of, subscribe, unsubscribe, broadcast, without_first,
}

-- Where the goroutine of a transfer stands.
pub data Phase : Type 0 where
  -- before bc.Subscribe
  starting : Phase
  -- in ProcessOutBound, before the signer is called
  composing : Phase
  -- the signer waits for the signatures
  awaiting : Phase
  -- before the message "done"
  leaving : Phase
  -- after it, before the deferred bc.Unsubscribe
  closing : Phase
  left : Phase

-- pubchain.TssReq
pub record TssReq : Type 0 where
  pub req_data : Text
  pub index : ℕ

-- received, by index
abbrev pub Received : Type 0
Received = List (ℕ × Text)

-- Where the goroutine that collects the messages stands.
pub data Collector : Type 0 where
  collecting : Received → Collector
  signing : Received → Collector
  finished : Collector

-- the goroutines, tssReqChan, the broadcaster's clients
pub record Round : Type 0 where
  pub workers : List Phase
  pub tss_req_chan : List TssReq
  pub clients : Clients
  pub collector : Collector

-- received[msg.Index] = msg.Data
unfoldable pub put : ℕ → Text → Received → Received
put i d [] = (i, d) ∷ []
put i d ((j, e) ∷ received) = if j == i then (j, d) ∷ received else (j, e) ∷ put i d received

-- whether all have been received
unfoldable pub after_message : ℕ → Received → Collector
after_message n received = if leb n (length received) then signing received else collecting received

abbrev pub get_elem? {ℓ} : {A : Type ℓ} → List A → ℕ → Option A
get_elem? [] i = none
get_elem? (x ∷ xs) zero = some x
get_elem? (x ∷ xs) (suc i) = get_elem? xs i

abbrev pub set {ℓ} : {A : Type ℓ} → List A → ℕ → A → List A
set [] i v = []
set (x ∷ xs) zero v = v ∷ xs
set (x ∷ xs) (suc i) v = x ∷ set xs i v

-- One step of a batch of n transfers, whose channel has capacity n. What is signed, and what the
-- signatures are, is left open.
pub data Step (n : ℕ) (r : Round) : Round → Type 0 where
  subscribed :
      (i : ℕ) (clients : Clients)
      → get_elem? r.workers i ≡ some starting
      → subscribe i r.clients ≡ ok clients
      → Step n r (record r { workers = set r.workers i composing; clients = clients })
  requested :
      (i : ℕ) (msg : Text)
      → get_elem? r.workers i ≡ some composing
      → length r.tss_req_chan < n
      → Step n r (record r {
        workers = set r.workers i awaiting;
        tss_req_chan = r.tss_req_chan ++ record { req_data = msg; index = i } ∷ [];
      })
  -- ProcessOutBound fails before the signer is called
  failed :
      (i : ℕ)
      → get_elem? r.workers i ≡ some composing
      → Step n r (record r { workers = set r.workers i leaving })
  answered :
      (i : ℕ) (m : Signatures) (rest : List Signatures)
      → get_elem? r.workers i ≡ some awaiting
      → channel_of i r.clients ≡ some (m ∷ rest)
      → Step n r
          (record r { workers = set r.workers i leaving; clients = without_first i r.clients })
  done :
      (i : ℕ)
      → get_elem? r.workers i ≡ some leaving
      → length r.tss_req_chan < n
      → Step n r (record r {
        workers = set r.workers i closing;
        tss_req_chan = r.tss_req_chan ++ record { req_data = codes "done"; index = i } ∷ [];
      })
  unsubscribed :
      (i : ℕ)
      → get_elem? r.workers i ≡ some closing
      → Step n r (record r { workers = set r.workers i left; clients = unsubscribe i r.clients })
  collected :
      (received : Received) (msg : TssReq) (rest : List TssReq)
      → r.collector ≡ collecting received
      → r.tss_req_chan ≡ msg ∷ rest
      → Step n r (record r {
        tss_req_chan = rest;
        collector = after_message n (put msg.index msg.req_data received);
      })
  signed :
      (received : Received) (signatures : Signatures)
      → r.collector ≡ signing received
      → Step n r (record r { clients = broadcast signatures r.clients; collector = finished })

pub data Reach (n : ℕ) (r : Round) : Round → Type 0 where
  here : Reach n r r
  next : {s t : Round} → Reach n r s → Step n s t → Reach n r t

-- the batch before its first step
unfoldable pub start : ℕ → Round
start n = record {
  workers = replicate n starting;
  tss_req_chan = [];
  clients = [];
  collector = collecting [];
}
