-- ===== src/Bridge/Transfers.antt =====
-- The batches of transfers: processEachOutBound (bridge/bridge_service.go) and ProcessOutBound
-- (pubchain/tx_send.go). The goroutines of a batch are taken in the order of its items.
pub mod Held
pub mod OnHoldCount
use joltifychain_bridge.Base.{
  ℕ, ◌+◌, Bool, true, false, List, [], ◌∷◌, Text, codes, text_eq, if◌then◌else◌,
}
use joltifychain_bridge.Base.Outcome.{Outcome, ok, err, panic, ◌>>=◌, Done}
use joltifychain_bridge.Common.Libraries.{Chains}
use joltifychain_bridge.Common.Types.{OutBoundReq}
use joltifychain_bridge.Common.Requests.{empty_hash}
use joltifychain_bridge.Queue.Outbound
use joltifychain_bridge.Bridge.Heights.{Service}
use joltifychain_bridge.Bridge.Batches.{counted}
use joltifychain_bridge.Bridge.Records.{SubmitAnswers, record_of, submit_record}

-- What a batch of transfers asks its surroundings.
pub record OutboundAnswers : Type 0 where
  -- GetPubChainSubmittedTx
  pub submitted_tx : OutBoundReq → Outcome Text
  pub check_tx_status : Text → Outcome Done
  -- the hashes of SendNativeTokenBatch and SendTokenBatch, empty_hash where nothing was composed
  pub send_native_token_batch : ℕ → OutBoundReq → Text
  pub send_token_batch : ℕ → OutBoundReq → Text
  -- the attempts to submit the record of a transfer with this hash
  pub attempts : Text → List SubmitAnswers

-- whether CheckTxStatus finds a transaction in order
unfoldable pub is_confirmed : Outcome Done → Outcome Bool
is_confirmed (ok done) = ok true
is_confirmed (err e) = ok false
is_confirmed panic = panic

abbrev negated : Outcome Bool → Outcome Bool
negated (ok true) = ok false
negated (ok false) = ok true
negated (err e) = err e
negated panic = panic

-- whether processEachOutBound goes on with a transfer; the answer "" drops it
unfoldable pub still_needed : OutboundAnswers → Outcome Text → Outcome Bool
unfolding is_confirmed
still_needed answers (err e) = ok true
still_needed answers panic = panic
still_needed answers (ok []) = ok false
still_needed answers (ok (c ∷ tx)) = negated (is_confirmed (answers.check_tx_status (c ∷ tx)))

-- needToBeProcessed
unfoldable pub needed_outbound : OutboundAnswers → List OutBoundReq → Outcome (List OutBoundReq)
unfolding still_needed
needed_outbound answers [] = ok []
needed_outbound answers (el ∷ items) = do
  needed ← still_needed answers (answers.submitted_tx el)
  rest ← needed_outbound answers items
  ok (if needed then el ∷ rest else rest)

-- ProcessOutBound: the hash of the transaction
unfoldable pub process_out_bound : OutboundAnswers → ℕ → OutBoundReq → Text
process_out_bound answers index item =
    if text_eq item.token_addr (codes "native")
    then answers.send_native_token_batch index item
    else answers.send_token_batch index item

-- whether a transfer has gone out and is confirmed
unfoldable pub has_sent : OutboundAnswers → Text → Outcome Bool
unfolding is_confirmed
has_sent answers tx_hash =
    if text_eq tx_hash empty_hash then ok false else is_confirmed (answers.check_tx_status tx_hash)

module _ (chains : Chains) where
  -- a transfer that is confirmed is recorded, any other one goes on hold with its hash
  unfoldable pub send_each : OutboundAnswers → OutBoundReq → Text → Bool → Service → Outcome Service
  unfolding record_of submit_record
  send_each answers item tx_hash true s = do
    submitted ←
        submit_record chains (record_of chains s.pi.pool1 item tx_hash) (answers.attempts tx_hash)
    ok (record s { failed_outbound = 0 })
  send_each answers item tx_hash false s = ok (record s {
    failed_outbound = counted s.outbound_wait s.failed_outbound;
    jolt = Outbound.add_on_hold_queue (record item { submitted_tx_hash = tx_hash }) s.jolt;
  })

  unfoldable pub send_all : OutboundAnswers → ℕ → List OutBoundReq → Service → Outcome Service
  unfolding send_each has_sent process_out_bound
  send_all answers index [] s = ok s
  send_all answers index (item ∷ items) s = do
    sent ← has_sent answers (process_out_bound answers index item)
    after ← send_each answers item (process_out_bound answers index item) sent s
    send_all answers (index + 1) items after

  -- processEachOutBound
  unfoldable pub process_each_outbound :
      OutboundAnswers → List OutBoundReq → Service → Outcome Service
  unfolding needed_outbound send_all
  process_each_outbound answers items s = needed_outbound answers items >>= λ needed. elim needed [
    | [] ↦ ok (record s { failed_outbound = 0 })
    | item ∷ rest ↦ send_all answers 0 (item ∷ rest) s
  ]
