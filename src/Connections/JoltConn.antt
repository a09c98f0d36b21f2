-- ===== src/Connections/JoltConn.antt =====
-- cosbridge/retry.go.
use joltifychain_bridge.Base.{ℕ, ◌+◌, Bool, List, [], ◌∷◌, ◌++◌, Text, ◌&&◌, if◌then◌else◌}
use joltifychain_bridge.Connections.PubChainConn.{go_on}
use joltifychain_bridge.Base.Outcome.{Outcome, ok, err, panic, ◌>>=◌, Done, Fault, other_fault}

-- The part of JoltChainInstance that the renewal changes. Events are kept as texts.
pub record JoltConn : Type 0 where
  -- how many pairs of clients have been put in place of one another
  pub clients : ℕ
  pub current_new_block_chan : List Text
  pub channel_queue_new_block : List Text
  pub current_new_validator : List Text
  pub channel_queue_validator : List Text

-- the answers to the two calls of WsClient.Subscribe
pub record SubscribeAnswers : Type 0 where
  pub churn : Outcome Done
  pub new_block : Outcome Done

-- AddSubscribe: the channel of the first subscription is in place even if the second fails
unfoldable pub add_subscribe : SubscribeAnswers → JoltConn → Outcome Done × JoltConn
add_subscribe answers jc = elim answers.churn [
  | err e ↦ (err e, record jc { current_new_validator = [] })
  | panic ↦ (panic, jc)
  | ok done ↦
      (answers.new_block, record jc { current_new_validator = []; current_new_block_chan = [] })
]

-- ProcessNewBlockChainMoreThanOne
unfoldable pub process_new_block_chain_more_than_one : JoltConn → JoltConn
process_new_block_chain_more_than_one jc = record jc {
  channel_queue_validator = jc.channel_queue_validator ++ jc.current_new_validator;
  current_new_validator = [];
}

-- the loop that empties the old channel of blocks, and the switch to the new channels
unfoldable pub switch_channels : JoltConn → JoltConn
unfolding process_new_block_chain_more_than_one
switch_channels jc = process_new_block_chain_more_than_one (record jc {
  channel_queue_new_block = jc.channel_queue_new_block ++ jc.current_new_block_chan;
  current_new_block_chan = [];
})

-- UpdateSubscribe, of the two subscriptions together
unfoldable pub update_subscribe : Outcome Done → JoltConn → Outcome Done × JoltConn
unfolding switch_channels
update_subscribe (ok done) jc = (ok tt, switch_channels jc)
update_subscribe (err e) jc = (err e, jc)
update_subscribe panic jc = (panic, jc)

-- the answers of one attempt: Dial, New and Start of the two clients, and the subscriptions
pub record RenewAnswers : Type 0 where
  pub dial : Outcome Done
  pub new_client : Outcome Done
  pub start : Outcome Done
  pub subscribe : SubscribeAnswers

-- the three calls that make the clients, and the two that subscribe, which end at an error
abbrev pub made : RenewAnswers → Outcome Done
made answers = answers.dial >>= λ dialled. answers.new_client >>= λ client. answers.start

abbrev pub both_subscribed : SubscribeAnswers → Outcome Done
both_subscribed answers = answers.churn >>= λ done. answers.new_block

-- op of RetryOppyChain, of these answers
unfoldable pub renew_once : Outcome Done → Outcome Done → JoltConn → Outcome Done × JoltConn
unfolding update_subscribe
renew_once (ok done) subscribe jc =
    update_subscribe subscribe (record jc { clients = jc.clients + 1 })
renew_once (err e) subscribe jc = (err e, jc)
renew_once panic subscribe jc = (panic, jc)

unfoldable pub retry_renew : Fault → List RenewAnswers → JoltConn → Outcome Done × JoltConn
unfolding renew_once go_on
retry_renew last [] jc = (err last, jc)
retry_renew last (answers ∷ attempts) jc =
    go_on (renew_once (made answers) (both_subscribed answers.subscribe) jc)
      (λ e after. retry_renew e attempts after)

-- RetryOppyChain, with the answers of the two health checks; the attempts are four at most
unfoldable pub retry_oppy_chain :
    Bool → Bool → List RenewAnswers → JoltConn → Outcome Done × JoltConn
unfolding retry_renew
retry_oppy_chain grpc_healthy ws_healthy attempts jc =
    let renewed = retry_renew other_fault attempts jc in
    if grpc_healthy && ws_healthy then (ok tt, jc) else renewed
