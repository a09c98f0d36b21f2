-- ===== src/Connections/PubChainConn.antt =====
-- pubchain/retry.go, and renewEthClientWithLock and HealthCheckAndReset of pubchain/helper.go.
use joltifychain_bridge.Base.{ℕ, ◌+◌, Bool, true, false, List, [], ◌∷◌, ◌++◌, Text}
use joltifychain_bridge.Base.Outcome.{Outcome, ok, err, panic, Done, Fault, other_fault}

-- The part of pubchain.ChainInfo that the renewal changes. Headers are kept as texts.
pub record ChainInfo : Type 0 where
  pub chain_type : Text
  -- how many clients have been put in place of one another
  pub client : ℕ
  -- whether SubHandler's subscription is running
  pub subscribed : Bool
  pub sub_channel_now : List Text
  -- ChannelQueue: the headers with their chain
  pub channel_queue : List (Text × Text)

-- BlockHead for each header of a channel
abbrev pub block_heads : Text → List Text → List (Text × Text)
block_heads chain_type [] = []
block_heads chain_type (b ∷ channel) = (b, chain_type) ∷ block_heads chain_type channel

-- the loop that empties the old channel into the queue, and the switch to the new one
unfoldable pub switch_channel : ChainInfo → ChainInfo
switch_channel c = record c {
  channel_queue = c.channel_queue ++ block_heads c.chain_type c.sub_channel_now;
  sub_channel_now = [];
  subscribed = true;
}

-- UpdateSubscription, with the answer to SubscribeNewHead
unfoldable pub update_subscription : Outcome Done → ChainInfo → Outcome Done × ChainInfo
unfolding switch_channel
update_subscription (ok done) c = (ok tt, switch_channel c)
update_subscription (err e) c = (err e, c)
update_subscription panic c = (panic, c)

-- renewEthClientWithLock: the old subscription is given up before there is a new one
unfoldable pub renew_eth_client : Outcome Done → ChainInfo → Outcome Done × ChainInfo
unfolding update_subscription
renew_eth_client subscribe c =
    update_subscription subscribe (record c { client = c.client + 1; subscribed = false })

-- the answers of one attempt: Dial and SubscribeNewHead
pub record DialAnswers : Type 0 where
  pub dial : Outcome Done
  pub subscribe : Outcome Done

-- op of RetryPubChain
unfoldable pub renew_once : Outcome Done → Outcome Done → ChainInfo → Outcome Done × ChainInfo
unfolding renew_eth_client
renew_once (ok done) subscribe c = renew_eth_client subscribe c
renew_once (err e) subscribe c = (err e, c)
renew_once panic subscribe c = (panic, c)

-- backoff.Retry after an attempt: an error is tried again
unfoldable pub go_on :
    {S : Type 0} → Outcome Done × S → (Fault → S → Outcome Done × S) → Outcome Done × S
go_on (ok done, after) again = (ok tt, after)
go_on (err e, after) again = again e after
go_on (panic, after) again = (panic, after)

-- backoff.Retry over the attempts that are left, after the last error
unfoldable pub retry_renew : Fault → List DialAnswers → ChainInfo → Outcome Done × ChainInfo
unfolding renew_once go_on
retry_renew last [] c = (err last, c)
retry_renew last (answers ∷ attempts) c =
    go_on (renew_once answers.dial answers.subscribe c) (λ e after. retry_renew e attempts after)

-- RetryPubChain, with the answer of the health check; the attempts are four at most
unfoldable pub retry_pub_chain :
    Outcome Done → List DialAnswers → ChainInfo → Outcome Done × ChainInfo
unfolding retry_renew
retry_pub_chain (ok done) attempts c = (ok tt, c)
retry_pub_chain (err e) attempts c = retry_renew other_fault attempts c
retry_pub_chain panic attempts c = (panic, c)

-- HealthCheckAndReset, with the answer to BlockNumber; errors are only logged
unfoldable pub health_check_and_reset :
    Outcome Done → Outcome Done → List DialAnswers → ChainInfo → ChainInfo
unfolding retry_pub_chain
health_check_and_reset (ok done) health attempts c = c
health_check_and_reset (err e) health attempts c = (retry_pub_chain health attempts c).1
health_check_and_reset panic health attempts c = c
