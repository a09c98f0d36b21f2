-- ===== src/State.antt =====
-- The state of the two halves of the bridge: cosbridge/types.go (JoltChainInstance) and
-- pubchain/types.go (Instance), less their connections, locks and loggers.
-- The retry pool of outbound requests is one map that both halves hold
-- (bridge/bridge_service.go hands it over); it stands in JoltChain alone.
use joltifychain_bridge.Base.{ℤ, List, Option, Text}
use joltifychain_bridge.Base.SyncMap.{SyncMap}
use joltifychain_bridge.Common.Types.{PoolInfo, OutBoundReq, InBoundReq, MoveFundItem}

-- tssPoolMsg
pub record TssPoolMsg : Type 0 where
  pub creator : Text
  pub pool_pub_key : Text
  pub block_height : ℤ

-- JoltChainInstance; `pool0` and `pool1` are lastTwoPools, the channel is a queue of batches
pub record JoltChain : Type 0 where
  pub key_gen_cache : List TssPoolMsg
  pub pool0 : Option PoolInfo
  pub pool1 : Option PoolInfo
  pub outbound_req_chan : List (List OutBoundReq)
  pub retry_outbound_req : SyncMap OutBoundReq
  pub current_height : ℤ
  pub on_hold_retry_queue : List OutBoundReq

-- Instance
pub record PubChain : Type 0 where
  pub pool0 : Option PoolInfo
  pub pool1 : Option PoolInfo
  pub inbound_req_chan : List (List InBoundReq)
  pub retry_inbound_req : SyncMap InBoundReq
  pub move_fund_req : SyncMap MoveFundItem
  pub on_hold_retry_queue : List InBoundReq
