-- ===== src/Examples/Instances.antt =====
-- The state of a bridge with two pools, and some requests.
use joltifychain_bridge.Base.{ℕ, true, false, some, [], ◌∷◌, Text, codes, pos}
use joltifychain_bridge.Base.SyncMap.{SyncMap}
use joltifychain_bridge.Common.Types.{
  Coin, VaultPool, PoolInfo, MoveFundItem, OutBoundReq, InBoundReq,
}
use joltifychain_bridge.Common.Requests.{new_outbound_req, new_account_inbound_req}
use joltifychain_bridge.State.{JoltChain, PubChain}
use joltifychain_bridge.TokenList.{TokenItem, TokenList}
use joltifychain_bridge.Bridge.Heights.{Service}

abbrev pub vault : Text → VaultPool
vault pk = record {
  block_height = codes "7";
  pool_pub_key = pk;
  pool_addr = pk;
  nodes = codes "node" ∷ [];
}

abbrev pub pool : Text → PoolInfo
pool pk = record { pk = pk; cos_address = pk; eth_address = pk; pool_info = vault pk }

abbrev pub p1 : PoolInfo
p1 = pool (codes "p1")

abbrev pub p2 : PoolInfo
p2 = pool (codes "p2")

abbrev pub coin : ℕ → Coin
coin amount = record { denom = codes "ujolt"; amount = amount }

abbrev pub out_req : ℕ → OutBoundReq
out_req height =
    new_outbound_req (codes "00") (codes "r") (codes "p2") (coin 5) (codes "native") (pos height) []
      (codes "BSC") false

abbrev pub in_req : ℕ → InBoundReq
in_req height = new_account_inbound_req (codes "r") (codes "p2") (coin 5) (codes "t") (pos height)

abbrev pub token : TokenItem
token = record {
  token_addr = codes "0xa";
  denom = codes "ujolt";
  decimals = 18;
  chain_type = codes "BSC";
}

abbrev pub tokens : TokenList
tokens = record {
  oppy_token_list = (codes "ujolt:bsc", token) ∷ [];
  pub_token_list = (codes "0xa:bsc", token) ∷ [];
  update_gap = 2;
}

abbrev pub waiting : SyncMap MoveFundItem
waiting =
    (codes "4:BSC", record { pool_info = p1; chain_type = codes "BSC"; height = pos 4 })
    ∷ (codes "2:BSC", record { pool_info = p2; chain_type = codes "BSC"; height = pos 2 })
    ∷ []

abbrev pub jolt_chain : JoltChain
jolt_chain = record {
  key_gen_cache = [];
  pool0 = some p1;
  pool1 = some p2;
  outbound_req_chan = [];
  retry_outbound_req = (codes "21", out_req 2) ∷ (codes "11", out_req 1) ∷ [];
  current_height = pos 9;
  on_hold_retry_queue = [];
}

abbrev pub pub_chain : PubChain
pub_chain = record {
  pool0 = some p1;
  pool1 = some p2;
  inbound_req_chan = [];
  retry_inbound_req = (codes "21", in_req 2) ∷ (codes "11", in_req 1) ∷ [];
  move_fund_req = waiting;
  on_hold_retry_queue = [];
}

abbrev pub service : Service
service = record {
  pi = pub_chain;
  jolt = jolt_chain;
  failed_outbound = 6;
  failed_inbound = 0;
  outbound_pause_height = record { bsc_height = 0; eth_height = 0 };
  inbound_pause_height = pos 0;
  outbound_wait = false;
  inbound_wait = false;
  outbound_process_done = true;
  inbound_process_done = true;
  in_keygen_in_progress = false;
  first_time_outbound = false;
  first_time_inbound = false;
  previous_tss_block_outbound = record { bsc_height = pos 0; eth_height = pos 0 };
  previous_tss_block_inbound = pos 0;
}
