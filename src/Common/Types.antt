-- ===== src/Common/Types.antt =====
-- common/pool.go and the data of cosmos-sdk and of the vault module that it embeds.
use joltifychain_bridge.Base.{ℕ, ℤ, Bool, List, Text}

-- types.Coin
pub record Coin : Type 0 where
  pub denom : Text
  pub amount : ℕ

-- vaulttypes.PoolInfo with its CreatePool
pub record VaultPool : Type 0 where
  pub block_height : Text
  pub pool_pub_key : Text
  pub pool_addr : Text
  pub nodes : List Text

pub record PoolInfo : Type 0 where
  pub pk : Text
  pub cos_address : Text
  pub eth_address : Text
  pub pool_info : VaultPool

pub record MoveFundItem : Type 0 where
  pub pool_info : PoolInfo
  pub chain_type : Text
  pub height : ℤ

pub record OutBoundReq : Type 0 where
  pub tx_id : Text
  pub out_receiver_address : Text
  pub from_pool_addr : Text
  pub coin : Coin
  pub token_addr : Text
  pub block_height : ℤ
  pub nonce : ℕ
  pub submitted_tx_hash : Text
  pub fee_to_validator : List Coin
  pub chain_type : Text
  pub need_mint : Bool

pub record InBoundReq : Type 0 where
  pub user_receiver_address : Text
  pub tx_id : Text
  pub to_pool_addr : Text
  pub coin : Coin
  pub block_height : ℤ
  pub acc_num : ℕ
  pub acc_seq : ℕ
  pub pool_cos_address : Text
  pub pool_pk : Text

pub record BridgeMemo : Type 0 where
  pub dest : Text
  pub user_data : Text
  pub chain_type : Text
