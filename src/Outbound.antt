-- ===== src/Outbound.antt =====
-- Transfers out of the joltify chain: cosbridge/tx_outbound.go and CheckOutBoundTx of
-- cosbridge/bridge.go. The answers of the joltify node are arguments.
pub mod Messages
pub mod Amounts
pub mod Skips
use joltifychain_bridge.Base.{
  ℕ, ◌-◌, ◌^◌, suc, Bool, true, false, not, ◌||◌, Option, none, some, List, [], ◌∷◌, Text, text_eq,
  to_lower, ℤ, pos, negsuc, ◌==◌, if◌then◌else◌,
}
use joltifychain_bridge.Base.SyncMap.{SyncMap, load}
use joltifychain_bridge.Base.Outcome.{
  Outcome, ok, err, panic, ◌>>=◌, token_not_listed, zero_amount, not_a_top_up, bad_address,
}
use joltifychain_bridge.Common.Libraries.{Sdk, Chains}
use joltifychain_bridge.Common.Types.{Coin, PoolInfo, OutBoundReq, BridgeMemo}
use joltifychain_bridge.Common.Hex.{encode_to_string}
use joltifychain_bridge.Common.Fee.{FeeModule, calculate_fee}
use joltifychain_bridge.Common.Decimals.{outbound_adjust, precision}
use joltifychain_bridge.Common.Requests.{new_outbound_req}
use joltifychain_bridge.TokenList.{TokenItem, TokenList, get_token_info_by_denom}
use joltifychain_bridge.Queue.Outbound.{add_item}
use joltifychain_bridge.State.{JoltChain}

-- banktypes.MsgSend, and the other messages
pub record MsgSend : Type 0 where
  pub from_address : Text
  pub to_address : Text
  pub amount : List Coin

pub data Msg : Type 0 where
  msg_send : MsgSend → Msg
  other_msg : Msg

-- a decoded transaction: its memo, where that is a JSON object of the right form, and its messages
pub record TxWithMemo : Type 0 where
  pub memo : Outcome BridgeMemo
  pub msgs : List Msg

-- OutboundTx
pub record OutboundTx : Type 0 where
  pub out_receiver_address : Text
  pub from_address : Text
  pub block_height : ℕ
  pub token : Coin
  pub token_addr : Text
  pub fee : Coin
  pub tx_id : Text
  pub chain_type : Text

-- uint64 of an int64
abbrev pub to_uint64 : ℤ → ℕ
to_uint64 (pos n) = n
to_uint64 (negsuc n) = 2 ^ 64 - suc n

module _ (sdk : Sdk) (chains : Chains) where
  open sdk use {SdkDec, int_lt, int_sub, int_equal}
  open chains use {hex_to_address}

  -- IsLT, Equal and Sub of two coins of one denomination
  abbrev pub coin_sub : Coin → Coin → Coin
  coin_sub token fee = record token { amount = int_sub token.amount fee.amount }

  abbrev pub covers_fee : Coin → Coin → Bool
  covers_fee token fee = not (int_lt token.amount fee.amount || int_equal token.amount fee.amount)

  -- the end of processDemonAndFee, with the fee
  abbrev pub net_of_fee : Text → Text → Text → ℤ → Text → Text → Coin → Coin → Option OutboundTx
  net_of_fee tx_id from_address token_addr block_height receiver_addr chain_type token fee =
      if covers_fee token fee
      then some (record {
        out_receiver_address = receiver_addr;
        from_address = from_address;
        block_height = to_uint64 block_height;
        token = coin_sub token fee;
        token_addr = token_addr;
        fee = fee;
        tx_id = tx_id;
        chain_type = chain_type;
      })
      else none

  -- processDemonAndFee, with the fee modules and the answer of QueryTokenPrice; none is nil
  unfoldable pub process_demon_and_fee :
      SyncMap (FeeModule sdk)
      → (Text → Outcome SdkDec)
      → Text
      → Text
      → Text
      → ℤ
      → Text
      → Text
      → ℕ
      → Text
      → Outcome (Option OutboundTx)
  process_demon_and_fee modules query_token_price tx_id from_address token_addr block_height
        receiver_addr denom_name denom_amount chain_type =
      let token : Coin = record { denom = denom_name; amount = denom_amount } in
      elim (load chain_type modules) [
        | none ↦ panic
        | some fee_module ↦ elim (query_token_price denom_name) [
          | ok price ↦
              (calculate_fee sdk fee_module price token >>= λ fee. ok (
                net_of_fee tx_id from_address token_addr block_height receiver_addr chain_type token
                  fee))
          | err e ↦ ok none
          | panic ↦ panic
        ]
      ]

  -- the request that processOutBoundRequest builds
  abbrev pub outbound_req_of : Text → ℤ → Text → BridgeMemo → TokenItem → OutboundTx → OutBoundReq
  outbound_req_of tx_id tx_block_height curr_eth_addr memo token_item item =
      new_outbound_req tx_id item.out_receiver_address curr_eth_addr
        (record {
          denom = item.token.denom;
          amount = outbound_adjust sdk item.token.amount token_item.decimals precision;
        })
        token_item.token_addr tx_block_height (item.fee ∷ []) memo.chain_type false

  -- msg.Amount[0]
  unfoldable pub first_coin : List Coin → Outcome Coin
  first_coin [] = panic
  first_coin (coin ∷ coins) = ok coin

  -- the request is added where there is one
  unfoldable pub add_outbound_tx :
      Text → ℤ → Text → BridgeMemo → TokenItem → Option OutboundTx → JoltChain → Outcome JoltChain
  add_outbound_tx tx_id tx_block_height curr_eth_addr memo token_item none jc = ok jc
  add_outbound_tx tx_id tx_block_height curr_eth_addr memo token_item (some item) jc =
      add_item chains (outbound_req_of tx_id tx_block_height curr_eth_addr memo token_item item) jc

  -- processOutBoundRequest, with the token of the list
  unfoldable pub process_listed :
      SyncMap (FeeModule sdk)
      → (Text → Outcome SdkDec)
      → Text
      → Coin
      → Text
      → ℤ
      → Text
      → BridgeMemo
      → Option TokenItem
      → JoltChain
      → Outcome JoltChain
  process_listed modules query_token_price from_address coin tx_id tx_block_height curr_eth_addr
        memo none jc =
      err token_not_listed
  process_listed modules query_token_price from_address coin tx_id tx_block_height curr_eth_addr
        memo (some token_item) jc =
      do
        item ←
            process_demon_and_fee modules query_token_price tx_id from_address token_item.token_addr
              tx_block_height (hex_to_address memo.dest) coin.denom coin.amount memo.chain_type
        add_outbound_tx tx_id tx_block_height curr_eth_addr memo token_item item jc

  -- processOutBoundRequest
  unfoldable pub process_outbound_request :
      TokenList
      → SyncMap (FeeModule sdk)
      → (Text → Outcome SdkDec)
      → MsgSend
      → Text
      → ℤ
      → Text
      → BridgeMemo
      → JoltChain
      → Outcome JoltChain
  process_outbound_request tl modules query_token_price msg tx_id tx_block_height curr_eth_addr memo
        jc =
      do
        coin ← first_coin msg.amount
        process_listed modules query_token_price msg.from_address coin tx_id tx_block_height
            curr_eth_addr memo (get_token_info_by_denom coin.denom memo.chain_type tl) jc
