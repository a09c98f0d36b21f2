-- ===== src/Inbound/Amounts.antt =====
-- What a transfer between two public chains takes as its fee, and what it leaves.
use joltifychain_bridge.Base.{
  ℕ, ◌+◌, ◌<◌, ◌≡◌, ◌≢◌, refl, true, false, ◌||◌, some, [], ◌∷◌, Text, text_neq, to_lower, ℤ, arith,
}
use joltifychain_bridge.Base.SyncMap.{SyncMap, load, store}
use joltifychain_bridge.Base.SyncMap.Laws.{load-store_self}
use joltifychain_bridge.Base.Outcome.{ok}
use joltifychain_bridge.Common.Libraries.{Sdk, Chains}
use joltifychain_bridge.Common.Types.{Coin, PoolInfo, OutBoundReq}
use joltifychain_bridge.Common.Fee.{FeeModule, calculate_fee}
use joltifychain_bridge.Common.Decimals.{inbound_adjust, outbound_adjust, precision}
use joltifychain_bridge.Common.Requests.{new_outbound_req, out_index}
use joltifychain_bridge.TokenList.{
  TokenItem, TokenList, get_token_info_by_address, get_token_info_by_denom,
}
use joltifychain_bridge.Queue.Outbound.{add_item}
use joltifychain_bridge.State.{PubChain, JoltChain}
use joltifychain_bridge.Inbound.Erc20.{
  Erc20TxInfo, DstAnswers, zero_address, process_dst_inbound, dst_fee, dst_request,
}

-- what comes in, in 18 decimals
abbrev pub received : Sdk → Erc20TxInfo → TokenItem → Coin
received sdk tx_info item = record {
  denom = item.denom;
  amount = inbound_adjust sdk tx_info.amount item.decimals precision;
}

-- the request for what goes out, of this net amount
abbrev pub dst_req :
    (sdk : Sdk)
    → Chains
    → Erc20TxInfo
    → Text
    → TokenItem
    → TokenItem
    → PoolInfo
    → ℤ
    → ℕ
    → Coin
    → OutBoundReq
dst_req sdk chains tx_info tx_hash item_in item_out current height net fee =
    new_outbound_req tx_hash (chains.hex_to_address tx_info.receiver_addr_erc20) current.eth_address
      (record {
        denom = item_in.denom;
        amount = outbound_adjust sdk net item_out.decimals precision;
      })
      item_out.token_addr height (fee ∷ []) tx_info.dst_chain_type true

module _ (sdk : Sdk) (chains : Chains) where
  open sdk use {SdkDec, int_lt, int_lt_iff, int_equal, int_equal_iff, int_sub, int_sub_lem}

  pub covers : (amount fee : ℕ) → fee < amount → (int_lt amount fee || int_equal amount fee) ≡ false
  covers amount fee more = ground (arith, int_lt_iff amount fee, int_equal_iff amount fee)

  -- With a current pool, an answer to the query of the joltify height and a fee module for the other
  -- chain, a transfer of a token that is listed on both chains, to a receiver that is not the zero
  -- address, with a known price at which CalculateFee gives a fee, and more than that fee, is stored as a request whose amount is what came in, in
  -- 18 decimals, less the fee, in the decimals of the other chain.
  pub process_dst_inbound-stores :
      (tl : TokenList) (fee_module : SyncMap (FeeModule sdk)) (answers : DstAnswers sdk chains)
      (tx_info : Erc20TxInfo) (tx_hash chain_type : Text) (pi : PubChain) (jc : JoltChain)
      (item_in item_out : TokenItem) (price : SdkDec) (this_module : FeeModule sdk)
      (current : PoolInfo) (height : ℤ) (index : Text) (net : ℕ) (fee : Coin)
      → get_token_info_by_address
          (to_lower (chains.address_hex tx_info.token_address))
          chain_type
          tl
        ≡ some item_in
      → answers.query_token_price item_in.denom ≡ ok price
      → load tx_info.dst_chain_type fee_module ≡ some this_module
      → get_token_info_by_denom item_in.denom tx_info.dst_chain_type tl ≡ some item_out
      → chains.hex_to_address tx_info.receiver_addr_erc20 ≢ zero_address sdk chains
      → pi.pool1 ≡ some current
      → answers.jolt_block_height ≡ ok height
      → calculate_fee sdk this_module price (received sdk tx_info item_in) ≡ ok fee
      → net + fee.amount ≡ (received sdk tx_info item_in).amount
      → 0 < net
      → out_index chains
          (dst_req sdk chains tx_info tx_hash item_in item_out current height net fee)
        ≡ ok index
      → (after : JoltChain) × (process_dst_inbound sdk chains tl fee_module answers tx_info tx_hash
            chain_type
            (pi, jc)
          ≡ ok (pi, after))
        × (load index after.retry_outbound_req
            ≡ some (dst_req sdk chains tx_info tx_hash item_in item_out current height net fee))
  unfolding process_dst_inbound dst_fee dst_request add_item
  process_dst_inbound-stores tl fee_module answers tx_info tx_hash chain_type pi jc item_in item_out
        price this_module current height index net fee e_in e_price e_module e_out receiver e_pool
        e_height e_fee e_net some_net e_index =
      let test = covers (received sdk tx_info item_in).amount fee.amount (omega arith) in
      let left : int_sub (received sdk tx_info item_in).amount fee.amount ≡ net =
        omega (arith, int_sub_lem (received sdk tx_info item_in).amount fee.amount (omega arith)) in
      (
        record jc {
          retry_outbound_req =
              store index
                (dst_req sdk chains tx_info tx_hash item_in item_out current height net fee)
                jc.retry_outbound_req;
        },
        rw
            (
              e_in,
              process_dst_inbound,
              e_price,
              dst_fee,
              e_module,
              e_fee,
              test,
              e_out,
              dst_request,
              text_neq _ _ receiver,
            )
            (simp e_pool (rw (e_height, left, e_index) refl)),
        load-store_self index _ jc.retry_outbound_req,
      )
