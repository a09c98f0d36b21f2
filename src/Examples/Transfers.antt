-- ===== src/Examples/Transfers.antt =====
-- The transfers in both directions, at concrete inputs.
use joltifychain_bridge.Base.{
  ℕ, ◌≡◌, ◌≢◌, refl, ap, sym, ◌∙◌, false, Option, none, some, [], ◌∷◌, Text, text_eq, text_eq_iff,
  to_lower, codes, pos, arith, inl, inr,
}
use joltifychain_bridge.Base.SyncMap.{SyncMap, load}
use joltifychain_bridge.Base.Outcome.{Outcome, ok, err, other_fault, not_our_contract}
use joltifychain_bridge.Common.Types.{BridgeMemo, PoolInfo}
use joltifychain_bridge.Common.Hex.{encode_to_string, decode_string}
use joltifychain_bridge.Common.Decimal.{format_int, format_nat}
use joltifychain_bridge.TokenList.{
  TokenItem, TokenList, get_token_info_by_address, get_token_info_by_denom, token_key,
}
use joltifychain_bridge.Pools.{check_to_bridge}
use joltifychain_bridge.Common.Fee.{FeeModule, calculate_fee}
use joltifychain_bridge.Common.Requests.{out_index, in_index, index_str, new_outbound_req}
use joltifychain_bridge.State.{PubChain, JoltChain}
use joltifychain_bridge.Outbound.{msg_send, other_msg, MsgSend, OutboundTx, process_demon_and_fee}
use joltifychain_bridge.Outbound.Messages.{process_msg, process_msgs}
use joltifychain_bridge.Outbound.Amounts.{Conserves, process_demon_and_fee-Conserves}
use joltifychain_bridge.Outbound.Skips.{payment_req, process_msgs-skips, process_msg-stores}
use joltifychain_bridge.Inbound.Erc20.{
  DstAnswers, zero_address, process_dst_inbound, Erc20TxInfo, check_erc20, process_in_bound_erc20,
}
use joltifychain_bridge.Common.Decimals.{inbound_adjust, adjust}
use joltifychain_bridge.Inbound.Amounts.{dst_req, process_dst_inbound-stores}
use joltifychain_bridge.Inbound.Blocks.{Transaction, BlockAnswers, process_each_block}
use joltifychain_bridge.Inbound.Quiet.{
  erc20_request, IsNoPool, process_in_bound_erc20-stores, process_each_block-quiet,
}
use joltifychain_bridge.Examples.Libraries.{sdk, chains}
use joltifychain_bridge.Examples.Instances.{p2, coin, token, tokens, jolt_chain, pub_chain}

abbrev bsc_module : FeeModule sdk
bsc_module = record {
  chain_type = codes "BSC";
  fee_ratio = 100000000000000;
  ceil = 1000000000000000000000;
  floor = 100000000000000000;
}

abbrev modules : SyncMap (FeeModule sdk)
modules = (codes "BSC", bsc_module) ∷ []

abbrev price : Text → Outcome ℕ
price denom = ok 1000000000000000000

process_demon_and_fee-Conserves_example :
    (item : Option OutboundTx) × (process_demon_and_fee sdk chains modules price
        (codes "00")
        (codes "f")
        (codes "0xa")
        (pos 3)
        (codes "r")
        (codes "ujolt")
        5000000
        (codes "BSC")
      ≡ ok item)
    × Conserves sdk chains (coin 5000000) (coin 100000) item
unfolding load text_eq calculate_fee
process_demon_and_fee-Conserves_example =
    process_demon_and_fee-Conserves sdk chains modules price (codes "00") (codes "f") (codes "0xa")
      (pos 3) (codes "r") (coin 5000000) (codes "BSC") bsc_module 1000000000000000000 (coin 100000)
      refl refl refl

abbrev memo : BridgeMemo
memo = record { dest = codes "r"; user_data = []; chain_type = codes "BSC" }

abbrev to_pool : MsgSend
to_pool = record { from_address = codes "f"; to_address = codes "p1"; amount = coin 5000000 ∷ [] }

abbrev to_other : MsgSend
to_other = record { from_address = codes "f"; to_address = codes "x"; amount = coin 5000000 ∷ [] }

other_p1 : codes "x" ≢ codes "p1"
unfolding text_eq
other_p1 e =
    let same = (text_eq_iff (codes "x") (codes "p1")).1 e in
    let differ : text_eq (codes "x") (codes "p1") ≡ false = refl in cc

other_p2 : codes "x" ≢ codes "p2"
unfolding text_eq
other_p2 e =
    let same = (text_eq_iff (codes "x") (codes "p2")).1 e in
    let differ : text_eq (codes "x") (codes "p2") ≡ false = refl in cc

process_msgs-skips_example :
    process_msgs sdk chains tokens modules price
      (pos 3)
      (codes "p1")
      (codes "p2")
      (codes "p2")
      memo
      (0 ∷ [])
      ((msg_send to_other, ok 0) ∷ (other_msg, ok 0) ∷ (msg_send to_pool, err other_fault) ∷ [])
      jolt_chain
    ≡ ok jolt_chain
process_msgs-skips_example =
    process_msgs-skips sdk chains tokens modules price (codes "p1") (codes "p2") (pos 3)
      (codes "p2") memo (0 ∷ [])
      ((msg_send to_other, ok 0) ∷ (other_msg, ok 0) ∷ (msg_send to_pool, err other_fault) ∷ [])
      jolt_chain (inr (inr (inr (codes "x", refl, other_p1, other_p2))), (tt, (tt, tt)))

process_msg-stores_example :
    (after : JoltChain) × (process_msg sdk chains tokens modules price
        (pos 3)
        (codes "p1")
        (codes "p2")
        (codes "p2")
        memo
        to_pool
        (0 ∷ [])
        jolt_chain
      ≡ ok after)
    × (load (codes "32") after.retry_outbound_req
        ≡ some (
            payment_req sdk chains
              (0 ∷ [])
              (pos 3)
              (codes "p2")
              memo
              (coin 5000000)
              token
              4900000
              (coin 100000)))
unfolding load text_eq to_lower encode_to_string out_index get_token_info_by_denom token_key
    calculate_fee decode_string new_outbound_req index_str format_int format_nat
process_msg-stores_example =
    process_msg-stores sdk chains tokens modules price (codes "p1") (codes "p2") (pos 3)
      (codes "p2") memo to_pool (coin 5000000) [] (0 ∷ []) jolt_chain token bsc_module
      1000000000000000000 (coin 100000) 4900000 (codes "p1") (codes "32") refl refl refl (inl refl)
      refl refl refl refl refl (omega arith) refl

abbrev tx_info : Erc20TxInfo
tx_info = record {
  receiver_addr = codes "r";
  to_addr = codes "p2";
  amount = 5;
  token_address = codes "0xA";
  dst_chain_type = codes "JOLTIFY";
  receiver_addr_erc20 = [];
}

process_in_bound_erc20-stores_example :
    (after : PubChain) × (process_in_bound_erc20 sdk chains tokens
        (encode_to_string (0 ∷ []))
        (codes "BSC")
        tx_info
        (pos 3)
        pub_chain
      ≡ ok after)
    × (load
          (in_index chains (erc20_request sdk tx_info token (0 ∷ []) (pos 3)))
          after.retry_inbound_req
        ≡ some (erc20_request sdk tx_info token (0 ∷ []) (pos 3)))
unfolding load text_eq to_lower get_token_info_by_address token_key
process_in_bound_erc20-stores_example =
    process_in_bound_erc20-stores sdk chains tokens (0 ∷ []) (codes "BSC") tx_info token (pos 3)
      pub_chain (omega arith, tt) refl

abbrev tx : Option Text → Transaction
tx to = record { hash = 0 ∷ []; to = to; input = []; value = 5 }

abbrev answers : BlockAnswers sdk chains
answers = record {
  decoders = record { oppy_transfer = none; unmarshal = λ input. err other_fault };
  contract_address = codes "c";
  fee_module = modules;
  dst = record { query_token_price = price; jolt_block_height = ok (pos 9) };
  check_each_tx = λ hash. ok 1;
}

abbrev eth_of : Option PoolInfo → Text
eth_of none = []
eth_of (some p) = p.eth_address

x-IsNoPool : IsNoPool sdk chains (codes "x") pub_chain
x-IsNoPool p (inl same) e = other_p1 (e ∙ ap eth_of (sym same))
x-IsNoPool p (inr same) e = other_p2 (e ∙ ap eth_of (sym same))

process_each_block-quiet_example :
    process_each_block sdk chains tokens answers
      (codes "BSC")
      (pos 3)
      (pos 3)
      (tx none ∷ tx (some (codes "x")) ∷ [])
      (pub_chain, jolt_chain)
    ≡ ok (pub_chain, jolt_chain)
unfolding text_eq to_lower check_erc20 check_to_bridge
process_each_block-quiet_example =
    process_each_block-quiet sdk chains tokens answers (codes "BSC") (pos 3) (pos 3)
      (tx none ∷ tx (some (codes "x")) ∷ []) pub_chain jolt_chain
      (
        inl refl,
        (inr (codes "x", refl, inr (inr (inl (not_our_contract, refl, refl, x-IsNoPool)))), tt),
      )

abbrev eth_token : TokenItem
eth_token = record {
  token_addr = codes "0xb";
  denom = codes "ujolt";
  decimals = 20;
  chain_type = codes "ETH";
}

abbrev both_tokens : TokenList
both_tokens = record tokens { oppy_token_list = (codes "ujolt:eth", eth_token) ∷ [] }

abbrev dst_info : Erc20TxInfo
dst_info = record {
  receiver_addr = [];
  to_addr = codes "p2";
  amount = 5000000;
  token_address = codes "0xA";
  dst_chain_type = codes "ETH";
  receiver_addr_erc20 = codes "r";
}

abbrev dst_answers : DstAnswers sdk chains
dst_answers = record { query_token_price = price; jolt_block_height = ok (pos 9) }

receiver_given : codes "r" ≢ zero_address sdk chains
unfolding text_eq
receiver_given e =
    let same = (text_eq_iff (codes "r") (zero_address sdk chains)).1 e in
    let differ : text_eq (codes "r") (zero_address sdk chains) ≡ false = refl in cc

process_dst_inbound-stores_example :
    (after : JoltChain) × (process_dst_inbound sdk chains both_tokens
        ((codes "ETH", bsc_module) ∷ [])
        dst_answers
        dst_info
        (codes "00")
        (codes "BSC")
        (pub_chain, jolt_chain)
      ≡ ok (pub_chain, after))
    × (load (codes "92") after.retry_outbound_req
        ≡ some (
            dst_req sdk chains dst_info
              (codes "00")
              token
              eth_token
              p2
              (pos 9)
              4900000
              (coin 100000)))
unfolding load text_eq to_lower out_index get_token_info_by_address get_token_info_by_denom
    token_key calculate_fee decode_string new_outbound_req index_str format_int format_nat
    inbound_adjust adjust
process_dst_inbound-stores_example =
    process_dst_inbound-stores sdk chains both_tokens ((codes "ETH", bsc_module) ∷ []) dst_answers
      dst_info (codes "00") (codes "BSC") pub_chain jolt_chain token eth_token 1000000000000000000
      bsc_module p2 (pos 9) (codes "92") 4900000 (coin 100000) refl refl refl refl receiver_given
      refl refl refl refl (omega arith) refl
