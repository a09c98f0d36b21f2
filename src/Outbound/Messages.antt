-- ===== src/Outbound/Messages.antt =====
-- The messages of a block of the joltify chain: processMsg of cosbridge/tx_outbound.go and
-- CheckOutBoundTx of cosbridge/bridge.go.
use joltifychain_bridge.Base.{
  ℕ, ◌||◌, Option, none, some, List, [], ◌∷◌, Text, text_eq, to_lower, ℤ, ◌==◌, if◌then◌else◌,
}
use joltifychain_bridge.Base.SyncMap.{SyncMap}
use joltifychain_bridge.Base.Outcome.{
  Outcome, ok, err, panic, ◌>>=◌, zero_amount, not_a_top_up, bad_address,
}
use joltifychain_bridge.Common.Libraries.{Sdk, Chains}
use joltifychain_bridge.Common.Types.{PoolInfo, BridgeMemo}
use joltifychain_bridge.Common.Hex.{encode_to_string}
use joltifychain_bridge.Common.Fee.{FeeModule}
use joltifychain_bridge.TokenList.{TokenList}
use joltifychain_bridge.State.{JoltChain}
use joltifychain_bridge.Outbound.{
  Msg, msg_send, other_msg, MsgSend, TxWithMemo, process_outbound_request,
}

module _ (sdk : Sdk) (chains : Chains) where
  open sdk use {SdkDec, coins_is_zero}
  open chains use {is_hex_address, acc_address_from_bech32}

  -- processMsg, with the two pool addresses and the hash of the transaction
  unfoldable pub process_msg :
      TokenList
      → SyncMap (FeeModule sdk)
      → (Text → Outcome SdkDec)
      → ℤ
      → Text
      → Text
      → Text
      → BridgeMemo
      → MsgSend
      → Text
      → JoltChain
      → Outcome JoltChain
  unfolding process_outbound_request
  process_msg tl modules query_token_price tx_block_height address0 address1 cur_eth_addr memo msg
        tx_hash jc =
      if coins_is_zero msg.amount
      then err zero_amount
      else (elim (acc_address_from_bech32 msg.to_address) [
        | none ↦ err bad_address
        | some to_address ↦
            (if text_eq to_address address0 || text_eq to_address address1
              then process_outbound_request sdk chains tl modules query_token_price msg
                  (to_lower (encode_to_string tx_hash)) tx_block_height cur_eth_addr memo jc
              else err not_a_top_up)
      ])

  -- an error of one message is only logged
  abbrev pub or_unchanged : JoltChain → Outcome JoltChain → Outcome JoltChain
  or_unchanged jc (ok after) = ok after
  or_unchanged jc (err e) = ok jc
  or_unchanged jc panic = panic

  -- the loop over the messages, with the code that GetTx answers for each
  unfoldable pub process_msgs :
      TokenList
      → SyncMap (FeeModule sdk)
      → (Text → Outcome SdkDec)
      → ℤ
      → Text
      → Text
      → Text
      → BridgeMemo
      → Text
      → List (Msg × Outcome ℕ)
      → JoltChain
      → Outcome JoltChain
  unfolding process_msg
  process_msgs tl modules query_token_price height address0 address1 eth memo tx_hash [] jc = ok jc
  process_msgs tl modules query_token_price height address0 address1 eth memo tx_hash
        ((msg_send msg, ok code) ∷ msgs) jc =
      do
        after ←
            (if code == 0
              then or_unchanged jc (
                  process_msg tl modules query_token_price height address0 address1 eth memo msg
                    tx_hash jc)
              else ok jc)
        process_msgs tl modules query_token_price height address0 address1 eth memo tx_hash msgs
            after
  process_msgs tl modules query_token_price height address0 address1 eth memo tx_hash
        ((msg_send msg, err e) ∷ msgs) jc =
      process_msgs tl modules query_token_price height address0 address1 eth memo tx_hash msgs jc
  process_msgs tl modules query_token_price height address0 address1 eth memo tx_hash
        ((msg_send msg, panic) ∷ msgs) jc =
      panic
  process_msgs tl modules query_token_price height address0 address1 eth memo tx_hash
        ((other_msg, code) ∷ msgs) jc =
      process_msgs tl modules query_token_price height address0 address1 eth memo tx_hash msgs jc

  -- the messages of a transaction with the code of the transaction
  abbrev pub with_code : Outcome ℕ → List Msg → List (Msg × Outcome ℕ)
  with_code code [] = []
  with_code code (msg ∷ msgs) = (msg, code) ∷ with_code code msgs

  -- a transaction whose memo names an address of the other chain
  unfoldable pub check_memo :
      TokenList
      → SyncMap (FeeModule sdk)
      → (Text → Outcome SdkDec)
      → ℤ
      → PoolInfo
      → PoolInfo
      → Text
      → Outcome ℕ
      → TxWithMemo
      → JoltChain
      → Outcome JoltChain
  unfolding process_msgs
  check_memo tl modules query_token_price height p0 p1 tx_hash code tx jc = elim tx.memo [
    | ok memo ↦
        (if is_hex_address memo.dest
          then process_msgs tl modules query_token_price height p0.cos_address p1.cos_address
              p1.eth_address memo tx_hash (with_code code tx.msgs) jc
          else ok jc)
    | err e ↦ ok jc
    | panic ↦ panic
  ]

  -- CheckOutBoundTx: the transaction as it is decoded, none where it has no memo
  unfoldable pub check_outbound_tx :
      TokenList
      → SyncMap (FeeModule sdk)
      → (Text → Outcome SdkDec)
      → ℤ
      → Text
      → Outcome ℕ
      → Option TxWithMemo
      → JoltChain
      → Outcome JoltChain
  unfolding check_memo
  check_outbound_tx tl modules query_token_price height tx_hash code tx jc = elim jc.pool0 [
    | none ↦ ok jc
    | some p0 ↦ elim jc.pool1 [
      | none ↦ ok jc
      | some p1 ↦ elim tx [
        | none ↦ ok jc
        | some decoded ↦
            check_memo tl modules query_token_price height p0 p1 tx_hash code decoded jc
      ]
    ]
  ]
