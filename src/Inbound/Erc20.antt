-- ===== src/Inbound/Erc20.antt =====
-- The deposits of tokens through the bridge contract: checkErc20, ProcessInBoundERC20,
-- processInboundERC20Tx and processDstInbound.
use joltifychain_bridge.Base.{
  ℕ, true, ◌||◌, Option, none, some, [], ◌∷◌, Text, codes, text_eq, to_lower, replicate, ℤ,
  if◌then◌else◌,
}
use joltifychain_bridge.Base.SyncMap.{SyncMap, load}
use joltifychain_bridge.Base.Outcome.{
  Outcome, ok, err, panic, ◌>>=◌, token_not_listed, not_our_contract, invalid_data, bad_address,
  unknown_chain_type, no_token_price, cannot_find_token,
}
use joltifychain_bridge.Common.Libraries.{Sdk, Chains}
use joltifychain_bridge.Common.Types.{Coin, BridgeMemo}
use joltifychain_bridge.Common.Hex.{decode_string}
use joltifychain_bridge.Common.Fee.{FeeModule, calculate_fee}
use joltifychain_bridge.Common.Decimals.{inbound_adjust, outbound_adjust, precision}
use joltifychain_bridge.Common.Requests.{new_outbound_req, new_account_inbound_req}
use joltifychain_bridge.TokenList.{
  TokenItem, TokenList, get_token_info_by_denom, get_token_info_by_address,
}
use joltifychain_bridge.Queue.Inbound.{add_in_bound_item}
use joltifychain_bridge.Queue.Outbound.{add_item}
use joltifychain_bridge.State.{JoltChain, PubChain}

-- JOLTIFY, BSC and ETH of pubchain/types.go
abbrev pub joltify : Text
joltify = codes "JOLTIFY"

abbrev pub bsc : Text
bsc = codes "BSC"

abbrev pub eth : Text
eth = codes "ETH"

-- Erc20TxInfo
pub record Erc20TxInfo : Type 0 where
  pub receiver_addr : Text
  pub to_addr : Text
  pub amount : ℕ
  pub token_address : Text
  pub dst_chain_type : Text
  pub receiver_addr_erc20 : Text

-- the four parameters of oppyTransfer, as the ABI unpacks them
pub record TransferParams : Type 0 where
  pub to_addr : Text
  pub amount : ℕ
  pub token_address : Text
  pub memo : Text

-- the decoders: the method of the ABI, where it is there, and json.Unmarshal into a BridgeMemo
pub record Decoders : Type 0 where
  pub oppy_transfer : Option (Text → Outcome TransferParams)
  pub unmarshal : Text → Outcome BridgeMemo

-- the two halves of the bridge: outbound requests go to the retry pool that they share
abbrev pub Halves : Type 0
Halves = PubChain × JoltChain

-- the first four bytes name the method
unfoldable pub arguments : Text → Option Text
arguments (a ∷ b ∷ c ∷ d ∷ rest) = some rest
arguments (a ∷ b ∷ c ∷ []) = none
arguments (a ∷ b ∷ []) = none
arguments (a ∷ []) = none
arguments [] = none

module _ (sdk : Sdk) (chains : Chains) where
  open sdk use {SdkDec, int_lt, int_sub, int_equal}
  open chains use {hex_to_address, address_hex, acc_address_from_bech32}

  -- the destination of a memo, on the joltify chain or on a public one
  unfoldable pub erc20_destination : TransferParams → BridgeMemo → Outcome Erc20TxInfo
  erc20_destination params memo =
      let info : Text → Text → Erc20TxInfo = λ dst_addr dst_addr_erc20. record {
        receiver_addr = dst_addr;
        to_addr = params.to_addr;
        amount = params.amount;
        token_address = params.token_address;
        dst_chain_type = memo.chain_type;
        receiver_addr_erc20 = dst_addr_erc20;
      } in
      if text_eq memo.chain_type joltify
      then (elim (acc_address_from_bech32 memo.dest) [
        | none ↦ err bad_address
        | some dst_addr ↦ ok (info dst_addr [])
      ])
      else (if text_eq memo.chain_type bsc || text_eq memo.chain_type eth
          then ok (info [] memo.dest)
          else err unknown_chain_type)

  -- the call data of oppyTransfer
  unfoldable pub erc20_call : Decoders → Text → Outcome Erc20TxInfo
  unfolding erc20_destination
  erc20_call decoders input = elim decoders.oppy_transfer [
    | none ↦ err invalid_data
    | some unpack ↦ elim (arguments input) [
      | none ↦ err invalid_data
      | some args ↦ (do
        params ← unpack args
        memo ← decoders.unmarshal params.memo
        erc20_destination params memo)
    ]
  ]

  -- checkErc20; `strings.EqualFold` of two hexadecimal addresses compares them in lower case
  unfoldable pub check_erc20 : Decoders → Text → Text → Text → Outcome Erc20TxInfo
  unfolding erc20_call
  check_erc20 decoders input to contract_address =
      if text_eq (to_lower to) (to_lower contract_address)
      then erc20_call decoders input
      else err not_our_contract

  -- the deposit of a listed token
  unfoldable pub listed_inbound :
      Text → ℤ → Text → Text → ℕ → Option TokenItem → PubChain → Outcome PubChain
  listed_inbound tx_id tx_block_height receiver_addr to value none pi = err token_not_listed
  listed_inbound tx_id tx_block_height receiver_addr to value (some token_item) pi =
      elim (decode_string tx_id) [
        | none ↦ ok pi
        | some tx_id_bytes ↦ ok (
            add_in_bound_item chains
              (new_account_inbound_req receiver_addr to
                (record {
                  denom = token_item.denom;
                  amount = inbound_adjust sdk value token_item.decimals precision;
                })
                tx_id_bytes tx_block_height)
              pi)
      ]

  -- processInboundERC20Tx
  unfoldable pub process_inbound_erc20_tx :
      TokenList → Text → Text → ℤ → Text → Text → ℕ → Text → PubChain → Outcome PubChain
  unfolding listed_inbound
  process_inbound_erc20_tx tl tx_id chain_type tx_block_height receiver_addr to value addr pi =
      listed_inbound tx_id tx_block_height receiver_addr to value
        (get_token_info_by_address (to_lower (address_hex addr)) chain_type tl) pi

  -- ProcessInBoundERC20: the address of the token stands for that of the pool
  unfoldable pub process_in_bound_erc20 :
      TokenList → Text → Text → Erc20TxInfo → ℤ → PubChain → Outcome PubChain
  unfolding process_inbound_erc20_tx
  process_in_bound_erc20 tl tx_id chain_type tx_info tx_block_height pi =
      process_inbound_erc20_tx tl tx_id chain_type tx_block_height tx_info.receiver_addr
        tx_info.token_address tx_info.amount tx_info.token_address pi

  -- The answers that a transfer between two public chains takes.
  pub record DstAnswers : Type 0 where
    pub query_token_price : Text → Outcome SdkDec
    pub jolt_block_height : Outcome ℤ

  -- the zero address
  abbrev pub zero_address : Text
  zero_address = replicate 20 0

  -- the end of processDstInbound: the request, with what is left after the fee
  unfoldable pub dst_request :
      TokenList → DstAnswers → Erc20TxInfo → Text → Coin → Coin → Halves → Outcome Halves
  dst_request tl answers tx_info tx_hash token fee (pi, jc) =
      elim (get_token_info_by_denom token.denom tx_info.dst_chain_type tl) [
        | none ↦ err cannot_find_token
        | some token_out_item ↦
            (let receiver = hex_to_address tx_info.receiver_addr_erc20 in
              if text_eq receiver zero_address then ok (pi, jc) else (elim pi.pool1 [
                | none ↦ panic
                | some current ↦ elim answers.jolt_block_height [
                  | err e ↦ err no_token_price
                  | panic ↦ panic
                  | ok jolt_height ↦ (do
                    after ←
                        add_item chains
                          (new_outbound_req tx_hash receiver current.eth_address
                            (record {
                              denom = token.denom;
                              amount =
                                  outbound_adjust sdk (int_sub token.amount fee.amount)
                                    token_out_item.decimals precision;
                            })
                            token_out_item.token_addr jolt_height (fee ∷ []) tx_info.dst_chain_type
                            true)
                          jc
                    ok (pi, after))
                ]
              ]))
      ]

  -- the fee of processDstInbound
  unfoldable pub dst_fee :
      TokenList
      → SyncMap (FeeModule sdk)
      → DstAnswers
      → Erc20TxInfo
      → Text
      → Coin
      → Halves
      → Outcome Halves
  unfolding dst_request
  dst_fee tl fee_module answers tx_info tx_hash token halves =
      elim (answers.query_token_price token.denom) [
        | err e ↦ err no_token_price
        | panic ↦ panic
        | ok price ↦ elim (load tx_info.dst_chain_type fee_module) [
          | none ↦ panic
          | some this_fee_module ↦
              (calculate_fee sdk this_fee_module price token >>= λ fee.
              if int_lt token.amount fee.amount || int_equal token.amount fee.amount
              then ok halves
              else dst_request tl answers tx_info tx_hash token fee halves)
        ]
      ]

  -- processDstInbound
  unfoldable pub process_dst_inbound :
      TokenList
      → SyncMap (FeeModule sdk)
      → DstAnswers
      → Erc20TxInfo
      → Text
      → Text
      → Halves
      → Outcome Halves
  unfolding dst_fee
  process_dst_inbound tl fee_module answers tx_info tx_hash chain_type halves =
      elim (get_token_info_by_address (to_lower (address_hex tx_info.token_address)) chain_type
        tl) [
          | none ↦ err token_not_listed
          | some token_in_item ↦
              dst_fee tl fee_module answers tx_info tx_hash
                (record {
                  denom = token_in_item.denom;
                  amount = inbound_adjust sdk tx_info.amount token_in_item.decimals precision;
                })
                halves
        ]
