-- ===== src/Inbound/Blocks.antt =====
-- The transactions of a block: processJoltifyInbound, processEachBlock and ProcessNewBlock.
use joltifychain_bridge.Base.{
  ℕ, Option, none, some, List, [], ◌∷◌, Text, codes, text_eq, ◌==◌, ◌||◌, ℤ, if◌then◌else◌,
}
use joltifychain_bridge.Base.SyncMap.{SyncMap}
use joltifychain_bridge.Base.Outcome.{Outcome, ok, err, panic, ◌>>=◌}
use joltifychain_bridge.Common.Libraries.{Sdk, Chains}
use joltifychain_bridge.Common.Types.{BridgeMemo}
use joltifychain_bridge.Common.Hex.{encode_to_string}
use joltifychain_bridge.Common.Fee.{FeeModule}
use joltifychain_bridge.Common.Decimals.{inbound_adjust, precision}
use joltifychain_bridge.Common.Requests.{new_account_inbound_req}
use joltifychain_bridge.TokenList.{TokenList, get_token_info_by_address}
use joltifychain_bridge.Queue.Inbound.{add_in_bound_item}
use joltifychain_bridge.State.{PubChain}
use joltifychain_bridge.Pools.{check_to_bridge}
use joltifychain_bridge.Inbound.Erc20.{
  joltify, bsc, eth, Erc20TxInfo, Decoders, Halves, DstAnswers, check_erc20, process_in_bound_erc20,
  process_dst_inbound,
}

-- ethTypes.Transaction; a transaction that creates a contract has no address
pub record Transaction : Type 0 where
  pub hash : Text
  pub to : Option Text
  pub input : Text
  pub value : ℕ

module _ (sdk : Sdk) (chains : Chains) where
  open chains use {address_hex, acc_address_from_bech32}

  -- What a block's transactions take from their surroundings.
  pub record BlockAnswers : Type 0 where
    pub decoders : Decoders
    pub contract_address : Text
    pub fee_module : SyncMap (FeeModule sdk)
    pub dst : DstAnswers sdk chains
    -- the status of a transaction's receipt
    pub check_each_tx : Text → Outcome ℕ

  -- processJoltifyInbound; the value of a transaction is never negative
  unfoldable pub process_joltify_inbound :
      TokenList → BridgeMemo → Text → Transaction → Text → ℤ → PubChain → Outcome PubChain
  process_joltify_inbound tl memo_info chain_type tx to tx_block_height pi =
      elim (acc_address_from_bech32 memo_info.dest) [
        | none ↦ ok pi
        | some dst_addr ↦ elim (get_token_info_by_address (codes "native") chain_type tl) [
          | none ↦ panic
          | some token_item ↦ ok (
              add_in_bound_item chains
                (new_account_inbound_req dst_addr to
                  (record {
                    denom = token_item.denom;
                    amount = inbound_adjust sdk tx.value token_item.decimals precision;
                  })
                  tx.hash tx_block_height)
                pi)
        ]
      ]

  -- a transfer of the native token to a pool
  unfoldable pub process_native :
      TokenList → BlockAnswers → Text → ℤ → Transaction → Text → Halves → Outcome Halves
  unfolding process_joltify_inbound
  process_native tl answers chain_type height tx to (pi, jc) =
      if check_to_bridge chains to pi
      then (elim (answers.decoders.unmarshal tx.input) [
        | err e ↦ ok (pi, jc)
        | panic ↦ panic
        | ok memo_info ↦
            (if text_eq memo_info.chain_type joltify
              then (do
                after ← process_joltify_inbound tl memo_info chain_type tx to height pi
                ok (after, jc))
              else ok (pi, jc))
      ])
      else ok (pi, jc)

  -- the end of a token's deposit: after an error the loop goes on with the next transaction, and
  -- otherwise the recipient of the transaction is looked at as well
  unfoldable pub then_native :
      TokenList
      → BlockAnswers
      → Text
      → ℤ
      → Transaction
      → Text
      → Halves
      → Outcome Halves
      → Outcome Halves
  unfolding process_native
  then_native tl answers chain_type height tx to before (ok after) =
      process_native tl answers chain_type height tx to after
  then_native tl answers chain_type height tx to before (err e) = ok before
  then_native tl answers chain_type height tx to before panic = panic

  -- the switch on the destination of a token's deposit
  unfoldable pub process_deposit :
      TokenList
      → BlockAnswers
      → Text
      → ℤ
      → ℤ
      → Transaction
      → Text
      → Erc20TxInfo
      → Halves
      → Outcome Halves
  unfolding then_native
  process_deposit tl answers chain_type height block_number tx to tx_info (pi, jc) =
      if text_eq tx_info.dst_chain_type eth || text_eq tx_info.dst_chain_type bsc
      then then_native tl answers chain_type height tx to (pi, jc)
          (process_dst_inbound sdk chains tl answers.fee_module answers.dst tx_info
            (encode_to_string tx.hash) chain_type (pi, jc))
      else (if text_eq tx_info.dst_chain_type joltify
          then then_native tl answers chain_type height tx to (pi, jc)
              (do
                after ←
                    process_in_bound_erc20 sdk chains tl (encode_to_string tx.hash) chain_type
                      tx_info block_number pi
                ok (after, jc))
          else ok (pi, jc))

  -- a token's deposit: of a listed token, to a pool, for another chain
  unfoldable pub process_token :
      TokenList
      → BlockAnswers
      → Text
      → ℤ
      → ℤ
      → Transaction
      → Text
      → Erc20TxInfo
      → Halves
      → Outcome Halves
  unfolding process_deposit
  process_token tl answers chain_type height block_number tx to tx_info (pi, jc) =
      elim (get_token_info_by_address (address_hex tx_info.token_address) chain_type tl) [
        | none ↦ ok (pi, jc)
        | some item ↦
            (if check_to_bridge chains tx_info.to_addr pi
              then (if text_eq tx_info.dst_chain_type chain_type
                  then ok (pi, jc)
                  else process_deposit tl answers chain_type height block_number tx to tx_info
                      (pi, jc))
              else ok (pi, jc))
      ]

  -- a call of the contract, or what is not one
  unfoldable pub process_call :
      TokenList
      → BlockAnswers
      → Text
      → ℤ
      → ℤ
      → Transaction
      → Text
      → Outcome Erc20TxInfo
      → Halves
      → Outcome Halves
  unfolding process_token process_native
  process_call tl answers chain_type height block_number tx to (ok tx_info) halves =
      process_token tl answers chain_type height block_number tx to tx_info halves
  process_call tl answers chain_type height block_number tx to (err e) halves =
      process_native tl answers chain_type height tx to halves
  process_call tl answers chain_type height block_number tx to panic halves = panic

  -- one transaction with a recipient and its receipt
  unfoldable pub process_receipt :
      TokenList
      → BlockAnswers
      → Text
      → ℤ
      → ℤ
      → Transaction
      → Text
      → Outcome ℕ
      → Halves
      → Outcome Halves
  unfolding process_call
  process_receipt tl answers chain_type height block_number tx to (ok status) halves =
      if status == 1
      then process_call tl answers chain_type height block_number tx to
          (check_erc20 sdk chains answers.decoders tx.input (address_hex to)
            answers.contract_address)
          halves
      else ok halves
  process_receipt tl answers chain_type height block_number tx to (err e) halves = ok halves
  process_receipt tl answers chain_type height block_number tx to panic halves = panic

  -- one transaction
  unfoldable pub process_tx :
      TokenList → BlockAnswers → Text → ℤ → ℤ → Transaction → Option Text → Halves → Outcome Halves
  unfolding process_receipt
  process_tx tl answers chain_type height block_number tx none halves = ok halves
  process_tx tl answers chain_type height block_number tx (some to) halves =
      process_receipt tl answers chain_type height block_number tx to
        (answers.check_each_tx tx.hash) halves

  -- processEachBlock
  unfoldable pub process_each_block :
      TokenList → BlockAnswers → Text → ℤ → ℤ → List Transaction → Halves → Outcome Halves
  unfolding process_tx
  process_each_block tl answers chain_type height block_number [] halves = ok halves
  process_each_block tl answers chain_type height block_number (tx ∷ txs) halves = do
    after ← process_tx tl answers chain_type height block_number tx tx.to halves
    process_each_block tl answers chain_type height block_number txs after

  -- ProcessNewBlock, of the answer to GetBlockByNumberWithLock
  unfoldable pub process_new_block :
      TokenList → BlockAnswers → Text → ℤ → Outcome (List Transaction) → Halves → Outcome Halves
  unfolding process_each_block
  process_new_block tl answers chain_type number block halves = do
    txs ← block
    process_each_block tl answers chain_type number number txs halves
