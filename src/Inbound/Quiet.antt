-- ===== src/Inbound/Quiet.antt =====
-- Which transactions of a block become deposits.
use joltifychain_bridge.Base.{
  ℕ, ◌≡◌, ◌≢◌, ◌⊎◌, refl, true, false, text_eq, text_eq_iff, text_neq, Option-cases, Bool-cases,
  Option, none, some, List, [], ◌∷◌, Text, to_lower, ◌==◌, ℤ, All, arith, inl, inr,
}
use joltifychain_bridge.Base.SyncMap.{load}
use joltifychain_bridge.Base.SyncMap.Laws.{load-store_self}
use joltifychain_bridge.Base.Outcome.{ok, err, Fault}
use joltifychain_bridge.Common.Libraries.{Sdk, Chains}
use joltifychain_bridge.Common.Types.{InBoundReq, PoolInfo}
use joltifychain_bridge.Common.Hex.{encode_to_string, IsByte, decode-encode}
use joltifychain_bridge.Common.Decimals.{inbound_adjust, precision}
use joltifychain_bridge.Common.Requests.{new_account_inbound_req, in_index}
use joltifychain_bridge.TokenList.{TokenItem, TokenList, get_token_info_by_address}
use joltifychain_bridge.Queue.Inbound.{add_in_bound_item}
use joltifychain_bridge.State.{PubChain, JoltChain}
use joltifychain_bridge.Pools.{check_to_bridge, among_pools}
use joltifychain_bridge.Inbound.Erc20.{
  joltify, bsc, eth, Erc20TxInfo, check_erc20, listed_inbound, process_inbound_erc20_tx,
  process_in_bound_erc20,
}
use joltifychain_bridge.Inbound.Blocks.{
  Transaction, BlockAnswers, process_native, process_token, process_deposit, process_call,
  process_receipt, process_tx, process_each_block,
}

-- the request of a deposit through the contract
abbrev pub erc20_request : (sdk : Sdk) → Erc20TxInfo → TokenItem → Text → ℤ → InBoundReq
erc20_request sdk tx_info token_item hash height =
    new_account_inbound_req tx_info.receiver_addr tx_info.token_address
      (record {
        denom = token_item.denom;
        amount = inbound_adjust sdk tx_info.amount token_item.decimals precision;
      })
      hash height

module _ (sdk : Sdk) (chains : Chains) where
  -- A deposit of a listed token through the contract is stored under the index of its request, which
  -- carries the hash of the transaction and the amount in 18 decimals, and the address of the token
  -- where that of the pool belongs.
  pub process_in_bound_erc20-stores :
      (tl : TokenList) (hash chain_type : Text) (tx_info : Erc20TxInfo) (token_item : TokenItem)
      (height : ℤ) (pi : PubChain)
      → All IsByte hash
      → get_token_info_by_address
          (to_lower (chains.address_hex tx_info.token_address))
          chain_type
          tl
        ≡ some token_item
      → (after : PubChain) × (process_in_bound_erc20 sdk chains tl
            (encode_to_string hash)
            chain_type
            tx_info
            height
            pi
          ≡ ok after)
        × (load
              (in_index chains (erc20_request sdk tx_info token_item hash height))
              after.retry_inbound_req
            ≡ some (erc20_request sdk tx_info token_item hash height))
  unfolding process_in_bound_erc20 process_inbound_erc20_tx listed_inbound add_in_bound_item
  process_in_bound_erc20-stores tl hash chain_type tx_info token_item height pi bytes e_token = (
    add_in_bound_item chains (erc20_request sdk tx_info token_item hash height) pi,
    rw (e_token, listed_inbound, decode-encode hash bytes) refl,
    load-store_self _ _ pi.retry_inbound_req,
  )

  -- An address that is not that of a pool.
  abbrev pub IsNoPool : Text → PubChain → Type 0
  IsNoPool to pi =
      (p : PoolInfo)
      → (pi.pool0 ≡ some p) ⊎ (pi.pool1 ≡ some p)
      → chains.address_hex to ≢ chains.address_hex p.eth_address

  -- A call of the bridge contract that deposits nothing: of a token that is not listed, to no pool,
  -- for the chain that it comes from, or for an unknown chain.
  abbrev pub CallsWithoutDeposit : TokenList → Text → PubChain → Erc20TxInfo → Type 0
  CallsWithoutDeposit tl chain_type pi tx_info =
      (get_token_info_by_address (chains.address_hex tx_info.token_address) chain_type tl ≡ none)
      ⊎ (IsNoPool tx_info.to_addr pi
          ⊎ ((tx_info.dst_chain_type ≡ chain_type)
              ⊎ ((tx_info.dst_chain_type ≢ eth)
                  × (tx_info.dst_chain_type ≢ bsc)
                  × (tx_info.dst_chain_type ≢ joltify))))

  -- A transaction that makes no deposit: it creates a contract, or has no receipt of success, or is a
  -- call of the bridge contract without a deposit, or is no such call and pays no pool.
  abbrev pub NoDeposit :
      TokenList → BlockAnswers sdk chains → Text → PubChain → Transaction → Type 0
  NoDeposit tl answers chain_type pi tx =
      (tx.to ≡ none)
      ⊎ ((to : Text) × (tx.to ≡ some to)
          × (((status : ℕ) × (answers.check_each_tx tx.hash ≡ ok status) × (status ≢ 1))
              ⊎ (((e : Fault) × (answers.check_each_tx tx.hash ≡ err e))
                  ⊎ (((e : Fault) × (answers.check_each_tx tx.hash ≡ ok 1)
                        × (check_erc20 sdk chains answers.decoders tx.input (chains.address_hex to)
                              answers.contract_address
                            ≡ err e)
                        × IsNoPool to pi)
                      ⊎ ((tx_info : Erc20TxInfo) × (answers.check_each_tx tx.hash ≡ ok 1)
                          × (check_erc20 sdk chains answers.decoders tx.input
                                (chains.address_hex to) answers.contract_address
                              ≡ ok tx_info)
                          × CallsWithoutDeposit tl chain_type pi tx_info)))))

  check_to_bridge-no_pool :
      (to : Text) (pi : PubChain) → IsNoPool to pi → check_to_bridge chains to pi ≡ false
  unfolding check_to_bridge among_pools
  check_to_bridge-no_pool to pi h = both pi.pool0 pi.pool1 (λ p e. h p (inl e)) (λ p e. h p (inr e))
    where
      both :
          (a b : Option PoolInfo)
          → ((p : PoolInfo) → a ≡ some p → chains.address_hex to ≢ chains.address_hex p.eth_address)
          → ((p : PoolInfo) → b ≡ some p → chains.address_hex to ≢ chains.address_hex p.eth_address)
          → among_pools chains to (a ∷ b ∷ []) ≡ false
      both none none f g = refl
      both none (some b) f g = rw (text_neq _ _ (g b refl)) refl
      both (some a) none f g = rw (text_neq _ _ (f a refl)) refl
      both (some a) (some b) f g = rw (text_neq _ _ (f a refl), text_neq _ _ (g b refl)) refl

  -- a listed token whose call deposits nothing
  process_token-quiet :
      (tl : TokenList) (answers : BlockAnswers sdk chains) (chain_type : Text)
      (height block_number : ℤ) (tx : Transaction) (to : Text) (tx_info : Erc20TxInfo)
      (pi : PubChain) (jc : JoltChain)
      → CallsWithoutDeposit tl chain_type pi tx_info
      → process_token sdk chains tl answers chain_type height block_number tx to tx_info (pi, jc)
        ≡ ok (pi, jc)
  unfolding process_token process_deposit
  process_token-quiet tl answers chain_type height block_number tx to tx_info pi jc h =
      elim (Option-cases
        (get_token_info_by_address (chains.address_hex tx_info.token_address) chain_type tl)) [
          | inl unlisted ↦ rw (unlisted, process_token) refl
          | inr (item, listed) ↦ elim (Bool-cases (check_to_bridge chains tx_info.to_addr pi)) [
            | inr elsewhere ↦ rw (listed, process_token, elsewhere) refl
            | inl to_pool ↦ elim (Bool-cases (text_eq tx_info.dst_chain_type chain_type)) [
              | inl same ↦ rw (listed, process_token, to_pool, same) refl
              | inr other ↦
                  rw (listed, process_token, to_pool, other) (unknown item listed to_pool other h)
            ]
          ]
        ]
    where
      unknown :
          (item : TokenItem)
          → get_token_info_by_address (chains.address_hex tx_info.token_address) chain_type tl
            ≡ some item
          → check_to_bridge chains tx_info.to_addr pi ≡ true
          → text_eq tx_info.dst_chain_type chain_type ≡ false
          → CallsWithoutDeposit tl chain_type pi tx_info
          → process_deposit sdk chains tl answers chain_type height block_number tx to tx_info
              (pi, jc)
            ≡ ok (pi, jc)
      unknown item listed to_pool other (inl unlisted) = absurd (cc (listed, unlisted))
      unknown item listed to_pool other (inr (inl no_pool)) =
          absurd (cc (to_pool, check_to_bridge-no_pool tx_info.to_addr pi no_pool))
      unknown item listed to_pool other (inr (inr (inl same))) =
          let equal = (text_eq_iff tx_info.dst_chain_type chain_type).1 same in
          absurd (cc (equal, other))
      unknown item listed to_pool other (inr (inr (inr (n0, n1, n2)))) =
          rw (text_neq _ _ n0, text_neq _ _ n1, text_neq _ _ n2) refl

  status_test : (status : ℕ) → status ≢ 1 → (status == 1) ≡ false
  status_test status failed = ground (arith, failed)

  process_tx-quiet :
      (tl : TokenList) (answers : BlockAnswers sdk chains) (chain_type : Text)
      (height block_number : ℤ) (tx : Transaction) (pi : PubChain) (jc : JoltChain)
      → NoDeposit tl answers chain_type pi tx
      → process_tx sdk chains tl answers chain_type height block_number tx tx.to (pi, jc)
        ≡ ok (pi, jc)
  unfolding process_tx process_receipt process_call process_native
  process_tx-quiet tl answers chain_type height block_number tx pi jc (inl creates) =
      rw creates refl
  process_tx-quiet tl answers chain_type height block_number tx pi jc
        (inr (to, e_to, inl (status, e, failed))) =
      rw (e_to, process_tx, e, status_test status failed) refl
  process_tx-quiet tl answers chain_type height block_number tx pi jc
        (inr (to, e_to, inr (inl (e, missing)))) =
      rw (e_to, process_tx, missing) refl
  process_tx-quiet tl answers chain_type height block_number tx pi jc
        (inr (to, e_to, inr (inr (inl (e, e_status, e_check, no_pool))))) =
      rw
        (
          e_to,
          process_tx,
          e_status,
          process_receipt,
          e_check,
          process_call,
          process_native,
          check_to_bridge-no_pool to pi no_pool,
        )
        refl
  process_tx-quiet tl answers chain_type height block_number tx pi jc
        (inr (to, e_to, inr (inr (inr (tx_info, e_status, e_check, without))))) =
      rw (e_to, process_tx, e_status, process_receipt, e_check)
        (process_token-quiet tl answers chain_type height block_number tx to tx_info pi jc without)

  -- A block each of whose transactions deposits nothing changes neither half of the bridge: one that
  -- creates a contract, one whose receipt is missing or not of success, one that is no call of the
  -- bridge contract and whose receiver is no pool, and a call of the contract for a token that is not
  -- listed, for an address that is no pool, for the chain that it comes from or for an unknown chain.
  pub process_each_block-quiet :
      (tl : TokenList) (answers : BlockAnswers sdk chains) (chain_type : Text)
      (height block_number : ℤ) (txs : List Transaction) (pi : PubChain) (jc : JoltChain)
      → All (NoDeposit tl answers chain_type pi) txs
      → process_each_block sdk chains tl answers chain_type height block_number txs (pi, jc)
        ≡ ok (pi, jc)
  unfolding process_each_block
  process_each_block-quiet tl answers chain_type height block_number [] pi jc h = refl
  process_each_block-quiet tl answers chain_type height block_number (tx ∷ txs) pi jc h =
      rw (process_tx-quiet tl answers chain_type height block_number tx pi jc h.0)
        (process_each_block-quiet tl answers chain_type height block_number txs pi jc h.1)
