-- ===== src/Outbound/Amounts.antt =====
-- What a transfer out of the joltify chain takes as its fee, and what it leaves.
use joltifychain_bridge.Base.{
  ℕ, ◌+◌, ◌≤◌, ◌<◌, ◌≡◌, refl, true, false, not, ◌||◌, Option, none, some, Text, ℤ, arith,
  Bool-cases, inl, inr,
}
use joltifychain_bridge.Base.SyncMap.{SyncMap, load}
use joltifychain_bridge.Base.Outcome.{Outcome, ok}
use joltifychain_bridge.Common.Libraries.{Sdk, Chains}
use joltifychain_bridge.Common.Types.{Coin}
use joltifychain_bridge.Common.Fee.{FeeModule, calculate_fee}
use joltifychain_bridge.Outbound.{OutboundTx, process_demon_and_fee, covers_fee, net_of_fee}

module _ (sdk : Sdk) (chains : Chains) where
  open sdk use {
    SdkDec, int_lt, int_lt_iff, int_sub, int_sub_lem, int_equal, int_equal_iff, coins_is_zero,
  }

  covers_iff : (a b : ℕ) → (not (int_lt a b || int_equal a b) ≡ true) → b < a
  covers_iff a b h = ground (arith, int_lt_iff a b, int_equal_iff a b)

  covers_not : (a b : ℕ) → (not (int_lt a b || int_equal a b) ≡ false) → a ≤ b
  covers_not a b h = ground (arith, int_lt_iff a b, int_equal_iff a b)

  -- What remains of a token after a fee, or nothing where the fee takes it all.
  abbrev pub Conserves : Coin → Coin → Option OutboundTx → Type 0
  Conserves token fee none = token.amount ≤ fee.amount
  Conserves token fee (some item) =
      (item.token.amount + item.fee.amount ≡ token.amount)
      × (0 < item.token.amount)
      × (item.token.denom ≡ token.denom)
      × (item.fee ≡ fee)

  net_of_fee-Conserves :
      (tx_id from_address token_addr : Text) (block_height : ℤ) (receiver_addr chain_type : Text)
      (token fee : Coin)
      → Conserves token fee (
          net_of_fee sdk chains tx_id from_address token_addr block_height receiver_addr chain_type
            token fee)
  net_of_fee-Conserves tx_id from_address token_addr block_height receiver_addr chain_type token
        fee =
      elim (Bool-cases (covers_fee sdk chains token fee)) [
        | inl e ↦
            let more = covers_iff token.amount fee.amount e in
            let net = int_sub_lem token.amount fee.amount (omega arith) in
            rw e (omega (arith, net), omega (arith, net), refl, refl)
        | inr e ↦ rw e (covers_not token.amount fee.amount e)
      ]

  -- For a chain with a fee module and a known price at which CalculateFee gives a fee, a transfer is split
  -- into this fee and a positive net amount of the same denomination, with nothing lost; where the fee takes the whole amount
  -- there is no transfer.
  pub process_demon_and_fee-Conserves :
      (modules : SyncMap (FeeModule sdk)) (query_token_price : Text → Outcome SdkDec)
      (tx_id from_address token_addr : Text) (block_height : ℤ) (receiver_addr : Text)
      (token : Coin) (chain_type : Text) (fee_module : FeeModule sdk) (price : SdkDec) (fee : Coin)
      → load chain_type modules ≡ some fee_module
      → query_token_price token.denom ≡ ok price
      → calculate_fee sdk fee_module price token ≡ ok fee
      → (item : Option OutboundTx) × (process_demon_and_fee sdk chains modules query_token_price
            tx_id from_address token_addr block_height receiver_addr token.denom token.amount
            chain_type
          ≡ ok item)
        × Conserves token fee item
  unfolding process_demon_and_fee
  process_demon_and_fee-Conserves modules query_token_price tx_id from_address token_addr
        block_height receiver_addr token chain_type fee_module price fee e_module e_price e_fee =
      (
        _,
        rw (e_module, process_demon_and_fee, e_price, e_fee) refl,
        net_of_fee-Conserves tx_id from_address token_addr block_height receiver_addr chain_type
            token fee,
      )
