-- ===== src/Outbound/Skips.antt =====
-- Which messages of the joltify chain become transfers.
use joltifychain_bridge.Base.{
  ℕ, ◌+◌, ◌<◌, ◌||◌, text_eq, ◌≡◌, ◌≢◌, ◌⊎◌, refl, true, false, none, some, List, [], ◌∷◌, Text,
  text_eq_refl, text_neq, to_lower, ℤ, Bool-cases, All, ◌==◌, arith, inl, inr,
}
use joltifychain_bridge.Base.SyncMap.{SyncMap, load, store}
use joltifychain_bridge.Base.SyncMap.Laws.{load-store_self}
use joltifychain_bridge.Base.Outcome.{
  Outcome, ok, err, panic, Fault, zero_amount, not_a_top_up, bad_address,
}
use joltifychain_bridge.Common.Libraries.{Sdk, Chains}
use joltifychain_bridge.Common.Types.{Coin, BridgeMemo, OutBoundReq}
use joltifychain_bridge.Common.Hex.{encode_to_string}
use joltifychain_bridge.Common.Fee.{FeeModule, calculate_fee}
use joltifychain_bridge.Common.Requests.{new_outbound_req, out_index}
use joltifychain_bridge.Common.Decimals.{outbound_adjust, precision}
use joltifychain_bridge.Inbound.Amounts.{covers}
use joltifychain_bridge.TokenList.{TokenItem, TokenList, get_token_info_by_denom}
use joltifychain_bridge.Queue.Outbound.{add_item}
use joltifychain_bridge.State.{JoltChain}
use joltifychain_bridge.Outbound.{
  to_uint64, Msg, msg_send, other_msg, MsgSend, process_demon_and_fee, process_outbound_request,
  process_listed, add_outbound_tx, first_coin,
}
use joltifychain_bridge.Outbound.Messages.{process_msg, process_msgs}

-- the request for a payment, of this net amount
abbrev pub payment_req :
    (sdk : Sdk) → Chains → Text → ℤ → Text → BridgeMemo → Coin → TokenItem → ℕ → Coin → OutBoundReq
payment_req sdk chains tx_hash height eth memo coin token_item net fee =
    new_outbound_req (to_lower (encode_to_string tx_hash)) (chains.hex_to_address memo.dest) eth
      (record {
        denom = coin.denom;
        amount = outbound_adjust sdk net token_item.decimals precision;
      })
      token_item.token_addr height (fee ∷ []) memo.chain_type false

module _ (sdk : Sdk) (chains : Chains) (tl : TokenList) (modules : SyncMap (FeeModule sdk))
    (query_token_price : Text → Outcome sdk.SdkDec) (address0 address1 : Text) where
  -- A payment of no coin, or to an account that is not one of the two pools.
  abbrev pub PaysNoPool : MsgSend → Type 0
  PaysNoPool msg =
      (sdk.coins_is_zero msg.amount ≡ true)
      ⊎ ((chains.acc_address_from_bech32 msg.to_address ≡ none)
          ⊎ ((to_address : Text) × (chains.acc_address_from_bech32 msg.to_address ≡ some to_address)
              × (to_address ≢ address0)
              × (to_address ≢ address1)))

  -- A message that is no payment to a pool, or whose transaction failed.
  abbrev pub NoDeposit : Msg × Outcome ℕ → Type 0
  NoDeposit (msg_send msg, ok code) = (code ≢ 0) ⊎ PaysNoPool msg
  NoDeposit (msg_send msg, err e) = Unit
  NoDeposit (msg_send msg, panic) = ⊥
  NoDeposit (other_msg, code) = Unit

  process_msg-refuses :
      (height : ℤ) (eth : Text) (memo : BridgeMemo) (msg : MsgSend) (tx_hash : Text)
      (jc : JoltChain)
      → PaysNoPool msg
      → (e : Fault) × (process_msg sdk chains tl modules query_token_price height address0 address1
            eth memo msg tx_hash jc
          ≡ err e)
  unfolding process_msg
  process_msg-refuses height eth memo msg tx_hash jc (inl zero_coins) =
      (zero_amount, rw zero_coins refl)
  process_msg-refuses height eth memo msg tx_hash jc (inr (inl bad)) =
      elim (Bool-cases (sdk.coins_is_zero msg.amount)) [
        | inl e ↦ (zero_amount, rw e refl)
        | inr e ↦ (bad_address, rw (e, process_msg, bad) refl)
      ]
  process_msg-refuses height eth memo msg tx_hash jc (inr (inr (to, e_to, n0, n1))) =
      elim (Bool-cases (sdk.coins_is_zero msg.amount)) [
        | inl e ↦ (zero_amount, rw e refl)
        | inr e ↦ (
          not_a_top_up,
          rw (e, process_msg, e_to, text_neq to address0 n0, text_neq to address1 n1) refl,
        )
      ]

  to_a_pool :
      (to : Text)
      → (to ≡ address0) ⊎ (to ≡ address1)
      → text_eq to address0 || text_eq to address1 ≡ true
  to_a_pool to (inl e) = rw (e, text_eq_refl address0) refl
  to_a_pool to (inr e) = elim (Bool-cases (text_eq to address0)) [
    | inl t ↦ rw t refl
    | inr t ↦ rw (t, e, text_eq_refl address1) refl
  ]

  code_test : (code : ℕ) → code ≢ 0 → (code == 0) ≡ false
  code_test code failed = ground (arith, failed)

  -- Messages without a deposit leave the joltify half as it is.
  pub process_msgs-skips :
      (height : ℤ) (eth : Text) (memo : BridgeMemo) (tx_hash : Text) (msgs : List (Msg × Outcome ℕ))
      (jc : JoltChain)
      → All NoDeposit msgs
      → process_msgs sdk chains tl modules query_token_price height address0 address1 eth memo
          tx_hash msgs jc
        ≡ ok jc
  unfolding process_msgs
  process_msgs-skips height eth memo tx_hash [] jc h = refl
  process_msgs-skips height eth memo tx_hash ((other_msg, code) ∷ msgs) jc h =
      process_msgs-skips height eth memo tx_hash msgs jc h.1
  process_msgs-skips height eth memo tx_hash ((msg_send msg, err e) ∷ msgs) jc h =
      process_msgs-skips height eth memo tx_hash msgs jc h.1
  process_msgs-skips height eth memo tx_hash ((msg_send msg, panic) ∷ msgs) jc h = absurd h.0
  process_msgs-skips height eth memo tx_hash ((msg_send msg, ok code) ∷ msgs) jc
        (inl failed, rest) =
      rw (code_test code failed) (process_msgs-skips height eth memo tx_hash msgs jc rest)
  process_msgs-skips height eth memo tx_hash ((msg_send msg, ok code) ∷ msgs) jc
        (inr refused, rest) =
      let left = process_msg-refuses height eth memo msg tx_hash jc refused in
      elim (Bool-cases (code == 0)) [
        | inl e ↦ rw (e, left.1) (process_msgs-skips height eth memo tx_hash msgs jc rest)
        | inr e ↦ rw e (process_msgs-skips height eth memo tx_hash msgs jc rest)
      ]

  process_demon_and_fee-takes :
      (tx_id from_address token_addr receiver chain_type : Text) (height : ℤ) (coin : Coin)
      (fee_module : FeeModule sdk) (price : sdk.SdkDec) (fee : Coin) (net : ℕ)
      → load chain_type modules ≡ some fee_module
      → query_token_price coin.denom ≡ ok price
      → calculate_fee sdk fee_module price coin ≡ ok fee
      → net + fee.amount ≡ coin.amount
      → 0 < net
      → process_demon_and_fee sdk chains modules query_token_price tx_id from_address token_addr
          height receiver coin.denom coin.amount chain_type
        ≡ ok (
            some (record {
              out_receiver_address = receiver;
              from_address = from_address;
              block_height = to_uint64 height;
              token = record coin { amount = net };
              token_addr = token_addr;
              fee = fee;
              tx_id = tx_id;
              chain_type = chain_type;
            }))
  unfolding process_demon_and_fee
  process_demon_and_fee-takes tx_id from_address token_addr receiver chain_type height coin
        fee_module price fee net e_module e_price e_fee e_net some_net =
      let test = covers sdk chains coin.amount fee.amount (omega arith) in
      let left : sdk.int_sub coin.amount fee.amount ≡ net =
        omega (arith, sdk.int_sub_lem coin.amount fee.amount (omega arith)) in
      rw (e_module, process_demon_and_fee, e_price, e_fee, test, left) refl

  process_outbound_request-stores :
      (height : ℤ) (eth : Text) (memo : BridgeMemo) (msg : MsgSend) (coin : Coin)
      (coins : List Coin) (tx_hash : Text) (jc : JoltChain) (token_item : TokenItem)
      (fee_module : FeeModule sdk) (price : sdk.SdkDec) (fee : Coin) (net : ℕ) (index : Text)
      → msg.amount ≡ coin ∷ coins
      → get_token_info_by_denom coin.denom memo.chain_type tl ≡ some token_item
      → load memo.chain_type modules ≡ some fee_module
      → query_token_price coin.denom ≡ ok price
      → calculate_fee sdk fee_module price coin ≡ ok fee
      → let req = payment_req sdk chains tx_hash height eth memo coin token_item net fee in
        net + fee.amount ≡ coin.amount
        → 0 < net
        → out_index chains req ≡ ok index
        → process_outbound_request sdk chains tl modules query_token_price msg
            (to_lower (encode_to_string tx_hash))
            height
            eth
            memo
            jc
          ≡ ok (record jc { retry_outbound_req = store index req jc.retry_outbound_req })
  unfolding process_outbound_request process_listed first_coin add_outbound_tx add_item
  process_outbound_request-stores height eth memo msg coin coins tx_hash jc token_item fee_module
        price fee net index e_amount e_token e_module e_price e_fee e_net some_net e_index =
      let taken =
        process_demon_and_fee-takes (to_lower (encode_to_string tx_hash)) msg.from_address
          token_item.token_addr (chains.hex_to_address memo.dest) memo.chain_type height coin
          fee_module price fee net e_module e_price e_fee e_net some_net in
      rw (process_outbound_request, process_listed, e_amount, e_token, taken, e_index) refl

  -- A payment to one of the two pools, of a token that is listed for the chain of the memo, with a
  -- fee module for that chain, a known price at which CalculateFee gives a fee, and more than this fee, is stored under the index of a
  -- request for the receiver of the memo: the payment less the fee, in the decimals of the token, with
  -- the fee for the validators.
  pub process_msg-stores :
      (height : ℤ) (eth : Text) (memo : BridgeMemo) (msg : MsgSend) (coin : Coin)
      (coins : List Coin) (tx_hash : Text) (jc : JoltChain) (token_item : TokenItem)
      (fee_module : FeeModule sdk) (price : sdk.SdkDec) (fee : Coin) (net : ℕ)
      (to_address index : Text)
      → msg.amount ≡ coin ∷ coins
      → sdk.coins_is_zero msg.amount ≡ false
      → chains.acc_address_from_bech32 msg.to_address ≡ some to_address
      → (to_address ≡ address0) ⊎ (to_address ≡ address1)
      → get_token_info_by_denom coin.denom memo.chain_type tl ≡ some token_item
      → load memo.chain_type modules ≡ some fee_module
      → query_token_price coin.denom ≡ ok price
      → calculate_fee sdk fee_module price coin ≡ ok fee
      → let req = payment_req sdk chains tx_hash height eth memo coin token_item net fee in
        net + fee.amount ≡ coin.amount
        → 0 < net
        → out_index chains req ≡ ok index
        → (after : JoltChain) × (process_msg sdk chains tl modules query_token_price height address0
              address1 eth memo msg tx_hash jc
            ≡ ok after)
          × (load index after.retry_outbound_req ≡ some req)
  unfolding process_msg
  process_msg-stores height eth memo msg coin coins tx_hash jc token_item fee_module price fee net
        to_address index e_amount e_zero e_to to_pool e_token e_module e_price e_fee e_net some_net
        e_index =
      let stored =
        process_outbound_request-stores height eth memo msg coin coins tx_hash jc token_item
          fee_module price fee net index e_amount e_token e_module e_price e_fee e_net some_net
          e_index in
      (
        record jc { retry_outbound_req = store index _ jc.retry_outbound_req },
        rw (e_zero, process_msg, e_to, to_a_pool to_address to_pool, stored) refl,
        load-store_self index _ jc.retry_outbound_req,
      )
