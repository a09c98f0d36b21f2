-- ===== src/PubSend.antt =====
-- Sending to the public chain: pubchain/tx_send.go and GetFeeLimitWithLock (pubchain/helper.go).
-- What the nodes and the signing service answer is the argument of each function.
pub mod Laws
pub mod Token
pub mod Turn
use joltifychain_bridge.Base.{
  ℕ, ◌*◌, ◌-◌, ◌/◌, Option, none, some, List, [], ◌∷◌, Text, ltb, ◌==◌, if◌then◌else◌,
}
use joltifychain_bridge.Base.Outcome.{
  Outcome, ok, err, panic, ◌>>=◌, Done, Fault, already_passed, not_our_round,
}
use joltifychain_bridge.Common.Types.{PoolInfo}

-- config.DEFAULTNATIVEGAS
abbrev pub default_native_gas : ℕ
default_native_gas = 21000

-- ROUNDBLOCK of pubchain/types.go
abbrev pub round_block : ℕ
round_block = 50

-- types.LegacyTx, less its data
pub record LegacyTx : Type 0 where
  pub nonce : ℕ
  pub gas_price : ℕ
  pub gas : ℕ
  pub to : Text
  pub value : ℕ

-- the three numbers of GetFeeLimitWithLock
pub record FeeLimit : Type 0 where
  pub total_fee : ℕ
  pub gas_price : ℕ
  pub gas : ℕ

-- GetFeeLimitWithLock, of the answer to SuggestGasPrice
unfoldable pub get_fee_limit_with_lock : Outcome ℕ → Outcome FeeLimit
get_fee_limit_with_lock suggested = do
  gas_price ← suggested
  ok (record {
    total_fee = gas_price * default_native_gas;
    gas_price = gas_price;
    gas = default_native_gas;
  })

-- waitToSend: the answers to getPendingNonceWithLock that the backoff asks for, in order; the
-- backoff gives up at the end of the list with the last error.
unfoldable pub wait_to_send : Fault → List (Outcome ℕ) → ℕ → Outcome Done
wait_to_send last [] target = err last
wait_to_send last (ok nonce ∷ answers) target =
    let retried = wait_to_send not_our_round answers target in
    if nonce == target then ok tt else (if ltb target nonce then err already_passed else retried)
wait_to_send last (err e ∷ answers) target = wait_to_send e answers target
wait_to_send last (panic ∷ answers) target = panic

-- The answers that one send takes from its surroundings.
pub record SendAnswers : Type 0 where
  pub suggested_gas_price : Outcome ℕ
  pub latest_block : Outcome ℕ
  -- composeTx or composeTxBatch: the signature, for a key and a height in rounds
  pub compose : Text → ℕ → Outcome Done
  pub sign : LegacyTx → Outcome Done
  pub pending_nonces : List (Outcome ℕ)
  pub send_transaction : LegacyTx → Outcome Done

-- the key of the latest pool where none is given; no latest pool is a nil dereference
unfoldable pub signer_key : Text → Option PoolInfo → Outcome Text
signer_key [] none = panic
signer_key [] (some pool) = ok pool.pk
signer_key (c ∷ k) pool = ok (c ∷ k)

-- SendNativeTokenBatch with the batch's signature, and a nonce
unfoldable pub send_native_token_batch : Text → Text → ℕ → ℕ → SendAnswers → Outcome LegacyTx
unfolding get_fee_limit_with_lock wait_to_send
send_native_token_batch pk receiver amount nonce answers = do
  fee ← get_fee_limit_with_lock answers.suggested_gas_price
  _ ← answers.compose pk 0
  let tx : LegacyTx = record {
    nonce = nonce;
    gas_price = fee.gas_price;
    gas = fee.gas;
    to = receiver;
    value = amount;
  }
  _ ← answers.sign tx
  _ ← wait_to_send not_our_round answers.pending_nonces nonce
  _ ← answers.send_transaction tx
  ok tx

-- SendNativeTokenForMoveFund; `none` is the account that holds no more than the fee
unfoldable pub send_native_token_for_move_fund :
    Text → Option PoolInfo → Text → ℕ → ℕ → SendAnswers → Outcome (Option LegacyTx)
unfolding get_fee_limit_with_lock wait_to_send signer_key
send_native_token_for_move_fund signer_pk last_pool receiver amount nonce answers = do
  fee ← get_fee_limit_with_lock answers.suggested_gas_price
  if ltb fee.total_fee amount
      then (do
        pk ← signer_key signer_pk last_pool
        latest ← answers.latest_block
        _ ← answers.compose pk (latest / round_block)
        let tx : LegacyTx = record {
          nonce = nonce;
          gas_price = fee.gas_price;
          gas = fee.gas;
          to = receiver;
          value = amount - fee.total_fee;
        }
        _ ← answers.sign tx
        _ ← wait_to_send not_our_round answers.pending_nonces nonce
        _ ← answers.send_transaction tx
        ok (some tx))
      else ok none
