-- ===== src/CosSend/Submit.antt =====
-- SubmitOutboundTx (cosbridge/submit_outboundtx.go): the record of a transfer that has gone out.
use joltifychain_bridge.Base.{
  ℕ, ◌≡◌, refl, arith, ℤ, Bool, true, false, none, List, [], ◌∷◌, Text, ◌==◌, ◌||◌, if◌then◌else◌,
}
use joltifychain_bridge.Base.Outcome.{Outcome, ok, err, panic, ◌>>=◌, Done, broadcast_failed}
use joltifychain_bridge.Common.Types.{Coin}
use joltifychain_bridge.Common.Decimal.{format_int}
use joltifychain_bridge.Bridge.Feed.{Account}
use joltifychain_bridge.CosSend.TxConfig.{TxConfig, TxResponse, TxAnswers}
use joltifychain_bridge.CosSend.Gas.{gas_estimation}
use joltifychain_bridge.CosSend.Single.{broadcast_tx, compose_and_send, gen_send_tx, wait_for_turn}

-- vaulttypes.MsgCreateOutboundTx
pub record MsgCreateOutboundTx : Type 0 where
  pub creator : Text
  pub request_id : Text
  pub outbound_tx : Text
  pub block_height : Text
  pub fee_coin : List Coin
  pub chain_type : Text
  pub need_mint : Bool
  pub in_tx_hash : Text
  pub receiver_address : Text

-- The arguments of SubmitOutboundTx but the connection and the key.
pub record OutboundRecord : Type 0 where
  pub request_id : Text
  pub block_height : ℤ
  pub pubchain_tx : Text
  pub fee : List Coin
  pub chain_type : Text
  pub in_tx_hash : Text
  pub receiver_address : Text
  pub need_mint : Bool

-- The key "operator" of the keyring: its public key and its address.
pub record Operator : Type 0 where
  pub pub_key : Text
  pub address : Text

unfoldable pub outbound_msg : Operator → OutboundRecord → MsgCreateOutboundTx
outbound_msg operator r = record {
  creator = operator.address;
  request_id = r.request_id;
  outbound_tx = r.pubchain_tx;
  block_height = format_int r.block_height;
  fee_coin = r.fee;
  chain_type = r.chain_type;
  need_mint = r.need_mint;
  in_tx_hash = r.in_tx_hash;
  receiver_address = r.receiver_address;
}

-- the end of SubmitOutboundTx: anything but a transaction that the chain has is one error
unfoldable pub recorded : Outcome (Bool × Text) → Outcome Done
recorded (ok (true, hash)) = ok tt
recorded (ok (false, hash)) = err broadcast_failed
recorded (err e) = err broadcast_failed
recorded panic = panic

module _ (config : TxConfig) (answers : TxAnswers) where
  -- SubmitOutboundTx, with the key, the answer to queryAccount for its address, and the message as
  -- an sdk.Msg
  unfoldable pub submit_outbound_tx :
      (MsgCreateOutboundTx → config.Msg)
      → Outcome Operator
      → (Text → Outcome Account)
      → OutboundRecord
      → Outcome Done
  unfolding recorded outbound_msg
  submit_outbound_tx to_msg operator_key query_account r = do
    operator ← operator_key
    acc ← query_account operator.address
    recorded (
        compose_and_send config answers operator.pub_key (to_msg (outbound_msg operator r))
          acc.acc_sequence acc.acc_number none)

-- what the answer to the broadcast means for the record
abbrev pub record_broadcast : Outcome TxResponse → Outcome Done
record_broadcast (ok resp) =
    if resp.code == 0 || resp.code == 19 then ok tt else err broadcast_failed
record_broadcast (err e) = err broadcast_failed
record_broadcast panic = panic

recorded-broadcast_tx :
    (answer : Outcome TxResponse) → recorded (broadcast_tx answer) ≡ record_broadcast answer
unfolding recorded broadcast_tx
recorded-broadcast_tx (ok resp) = ground arith
recorded-broadcast_tx (err e) = refl
recorded-broadcast_tx panic = refl

module _ (config : TxConfig) (answers : TxAnswers) (to_msg : MsgCreateOutboundTx → config.Msg)
    (operator : Operator) (acc : Account) (r : OutboundRecord) (gas : ℕ)
    (tx_builder : config.TxBuilder) (tx_bytes : Text) where
  -- Once the transaction of the record is built and encoded, its submission succeeds exactly where
  -- the chain takes it, with code 0, or has it already, with code 19; any other code and an error
  -- of the broadcast are the same error.
  pub submit_outbound_tx-records :
      (query_account : Text → Outcome Account)
      → query_account operator.address ≡ ok acc
      → gas_estimation config answers (to_msg (outbound_msg operator r) ∷ []) acc.acc_sequence none
        ≡ ok gas
      → gen_send_tx config answers operator.pub_key
          (to_msg (outbound_msg operator r) ∷ [])
          acc.acc_sequence
          acc.acc_number
          gas
          none
        ≡ ok tx_builder
      → config.encode_tx tx_builder ≡ ok tx_bytes
      → submit_outbound_tx config answers to_msg (ok operator) query_account r
        ≡ record_broadcast (answers.broadcast tx_bytes)
  unfolding submit_outbound_tx compose_and_send wait_for_turn
  submit_outbound_tx-records query_account e_acc e_gas e_built e_bytes =
      rw (e_acc, e_gas, e_built, e_bytes) (recorded-broadcast_tx (answers.broadcast tx_bytes))
