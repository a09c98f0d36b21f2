-- ===== src/CosSend/Gas.antt =====
-- GasEstimation and SimBroadcastTx of cosbridge/bridge.go.
use joltifychain_bridge.Base.{ℕ, ◌*◌, ◌^◌, Option, none, some, List, Text, ltb, if◌then◌else◌}
use joltifychain_bridge.Base.Outcome.{Outcome, ok, panic, ◌>>=◌}
use joltifychain_bridge.CosSend.TxConfig.{TxConfig, TxAnswers}

-- gasUsed times GASFEERATIO, which is 5: the product of the decimals is exact, and RoundInt64 panics
-- where it is no int64
unfoldable pub wanted : ℕ → Outcome ℕ
wanted gas_used = let gas = gas_used * 5 in if ltb gas (2 ^ 63) then ok gas else panic

module _ (config : TxConfig) (answers : TxAnswers) where
  open config use {set_msgs, set_signatures, encode_tx, unmarshal_pub_key}

  -- the key of a transaction that is not signed yet: that of a pool or else the node's own
  unfoldable pub unsigned_key : Text → Option Text → Outcome Text
  unsigned_key operator none = ok operator
  unsigned_key operator (some pk) = unmarshal_pub_key pk

  -- GasEstimation, for all the messages in one transaction
  unfoldable pub gas_estimation : List config.Msg → ℕ → Option Text → Outcome ℕ
  unfolding wanted unsigned_key
  gas_estimation sdk_msg acc_seq tss_pk = do
    built ← set_msgs sdk_msg
    operator ← answers.operator_key
    key ← unsigned_key operator tss_pk
    unsigned ← set_signatures (record { pub_key = key; signature = none; sequence = acc_seq }) built
    tx_bytes ← encode_tx unsigned
    gas_used ← answers.simulate tx_bytes
    wanted gas_used
