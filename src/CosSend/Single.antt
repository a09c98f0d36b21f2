-- ===== src/CosSend/Single.antt =====
-- signTx, genSendTx, waitAndSend, BroadcastTx and composeAndSend.
use joltifychain_bridge.Base.{
  ℕ, Bool, true, false, Option, none, some, List, [], ◌∷◌, Text, ltb, ◌==◌, if◌then◌else◌,
}
use joltifychain_bridge.Base.Outcome.{
  Outcome, ok, err, panic, ◌>>=◌, Done, Fault, already_passed, not_our_round, query_failed,
  sign_failed,
}
use joltifychain_bridge.Signatures.Base64.{encode}
use joltifychain_bridge.Signatures.Serialize.{Signature, serialize_sig}
use joltifychain_bridge.CosSend.TxConfig.{SignatureV2, TxConfig, TxResponse, TxAnswers}
use joltifychain_bridge.CosSend.Gas.{unsigned_key, gas_estimation}

-- waitAndSend, of the answers that the backoff asks for, forty-one at most
unfoldable pub wait_and_send : Fault → List (Outcome ℕ) → ℕ → Outcome Done
wait_and_send last [] target_seq = err last
wait_and_send last (ok seq ∷ answers) target_seq =
    let retried = wait_and_send not_our_round answers target_seq in
    if seq == target_seq
    then ok tt
    else (if ltb target_seq seq then err already_passed else retried)
wait_and_send last (err e ∷ answers) target_seq = wait_and_send query_failed answers target_seq
wait_and_send last (panic ∷ answers) target_seq = panic

-- BroadcastTx: whether the chain has the transaction, and its hash if it was not there before
unfoldable pub broadcast_tx : Outcome TxResponse → Outcome (Bool × Text)
broadcast_tx (err e) = err e
broadcast_tx panic = panic
broadcast_tx (ok resp) =
    if resp.code == 19
    then ok (true, [])
    else (if resp.code == 0 then ok (true, resp.tx_hash) else ok (false, []))

module _ (config : TxConfig) (answers : TxAnswers) where
  open config use {
    TxBuilder, Msg, set_msgs, set_gas_limit, set_signatures, get_sign_bytes, encode_tx, sha256,
    unmarshal_pub_key, order,
  }

  -- what signTx makes of the signatures, which has to be one
  unfoldable pub one_signature : Text → ℕ → List Signature → Outcome SignatureV2
  one_signature pk sequence [] = err sign_failed
  one_signature pk sequence (sig ∷ other ∷ sigs) = err sign_failed
  one_signature pk sequence (sig ∷ []) = do
    signature ← serialize_sig order sig false
    pub_key ← unmarshal_pub_key pk
    ok (record { pub_key = pub_key; signature = some signature; sequence = sequence })

  -- the empty SignatureV2, which a keysign without success gives with a nil error
  abbrev pub empty_signature : SignatureV2
  empty_signature = record { pub_key = []; signature = none; sequence = 0 }

  -- signTx, by the key of a pool or else by the node itself
  unfoldable pub sign_tx : Option Text → ℕ → ℕ → TxBuilder → Outcome SignatureV2
  unfolding one_signature
  sign_tx none acc_num sequence tx_builder = do
    sign_bytes ← get_sign_bytes acc_num sequence tx_builder
    (signature, pk) ← answers.keyring_sign sign_bytes
    ok (record { pub_key = pk; signature = some signature; sequence = sequence })
  sign_tx (some pk) acc_num sequence tx_builder = do
    sign_bytes ← get_sign_bytes acc_num sequence tx_builder
    resp ← answers.key_sign pk (encode (sha256 sign_bytes) ∷ [])
    if resp.success then one_signature pk sequence resp.signatures else ok empty_signature

  -- genSendTx
  unfoldable pub gen_send_tx : Text → List Msg → ℕ → ℕ → ℕ → Option Text → Outcome TxBuilder
  unfolding sign_tx unsigned_key
  gen_send_tx operator sdk_msg acc_seq acc_num gas_wanted tss_pk = do
    built ← set_msgs sdk_msg
    let limited : TxBuilder = set_gas_limit gas_wanted built
    key ← unsigned_key config answers operator tss_pk
    unsigned ←
        set_signatures (record { pub_key = key; signature = none; sequence = acc_seq }) limited
    sig ← sign_tx tss_pk acc_num acc_seq unsigned
    set_signatures sig unsigned

  -- the wait that only a transaction of a pool needs
  unfoldable pub wait_for_turn : Option Text → ℕ → Outcome Done
  unfolding wait_and_send
  wait_for_turn none acc_seq = ok tt
  wait_for_turn (some pk) acc_seq = wait_and_send query_failed (answers.sequences acc_seq) acc_seq

  -- composeAndSend
  unfoldable pub compose_and_send : Text → Msg → ℕ → ℕ → Option Text → Outcome (Bool × Text)
  unfolding gas_estimation gen_send_tx wait_for_turn broadcast_tx
  compose_and_send operator send_msg acc_seq acc_num sign_msg = do
    gas_wanted ← gas_estimation config answers (send_msg ∷ []) acc_seq none
    tx_builder ← gen_send_tx operator (send_msg ∷ []) acc_seq acc_num gas_wanted sign_msg
    tx_bytes ← encode_tx tx_builder
    _ ← wait_for_turn sign_msg acc_seq
    broadcast_tx (answers.broadcast tx_bytes)
