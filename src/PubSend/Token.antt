-- ===== src/PubSend/Token.antt =====
-- SendToken and SendTokenBatch with their signatures: tssSign, TssSignBatch, composeTx and
-- composeTxBatch of pubchain/tx_send.go, and sendTransactionWithLock of pubchain/helper.go.
use joltifychain_bridge.Base.{
  ◌<◌, All, ℕ, ◌/◌, Bool, true, false, Option, none, some, List, [], ◌∷◌, Text, text_eq, length,
  ◌==◌, map, if◌then◌else◌,
}
use joltifychain_bridge.Base.Outcome.{
  Outcome, ok, err, panic, ◌>>=◌, Done, no_chain_id, wrong_sender, sign_failed, already_known,
  not_our_round,
}
use joltifychain_bridge.Base.SyncMap.{SyncMap, load, store}
use joltifychain_bridge.Common.Types.{PoolInfo}
use joltifychain_bridge.PubSend.{round_block, wait_to_send, signer_key}
use joltifychain_bridge.Signatures.Base64.{encode}
use joltifychain_bridge.Signatures.Serialize.{Signature, serialize_sig}
use joltifychain_bridge.CosSend.TxConfig.{KeysignResponse}

-- go-ethereum's transactions, and what is done with them
pub record EthTx : Type 1 where
  pub Tx : Type 0
  -- signer.Hash(tx).Bytes() for the chain of the client
  pub signing_hash : Tx → Text
  pub signing_hash_bytes : (tx : Tx) → All (λ b. b < 256) (signing_hash tx)
  pub with_signature : Text → Tx → Outcome Tx
  -- Transfer of the token's contract with NoSend, up to the signer: the token, the receiver, the
  -- amount and the nonce
  pub transfer : Text → Text → ℕ → Option ℕ → Outcome Tx
  -- the order of the curve
  pub order : ℕ

-- tssSign after the keysign, of its success and signatures: without success it gives nil with a nil
-- error
unfoldable pub signature_of : ℕ → Bool → List Signature → Outcome (Option Text)
signature_of order false signatures = ok none
signature_of order true [] = err sign_failed
signature_of order true (sig ∷ other ∷ signatures) = err sign_failed
signature_of order true (sig ∷ []) = do
  signature ← serialize_sig order sig true
  ok (some signature)

-- tssSign
unfoldable pub tss_sign :
    ℕ → (Text → List Text → ℕ → Outcome KeysignResponse) → Text → Text → ℕ → Outcome (Option Text)
unfolding signature_of
tss_sign order key_sign msg pk block_height = do
  resp ← key_sign pk (encode msg ∷ []) block_height
  signature_of order resp.success resp.signatures

-- the loop of TssSignBatch; a signature that cannot be serialized is left out
unfoldable pub with_serialized : Text → Outcome Text → SyncMap Text → Outcome (SyncMap Text)
with_serialized msg (ok signature) m = ok (store msg signature m)
with_serialized msg (err e) m = ok m
with_serialized msg panic m = panic

unfoldable pub signature_map : ℕ → List Signature → SyncMap Text → Outcome (SyncMap Text)
unfolding with_serialized
signature_map order [] m = ok m
signature_map order (sig ∷ signatures) m = do
  after ← with_serialized sig.msg (serialize_sig order sig true) m
  signature_map order signatures after

-- whether the keysign had success; otherwise the nil map and a nil error
unfoldable pub signatures_of : ℕ → Bool → List Signature → Outcome (Option (SyncMap Text))
unfolding signature_map
signatures_of order false signatures = ok none
signatures_of order true signatures = do m ← signature_map order signatures []; ok (some m)

-- TssSignBatch
unfoldable pub tss_sign_batch :
    ℕ
    → (Text → List Text → ℕ → Outcome KeysignResponse)
    → List Text
    → Text
    → ℕ
    → Outcome (Option (SyncMap Text))
unfolding signatures_of
tss_sign_batch order key_sign msgs pk block_height = do
  resp ← key_sign pk (map encode msgs) block_height
  signatures_of order resp.success resp.signatures

-- sendTransactionWithLock: a transaction that is known is no error
unfoldable pub send_transaction_with_lock : Outcome Done → Outcome Done
send_transaction_with_lock (ok done) = ok tt
send_transaction_with_lock (err already_known) = ok tt
send_transaction_with_lock (err e) = err e
send_transaction_with_lock panic = panic

-- What the send of a token asks its surroundings.
pub record TokenAnswers (eth : EthTx) : Type 0 where
  -- whether the client has a chain id
  pub chain_id : Bool
  -- generated.NewToken
  pub new_token : Outcome Done
  pub pending_nonces : List (Outcome ℕ)
  pub send_transaction : eth.Tx → Outcome Done

module _ (eth : EthTx) where
  -- ErrNoChainID of composeTx and composeTxBatch
  unfoldable pub chain_known : Bool → Outcome Done
  chain_known true = ok tt
  chain_known false = err no_chain_id

  unfoldable pub from_sender : Text → Text → Outcome Done
  from_sender address sender = if text_eq address sender then ok tt else err wrong_sender

  -- the end of composeTx's signer: a signature has 65 bytes
  unfoldable pub with_tss_signature : Outcome (Option Text) → eth.Tx → Outcome eth.Tx
  with_tss_signature (ok (some signature)) tx =
      if length signature == 65 then eth.with_signature signature tx else err sign_failed
  with_tss_signature (ok none) tx = err sign_failed
  with_tss_signature (err e) tx = err sign_failed
  with_tss_signature panic tx = panic

  -- the Signer of composeTx
  unfoldable pub tx_signer :
      (Text → List Text → ℕ → Outcome KeysignResponse)
      → Text
      → Text
      → ℕ
      → Text
      → eth.Tx
      → Outcome eth.Tx
  unfolding from_sender with_tss_signature tss_sign
  tx_signer key_sign signer_pk sender block_height address tx = do
    _ ← from_sender address sender
    with_tss_signature (tss_sign eth.order key_sign (eth.signing_hash tx) signer_pk block_height) tx

  -- the signature of a message among those of the batch
  unfoldable pub batch_signature : Option (SyncMap Text) → Text → Outcome Text
  batch_signature none msg = err sign_failed
  batch_signature (some signatures) msg = elim (load (encode msg) signatures) [
    | none ↦ err sign_failed
    | some sig ↦ ok sig
  ]

  -- the Signer of composeTxBatch, with what the broadcaster hands out
  unfoldable pub batch_signer : Option (SyncMap Text) → Text → Text → eth.Tx → Outcome eth.Tx
  unfolding from_sender batch_signature
  batch_signer signatures sender address tx = do
    _ ← from_sender address sender
    sig ← batch_signature signatures (eth.signing_hash tx)
    eth.with_signature sig tx

  -- the wait that a given nonce asks for
  unfoldable pub wait_for_nonce : List (Outcome ℕ) → Option ℕ → Outcome Done
  unfolding wait_to_send
  wait_for_nonce answers none = ok tt
  wait_for_nonce answers (some nonce) = wait_to_send not_our_round answers nonce

  -- from the composed options to the signed transaction
  unfoldable pub ready_tx :
      TokenAnswers eth
      → (Text → eth.Tx → Outcome eth.Tx)
      → Text
      → Text
      → Text
      → ℕ
      → Option ℕ
      → Outcome eth.Tx
  unfolding chain_known
  ready_tx answers signer token_addr sender receiver amount nonce = do
    _ ← chain_known answers.chain_id
    _ ← answers.new_token
    unsigned ← eth.transfer token_addr receiver amount nonce
    signer sender unsigned

  -- the wait and the send: the transaction, whose hash is given back also with an error, and the error
  unfoldable pub send_ready :
      TokenAnswers eth → Option ℕ → Outcome eth.Tx → Option eth.Tx × Outcome Done
  unfolding wait_for_nonce send_transaction_with_lock
  send_ready answers target (err e) = (none, err e)
  send_ready answers target panic = (none, panic)
  send_ready answers target (ok tx) = (
    some tx,
    wait_for_nonce answers.pending_nonces target >>= λ waited.
        send_transaction_with_lock (answers.send_transaction tx),
  )

  -- SendTokenBatch; none is the empty hash
  unfoldable pub send_token_batch :
      TokenAnswers eth
      → Option (SyncMap Text)
      → Text
      → Text
      → ℕ
      → Option ℕ
      → Text
      → Option eth.Tx × Outcome Done
  unfolding batch_signer ready_tx send_ready
  send_token_batch answers signatures sender receiver amount nonce token_addr =
      send_ready answers nonce
        (ready_tx answers (batch_signer signatures sender) token_addr sender receiver amount nonce)

  -- SendToken, with the block that GetBlockByNumberWithLock answers
  unfoldable pub send_token :
      TokenAnswers eth
      → (Text → List Text → ℕ → Outcome KeysignResponse)
      → Outcome ℕ
      → Option PoolInfo
      → Text
      → Text
      → Text
      → ℕ
      → Option ℕ
      → Text
      → Option eth.Tx × Outcome Done
  unfolding tx_signer ready_tx send_ready signer_key
  send_token answers key_sign latest last_pool signer_pk sender receiver amount nonce token_addr =
      send_ready answers nonce (
        signer_key signer_pk last_pool >>= λ (pk : Text). latest >>= λ (block : ℕ).
        ready_tx answers (tx_signer key_sign pk sender (block / round_block)) token_addr sender
          receiver amount nonce)
