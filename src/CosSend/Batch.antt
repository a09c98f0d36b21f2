-- ===== src/CosSend/Batch.antt =====
-- batchGenSendTx and batchComposeAndSend: the transactions of one batch of deposits.
use joltifychain_bridge.Base.{
  ℕ, ◌+◌, ◌%◌, ◌^◌, Bool, false, Option, none, some, List, [], ◌∷◌, Text, length, map, ◌==◌,
  if◌then◌else◌,
}
use joltifychain_bridge.Base.Outcome.{
  Outcome, ok, err, panic, ◌>>=◌, Done, query_failed, sign_failed,
}
use joltifychain_bridge.Base.SyncMap.{SyncMap, load, store}
use joltifychain_bridge.Signatures.Base64.{encode}
use joltifychain_bridge.Signatures.Serialize.{Signature, serialize_sig}
use joltifychain_bridge.CosSend.TxConfig.{SignatureV2, KeysignResponse, TxConfig, TxAnswers}
use joltifychain_bridge.CosSend.Gas.{gas_estimation}
use joltifychain_bridge.CosSend.Single.{wait_and_send, broadcast_tx}

-- map[uint64]V
abbrev pub SeqMap : Type 0 → Type 0
SeqMap V = List (ℕ × V)

module _ {V : Type 0} where
  unfoldable pub load_at : ℕ → SeqMap V → Option V
  load_at k [] = none
  load_at k ((j, v) ∷ m) = if j == k then some v else load_at k m

  unfoldable pub store_at : ℕ → V → SeqMap V → SeqMap V
  store_at k v [] = (k, v) ∷ []
  store_at k v ((j, w) ∷ m) = if j == k then (j, v) ∷ m else (j, w) ∷ store_at k v m

-- the hash in the response of one broadcast, which an error leaves empty
unfoldable pub response_hash : Outcome (Bool × Text) → Outcome Text
response_hash (ok (taken, hash)) = ok hash
response_hash (err e) = ok []
response_hash panic = panic

-- a step of the loop over the messages whose error goes on with the next message
unfoldable pub or_skip {ℓ κ} :
    {A : Type ℓ} {B : Type κ} → Outcome A → (A → Outcome (Option B)) → Outcome (Option B)
or_skip (ok a) f = f a
or_skip (err e) f = ok none
or_skip panic f = panic

module _ (config : TxConfig) (answers : TxAnswers) where
  open config use {
    TxBuilder, Msg, set_msgs, set_gas_limit, set_signatures, get_sign_bytes, encode_tx, sha256,
    unmarshal_pub_key, order,
  }

  -- a transaction that waits for its signature, with its sequence
  pub record Unsigned : Type 0 where
    pub tx_builder : TxBuilder
    pub sequence : ℕ

  -- from SetSignatures to the bytes to be signed
  unfoldable pub to_sign : Text → ℕ → ℕ → TxBuilder → Outcome (Option (Text × Unsigned))
  unfolding or_skip
  to_sign key acc_num sequence tx_builder =
      or_skip
        (set_signatures (record { pub_key = key; signature = none; sequence = sequence })
          tx_builder)
        (λ unsigned. or_skip (get_sign_bytes acc_num sequence unsigned) (λ sign_bytes. ok (
          some
            (encode (sha256 sign_bytes), record { tx_builder = unsigned; sequence = sequence }))))

  -- one more message to sign, unless it was skipped
  unfoldable pub with_unsigned :
      Option (Text × Unsigned) → List (Text × Unsigned) → List (Text × Unsigned)
  with_unsigned none rest = rest
  with_unsigned (some entry) rest = entry ∷ rest

  -- the loop over the messages
  unfoldable pub unsigned_txs : Text → ℕ → ℕ → ℕ → List Msg → Outcome (List (Text × Unsigned))
  unfolding to_sign with_unsigned
  unsigned_txs key acc_num gas_wanted sequence [] = ok []
  unsigned_txs key acc_num gas_wanted sequence (msg ∷ msgs) = do
    built ← set_msgs (msg ∷ [])
    entry ← to_sign key acc_num sequence (set_gas_limit gas_wanted built)
    rest ← unsigned_txs key acc_num gas_wanted ((sequence + 1) % 2 ^ 64) msgs
    ok (with_unsigned entry rest)

  -- txBuilderMap and unSignedSigMap
  unfoldable pub builder_map : List (Text × Unsigned) → SyncMap Unsigned → SyncMap Unsigned
  builder_map [] m = m
  builder_map ((msg, unsigned) ∷ entries) m = builder_map entries (store msg unsigned m)

  -- the builder with its signature; one that does not take it stays without
  unfoldable pub with_signature : Outcome TxBuilder → TxBuilder → Outcome TxBuilder
  with_signature (ok signed) tx_builder = ok signed
  with_signature (err e) tx_builder = ok tx_builder
  with_signature panic tx_builder = panic

  -- one signature; that of a message that is not in the batch is a nil dereference
  unfoldable pub place_signature :
      Text → Outcome Text → Option Unsigned → SeqMap TxBuilder → Outcome (SeqMap TxBuilder)
  unfolding with_signature
  place_signature key (err e) unsigned m = ok m
  place_signature key panic unsigned m = panic
  place_signature key (ok signature) none m = panic
  place_signature key (ok signature) (some unsigned) m =
      let sig : SignatureV2 = record {
        pub_key = key;
        signature = some signature;
        sequence = unsigned.sequence;
      } in
      (do
        signed ← with_signature (set_signatures sig unsigned.tx_builder) unsigned.tx_builder
        ok (store_at unsigned.sequence signed m))

  -- the loop over the signatures
  unfoldable pub place_all :
      Text → SyncMap Unsigned → List Signature → SeqMap TxBuilder → Outcome (SeqMap TxBuilder)
  unfolding place_signature
  place_all key builders [] m = ok m
  place_all key builders (el ∷ signatures) m = do
    after ← place_signature key (serialize_sig order el false) (load el.msg builders) m
    place_all key builders signatures after

  -- the response of the signing service; one without success gives nil with a nil error
  unfoldable pub signed_txs :
      Text → List (Text × Unsigned) → KeysignResponse → Outcome (SeqMap TxBuilder)
  unfolding builder_map place_all
  signed_txs key entries resp =
      if resp.success
      then (if length resp.signatures == length entries
          then place_all key (builder_map entries []) resp.signatures []
          else err sign_failed)
      else ok []

  -- batchGenSendTx
  unfoldable pub batch_gen_send_tx : List Msg → ℕ → ℕ → ℕ → Text → Outcome (SeqMap TxBuilder)
  unfolding unsigned_txs signed_txs
  batch_gen_send_tx sdk_msg acc_seq acc_num gas_wanted pk = do
    key ← unmarshal_pub_key pk
    entries ← unsigned_txs key acc_num gas_wanted acc_seq sdk_msg
    resp ← answers.key_sign pk (map (λ e. e.0) entries)
    signed_txs key entries resp

  -- after the wait for the turn: one that does not come leaves no hash
  unfoldable pub broadcast_signed : Outcome Done → ℕ → Text → SeqMap Text → Outcome (SeqMap Text)
  unfolding broadcast_tx response_hash
  broadcast_signed (err e) acc_seq tx_bytes hashes = ok hashes
  broadcast_signed panic acc_seq tx_bytes hashes = panic
  broadcast_signed (ok done) acc_seq tx_bytes hashes = do
    hash ← response_hash (broadcast_tx (answers.broadcast tx_bytes))
    ok (store_at acc_seq hash hashes)

  -- the bytes of a transaction; an encoding that fails leaves the empty hash
  unfoldable pub send_encoded : Outcome Text → ℕ → SeqMap Text → Outcome (SeqMap Text)
  unfolding wait_and_send broadcast_signed
  send_encoded (err e) acc_seq hashes = ok (store_at acc_seq [] hashes)
  send_encoded panic acc_seq hashes = panic
  send_encoded (ok tx_bytes) acc_seq hashes =
      broadcast_signed (wait_and_send query_failed (answers.sequences acc_seq) acc_seq) acc_seq
        tx_bytes hashes

  -- the goroutines, in the order of the transactions
  unfoldable pub send_all_signed : SeqMap TxBuilder → SeqMap Text → Outcome (SeqMap Text)
  unfolding send_encoded
  send_all_signed [] hashes = ok hashes
  send_all_signed ((seq, el) ∷ builders) hashes = do
    after ← send_encoded (encode_tx el) seq hashes
    send_all_signed builders after

  -- batchComposeAndSend
  unfoldable pub batch_compose_and_send : List Msg → ℕ → ℕ → Text → Outcome (SeqMap Text)
  unfolding gas_estimation batch_gen_send_tx send_all_signed
  batch_compose_and_send send_msg acc_seq acc_num pk = do
    gas_wanted ← gas_estimation config answers send_msg acc_seq none
    builders ← batch_gen_send_tx send_msg acc_seq acc_num gas_wanted pk
    send_all_signed builders []
