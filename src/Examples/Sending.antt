-- ===== src/Examples/Sending.antt =====
-- Sending and recording transactions at concrete inputs.
use joltifychain_bridge.Base.{
  ℕ, ◌/◌, ◌+◌, ◌≡◌, ◌⊎◌, inr, refl, arith, Bool, true, false, some, List, [], ◌∷◌, ◌++◌, Text,
  codes, text_eq, map, pos, replicate, length, ◌≤◌,
}
use joltifychain_bridge.Base.Outcome.{Outcome, ok, Done}
use joltifychain_bridge.Base.SyncMap.{load, store}
use joltifychain_bridge.Bridge.Feed.{Account}
use joltifychain_bridge.PubSend.Token.{EthTx, TokenAnswers, tss_sign_batch, send_token_batch}
use joltifychain_bridge.PubSend.Turn.{CameUp, IsAccepted, IsSigned, send_token_batch-IsSigned}
use joltifychain_bridge.Signatures.Base64.{encode, decode}
use joltifychain_bridge.Signatures.Bytes.{of_bytes, value_from}
use joltifychain_bridge.Signatures.Serialize.{Signature, serialize_sig, copy_before}
use joltifychain_bridge.Signatures.Layout.{serialize_sig-lays_out}
use joltifychain_bridge.Signatures.RecoverId.{raw_signature, raw_signature-reads}
use joltifychain_bridge.CosSend.TxConfig.{TxConfig, TxAnswers, KeysignResponse}
use joltifychain_bridge.CosSend.Single.{gen_send_tx}
use joltifychain_bridge.CosSend.Submit.{
  Operator, OutboundRecord, record_broadcast, submit_outbound_tx, submit_outbound_tx-records,
}
use joltifychain_bridge.CosSend.Gas.{gas_estimation}
use joltifychain_bridge.Bridge.Mint.{IssueToken}

-- The bytes 5, 77 and 1.
abbrev signature_for : Text → Signature
signature_for msg = record {
  msg = msg;
  r = codes "BQ==";
  s = codes "TQ==";
  recovery_id = codes "AQ==";
}

serialize_sig-lays_out_example :
    (rs : Text) × (ss : Text) × (vs : Text) × (serialize_sig 101 (signature_for []) true
      ≡ ok ((rs ++ ss) ++ vs))
    × (serialize_sig 101 (signature_for []) false ≡ ok (rs ++ ss))
    × (length rs ≡ 32)
    × (length ss ≡ 32)
    × (length vs ≡ 1)
    × (of_bytes rs ≡ of_bytes (5 ∷ []))
    × (of_bytes vs ≡ of_bytes (1 ∷ []))
    × (of_bytes ss ≤ 101 / 2)
    × ((of_bytes ss ≡ of_bytes (77 ∷ [])) ⊎ (of_bytes ss + of_bytes (77 ∷ []) ≡ 101))
unfolding decode value_from
serialize_sig-lays_out_example =
    serialize_sig-lays_out 101 (signature_for []) (5 ∷ []) (77 ∷ []) (1 ∷ []) refl refl refl
      (omega arith) (omega arith) (omega arith) (omega arith)

raw_signature-reads_example :
    (rs : Text) × (ss : Text) × (raw_signature 56 5 7 148 ≡ ok ((rs ++ ss) ++ 1 ∷ []))
    × (length rs ≡ 32)
    × (length ss ≡ 32)
    × (of_bytes rs ≡ 5)
    × (of_bytes ss ≡ 7)
raw_signature-reads_example =
    raw_signature-reads 56 5 7 1 148 (omega arith) (omega arith) (omega arith) (omega arith)
      (inr (inr (omega arith)))

abbrev config : TxConfig
config = record {
  TxBuilder = Text;
  Msg = Text;
  set_msgs = λ msgs. ok (codes "m");
  set_gas_limit = λ gas b. b;
  set_signatures = λ sig b. ok b;
  get_sign_bytes = λ num seq b. ok b;
  encode_tx = λ b. ok b;
  sha256 = λ t. t;
  unmarshal_pub_key = λ pk. ok pk;
  order = 101;
}

abbrev answers_with : Bool → TxAnswers
answers_with success = record {
  operator_key = ok (codes "k");
  simulate = λ bytes. ok 7;
  key_sign = λ pk msgs.
      ok (record { success = success; signatures = signature_for (encode (codes "m")) ∷ [] });
  keyring_sign = λ bytes. ok (codes "s", codes "k");
  sequences = λ seq. ok seq ∷ [];
  broadcast = λ bytes. ok (record { code = 0; tx_hash = codes "H" });
}

abbrev issue : IssueToken config
issue = record { new_msg = λ creator index coin receiver. ok (codes "a"); nil_msg = [] }

abbrev operator : Operator
operator = record { pub_key = codes "k"; address = codes "a" }

abbrev account : Account
account = record { acc_number = 1; acc_sequence = 4; acc_address = codes "a" }

abbrev outbound_record : OutboundRecord
outbound_record = record {
  request_id = codes "id";
  block_height = pos 7;
  pubchain_tx = codes "0x1";
  fee = [];
  chain_type = codes "BSC";
  in_tx_hash = codes "00";
  receiver_address = codes "r";
  need_mint = false;
}

abbrev submission : Outcome Done
submission =
    submit_outbound_tx config (answers_with true) (λ m. m.request_id) (ok operator)
      (λ a. ok account) outbound_record

submit_outbound_tx-records_example :
    submission ≡ record_broadcast ((answers_with true).broadcast (codes "m"))
unfolding gen_send_tx gas_estimation
submit_outbound_tx-records_example =
    submit_outbound_tx-records config (answers_with true) (λ m. m.request_id) operator account
      outbound_record 35 (codes "m") (codes "m") (λ a. ok account) refl refl refl refl

abbrev eth : EthTx
eth = record {
  Tx = Text;
  signing_hash = λ t. codes "h";
  signing_hash_bytes = λ t. (omega arith, tt);
  with_signature = λ sig t. ok (t ++ sig);
  transfer = λ token receiver amount nonce. ok (codes "x");
  order = 101;
}

abbrev token_answers : TokenAnswers eth
token_answers = record {
  chain_id = true;
  new_token = ok tt;
  pending_nonces = ok 3 ∷ ok 4 ∷ [];
  send_transaction = λ tx. ok tt;
}

abbrev key_sign : Text → List Text → ℕ → Outcome KeysignResponse
key_sign pk msgs height =
    ok (record { success = true; signatures = signature_for (encode (codes "h")) ∷ [] })

abbrev signature_bytes : Text
signature_bytes = replicate 31 0 ++ (5 ∷ (replicate 31 0 ++ (24 ∷ 1 ∷ [])))

send_token_batch-IsSigned_example :
    (resp : KeysignResponse) × (unsigned : Text) × (signature : Text) × (key_sign
        (codes "pk")
        (map encode (codes "h" ∷ []))
        2
      ≡ ok resp)
    × (eth.transfer (codes "t") (codes "r") 9 (some 4) ≡ ok unsigned)
    × IsSigned 101 resp.signatures (encode (eth.signing_hash unsigned)) signature
    × (decode (encode (eth.signing_hash unsigned)) ≡ some (eth.signing_hash unsigned))
    × (eth.with_signature signature unsigned ≡ ok (codes "x" ++ signature_bytes))
    × CameUp 4 (ok 3 ∷ ok 4 ∷ [])
    × IsAccepted (ok tt)
unfolding tss_sign_batch send_token_batch encode load store serialize_sig decode value_from
    copy_before text_eq
send_token_batch-IsSigned_example =
    send_token_batch-IsSigned eth token_answers key_sign (codes "h" ∷ []) (codes "pk") 2
      (some ((encode (codes "h"), signature_bytes) ∷ [])) (codes "p") (codes "r") (codes "t") 9 4
      (codes "x" ++ signature_bytes) refl refl
