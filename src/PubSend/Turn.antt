-- ===== src/PubSend/Turn.antt =====
-- When a transfer of a token goes out, and with which signature.
use mathlib.Core.List.{Mem, mem-cons_self, mem-cons_of_mem}
use joltifychain_bridge.Base.{
  ℕ, ◌≡◌, refl, sym, subst, ◌∙◌, ap, arith, Bool, true, false, Option, none, some, List, [], ◌∷◌,
  Text, text_eq, text_eq_iff, map, ◌++◌, ◌⊎◌, All, ◌==◌, ◌<◌, ltb, inl, inr, Bool-cases,
}
use joltifychain_bridge.Base.Outcome.{
  Outcome, ok, err, panic, ok_injective, bound, not_our_round, Done, Fault, already_known,
}
use joltifychain_bridge.Base.SyncMap.{SyncMap, load, store}
use joltifychain_bridge.Base.SyncMap.Laws.{load-store}
use joltifychain_bridge.PubSend.{wait_to_send}
use joltifychain_bridge.Signatures.Base64.{encode, decode}
use joltifychain_bridge.Signatures.RoundTrip.{decode-encode}
use joltifychain_bridge.Signatures.Serialize.{Signature, serialize_sig}
use joltifychain_bridge.CosSend.TxConfig.{KeysignResponse}
use joltifychain_bridge.PubSend.Laws.{Waits}
use joltifychain_bridge.PubSend.Token.{
  EthTx, TokenAnswers, with_serialized, signature_map, signatures_of, tss_sign_batch,
  send_transaction_with_lock, chain_known, batch_signature, batch_signer, from_sender, ready_tx,
  wait_for_nonce, send_ready, send_token_batch,
}

-- The service signed the message, and this is its signature in bytes.
pub record IsSigned (order : ℕ) (signatures : List Signature) (msg signature : Text) : Type 0 where
  pub sig : Signature
  pub among : Mem sig signatures
  pub for_msg : sig.msg ≡ msg
  pub serialized : serialize_sig order sig true ≡ ok signature

abbrev AllSigned : ℕ → List Signature → SyncMap Text → Type 0
AllSigned order signatures m =
    (msg signature : Text) → load msg m ≡ some signature → IsSigned order signatures msg signature

module _ (order : ℕ) (all : List Signature) where
  with_serialized-AllSigned :
      (sig : Signature) (serialized : Outcome Text) (m after : SyncMap Text)
      → Mem sig all
      → serialize_sig order sig true ≡ serialized
      → with_serialized sig.msg serialized m ≡ ok after
      → AllSigned order all m
      → AllSigned order all after
  unfolding with_serialized
  with_serialized-AllSigned sig (err e) m after among e_sig h old =
      subst (AllSigned order all) (ok_injective h) old
  with_serialized-AllSigned sig panic m after among e_sig h old = absurd (cc h)
  with_serialized-AllSigned sig (ok bytes) m after among e_sig h old =
      subst (AllSigned order all) (ok_injective h) stored
    where
      stored : AllSigned order all (store sig.msg bytes m)
      stored msg signature found = elim (Bool-cases (text_eq sig.msg msg)) [
        | inl e ↦
            let same : bytes ≡ signature = ground (arith, load-store sig.msg msg bytes m) in
            record {
              sig = sig;
              among = among;
              for_msg = (text_eq_iff sig.msg msg).0 e;
              serialized = e_sig ∙ ap ok same;
            }
        | inr e ↦
            let kept : load msg m ≡ some signature =
              ground (arith, load-store sig.msg msg bytes m) in
            old msg signature kept
      ]

  signature_map-AllSigned :
      (signatures : List Signature) (m after : SyncMap Text)
      → ((sig : Signature) → Mem sig signatures → Mem sig all)
      → signature_map order signatures m ≡ ok after
      → AllSigned order all m
      → AllSigned order all after
  unfolding signature_map
  signature_map-AllSigned [] m after within h old = subst (AllSigned order all) (ok_injective h) old
  signature_map-AllSigned (sig ∷ signatures) m after within h old =
      let (now, e_now, e_after) =
        bound (with_serialized sig.msg (serialize_sig order sig true) m) _ after h in
      signature_map-AllSigned signatures now after (λ s among. within s (mem-cons_of_mem sig among))
        e_after
        (with_serialized-AllSigned sig (serialize_sig order sig true) m now
          (within sig mem-cons_self) refl e_now old)

signatures_of-AllSigned :
    (order : ℕ) (success : Bool) (signatures : List Signature) (m : SyncMap Text)
    → signatures_of order success signatures ≡ ok (some m)
    → AllSigned order signatures m
unfolding signatures_of load
signatures_of-AllSigned order false signatures m h = absurd (cc h)
signatures_of-AllSigned order true signatures m h =
    let (after, e_after, e_m) = bound (signature_map order signatures []) _ (some m) h in
    let same : after ≡ m = cc e_m in
    subst (AllSigned order signatures) same (
      signature_map-AllSigned order signatures signatures [] after (λ s among. among) e_after
        (λ msg signature found. absurd (cc found)))

-- The node took the transaction, or knew it already.
abbrev pub IsAccepted : Outcome Done → Type 0
IsAccepted answer = (answer ≡ ok tt) ⊎ (answer ≡ err already_known)

accepted_known : (e : Fault) → send_transaction_with_lock (err e) ≡ ok tt → e ≡ already_known
unfolding send_transaction_with_lock
accepted_known e h = ground arith

send_transaction_with_lock-IsAccepted :
    (answer : Outcome Done) → send_transaction_with_lock answer ≡ ok tt → IsAccepted answer
unfolding send_transaction_with_lock
send_transaction_with_lock-IsAccepted (ok done) h = inl refl
send_transaction_with_lock-IsAccepted (err e) h = inr (ap err (accepted_known e h))
send_transaction_with_lock-IsAccepted panic h = absurd (cc h)

-- The nonce that was waited for came, after errors and smaller nonces only.
abbrev pub CameUp : ℕ → List (Outcome ℕ) → Type 0
CameUp nonce answers =
    (before : List (Outcome ℕ)) × (after : List (Outcome ℕ)) × (answers
      ≡ before ++ (ok nonce ∷ after))
    × All (Waits nonce) before

wait_to_send-CameUp :
    (last : Fault) (answers : List (Outcome ℕ)) (target : ℕ)
    → wait_to_send last answers target ≡ ok tt
    → CameUp target answers
unfolding wait_to_send
wait_to_send-CameUp last [] target h = absurd (cc h)
wait_to_send-CameUp last (panic ∷ answers) target h = absurd (cc h)
wait_to_send-CameUp last (err e ∷ answers) target h =
    let (before, after, same, waits) = wait_to_send-CameUp e answers target h in
    (err e ∷ before, after, ap (λ l. err e ∷ l) same, (tt, waits))
wait_to_send-CameUp last (ok nonce ∷ answers) target h = elim (Bool-cases (nonce == target)) [
  | inl e ↦
      let same : nonce ≡ target = ground arith in ([], answers, ap (λ n. ok n ∷ answers) same, tt)
  | inr e ↦ elim (Bool-cases (ltb target nonce)) [
    | inl passed ↦ absurd (cc (rw passed at (rw e at h)))
    | inr early ↦
        let less : nonce < target = ground arith in
        let (before, after, same, waits) =
          wait_to_send-CameUp not_our_round answers target (rw early at (rw e at h)) in
        (ok nonce ∷ before, after, ap (λ l. ok nonce ∷ l) same, (less, waits))
  ]
]

module _ (eth : EthTx) (answers : TokenAnswers eth) where
  send_ready-inv :
      (target : ℕ) (ready : Outcome eth.Tx) (tx : eth.Tx)
      → send_ready eth answers (some target) ready ≡ (some tx, ok tt)
      → (ready ≡ ok tx)
        × (wait_to_send not_our_round answers.pending_nonces target ≡ ok tt)
        × (send_transaction_with_lock (answers.send_transaction tx) ≡ ok tt)
  unfolding send_ready wait_for_nonce
  send_ready-inv target (err e) tx h = absurd (cc (ap (λ p. p.1) h))
  send_ready-inv target panic tx h = absurd (cc (ap (λ p. p.1) h))
  send_ready-inv target (ok tx') tx h =
      let same : tx' ≡ tx = cc (ap (λ p. p.0) h) in
      let (waited, e_wait, e_send) =
        bound (wait_to_send not_our_round answers.pending_nonces target) _ tt (ap (λ p. p.1) h) in
      (
        ap ok same,
        e_wait,
        ap (λ t. send_transaction_with_lock (answers.send_transaction t)) (sym same) ∙ e_send,
      )

  ready-signed :
      (signatures : Option (SyncMap Text)) (sender receiver token_addr : Text) (amount : ℕ)
      (nonce : Option ℕ) (tx : eth.Tx)
      → ready_tx eth answers
          (batch_signer eth signatures sender)
          token_addr
          sender
          receiver
          amount
          nonce
        ≡ ok tx
      → (unsigned : eth.Tx) × (signature : Text) × (eth.transfer token_addr receiver amount nonce
          ≡ ok unsigned)
        × (batch_signature eth signatures (eth.signing_hash unsigned) ≡ ok signature)
        × (eth.with_signature signature unsigned ≡ ok tx)
  unfolding ready_tx batch_signer
  ready-signed signatures sender receiver token_addr amount nonce tx h =
      let (known, e_known, h1) = bound (chain_known eth answers.chain_id) _ tx h in
      let (token, e_token, h2) = bound answers.new_token _ tx h1 in
      let (unsigned, e_unsigned, h3) =
        bound (eth.transfer token_addr receiver amount nonce) _ tx h2 in
      let (same, e_same, h4) = bound (from_sender eth sender sender) _ tx h3 in
      let (signature, e_signature, h5) =
        bound (batch_signature eth signatures (eth.signing_hash unsigned)) _ tx h4 in
      (unsigned, signature, e_unsigned, e_signature, h5)

  from_batch :
      (m : SyncMap Text) (msg signature : Text)
      → batch_signature eth (some m) msg ≡ ok signature
      → load (encode msg) m ≡ some signature
  unfolding batch_signature
  from_batch m msg signature h = by_load (load (encode msg) m) refl
    where
      by_load : (l : Option Text) → load (encode msg) m ≡ l → load (encode msg) m ≡ some signature
      by_load none e = ground (arith, h, e)
      by_load (some sig) e = ground (arith, h, e)

  -- A transfer of a batch that SendTokenBatch reports as sent was composed for its receiver, amount
  -- and nonce, carries a signature that the signing service gave for the hash of this very
  -- transaction, whose message in base64 stands for no other hash, and went out when the pool's pending nonce was its own; the node took it or knew
  -- it already.
  pub send_token_batch-IsSigned :
      (key_sign : Text → List Text → ℕ → Outcome KeysignResponse) (msgs : List Text) (pk : Text)
      (block_height : ℕ) (signatures : Option (SyncMap Text)) (sender receiver token_addr : Text)
      (amount nonce : ℕ) (tx : eth.Tx)
      → tss_sign_batch eth.order key_sign msgs pk block_height ≡ ok signatures
      → send_token_batch eth answers signatures sender receiver amount (some nonce) token_addr
        ≡ (some tx, ok tt)
      → (resp : KeysignResponse) × (unsigned : eth.Tx) × (signature : Text) × (key_sign pk
            (map encode msgs)
            block_height
          ≡ ok resp)
        × (eth.transfer token_addr receiver amount (some nonce) ≡ ok unsigned)
        × IsSigned eth.order resp.signatures (encode (eth.signing_hash unsigned)) signature
        × (decode (encode (eth.signing_hash unsigned)) ≡ some (eth.signing_hash unsigned))
        × (eth.with_signature signature unsigned ≡ ok tx)
        × CameUp nonce answers.pending_nonces
        × IsAccepted (answers.send_transaction tx)
  unfolding tss_sign_batch send_token_batch batch_signature
  send_token_batch-IsSigned key_sign msgs pk block_height none sender receiver token_addr amount
        nonce tx e_batch e_sent =
      let sent = send_ready-inv nonce _ tx e_sent in
      let (unsigned, signature, e_unsigned, e_signature, e_tx) =
        ready-signed none sender receiver token_addr amount (some nonce) tx sent.0 in
      absurd (cc e_signature)
  send_token_batch-IsSigned key_sign msgs pk block_height (some m) sender receiver token_addr amount
        nonce tx e_batch e_sent =
      let sent = send_ready-inv nonce _ tx e_sent in
      let (unsigned, signature, e_unsigned, e_signature, e_tx) =
        ready-signed (some m) sender receiver token_addr amount (some nonce) tx sent.0 in
      let (resp, e_resp, e_m) =
        bound (key_sign pk (map encode msgs) block_height) _ (some m) e_batch in
      (
        resp,
        unsigned,
        signature,
        e_resp,
        e_unsigned,
        signatures_of-AllSigned eth.order resp.success resp.signatures m e_m
            (encode (eth.signing_hash unsigned)) signature
            (from_batch m (eth.signing_hash unsigned) signature e_signature),
        decode-encode (eth.signing_hash unsigned) (eth.signing_hash_bytes unsigned),
        e_tx,
        wait_to_send-CameUp not_our_round answers.pending_nonces nonce sent.1,
        send_transaction_with_lock-IsAccepted (answers.send_transaction tx) sent.2,
      )
