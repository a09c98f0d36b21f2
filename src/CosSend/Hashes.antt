-- ===== src/CosSend/Hashes.antt =====
-- What a hash of a batch of deposits says.
use joltifychain_bridge.Base.{
  ℕ, ◌≡◌, ◌≢◌, refl, sym, subst, ◌∙◌, arith, none, some, List, [], ◌∷◌, Text, ◌==◌, if◌then◌else◌,
  inl, inr, Bool-cases,
}
use joltifychain_bridge.Base.Outcome.{
  ok_injective, bound, Outcome, ok, err, panic, Done, query_failed,
}
use joltifychain_bridge.CosSend.TxConfig.{TxConfig, TxResponse, TxAnswers}
use joltifychain_bridge.CosSend.Gas.{gas_estimation}
use joltifychain_bridge.CosSend.Single.{wait_and_send, broadcast_tx}
use joltifychain_bridge.CosSend.Origins.{IsFor}
use joltifychain_bridge.CosSend.Origins.Signed.{AllFor, batch_gen_send_tx-AllFor}
use joltifychain_bridge.CosSend.Batch.{
  SeqMap, load_at, store_at, response_hash, broadcast_signed, send_encoded, send_all_signed,
  batch_gen_send_tx, batch_compose_and_send,
}

load_at-store_at :
    {V : Type 0} (k j : ℕ) (v : V) (m : SeqMap V)
    → load_at j (store_at k v m) ≡ (if k == j then some v else load_at j m)
unfolding load_at store_at
load_at-store_at k j v [] = refl
load_at-store_at k j v ((i, w) ∷ m) = ground (arith, load_at-store_at k j v m)

module _ (config : TxConfig) (answers : TxAnswers) (start : ℕ) (msgs : List config.Msg) where
  -- The chain took a transaction with this hash when the turn of the sequence had come, and it is
  -- made from the message of this sequence.
  pub record WasTaken (sequence : ℕ) (hash : Text) : Type 0 where
    pub builder : config.TxBuilder
    pub made_from : IsFor config answers start msgs sequence builder
    pub turn : wait_and_send query_failed (answers.sequences sequence) sequence ≡ ok tt
    pub tx_bytes : Text
    pub encoded : config.encode_tx builder ≡ ok tx_bytes
    pub resp : TxResponse
    pub broadcast : answers.broadcast tx_bytes ≡ ok resp
    pub accepted : resp.code ≡ 0
    pub hash_of : resp.tx_hash ≡ hash

  abbrev pub AllTaken : SeqMap Text → Type 0
  AllTaken hashes =
      (sequence : ℕ) (hash : Text)
      → load_at sequence hashes ≡ some hash
      → hash ≢ []
      → WasTaken sequence hash

  store-AllTaken :
      (sequence : ℕ) (hash : Text) (hashes : SeqMap Text)
      → (hash ≢ [] → WasTaken sequence hash)
      → AllTaken hashes
      → AllTaken (store_at sequence hash hashes)
  store-AllTaken sequence hash hashes new old j other found nonempty =
      elim (Bool-cases (sequence == j)) [
        | inl e ↦
            let same : sequence ≡ j = ground arith in
            let stored : hash ≡ other = ground (arith, load_at-store_at sequence j hash hashes) in
            subst (λ i. WasTaken i other) same
              (subst (WasTaken sequence) stored (new (λ empty. nonempty (sym stored ∙ empty))))
        | inr e ↦
            let kept : load_at j hashes ≡ some other =
              ground (arith, load_at-store_at sequence j hash hashes) in
            old j other kept nonempty
      ]

  broadcast-taken :
      (builder : config.TxBuilder) (sequence : ℕ) (tx_bytes : Text) (resp : Outcome TxResponse)
      (hash : Text)
      → IsFor config answers start msgs sequence builder
      → config.encode_tx builder ≡ ok tx_bytes
      → wait_and_send query_failed (answers.sequences sequence) sequence ≡ ok tt
      → answers.broadcast tx_bytes ≡ resp
      → response_hash (broadcast_tx resp) ≡ ok hash
      → hash ≢ []
      → WasTaken sequence hash
  unfolding response_hash broadcast_tx
  broadcast-taken builder sequence tx_bytes (err e) hash from e_bytes turn e_resp h nonempty =
      absurd (nonempty (cc h))
  broadcast-taken builder sequence tx_bytes panic hash from e_bytes turn e_resp h nonempty =
      absurd (cc h)
  broadcast-taken builder sequence tx_bytes (ok resp) hash from e_bytes turn e_resp h nonempty =
      elim (Bool-cases (resp.code == 19)) [
        | inl known ↦ absurd (nonempty (sym (ok_injective (rw known at h))))
        | inr new ↦ elim (Bool-cases (resp.code == 0)) [
          | inl zero_code ↦ record {
            builder = builder;
            made_from = from;
            turn = turn;
            tx_bytes = tx_bytes;
            encoded = e_bytes;
            resp = resp;
            broadcast = e_resp;
            accepted = ground arith;
            hash_of = ok_injective (rw zero_code at (rw new at h));
          }
          | inr refused ↦ absurd (nonempty (sym (ok_injective (rw refused at (rw new at h)))))
        ]
      ]

  broadcast_signed-AllTaken :
      (builder : config.TxBuilder) (sequence : ℕ) (tx_bytes : Text) (turn : Outcome Done)
      (hashes after : SeqMap Text)
      → IsFor config answers start msgs sequence builder
      → config.encode_tx builder ≡ ok tx_bytes
      → wait_and_send query_failed (answers.sequences sequence) sequence ≡ turn
      → broadcast_signed config answers turn sequence tx_bytes hashes ≡ ok after
      → AllTaken hashes
      → AllTaken after
  unfolding broadcast_signed
  broadcast_signed-AllTaken builder sequence tx_bytes (err e) hashes after from e_bytes e_turn h
        old =
      subst AllTaken (ok_injective h) old
  broadcast_signed-AllTaken builder sequence tx_bytes panic hashes after from e_bytes e_turn h old =
      absurd (cc h)
  broadcast_signed-AllTaken builder sequence tx_bytes (ok done) hashes after from e_bytes e_turn h
        old =
      let (hash, e_hash, e_after) =
        bound (response_hash (broadcast_tx (answers.broadcast tx_bytes))) _ after h in
      subst AllTaken (ok_injective e_after) (
        store-AllTaken sequence hash hashes
          (broadcast-taken builder sequence tx_bytes (answers.broadcast tx_bytes) hash from e_bytes
            e_turn refl e_hash)
          old)

  send_encoded-AllTaken :
      (builder : config.TxBuilder) (tx_bytes : Outcome Text) (sequence : ℕ)
      (hashes after : SeqMap Text)
      → IsFor config answers start msgs sequence builder
      → config.encode_tx builder ≡ tx_bytes
      → send_encoded config answers tx_bytes sequence hashes ≡ ok after
      → AllTaken hashes
      → AllTaken after
  unfolding send_encoded
  send_encoded-AllTaken builder (err e) sequence hashes after from e_bytes h old =
      subst AllTaken (ok_injective h)
        (store-AllTaken sequence [] hashes (λ nonempty. absurd (nonempty refl)) old)
  send_encoded-AllTaken builder panic sequence hashes after from e_bytes h old = absurd (cc h)
  send_encoded-AllTaken builder (ok tx_bytes) sequence hashes after from e_bytes h old =
      broadcast_signed-AllTaken builder sequence tx_bytes _ hashes after from e_bytes refl h old

  send_all_signed-AllTaken :
      (builders : SeqMap config.TxBuilder) (hashes after : SeqMap Text)
      → AllFor config answers start msgs builders
      → send_all_signed config answers builders hashes ≡ ok after
      → AllTaken hashes
      → AllTaken after
  unfolding send_all_signed
  send_all_signed-AllTaken [] hashes after from h old = subst AllTaken (ok_injective h) old
  send_all_signed-AllTaken ((sequence, el) ∷ builders) hashes after (from, more) h old =
      let (now, e_now, e_after) =
        bound (send_encoded config answers (config.encode_tx el) sequence hashes) _ after h in
      send_all_signed-AllTaken builders now after more e_after
        (send_encoded-AllTaken el (config.encode_tx el) sequence hashes now from refl e_now old)

  pub nothing_taken : AllTaken []
  unfolding load_at
  nothing_taken sequence hash found nonempty = absurd (cc found)

  -- A hash that a batch of deposits comes back with is the hash of a transaction that the chain
  -- took with code 0, after the account had reached the sequence that the hash stands for, and that is
  -- made from the message of this sequence.
  pub batch_compose_and_send-taken :
      (acc_num : ℕ) (pk : Text) (hashes : SeqMap Text)
      → batch_compose_and_send config answers msgs start acc_num pk ≡ ok hashes
      → (sequence : ℕ) (hash : Text) → load_at sequence hashes ≡ some hash
      → hash ≢ []
      → WasTaken sequence hash
  unfolding batch_compose_and_send
  batch_compose_and_send-taken acc_num pk hashes h =
      let (gas, e_gas, composed) =
        bound (gas_estimation config answers msgs start none) _ hashes h in
      let (builders, e_builders, sent) =
        bound (batch_gen_send_tx config answers msgs start acc_num gas pk) _ hashes composed in
      send_all_signed-AllTaken builders [] hashes
        (batch_gen_send_tx-AllFor config answers msgs start acc_num gas pk builders e_builders) sent
        nothing_taken
