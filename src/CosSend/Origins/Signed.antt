-- ===== src/CosSend/Origins/Signed.antt =====
-- What the signed transactions of a batch of deposits are made from.
use joltifychain_bridge.Base.{
  ℕ, ◌≡◌, ◌⊎◌, refl, sym, subst, arith, Option, none, some, List, [], ◌∷◌, Text, All, text_eq,
  Bool-cases, inl, inr, false, length, ◌==◌,
}
use joltifychain_bridge.Base.SyncMap.{SyncMap, load, store}
use joltifychain_bridge.Base.SyncMap.Laws.{load-store}
use joltifychain_bridge.Base.Outcome.{Outcome, ok, err, panic, bound, ok_injective}
use joltifychain_bridge.Signatures.Serialize.{Signature, serialize_sig}
use joltifychain_bridge.CosSend.TxConfig.{SignatureV2, KeysignResponse, TxConfig, TxAnswers}
use joltifychain_bridge.CosSend.Origins.{IsFor, UnsignedFor, unsigned_txs-All}
use joltifychain_bridge.CosSend.Batch.{
  SeqMap, store_at, Unsigned, unsigned_txs, builder_map, with_signature, place_signature, place_all,
  signed_txs, batch_gen_send_tx,
}

module _ (config : TxConfig) (answers : TxAnswers) where
  builder_map-All :
      (P : Unsigned config answers → Type 0) (entries : List (Text × Unsigned config answers))
      (m : SyncMap (Unsigned config answers))
      → All (λ e. P e.1) entries
      → ((k : Text) (u : Unsigned config answers) → load k m ≡ some u → P u)
      → (k : Text) (u : Unsigned config answers)
      → load k (builder_map config answers entries m) ≡ some u
      → P u
  unfolding builder_map
  builder_map-All P [] m h old k u found = old k u found
  builder_map-All P ((msg, unsigned) ∷ entries) m (h, hs) old k u found =
      builder_map-All P entries (store msg unsigned m) hs stored k u found
    where
      stored :
          (k : Text) (u : Unsigned config answers) → load k (store msg unsigned m) ≡ some u → P u
      stored k u found =
          let at_store = load-store msg k unsigned m in
          elim (Bool-cases (text_eq msg k)) [
            | inl e ↦ let same : unsigned ≡ u = ground (arith, at_store) in subst P same h
            | inr e ↦ old k u (ground (arith, at_store))
          ]

  -- Each transaction is made from the message of its sequence.
  abbrev pub AllFor : ℕ → List config.Msg → SeqMap config.TxBuilder → Type 0
  AllFor start msgs builders = All (λ e. IsFor config answers start msgs e.0 e.1) builders

  store_at-All :
      {V : Type 0} (P : ℕ → V → Type 0) (k : ℕ) (v : V) (m : SeqMap V)
      → P k v
      → All (λ e. P e.0 e.1) m
      → All (λ e. P e.0 e.1) (store_at k v m)
  unfolding store_at
  store_at-All P k v [] h hs = (h, tt)
  store_at-All P k v ((j, w) ∷ m) h (h0, hs) = elim (Bool-cases (j == k)) [
    | inl e ↦ let same : k ≡ j = ground arith in rw e (subst (λ i. P i v) same h, hs)
    | inr e ↦ rw e (h0, store_at-All P k v m h hs)
  ]

  with_signature-signed :
      (r : Outcome config.TxBuilder) (unsigned signed : config.TxBuilder)
      → with_signature config answers r unsigned ≡ ok signed
      → (signed ≡ unsigned) ⊎ (r ≡ ok signed)
  unfolding with_signature
  with_signature-signed (ok b) unsigned signed h = inr h
  with_signature-signed (err e) unsigned signed h = inl (sym (ok_injective h))
  with_signature-signed panic unsigned signed h = absurd (cc h)

  place_signature-AllFor :
      (start : ℕ) (msgs : List config.Msg) (key : Text) (signature : Outcome Text)
      (unsigned : Option (Unsigned config answers)) (m after : SeqMap config.TxBuilder)
      → ((u : Unsigned config answers)
          → unsigned ≡ some u
          → UnsignedFor config answers start msgs u)
      → place_signature config answers key signature unsigned m ≡ ok after
      → AllFor start msgs m
      → AllFor start msgs after
  unfolding place_signature
  place_signature-AllFor start msgs key (err e) unsigned m after from h old =
      subst (AllFor start msgs) (ok_injective h) old
  place_signature-AllFor start msgs key panic unsigned m after from h old = absurd (cc h)
  place_signature-AllFor start msgs key (ok signature) none m after from h old = absurd (cc h)
  place_signature-AllFor start msgs key (ok signature) (some u) m after from h old =
      let sig : SignatureV2 = record {
        pub_key = key;
        signature = some signature;
        sequence = u.sequence;
      } in
      let (signed, e_signed, e_after) =
        bound (with_signature config answers (config.set_signatures sig u.tx_builder) u.tx_builder)
          _ after h in
      let how : (signed ≡ u.tx_builder)
          ⊎ ((sig : SignatureV2) × (config.set_signatures sig u.tx_builder ≡ ok signed)) =
        elim (with_signature-signed (config.set_signatures sig u.tx_builder) u.tx_builder signed
          e_signed) [ inl same ↦ inl same | inr set ↦ inr (sig, set) ] in
      subst (AllFor start msgs) (ok_injective e_after) (
        store_at-All (IsFor config answers start msgs) u.sequence signed m
          (u.tx_builder, from u refl, how) old)

  place_all-AllFor :
      (start : ℕ) (msgs : List config.Msg) (key : Text)
      (builders : SyncMap (Unsigned config answers)) (signatures : List Signature)
      (m after : SeqMap config.TxBuilder)
      → ((k : Text) (u : Unsigned config answers)
          → load k builders ≡ some u
          → UnsignedFor config answers start msgs u)
      → place_all config answers key builders signatures m ≡ ok after
      → AllFor start msgs m
      → AllFor start msgs after
  unfolding place_all
  place_all-AllFor start msgs key builders [] m after from h old =
      subst (AllFor start msgs) (ok_injective h) old
  place_all-AllFor start msgs key builders (el ∷ signatures) m after from h old =
      let (now, e_now, e_after) =
        bound
          (place_signature config answers key (serialize_sig config.order el false)
            (load el.msg builders) m)
          _ after h in
      place_all-AllFor start msgs key builders signatures now after from e_after (
        place_signature-AllFor start msgs key (serialize_sig config.order el false)
          (load el.msg builders) m now (λ u found. from el.msg u found) e_now old)

  signed_txs-AllFor :
      (start : ℕ) (msgs : List config.Msg) (key : Text)
      (entries : List (Text × Unsigned config answers)) (resp : KeysignResponse)
      (after : SeqMap config.TxBuilder)
      → All (λ e. UnsignedFor config answers start msgs e.1) entries
      → signed_txs config answers key entries resp ≡ ok after
      → AllFor start msgs after
  unfolding signed_txs load
  signed_txs-AllFor start msgs key entries resp after from h = elim (Bool-cases resp.success) [
    | inr e ↦ subst (AllFor start msgs) (ok_injective (rw e at h)) tt
    | inl e ↦ elim (Bool-cases (length resp.signatures == length entries)) [
      | inr differ ↦ absurd (cc (rw differ at (rw e at h)))
      | inl same ↦
          place_all-AllFor start msgs key (builder_map config answers entries []) resp.signatures []
            after
            (builder_map-All (UnsignedFor config answers start msgs) entries [] from
              (λ k u found. absurd (cc found)))
            (rw same at (rw e at h)) tt
    ]
  ]

  -- Each transaction of a batch is made from the message of its sequence, where the messages are
  -- numbered from the sequence of the account on.
  pub batch_gen_send_tx-AllFor :
      (msgs : List config.Msg) (acc_seq acc_num gas : ℕ) (pk : Text)
      (builders : SeqMap config.TxBuilder)
      → batch_gen_send_tx config answers msgs acc_seq acc_num gas pk ≡ ok builders
      → AllFor acc_seq msgs builders
  unfolding batch_gen_send_tx
  batch_gen_send_tx-AllFor msgs acc_seq acc_num gas pk builders h =
      let (key, e_key, h1) = bound (config.unmarshal_pub_key pk) _ builders h in
      let (entries, e_entries, h2) =
        bound (unsigned_txs config answers key acc_num gas acc_seq msgs) _ builders h1 in
      let (resp, e_resp, h3) = bound (answers.key_sign pk _) _ builders h2 in
      signed_txs-AllFor acc_seq msgs key entries resp builders
        (unsigned_txs-All config answers key acc_num gas acc_seq msgs entries e_entries) h3
