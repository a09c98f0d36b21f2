-- ===== src/CosSend/Origins.antt =====
-- What the transactions of a batch of deposits are made from: batchGenSendTx (cosbridge/bridge.go).
pub mod Signed
use joltifychain_bridge.Base.{
  ℕ, ◌+◌, ◌%◌, ◌^◌, ◌≡◌, ◌⊎◌, refl, sym, ap, ◌∙◌, subst, arith, Option, none, some, List, [], ◌∷◌,
  Text, All, text_eq, Bool-cases, inl, inr, false, length, ◌==◌,
}
use joltifychain_bridge.Base.SyncMap.{SyncMap, load, store}
use joltifychain_bridge.Base.SyncMap.Laws.{load-store}
use joltifychain_bridge.Base.Outcome.{Outcome, ok, err, panic, bound, ok_injective}
use joltifychain_bridge.Signatures.Base64.{encode}
use joltifychain_bridge.Signatures.Serialize.{Signature, serialize_sig}
use joltifychain_bridge.CosSend.TxConfig.{SignatureV2, KeysignResponse, TxConfig, TxAnswers}
use joltifychain_bridge.CosSend.Batch.{
  SeqMap, store_at, Unsigned, or_skip, to_sign, with_unsigned, unsigned_txs, builder_map,
  with_signature, place_signature, place_all, signed_txs, batch_gen_send_tx,
}

-- The element of a list that has this number, when they are numbered from one number on, in 64 bits.
unfoldable pub Numbered : {A : Type 0} → ℕ → List A → ℕ → A → Type 0
Numbered start [] n a = ⊥
Numbered start (x ∷ xs) n a = ((n ≡ start) × (a ≡ x)) ⊎ Numbered ((start + 1) % 2 ^ 64) xs n a

module _ (config : TxConfig) (answers : TxAnswers) where
  -- A transaction that is made from the message of its sequence and waits for its signature.
  pub record IsUnsigned (start : ℕ) (msgs : List config.Msg) (sequence : ℕ)
      (unsigned : config.TxBuilder) : Type 0 where
    pub msg : config.Msg
    pub numbered : Numbered start msgs sequence msg
    pub built : config.TxBuilder
    pub holds_msg : config.set_msgs (msg ∷ []) ≡ ok built
    pub key : Text
    pub gas : ℕ
    pub at_sequence :
        config.set_signatures
          (record { pub_key = key; signature = none; sequence = sequence })
          (config.set_gas_limit gas built)
        ≡ ok unsigned

  -- Such a transaction with a signature, or without where it does not take the signature.
  abbrev pub IsFor : ℕ → List config.Msg → ℕ → config.TxBuilder → Type 0
  IsFor start msgs sequence builder =
      (unsigned : config.TxBuilder) × IsUnsigned start msgs sequence unsigned
      × ((builder ≡ unsigned)
          ⊎ ((sig : SignatureV2) × (config.set_signatures sig unsigned ≡ ok builder)))

  abbrev pub UnsignedFor : ℕ → List config.Msg → Unsigned config answers → Type 0
  UnsignedFor start msgs u = IsUnsigned start msgs u.sequence u.tx_builder

  or_skip-some :
      {A B : Type 0} (r : Outcome A) (f : A → Outcome (Option B)) (b : B)
      → or_skip r f ≡ ok (some b)
      → (a : A) × (r ≡ ok a) × (f a ≡ ok (some b))
  unfolding or_skip
  or_skip-some (ok a) f b h = (a, refl, h)
  or_skip-some (err e) f b h = absurd (cc h)
  or_skip-some panic f b h = absurd (cc h)

  to_sign-sequence :
      (key : Text) (acc_num sequence : ℕ) (builder : config.TxBuilder)
      (entry : Text × Unsigned config answers)
      → to_sign config answers key acc_num sequence builder ≡ ok (some entry)
      → (entry.1.sequence ≡ sequence)
        × (config.set_signatures
              (record { pub_key = key; signature = none; sequence = sequence })
              builder
            ≡ ok entry.1.tx_builder)
  unfolding to_sign
  to_sign-sequence key acc_num sequence builder entry h =
      let (unsigned, e_unsigned, h1) =
        or_skip-some
          (config.set_signatures (record { pub_key = key; signature = none; sequence = sequence })
            builder)
          (λ unsigned. or_skip (config.get_sign_bytes acc_num sequence unsigned) (end_of unsigned))
          entry h in
      let (sign_bytes, e_bytes, h2) =
        or_skip-some (config.get_sign_bytes acc_num sequence unsigned) (end_of unsigned) entry h1 in
      let made : end_of unsigned sign_bytes ≡ ok (some entry) = h2 in
      (ap (sequence_of sequence) (sym made), e_unsigned ∙ ap ok (ap (builder_of unsigned) made))
    where
      end_of : config.TxBuilder → Text → Outcome (Option (Text × Unsigned config answers))
      end_of unsigned sign_bytes = ok (
          some (
            encode (config.sha256 sign_bytes),
            record { tx_builder = unsigned; sequence = sequence },
          ))

      sequence_of : ℕ → Outcome (Option (Text × Unsigned config answers)) → ℕ
      sequence_of n (ok (some e)) = e.1.sequence
      sequence_of n (ok none) = n
      sequence_of n (err e) = n
      sequence_of n panic = n

      builder_of :
          config.TxBuilder → Outcome (Option (Text × Unsigned config answers)) → config.TxBuilder
      builder_of b (ok (some e)) = e.1.tx_builder
      builder_of b (ok none) = b
      builder_of b (err e) = b
      builder_of b panic = b

  later :
      (start : ℕ) (msg : config.Msg) (msgs : List config.Msg)
      (entries : List (Text × Unsigned config answers))
      → All (λ e. UnsignedFor ((start + 1) % 2 ^ 64) msgs e.1) entries
      → All (λ e. UnsignedFor start (msg ∷ msgs) e.1) entries
  unfolding Numbered
  later start msg msgs [] h = tt
  later start msg msgs (e ∷ entries) (h, hs) = (
    record {
      msg = h.msg;
      numbered = inr h.numbered;
      built = h.built;
      holds_msg = h.holds_msg;
      key = h.key;
      gas = h.gas;
      at_sequence = h.at_sequence;
    },
    later start msg msgs entries hs,
  )

  pub unsigned_txs-All :
      (key : Text) (acc_num gas start : ℕ) (msgs : List config.Msg)
      (entries : List (Text × Unsigned config answers))
      → unsigned_txs config answers key acc_num gas start msgs ≡ ok entries
      → All (λ e. UnsignedFor start msgs e.1) entries
  unfolding unsigned_txs with_unsigned Numbered
  unsigned_txs-All key acc_num gas start [] entries h =
      subst (All (λ e. UnsignedFor start [] e.1)) (ok_injective h) tt
  unsigned_txs-All key acc_num gas start (msg ∷ msgs) entries h =
      let (built, e_built, h1) = bound (config.set_msgs (msg ∷ [])) _ entries h in
      let (entry, e_entry, h2) =
        bound (to_sign config answers key acc_num start (config.set_gas_limit gas built)) _ entries
          h1 in
      let (rest, e_rest, h3) =
        bound (unsigned_txs config answers key acc_num gas ((start + 1) % 2 ^ 64) msgs) _ entries
          h2 in
      subst (All (λ e. UnsignedFor start (msg ∷ msgs) e.1)) (ok_injective h3) (
        added built e_built entry e_entry rest (
          later start msg msgs rest
            (unsigned_txs-All key acc_num gas ((start + 1) % 2 ^ 64) msgs rest e_rest)))
    where
      added :
          (built : config.TxBuilder)
          → config.set_msgs (msg ∷ []) ≡ ok built
          → (entry : Option (Text × Unsigned config answers))
          → to_sign config answers key acc_num start (config.set_gas_limit gas built) ≡ ok entry
          → (rest : List (Text × Unsigned config answers))
          → All (λ e. UnsignedFor start (msg ∷ msgs) e.1) rest
          → All (λ e. UnsignedFor start (msg ∷ msgs) e.1) (with_unsigned config answers entry rest)
      added built e_built none e_entry rest h = h
      added built e_built (some entry) e_entry rest h =
          let (e_sequence, e_unsigned) =
            to_sign-sequence key acc_num start (config.set_gas_limit gas built) entry e_entry in
          (
            record {
              msg = msg;
              numbered = inl (e_sequence, refl);
              built = built;
              holds_msg = e_built;
              key = key;
              gas = gas;
              at_sequence = rw e_sequence e_unsigned;
            },
            h,
          )
