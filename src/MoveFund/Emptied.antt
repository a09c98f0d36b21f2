-- ===== src/MoveFund/Emptied.antt =====
-- When doMoveBNBFunds counts an account as empty.
use joltifychain_bridge.Base.{
  ℕ, ◌*◌, ◌/◌, ◌≤◌, ap, sym, subst, arith, none, ltb, true, false, Option, some, Text, ◌≡◌, ◌⊎◌,
  inl, inr, refl, Bool-cases,
}
use joltifychain_bridge.Base.Outcome.{
  Outcome, ok, err, panic, bound, ok_injective, Fault, already_passed, not_our_round,
}
use joltifychain_bridge.PubSend.{
  LegacyTx, FeeLimit, SendAnswers, get_fee_limit_with_lock, send_native_token_for_move_fund,
  signer_key, wait_to_send, default_native_gas, round_block,
}
use joltifychain_bridge.Common.Types.{PoolInfo}
use joltifychain_bridge.MoveFund.Native.{
  Moved, NativeAnswers, left_over, native_left, native_refused, native_sent, do_move_bnb_funds,
}

-- The account's native token was seen, in one of the two answers to the balance query, to be no more
-- than the fee of a transfer, at one of the two prices that were suggested.
abbrev pub SeenEmpty : NativeAnswers → Type 0
SeenEmpty answers =
    (balance : ℕ) × (price : ℕ) × ((answers.balance ≡ ok balance)
      ⊎ (answers.now_balance ≡ ok balance))
    × ((answers.suggested_gas_price ≡ ok price) ⊎ (answers.send.suggested_gas_price ≡ ok price))
    × (balance ≤ price * default_native_gas)

within_fee : (fee balance : ℕ) → ltb fee balance ≡ false → balance ≤ fee
within_fee fee balance h = ground arith

left_over-not : (moved : Moved) → ok left_over ≡ ok moved → moved.is_empty ≡ true → ⊥
left_over-not moved e is = cc (ap (λ (m : Moved). m.is_empty) (ok_injective e), is)

-- the balance after an attempt, where the account then counts as empty
now-SeenEmpty :
    (answers : NativeAnswers) (price balance : ℕ)
    → answers.suggested_gas_price ≡ ok price
    → answers.now_balance ≡ ok balance
    → ltb (price * default_native_gas) balance ≡ false
    → SeenEmpty answers
now-SeenEmpty answers price balance e_price e_now few =
    (balance, price, inr e_now, inl e_price, within_fee _ _ few)

native_left-SeenEmpty :
    (answers : NativeAnswers) (price : ℕ) (moved : Moved)
    → answers.suggested_gas_price ≡ ok price
    → native_left (price * default_native_gas) answers.now_balance ≡ ok moved
    → moved.is_empty ≡ true
    → SeenEmpty answers
unfolding native_left
native_left-SeenEmpty answers price moved e_price h is =
    let (balance, e_now, h1) = bound answers.now_balance _ moved h in
    elim (Bool-cases (ltb (price * default_native_gas) balance)) [
      | inl more ↦ absurd (left_over-not moved (rw more at h1) is)
      | inr few ↦ now-SeenEmpty answers price balance e_price e_now few
    ]

native_refused-SeenEmpty :
    (answers : NativeAnswers) (price : ℕ) (e : Fault) (moved : Moved)
    → answers.suggested_gas_price ≡ ok price
    → native_refused (price * default_native_gas) answers.now_balance e ≡ ok moved
    → SeenEmpty answers
unfolding native_refused
native_refused-SeenEmpty answers price already_passed moved e_price h =
    let (balance, e_now, h1) = bound answers.now_balance _ moved h in
    elim (Bool-cases (ltb (price * default_native_gas) balance)) [
      | inl more ↦ absurd (cc (rw more at h1))
      | inr few ↦ now-SeenEmpty answers price balance e_price e_now few
    ]
native_refused-SeenEmpty answers price other moved e_price h = absurd (cc h)

module _ (previous : PoolInfo) where
  nothing_sent :
      (last : Option PoolInfo) (receiver : Text) (amount nonce : ℕ) (answers : SendAnswers)
      → send_native_token_for_move_fund previous.pk last receiver amount nonce answers ≡ ok none
      → (price : ℕ) × (answers.suggested_gas_price ≡ ok price)
        × (amount ≤ price * default_native_gas)
  unfolding send_native_token_for_move_fund get_fee_limit_with_lock
  nothing_sent last receiver amount nonce answers h =
      let (fee, e_fee, h1) = bound (get_fee_limit_with_lock answers.suggested_gas_price) _ none h in
      let (price, e_price, e_limit) = bound answers.suggested_gas_price _ fee e_fee in
      let total : fee.total_fee ≡ price * default_native_gas =
        sym (ap (λ (f : FeeLimit). f.total_fee) (ok_injective e_limit)) in
      elim (Bool-cases (ltb fee.total_fee amount)) [
        | inl more ↦
            let sent = rw more at h1 in
            let (pk, e_pk, h2) = bound (signer_key previous.pk last) _ none sent in
            let (latest, e_latest, h3) = bound answers.latest_block _ none h2 in
            let (composed, e_composed, h4) =
              bound (answers.compose pk (latest / round_block)) _ none h3 in
            let (signed, e_signed, h5) = bound (answers.sign _) _ none h4 in
            let (waited, e_waited, h6) =
              bound (wait_to_send not_our_round answers.pending_nonces nonce) _ none h5 in
            let (out, e_out, h7) = bound (answers.send_transaction _) _ none h6 in absurd (cc h7)
        | inr few ↦ (price, e_price, omega (arith, total, within_fee fee.total_fee amount few))
      ]

  native_sent-SeenEmpty :
      (answers : NativeAnswers) (price balance nonce : ℕ) (last : Option PoolInfo) (receiver : Text)
      (sent : Outcome (Option LegacyTx)) (moved : Moved)
      → answers.suggested_gas_price ≡ ok price
      → answers.balance ≡ ok balance
      → send_native_token_for_move_fund previous.pk last receiver balance nonce answers.send ≡ sent
      → native_sent (price * default_native_gas) answers sent ≡ ok moved
      → moved.is_empty ≡ true
      → SeenEmpty answers
  unfolding native_sent
  native_sent-SeenEmpty answers price balance nonce last receiver (err e) moved e_price e_balance
        e_sent h is =
      native_refused-SeenEmpty answers price e moved e_price h
  native_sent-SeenEmpty answers price balance nonce last receiver panic moved e_price e_balance
        e_sent h is =
      absurd (cc h)
  native_sent-SeenEmpty answers price balance nonce last receiver (ok none) moved e_price e_balance
        e_sent h is =
      let (again, e_again, le) = nothing_sent last receiver balance nonce answers.send e_sent in
      (balance, again, inl e_balance, inr e_again, le)
  native_sent-SeenEmpty answers price balance nonce last receiver (ok (some tx)) moved e_price
        e_balance e_sent h is =
      let (checked, e_checked, h1) = bound answers.check_tx_status _ moved h in
      native_left-SeenEmpty answers price moved e_price h1 is

  pub do_move_bnb_funds-SeenEmpty :
      (last : Option PoolInfo) (receiver : Text) (answers : NativeAnswers) (moved : Moved)
      → do_move_bnb_funds previous last receiver answers ≡ ok moved
      → moved.is_empty ≡ true
      → SeenEmpty answers
  unfolding do_move_bnb_funds get_fee_limit_with_lock
  do_move_bnb_funds-SeenEmpty last receiver answers moved h is =
      let (balance, e_balance, h1) = bound answers.balance _ moved h in
      let (fee, e_fee, h2) =
        bound (get_fee_limit_with_lock answers.suggested_gas_price) _ moved h1 in
      let (price, e_price, e_limit) = bound answers.suggested_gas_price _ fee e_fee in
      let total : fee.total_fee ≡ price * default_native_gas =
        sym (ap (λ (f : FeeLimit). f.total_fee) (ok_injective e_limit)) in
      elim (Bool-cases (ltb fee.total_fee balance)) [
        | inl more ↦
            let (nonce, e_nonce, h3) = bound answers.pending_nonce _ moved (rw more at h2) in
            let sent =
              send_native_token_for_move_fund previous.pk last receiver balance nonce
                answers.send in
            native_sent-SeenEmpty answers price balance nonce last receiver sent moved e_price
              e_balance refl (subst (λ t. native_sent t answers sent ≡ ok moved) total h3) is
        | inr few ↦ (
          balance,
          price,
          inl e_balance,
          inl e_price,
          omega (arith, total, within_fee fee.total_fee balance few),
        )
      ]
