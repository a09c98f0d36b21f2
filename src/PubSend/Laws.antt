-- ===== src/PubSend/Laws.antt =====
-- What the sends to the public chain keep.
use joltifychain_bridge.Base.{
  ℕ, ◌+◌, ◌*◌, ◌/◌, ◌<◌, ◌≤◌, ◌≡◌, refl, ◌∙◌, ◌-◌, true, false, Option, none, some, List, [], ◌∷◌,
  ◌++◌, Text, ltb, arith, All,
}
use joltifychain_bridge.Base.Outcome.{Outcome, ok, err, panic, Fault, already_passed}
use joltifychain_bridge.Common.Types.{PoolInfo}
use joltifychain_bridge.PubSend.{
  LegacyTx, SendAnswers, wait_to_send, signer_key, send_native_token_for_move_fund,
  default_native_gas, round_block, get_fee_limit_with_lock, not_our_round,
}

-- An answer that makes the sender wait: an error, or a nonce below the one it waits for.
abbrev pub Waits : ℕ → Outcome ℕ → Type 0
Waits target (ok nonce) = nonce < target
Waits target (err e) = Unit {0}
Waits target panic = ⊥

wait_step :
    (last : Fault) (target n : ℕ) (answers : List (Outcome ℕ))
    → n < target
    → wait_to_send last (ok n ∷ answers) target ≡ wait_to_send not_our_round answers target
unfolding wait_to_send
wait_step last target n answers lt = ground arith

ltb-true : (a b : ℕ) → a < b → ltb a b ≡ true
ltb-true a b lt = ground arith

ltb-false : (a b : ℕ) → b ≤ a → ltb a b ≡ false
ltb-false a b le = ground arith

-- After answers that make it wait, the first nonce that is not below the target ends the wait: the
-- target itself lets the transaction go, a greater one is refused as passed. If no such nonce
-- comes, the wait ends in an error.
pub wait_to_send-settles :
    (target : ℕ) (before : List (Outcome ℕ))
    → All (Waits target) before
    → (last : Fault)
    → ((after : List (Outcome ℕ))
        → wait_to_send last (before ++ (ok target ∷ after)) target ≡ ok tt)
      × ((nonce : ℕ) (after : List (Outcome ℕ))
          → target < nonce
          → wait_to_send last (before ++ (ok nonce ∷ after)) target ≡ err already_passed)
      × ((e : Fault) × (wait_to_send last before target ≡ err e))
unfolding wait_to_send
wait_to_send-settles target [] h last =
    ((λ after. ground arith), (λ nonce after lt. ground arith), (last, refl))
wait_to_send-settles target (ok n ∷ before) h last =
    let rest = wait_to_send-settles target before h.1 not_our_round in
    (
      (λ after. wait_step last target n (before ++ (ok target ∷ after)) h.0 ∙ rest.0 after),
      (λ nonce after lt.
          wait_step last target n (before ++ (ok nonce ∷ after)) h.0 ∙ rest.1 nonce after lt),
      (rest.2.0, wait_step last target n before h.0 ∙ rest.2.1),
    )
wait_to_send-settles target (err e ∷ before) h last = wait_to_send-settles target before h.1 e
wait_to_send-settles target (panic ∷ before) h last = absurd h.0

-- Where the surroundings answer, a move of the native token from an account that holds more than
-- the fee sends a positive amount that leaves exactly the fee; an account that holds no more than
-- the fee sends nothing.
pub send_native_token_for_move_fund-empties :
    (signer_pk : Text) (last_pool : Option PoolInfo) (receiver : Text) (amount nonce : ℕ)
    (answers : SendAnswers) (price latest : ℕ) (pk : Text)
    → answers.suggested_gas_price ≡ ok price
    → answers.latest_block ≡ ok latest
    → signer_key signer_pk last_pool ≡ ok pk
    → answers.compose pk (latest / round_block) ≡ ok tt
    → ((tx : LegacyTx) → answers.sign tx ≡ ok tt)
    → wait_to_send not_our_round answers.pending_nonces nonce ≡ ok tt
    → ((tx : LegacyTx) → answers.send_transaction tx ≡ ok tt)
    → (price * default_native_gas < amount
        → (tx : LegacyTx) × (send_native_token_for_move_fund signer_pk last_pool receiver amount
              nonce answers
            ≡ ok (some tx))
          × (tx.value + tx.gas_price * tx.gas ≡ amount)
          × (0 < tx.value)
          × (tx.to ≡ receiver)
          × (tx.nonce ≡ nonce))
      × (amount ≤ price * default_native_gas
          → send_native_token_for_move_fund signer_pk last_pool receiver amount nonce answers
            ≡ ok none)
unfolding send_native_token_for_move_fund get_fee_limit_with_lock
send_native_token_for_move_fund-empties signer_pk last_pool receiver amount nonce answers price
      latest pk e_price e_latest e_key e_compose e_sign e_wait e_send =
    (
      (λ more. (
        record {
          nonce = nonce;
          gas_price = price;
          gas = default_native_gas;
          to = receiver;
          value = amount - price * default_native_gas;
        },
        rw (e_price, ltb-true _ _ more, e_key, e_latest, e_compose, e_sign _, e_wait, e_send _)
            refl,
        omega arith,
        omega arith,
        refl,
        refl,
      )),
      (λ less. rw (e_price, ltb-false _ _ less) refl),
    )
