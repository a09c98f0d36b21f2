-- ===== src/MoveFund/Native.antt =====
-- Emptying one account: doMoveBNBFunds, doMoveTokenFunds and needToMoveFund of
-- pubchain/move_fund.go. What the chain answers is the argument of each function.
use joltifychain_bridge.Base.{ℕ, Bool, true, false, Option, none, some, Text, ltb, if◌then◌else◌}
use joltifychain_bridge.Base.Outcome.{
  Outcome, ok, err, panic, ◌>>=◌, Done, Fault, already_passed, already_known, transfer_failed,
  move_failed,
}
use joltifychain_bridge.Common.Types.{PoolInfo}
use joltifychain_bridge.PubSend.{
  LegacyTx, SendAnswers, get_fee_limit_with_lock, send_native_token_for_move_fund,
}

-- Whether an attempt moved something, and whether the account is known to be empty.
pub record Moved : Type 0 where
  pub is_moved : Bool
  pub is_empty : Bool

abbrev pub seen_empty : Moved
seen_empty = record { is_moved = true; is_empty = true }

abbrev pub left_over : Moved
left_over = record { is_moved = true; is_empty = false }

-- The answers that one move of the native token takes.
pub record NativeAnswers : Type 0 where
  pub balance : Outcome ℕ
  pub suggested_gas_price : Outcome ℕ
  pub pending_nonce : Outcome ℕ
  pub send : SendAnswers
  pub check_tx_status : Outcome Done
  pub now_balance : Outcome ℕ

-- the balance after the attempt; what is no more than the fee counts as empty
unfoldable pub native_left : ℕ → Outcome ℕ → Outcome Moved
native_left total_fee now_balance = do
  balance ← now_balance
  ok (if ltb total_fee balance then left_over else seen_empty)

-- after a refused send: an error, unless the sequence has passed and the account is empty
unfoldable pub native_refused : ℕ → Outcome ℕ → Fault → Outcome Moved
native_refused total_fee now_balance already_passed = do
  balance ← now_balance
  if ltb total_fee balance then err already_passed else ok seen_empty
native_refused total_fee now_balance e = err e

-- after a send
unfoldable pub native_sent : ℕ → NativeAnswers → Outcome (Option LegacyTx) → Outcome Moved
unfolding native_left native_refused
native_sent total_fee answers (err e) = native_refused total_fee answers.now_balance e
native_sent total_fee answers panic = panic
native_sent total_fee answers (ok none) = ok seen_empty
native_sent total_fee answers (ok (some tx)) = do
  _ ← answers.check_tx_status
  native_left total_fee answers.now_balance

-- doMoveBNBFunds
unfoldable pub do_move_bnb_funds : PoolInfo → Option PoolInfo → Text → NativeAnswers → Outcome Moved
unfolding native_sent get_fee_limit_with_lock send_native_token_for_move_fund
do_move_bnb_funds previous last_pool receiver answers = do
  balance ← answers.balance
  fee ← get_fee_limit_with_lock answers.suggested_gas_price
  if ltb fee.total_fee balance
      then (do
        nonce ← answers.pending_nonce
        native_sent fee.total_fee answers (
            send_native_token_for_move_fund previous.pk last_pool receiver balance nonce
              answers.send))
      else ok seen_empty

-- The answers that one move of a token takes.
pub record TokenAnswers : Type 0 where
  -- generated.NewToken
  pub token_instance : Outcome Done
  pub balance : Outcome ℕ
  -- SendTokenBatch, for an amount
  pub send_token_batch : ℕ → Outcome Done
  pub check_tx_status : Outcome Done
  pub now_balance : Outcome ℕ

-- needToMoveFund
unfoldable pub need_to_move_fund : TokenAnswers → Outcome Bool
need_to_move_fund answers = do
  _ ← answers.token_instance
  balance ← answers.balance
  ok (ltb 0 balance)

-- moveERC20Token: a transaction that others have submitted counts as sent
unfoldable pub move_erc20_token : Outcome Done → Outcome Done
move_erc20_token (err already_known) = ok tt
move_erc20_token sent = sent

-- a refused transfer is an error, unless the sequence has passed
unfoldable pub token_refused : Outcome Done → Outcome Done
token_refused (err already_passed) = ok tt
token_refused (err e) = err transfer_failed
token_refused sent = sent

-- the balance after the transfer; a failed query counts as a failed move
unfoldable pub token_left : Outcome ℕ → Outcome Bool
token_left (ok balance) = if ltb 0 balance then err move_failed else ok true
token_left (err e) = err move_failed
token_left panic = panic

-- doMoveTokenFunds
unfoldable pub do_move_token_funds : TokenAnswers → Outcome Bool
unfolding move_erc20_token token_refused token_left
do_move_token_funds answers = do
  _ ← answers.token_instance
  balance ← answers.balance
  if ltb 0 balance
      then (do
        _ ← token_refused (move_erc20_token (answers.send_token_batch balance))
        _ ← answers.check_tx_status
        token_left answers.now_balance)
      else ok true
