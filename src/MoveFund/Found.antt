-- ===== src/MoveFund/Found.antt =====
-- MoveFound (pubchain/move_fund.go). The goroutines of the tokens are taken one after the other:
-- they share the flag `emptyERC20Tokens`, which they only unset, and the waiting pools, to which
-- they add one and the same item.
use joltifychain_bridge.Base.{
  ℕ, ◌+◌, Bool, true, false, none, some, List, [], ◌∷◌, Text, codes, text_eq, ltb, ◌==◌, ℤ, pos,
  ◌+ℤ◌, if◌then◌else◌,
}
use joltifychain_bridge.Base.Outcome.{Outcome, ok, err, panic, ◌>>=◌, Done}
use joltifychain_bridge.Common.Types.{PoolInfo}
use joltifychain_bridge.TokenList.{TokenList, get_all_existed_token_addresses}
use joltifychain_bridge.State.{PubChain}
use joltifychain_bridge.MoveFund.Items.{add_move_fund_item}
use joltifychain_bridge.MoveFund.Native.{
  Moved, NativeAnswers, TokenAnswers, need_to_move_fund, do_move_token_funds, do_move_bnb_funds,
}

-- movefundretrygap
abbrev pub move_fund_retry_gap : ℤ
move_fund_retry_gap = pos 3

-- `sort.Strings`, by bytes
unfoldable pub text_leb : Text → Text → Bool
text_leb [] t = true
text_leb (a ∷ s) [] = false
text_leb (a ∷ s) (b ∷ t) = if a == b then text_leb s t else ltb a b

unfoldable pub insert_string : Text → List Text → List Text
unfolding text_leb
insert_string s [] = s ∷ []
insert_string s (t ∷ l) = if text_leb s t then s ∷ t ∷ l else t ∷ insert_string s l

unfoldable pub sort_strings : List Text → List Text
unfolding insert_string
sort_strings [] = []
sort_strings (s ∷ l) = insert_string s (sort_strings l)

-- The answers that one run takes.
pub record FundAnswers : Type 0 where
  pub native : NativeAnswers
  pub need : Text → TokenAnswers
  pub pending_nonce : Outcome ℕ
  -- ethclient.Dial of the goroutine with this index
  pub dial : ℕ → Outcome Done
  pub move : ℕ → Text → TokenAnswers

-- the tokens that the account still holds; the first failed query ends the search
unfoldable pub tokens_to_move : (Text → TokenAnswers) → List Text → Outcome (List Text)
unfolding need_to_move_fund
tokens_to_move need [] = ok []
tokens_to_move need (token ∷ tokens) =
    let rest = tokens_to_move need tokens in
    if text_eq token (codes "native") then rest else (do
      needed ← need_to_move_fund (need token)
      left ← rest
      ok (if needed then token ∷ left else left))

-- a goroutine that cannot dial adds the pool again, under its own height, and goes on
unfoldable pub dialled : Outcome Done → PoolInfo → ℤ → Text → PubChain → PubChain
dialled (err e) previous height chain_type pi = add_move_fund_item previous height chain_type pi
dialled answer previous height chain_type pi = pi

-- whether a token is known to be moved
unfoldable pub still_empty : Outcome Bool → Bool → Outcome Bool
still_empty (ok moved) empty = ok (if moved then empty else false)
still_empty (err e) empty = ok false
still_empty panic empty = panic

-- the goroutines, with their index
unfoldable pub move_tokens :
    PoolInfo → ℤ → Text → FundAnswers → ℕ → List Text → Bool → PubChain → Outcome (Bool × PubChain)
unfolding dialled still_empty do_move_token_funds
move_tokens previous height chain_type answers index [] empty pi = ok (empty, pi)
move_tokens previous height chain_type answers index (token ∷ tokens) empty pi = do
  let after = dialled (answers.dial index) previous height chain_type pi
  still ← still_empty (do_move_token_funds (answers.move index token)) empty
  move_tokens previous height chain_type answers (index + 1) tokens still after

-- the native token, once no other token is left: an account seen empty is done with, every other
-- one waits again
unfoldable pub finish_native :
    Outcome Moved → Bool → PoolInfo → ℤ → Text → PubChain → Outcome (Bool × PubChain)
finish_native panic tokens_moved previous height chain_type pi = panic
finish_native (err e) tokens_moved previous height chain_type pi =
    ok (false, add_move_fund_item previous (height +ℤ move_fund_retry_gap) chain_type pi)
finish_native (ok moved) tokens_moved previous height chain_type pi =
    if moved.is_empty
    then ok (true, pi)
    else ok (
      (if tokens_moved then moved.is_moved else false),
      add_move_fund_item previous (height +ℤ move_fund_retry_gap) chain_type pi,
    )

-- the pool waits again, and nothing is reported as moved
unfoldable pub wait_again : PoolInfo → ℤ → Text → PubChain → Outcome (Bool × PubChain)
wait_again previous height chain_type pi =
    ok (false, add_move_fund_item previous (height +ℤ move_fund_retry_gap) chain_type pi)

-- after the goroutines
unfoldable pub finish_tokens :
    PoolInfo
    → PoolInfo
    → ℤ
    → Text
    → FundAnswers
    → Outcome (Bool × PubChain)
    → Outcome (Bool × PubChain)
unfolding finish_native wait_again
finish_tokens current previous height chain_type answers (ok (true, pi)) =
    finish_native (do_move_bnb_funds previous pi.pool1 current.eth_address answers.native) true
      previous height chain_type pi
finish_tokens current previous height chain_type answers (ok (false, pi)) =
    wait_again previous height chain_type pi
finish_tokens current previous height chain_type answers (err e) = err e
finish_tokens current previous height chain_type answers panic = panic

-- after the search for tokens
unfoldable pub move_needed :
    PoolInfo
    → PoolInfo
    → ℤ
    → Text
    → FundAnswers
    → Outcome (List Text)
    → PubChain
    → Outcome (Bool × PubChain)
unfolding finish_native wait_again finish_tokens move_tokens
move_needed current previous height chain_type answers panic pi = panic
move_needed current previous height chain_type answers (err e) pi =
    wait_again previous height chain_type pi
move_needed current previous height chain_type answers (ok []) pi =
    finish_native (do_move_bnb_funds previous pi.pool1 current.eth_address answers.native) false
      previous height chain_type pi
move_needed current previous height chain_type answers (ok (token ∷ tokens)) pi =
    elim answers.pending_nonce [
      | ok nonce ↦
          finish_tokens current previous height chain_type answers
            (move_tokens previous height chain_type answers 0 (token ∷ tokens) true pi)
      | err e ↦ wait_again previous height chain_type pi
      | panic ↦ panic
    ]

-- MoveFound; without a current pool the pool that was to be emptied is forgotten
unfoldable pub move_found :
    TokenList → ℤ → Text → PoolInfo → FundAnswers → PubChain → Outcome (Bool × PubChain)
unfolding move_needed sort_strings
move_found tl height chain_type previous answers pi = elim pi.pool1 [
  | none ↦ ok (false, pi)
  | some current ↦ (do
    existed ← get_all_existed_token_addresses chain_type tl
    move_needed current previous height chain_type answers
        (tokens_to_move answers.need (sort_strings existed)) pi)
]
