-- ===== src/MoveFund/Settled.antt =====
-- What MoveFound leaves of a pool.
use joltifychain_bridge.Base.{
  ℕ, ◌≢◌, text_eq, codes, if◌then◌else◌, ◌+◌, Bool, true, false, Option, some, List, [], ◌∷◌, Text,
  ℤ, ◌+ℤ◌, ◌≡◌, ◌⊎◌, inl, inr, refl, Bool-cases,
}
use joltifychain_bridge.Base.SyncMap.{load}
use joltifychain_bridge.Base.SyncMap.Laws.{load-store_self}
use joltifychain_bridge.Base.Outcome.{Outcome, ok, err, panic, ◌>>=◌}
use joltifychain_bridge.Common.Types.{PoolInfo}
use joltifychain_bridge.TokenList.{TokenList, get_all_existed_token_addresses}
use joltifychain_bridge.State.{PubChain}
use joltifychain_bridge.MoveFund.Items.{add_move_fund_item, move_fund_index, move_fund_item}
use joltifychain_bridge.MoveFund.Native.{
  Moved, TokenAnswers, need_to_move_fund, do_move_bnb_funds, do_move_token_funds,
}
use joltifychain_bridge.MoveFund.Emptied.{SeenEmpty, do_move_bnb_funds-SeenEmpty}
use joltifychain_bridge.MoveFund.Found.{
  FundAnswers, move_fund_retry_gap, finish_native, finish_tokens, move_needed, move_found,
  move_tokens, wait_again, tokens_to_move, sort_strings, still_empty, dialled,
}

module _ (previous : PoolInfo) (height : ℤ) (chain_type : Text) where
  -- The pool waits again, three blocks later.
  abbrev pub WaitsAgain : PubChain → Type 0
  WaitsAgain after =
      load (move_fund_index (height +ℤ move_fund_retry_gap) chain_type) after.move_fund_req
      ≡ some (move_fund_item previous (height +ℤ move_fund_retry_gap) chain_type)

  -- A result in which the pool waits again, or which reports it as moved with its native token seen
  -- to be no more than the fee.
  abbrev pub Settles : PoolInfo → FundAnswers → Outcome (Bool × PubChain) → Type 0
  Settles current answers (ok (reported, after)) =
      WaitsAgain after ⊎ ((reported ≡ true) × SeenEmpty answers.native)
  Settles current answers (err e) = ⊥
  Settles current answers panic = ⊥

  -- Surroundings that answer with values and errors: no answer ends the process.
  abbrev pub NeverPanics : PoolInfo → FundAnswers → Type 0
  NeverPanics current answers =
      ((last : Option PoolInfo)
        → do_move_bnb_funds previous last current.eth_address answers.native ≢ panic)
      × ((token : Text) → need_to_move_fund (answers.need token) ≢ panic)
      × (answers.pending_nonce ≢ panic)
      × ((index : ℕ) (token : Text) → do_move_token_funds (answers.move index token) ≢ panic)

  token_step :
      (b : Bool) (token : Text) (o : Outcome Bool) (r : Outcome (List Text))
      → o ≢ panic
      → r ≢ panic
      → (if b then r else (do needed ← o; left ← r; ok (if needed then token ∷ left else left)))
        ≢ panic
  token_step true token o r h hr = hr
  token_step false token (ok needed) (ok left) h hr = λ e. cc
  token_step false token (ok needed) (err x) h hr = λ e. cc
  token_step false token (ok needed) panic h hr = absurd (hr refl)
  token_step false token (err x) r h hr = λ e. cc
  token_step false token panic r h hr = absurd (h refl)

  tokens_to_move-returns :
      (need : Text → TokenAnswers) (tokens : List Text)
      → ((token : Text) → need_to_move_fund (need token) ≢ panic)
      → tokens_to_move need tokens ≢ panic
  unfolding tokens_to_move
  tokens_to_move-returns need [] h = λ e. cc
  tokens_to_move-returns need (token ∷ tokens) h =
      token_step (text_eq token (codes "native")) token (need_to_move_fund (need token)) _ (h token)
        (tokens_to_move-returns need tokens h)

  waits_again :
      (pi : PubChain)
      → WaitsAgain (add_move_fund_item previous (height +ℤ move_fund_retry_gap) chain_type pi)
  unfolding add_move_fund_item
  waits_again pi =
      load-store_self (move_fund_index (height +ℤ move_fund_retry_gap) chain_type)
        (move_fund_item previous (height +ℤ move_fund_retry_gap) chain_type) pi.move_fund_req

  finish_native-Settles :
      (current : PoolInfo) (answers : FundAnswers) (last : Option PoolInfo) (o : Outcome Moved)
      (tokens_moved : Bool) (pi : PubChain)
      → do_move_bnb_funds previous last current.eth_address answers.native ≡ o
      → NeverPanics current answers
      → Settles current answers (finish_native o tokens_moved previous height chain_type pi)
  unfolding finish_native
  finish_native-Settles current answers last panic tokens_moved pi e h = absurd (h.0 last e)
  finish_native-Settles current answers last (err x) tokens_moved pi e h = inl (waits_again pi)
  finish_native-Settles current answers last (ok moved) tokens_moved pi e h =
      elim (Bool-cases moved.is_empty) [
        | inl is ↦ rw is (
            inr (
              refl,
              do_move_bnb_funds-SeenEmpty previous last current.eth_address answers.native moved e
                  is,
            ))
        | inr isnt ↦ rw isnt (inl (waits_again pi))
      ]

  abbrev NoFault : Outcome (Bool × PubChain) → Type 0
  NoFault (ok r) = Unit
  NoFault (err e) = ⊥
  NoFault panic = ⊥

  move_tokens-NoFault :
      (answers : FundAnswers) (index : ℕ) (tokens : List Text) (empty : Bool) (pi : PubChain)
      → ((i : ℕ) (token : Text) → do_move_token_funds (answers.move i token) ≢ panic)
      → NoFault (move_tokens previous height chain_type answers index tokens empty pi)
  unfolding move_tokens still_empty
  move_tokens-NoFault answers index [] empty pi h = tt
  move_tokens-NoFault answers index (token ∷ tokens) empty pi h =
      go (λ still. move_tokens-NoFault answers (index + 1) tokens still _ h)
        (do_move_token_funds (answers.move index token)) (h index token)
    where
      go :
          ((still : Bool)
            → NoFault (
                move_tokens previous height chain_type answers
                  (index + 1)
                  tokens
                  still
                  (dialled (answers.dial index) previous height chain_type pi)))
          → (o : Outcome Bool) → o ≢ panic
          → NoFault (do
            still ← still_empty o empty
            move_tokens previous height chain_type answers
                (index + 1)
                tokens
                still
                (dialled (answers.dial index) previous height chain_type pi))
      go rest (ok b) hp = rest _
      go rest (err e) hp = rest _
      go rest panic hp = absurd (hp refl)

  finish_tokens-Settles :
      (current : PoolInfo) (answers : FundAnswers) (o : Outcome (Bool × PubChain))
      → NoFault o
      → NeverPanics current answers
      → Settles current answers (finish_tokens current previous height chain_type answers o)
  unfolding finish_tokens wait_again
  finish_tokens-Settles current answers (ok (true, pi)) h never =
      finish_native-Settles current answers pi.pool1 _ true pi refl never
  finish_tokens-Settles current answers (ok (false, pi)) h never = inl (waits_again pi)
  finish_tokens-Settles current answers (err e) h never = absurd h
  finish_tokens-Settles current answers panic h never = absurd h

  move_needed-Settles :
      (current : PoolInfo) (answers : FundAnswers) (o : Outcome (List Text)) (pi : PubChain)
      → o ≢ panic
      → NeverPanics current answers
      → Settles current answers (move_needed current previous height chain_type answers o pi)
  unfolding move_needed wait_again
  move_needed-Settles current answers panic pi hp never = absurd (hp refl)
  move_needed-Settles current answers (err e) pi hp never = inl (waits_again pi)
  move_needed-Settles current answers (ok []) pi hp never =
      finish_native-Settles current answers pi.pool1 _ false pi refl never
  move_needed-Settles current answers (ok (token ∷ tokens)) pi hp never =
      go answers.pending_nonce never.2
    where
      go :
          (p : Outcome ℕ)
          → p ≢ panic
          → Settles current answers (elim p as (λ x. Outcome (Bool × PubChain)) [
            | ok nonce ↦
                finish_tokens current previous height chain_type answers
                  (move_tokens previous height chain_type answers 0 (token ∷ tokens) true pi)
            | err e ↦ wait_again previous height chain_type pi
            | panic ↦ panic
          ])
      go (ok nonce) h =
          finish_tokens-Settles current answers _
            (move_tokens-NoFault answers 0 (token ∷ tokens) true pi never.3) never
      go (err e) h = inl (waits_again pi)
      go panic h = absurd (h refl)

move_found-some :
    (tl : TokenList) (height : ℤ) (chain_type : Text) (previous current : PoolInfo)
    (answers : FundAnswers) (pi : PubChain) (existed : List Text)
    → pi.pool1 ≡ some current
    → get_all_existed_token_addresses chain_type tl ≡ ok existed
    → move_found tl height chain_type previous answers pi
      ≡ move_needed current previous height chain_type answers
          (tokens_to_move answers.need (sort_strings existed))
          pi
unfolding move_found
move_found-some tl height chain_type previous current answers pi existed e_pool e_tokens =
    rw (e_pool, e_tokens) refl

-- With a current pool, a readable token list and surroundings that never panic, MoveFound returns
-- and does not forget the pool: the pool waits again three blocks after its height, or the call
-- reports it as moved and has seen its native token, before or after the attempt, at no more than the
-- fee of a transfer at a price that was suggested to it.
pub move_found-Settles :
    (tl : TokenList) (height : ℤ) (chain_type : Text) (previous current : PoolInfo)
    (answers : FundAnswers) (pi : PubChain) (existed : List Text)
    → pi.pool1 ≡ some current
    → get_all_existed_token_addresses chain_type tl ≡ ok existed
    → NeverPanics previous height chain_type current answers
    → Settles previous height chain_type current answers
        (move_found tl height chain_type previous answers pi)
move_found-Settles tl height chain_type previous current answers pi existed e_pool e_tokens never =
    rw (move_found-some tl height chain_type previous current answers pi existed e_pool e_tokens) (
      move_needed-Settles previous height chain_type current answers _ pi
        (tokens_to_move-returns previous height chain_type answers.need (sort_strings existed)
          never.1)
        never)
