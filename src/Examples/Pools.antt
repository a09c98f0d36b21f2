-- ===== src/Examples/Pools.antt =====
-- The pools and the moves of their funds, at concrete inputs.
use joltifychain_bridge.Base.{
  ℕ, ◌+◌, ◌*◌, ◌≤◌, ◌<◌, ◌≡◌, refl, true, false, Option, none, some, List, [], ◌∷◌, text_eq_iff,
  to_lower, ◌≢◌, text_eq, codes, ℤ, pos, arith,
}
use joltifychain_bridge.Base.Outcome.{Outcome, ok, err, Fault, other_fault, already_passed}
use joltifychain_bridge.Common.Types.{MoveFundItem}
use joltifychain_bridge.Common.Decimal.{format_int, format_nat}
use joltifychain_bridge.State.{PubChain}
use joltifychain_bridge.TokenList.{get_all_existed_token_addresses}
use joltifychain_bridge.MoveFund.Items.{pop_move_fund_item_after_block, move_fund_index}
use joltifychain_bridge.MoveFund.Oldest.{
  IsIndexed, TakesOldest, pop_move_fund_item_after_block-oldest,
}
use joltifychain_bridge.MoveFund.Native.{
  do_move_bnb_funds, native_sent, native_left, need_to_move_fund, do_move_token_funds,
  move_erc20_token, token_refused, token_left, TokenAnswers,
}
use joltifychain_bridge.MoveFund.Found.{FundAnswers, move_found}
use joltifychain_bridge.MoveFund.Settled.{NeverPanics, Settles, move_found-Settles}
use joltifychain_bridge.PubSend.{
  get_fee_limit_with_lock, SendAnswers, LegacyTx, signer_key, wait_to_send,
  send_native_token_for_move_fund,
}
use joltifychain_bridge.PubSend.Laws.{wait_to_send-settles, send_native_token_for_move_fund-empties}
use joltifychain_bridge.Pools.{keep_pools, pool_info_of}
use joltifychain_bridge.Pools.Settling.{with_pools, keep_pools-settles}
use joltifychain_bridge.Examples.Libraries.{chains}
use joltifychain_bridge.Examples.Instances.{vault, p1, p2, waiting, pub_chain, jolt_chain, tokens}

waiting-IsIndexed : IsIndexed waiting
unfolding move_fund_index format_int format_nat
waiting-IsIndexed = (refl, (refl, tt))

names_differ : codes "p2" ≢ codes "p1"
unfolding text_eq
names_differ e =
    let same = (text_eq_iff (codes "p2") (codes "p1")).1 e in
    let differ : text_eq (codes "p2") (codes "p1") ≡ false = refl in cc

pop_move_fund_item_after_block-oldest_example :
    (o : Option (MoveFundItem × ℤ)) × (after : PubChain) × (pop_move_fund_item_after_block
        (pos 50)
        (codes "BSC")
        pub_chain
      ≡ ok (o, after))
    × TakesOldest (pos 50) (codes "BSC") pub_chain o after
pop_move_fund_item_after_block-oldest_example =
    pop_move_fund_item_after_block-oldest (pos 50) (codes "BSC") pub_chain waiting-IsIndexed

keep_pools-settles_example :
    (keep_pools chains
        (pos 1)
        (vault (codes "p2"))
        (vault (codes "p1"))
        (with_pools none none (pub_chain, jolt_chain))
      ≡ ok (false, with_pools (some p2) (some p1) (pub_chain, jolt_chain)))
    × (keep_pools chains
          (pos 2)
          (vault (codes "p2"))
          (vault (codes "p1"))
          (with_pools (some p2) (some p1) (pub_chain, jolt_chain))
        ≡ ok (true, with_pools (some p1) (some p2) (pub_chain, jolt_chain)))
    × (keep_pools chains
          (pos 3)
          (vault (codes "p2"))
          (vault (codes "p1"))
          (with_pools (some p1) (some p2) (pub_chain, jolt_chain))
        ≡ ok (true, with_pools (some p1) (some p2) (pub_chain, jolt_chain)))
keep_pools-settles_example =
    keep_pools-settles chains (vault (codes "p2")) (vault (codes "p1")) p2 p1
      (pub_chain, jolt_chain) (pos 1) (pos 2) (pos 3) (unfold pool_info_of in refl)
      (unfold pool_info_of in refl) names_differ

abbrev send_answers : SendAnswers
send_answers = record {
  suggested_gas_price = ok 2;
  latest_block = ok 120;
  compose = λ pk height. ok tt;
  sign = λ tx. ok tt;
  pending_nonces = ok 3 ∷ err other_fault ∷ ok 4 ∷ [];
  send_transaction = λ tx. ok tt;
}

send_native_token_for_move_fund-empties_example :
    (2 * 21000 < 90000
      → (tx : LegacyTx) × (send_native_token_for_move_fund
            (codes "p1")
            none
            (codes "p2")
            90000
            4
            send_answers
          ≡ ok (some tx))
        × (tx.value + tx.gas_price * tx.gas ≡ 90000)
        × (0 < tx.value)
        × (tx.to ≡ codes "p2")
        × (tx.nonce ≡ 4))
    × (90000 ≤ 2 * 21000
        → send_native_token_for_move_fund (codes "p1") none (codes "p2") 90000 4 send_answers
          ≡ ok none)
unfolding signer_key wait_to_send
send_native_token_for_move_fund-empties_example =
    send_native_token_for_move_fund-empties (codes "p1") none (codes "p2") 90000 4 send_answers 2
      120 (codes "p1") refl refl refl refl (λ tx. refl) refl (λ tx. refl)

wait_to_send-settles_example :
    ((after : List (Outcome ℕ)) → wait_to_send other_fault (ok 3 ∷ ok 4 ∷ after) 4 ≡ ok tt)
    × ((nonce : ℕ) (after : List (Outcome ℕ))
        → 4 < nonce
        → wait_to_send other_fault (ok 3 ∷ ok nonce ∷ after) 4 ≡ err already_passed)
    × ((e : Fault) × (wait_to_send other_fault (ok 3 ∷ []) 4 ≡ err e))
wait_to_send-settles_example = wait_to_send-settles 4 (ok 3 ∷ []) (omega arith, tt) other_fault

abbrev token_answers : TokenAnswers
token_answers = record {
  token_instance = ok tt;
  balance = ok 5;
  send_token_batch = λ amount. ok tt;
  check_tx_status = ok tt;
  now_balance = ok 0;
}

abbrev fund_answers : FundAnswers
fund_answers = record {
  native = record {
    balance = ok 90000;
    suggested_gas_price = ok 2;
    pending_nonce = ok 4;
    send = send_answers;
    check_tx_status = ok tt;
    now_balance = ok 7;
  };
  need = λ token. token_answers;
  pending_nonce = ok 3;
  dial = λ index. ok tt;
  move = λ index token. token_answers;
}

fund_answers-NeverPanics : NeverPanics p1 (pos 4) (codes "BSC") p2 fund_answers
unfolding do_move_bnb_funds native_sent native_left get_fee_limit_with_lock
    send_native_token_for_move_fund wait_to_send signer_key need_to_move_fund do_move_token_funds
    move_erc20_token token_refused token_left
fund_answers-NeverPanics = ((λ last e. cc), (λ token e. cc), (λ e. cc), (λ index token e. cc))

move_found-Settles_example :
    Settles p1
      (pos 4)
      (codes "BSC")
      p2
      fund_answers
      (move_found tokens (pos 4) (codes "BSC") p1 fund_answers pub_chain)
unfolding text_eq to_lower get_all_existed_token_addresses
move_found-Settles_example =
    move_found-Settles tokens (pos 4) (codes "BSC") p1 p2 fund_answers pub_chain (codes "0xa" ∷ [])
      refl refl fund_answers-NeverPanics
