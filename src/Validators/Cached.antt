-- ===== src/Validators/Cached.antt =====
-- What a key generation leaves in keyGenCache, and what becomes of it.
use joltifychain_bridge.Base.{
  ℕ, zero, suc, ◌+◌, ◌<◌, ◌≡◌, subst, refl, ◌∙◌, arith, Bool, true, false, ℤ, pos, ◌+ℤ◌, List, [],
  ◌∷◌, Text, if◌then◌else◌,
}
use joltifychain_bridge.Base.Int.{leb_ℤ}
use joltifychain_bridge.Base.Outcome.{Outcome, ok, err, panic, Done, other_fault}
use joltifychain_bridge.Common.Decimal.{parse-format_int}
use joltifychain_bridge.MoveFund.Found.{sort_strings}
use joltifychain_bridge.State.{JoltChain, TssPoolMsg}
use joltifychain_bridge.Bridge.JoltBlock.{submitted, check_and_update_pool}
use joltifychain_bridge.Validators.Keygen.{
  KeygenResponse, KeygenAnswers, attempt, keygen_loop, do_keygen,
}

-- An attempt that is followed by another one.
abbrev pub Fails : Outcome KeygenResponse → Type 0
Fails (ok resp) = resp.success ≡ false
Fails (err e) = Unit {0}
Fails panic = ⊥

attempt_again :
    (answer again : Outcome KeygenResponse) → Fails answer → attempt answer again ≡ again
unfolding attempt
attempt_again (ok resp) again h = rw h refl
attempt_again (err fault) again h = refl
attempt_again panic again h = absurd h

attempt_done :
    (resp : KeygenResponse) (again : Outcome KeygenResponse)
    → resp.success ≡ true
    → attempt (ok resp) again ≡ ok resp
unfolding attempt
attempt_done resp again h = rw h refl

-- The first attempt that succeeds ends the loop.
keygen_first :
    (k left retry : ℕ) (key_gen : ℕ → Outcome KeygenResponse) (resp : KeygenResponse)
    → ((j : ℕ) → j < k → Fails (key_gen (retry + j)))
    → key_gen (retry + k) ≡ ok resp
    → resp.success ≡ true
    → k < left
    → keygen_loop left retry key_gen ≡ ok resp
unfolding keygen_loop
keygen_first k zero retry key_gen resp fails found success lt = absurd (omega arith)
keygen_first zero (suc left) retry key_gen resp fails found success lt =
    let here : key_gen retry ≡ ok resp = subst (λ n. key_gen n ≡ ok resp) (omega arith) found in
    rw here (attempt_done resp _ success)
keygen_first (suc k) (suc left) retry key_gen resp fails found success lt =
    attempt_again (key_gen retry) _
      (subst (λ n. Fails (key_gen n)) (omega arith) (fails 0 (omega arith)))
    ∙ keygen_first k left (retry + 1) key_gen resp
        (λ j h. subst (λ n. Fails (key_gen n)) (omega arith) (fails (suc j) (omega arith)))
        (subst (λ n. key_gen n ≡ ok resp) (omega arith) found) success (omega arith)

-- Without one it ends in an error.
keygen_none :
    (left retry : ℕ) (key_gen : ℕ → Outcome KeygenResponse)
    → ((j : ℕ) → j < left → Fails (key_gen (retry + j)))
    → keygen_loop left retry key_gen ≡ err other_fault
unfolding keygen_loop
keygen_none zero retry key_gen fails = refl
keygen_none (suc left) retry key_gen fails =
    attempt_again (key_gen retry) _
      (subst (λ n. Fails (key_gen n)) (omega arith) (fails 0 (omega arith)))
    ∙ keygen_none left (retry + 1) key_gen
        (λ j h. subst (λ n. Fails (key_gen n)) (omega arith) (fails (suc j) (omega arith)))

-- the message that announces a key
abbrev pub pool_message : Text → Text → ℤ → TssPoolMsg
pool_message creator pub_key height = record {
  creator = creator;
  pool_pub_key = pub_key;
  block_height = height;
}

-- what becomes of the message that waits alone: with the answer to its submission
abbrev pub after_submission : Outcome Done → TssPoolMsg → JoltChain → Bool × JoltChain
after_submission (ok done) m jc = (true, record jc { key_gen_cache = [] })
after_submission (err e) m jc = (false, record jc { key_gen_cache = m ∷ [] })
after_submission panic m jc = (false, record jc { key_gen_cache = m ∷ [] })

submitted-alone :
    (answer : Outcome Done) (m : TssPoolMsg) (jc : JoltChain)
    → submitted answer [] (record jc { key_gen_cache = m ∷ [] }) ≡ after_submission answer m jc
unfolding submitted
submitted-alone (ok done) m jc = refl
submitted-alone (err e) m jc = refl
submitted-alone panic m jc = refl

module _ (answers : KeygenAnswers) (pub_keys : List Text) (height : ℤ) (jc : JoltChain)
    (creator : Text) (k : ℕ) (resp : KeygenResponse) where
  abbrev attempts : ℕ → Outcome KeygenResponse
  attempts = answers.key_gen (sort_strings pub_keys) height

  abbrev announced : TssPoolMsg
  announced = pool_message creator resp.pub_key (height +ℤ pos 1)

  -- Of the five attempts to generate a key, the first that succeeds has its key put into the empty
  -- cache, for the next height: the message stays before that height, and after it is dropped once
  -- it is accepted and kept if it is refused.
  pub do_keygen-announces :
      answers.operator ≡ ok creator
      → ((j : ℕ) → j < k → Fails (attempts (0 + j)))
      → attempts (0 + k) ≡ ok resp
      → resp.success ≡ true
      → k < 5
      → jc.key_gen_cache ≡ []
      → (latest : ℤ) (submit : TssPoolMsg → Outcome Done)
      → let cached = record jc { key_gen_cache = announced ∷ [] } in
        (do_keygen answers pub_keys height jc ≡ ok cached)
        × (check_and_update_pool latest submit cached ≡ (
            if leb_ℤ (height +ℤ pos 1) latest
            then after_submission (submit announced) announced jc
            else (true, cached)))
  unfolding do_keygen check_and_update_pool
  do_keygen-announces e_key fails found success lt none_else latest submit = (
    rw
        (
          keygen_first k 5 0 attempts resp fails found success lt,
          e_key,
          parse-format_int (height +ℤ pos 1),
          none_else,
        )
        refl,
    rw (submitted-alone (submit announced) announced jc) refl,
  )
