-- ===== src/Validators/Keygen.antt =====
-- HandleUpdateValidators (cosbridge/event.go) and prepareTssPool (cosbridge/bridge.go): a change of
-- the validators makes those of the new set generate a key, whose pool message waits in keyGenCache.
use joltifychain_bridge.Base.{
  ℕ, zero, suc, ◌+◌, Bool, true, false, ℤ, pos, ◌+ℤ◌, Option, none, some, List, [], ◌∷◌, ◌++◌, Text,
  text_eq, ◌||◌, if◌then◌else◌,
}
use joltifychain_bridge.Base.Outcome.{Outcome, ok, err, panic, ◌>>=◌, other_fault}
use joltifychain_bridge.Common.Decimal.{format_int, parse_int}
use joltifychain_bridge.MoveFund.Found.{sort_strings}
use joltifychain_bridge.State.{JoltChain}
use joltifychain_bridge.Bridge.Heights.{Service}
use joltifychain_bridge.Validators.{
  ConsAddresses, Validator, VaultValidator, ValidatorSet, update_validator_set,
  get_active_validators,
}

-- maxretry of cosbridge/event.go
abbrev pub max_retry : ℕ
max_retry = 5

-- keygen.Response: whether its status is Success, and the key
pub record KeygenResponse : Type 0 where
  pub success : Bool
  pub pub_key : Text

-- What the update asks its surroundings.
pub record KeygenAnswers : Type 0 where
  -- getValidators
  pub validators : Outcome (List VaultValidator)
  -- legacybech32.MarshalPubKey
  pub marshal_pub_key : Text → Outcome Text
  -- the node's own key, decoded
  pub my_pub_key : Outcome Text
  -- KeyGen of the signing service, for the sorted keys, a height and an attempt
  pub key_gen : List Text → ℤ → ℕ → Outcome KeygenResponse
  -- the address of the key "operator"
  pub operator : Outcome Text

-- the loop over the validators: the keys, and whether the node is one of the validators
unfoldable pub collect_keys : KeygenAnswers → List Validator → Outcome (List Text × Bool)
collect_keys answers [] = ok ([], false)
collect_keys answers (el ∷ validators) = do
  pk ← answers.marshal_pub_key el.pub_key
  mine ← answers.my_pub_key
  (pub_keys, do_keygen) ← collect_keys answers validators
  ok (pk ∷ pub_keys, text_eq el.pub_key mine || do_keygen)

-- one attempt, with what the attempts after it give
unfoldable pub attempt : Outcome KeygenResponse → Outcome KeygenResponse → Outcome KeygenResponse
attempt (err e) again = again
attempt panic again = panic
attempt (ok resp) again = if resp.success then ok resp else again

-- the loop of the attempts, with the number of them that are left
unfoldable pub keygen_loop : ℕ → ℕ → (ℕ → Outcome KeygenResponse) → Outcome KeygenResponse
unfolding attempt
keygen_loop zero retry key_gen = err other_fault
keygen_loop (suc left) retry key_gen =
    attempt (key_gen retry) (keygen_loop left (retry + 1) key_gen)

-- prepareTssPool; the height is the text of a number, so that parsing it does not fail
unfoldable pub prepare_tss_pool : Text → Text → Text → JoltChain → JoltChain
prepare_tss_pool creator pub_key height jc = record jc {
  key_gen_cache =
      jc.key_gen_cache
      ++ record { creator = creator; pool_pub_key = pub_key; block_height = parse_int height } ∷ [];
}

-- the body of the goroutine of HandleUpdateValidators
unfoldable pub do_keygen : KeygenAnswers → List Text → ℤ → JoltChain → Outcome JoltChain
unfolding keygen_loop prepare_tss_pool
do_keygen answers pub_keys block_height jc = do
  resp ← keygen_loop max_retry 0 (answers.key_gen (sort_strings pub_keys) block_height)
  creator ← answers.operator
  ok (prepare_tss_pool creator resp.pub_key (format_int (block_height +ℤ pos 1)) jc)

-- the goroutine starts with inKeygenProcess set, so that no batch is sent to the public chains
unfoldable pub begin_keygen : Service → Service
begin_keygen s = record s { in_keygen_in_progress = true }

-- the flag is unset however the goroutine ends
unfoldable pub end_keygen : Outcome JoltChain → Service → Outcome Service
end_keygen (ok jc) s = ok (record s { jolt = jc; in_keygen_in_progress = false })
end_keygen (err e) s = ok (record s { in_keygen_in_progress = false })
end_keygen panic s = panic

-- the rest of the goroutine, after begin_keygen
unfoldable pub finish_keygen : KeygenAnswers → List Text → ℤ → Service → Outcome Service
unfolding do_keygen end_keygen
finish_keygen answers pub_keys block_height s =
    end_keygen (do_keygen answers pub_keys block_height s.jolt) s

-- HandleUpdateValidators up to the goroutine: the keys of a key generation if the node takes part,
-- and the set, which an error leaves updated
unfoldable pub handle_update_validators :
    ConsAddresses
    → KeygenAnswers
    → ℤ
    → ValidatorSet
    → Outcome (Option (List Text × ℤ)) × ValidatorSet
unfolding collect_keys update_validator_set get_active_validators
handle_update_validators addresses answers height v = elim answers.validators [
  | err e ↦ (err e, v)
  | panic ↦ (panic, v)
  | ok updates ↦
      (let after = update_validator_set addresses updates height v in
        let last = get_active_validators addresses after in
        (
          (do
            (pub_keys, mine) ← collect_keys answers last.0
            ok (if mine then some (pub_keys, last.1) else none)),
          after,
        ))
]
