-- ===== src/Examples/Renewals.antt =====
-- Quorums, validators and renewals at concrete inputs.
use mathlib.Core.List.{Permᴰ, Nodup}
use joltifychain_bridge.Base.{
  ℕ, zero, suc, ◌+◌, ◌==◌, if◌then◌else◌, ◌<◌, ◌≤◌, ◌≡◌, ◌⊎◌, ◌↔◌, inr, refl, arith, true, false,
  none, some, List, [], ◌∷◌, Text, codes, pos, ◌+ℤ◌, length,
}
use joltifychain_bridge.Base.Outcome.{
  Outcome, ok, err, Done, Fault, other_fault, tx_failed, sign_failed,
}
use joltifychain_bridge.Base.SyncMap.{load, keys}
use joltifychain_bridge.Connections.PubChainConn.{
  ChainInfo, DialAnswers, retry_pub_chain, health_check_and_reset,
}
use joltifychain_bridge.Connections.Renewed.{
  pending_heads, retry_pub_chain-keeps, retry_pub_chain-LosesSubscription,
}
use joltifychain_bridge.Connections.TxStatus.{check_tx_status}
use joltifychain_bridge.Connections.Decided.{check_tx_status-decides}
use joltifychain_bridge.Submission.{OutboundTxItems, quorum, get_pub_chain_submitted_tx}
use joltifychain_bridge.Submission.Quorum.{quorums_overlap, get_pub_chain_submitted_tx-ordered}
use joltifychain_bridge.Validators.{
  ConsAddresses, VaultValidator, ValidatorSet, update_validator_set, get_active_validators,
}
use joltifychain_bridge.Validators.Update.{last_update, update_validator_set-replaces}
use joltifychain_bridge.Validators.Keygen.{KeygenResponse, KeygenAnswers, do_keygen}
use joltifychain_bridge.Validators.Cached.{
  Fails, pool_message, after_submission, do_keygen-announces,
}
use joltifychain_bridge.Bridge.JoltBlock.{check_and_update_pool}
use joltifychain_bridge.Examples.Libraries.{chains}
use joltifychain_bridge.Examples.Instances.{jolt_chain, out_req}

abbrev seven : ℕ
seven = 7

quorums_overlap_example : (seven < quorum seven + quorum seven) ↔ ((seven ≡ 3) ⊎ (5 ≤ seven))
quorums_overlap_example = quorums_overlap seven

-- Two transactions for a request, one of which enough of five validators recorded.
abbrev first_items : OutboundTxItems
first_items =
    (codes "aa", codes "v1" ∷ codes "v2" ∷ codes "v3" ∷ []) ∷ (codes "bb", codes "v4" ∷ []) ∷ []

abbrev second_items : OutboundTxItems
second_items =
    (codes "bb", codes "v4" ∷ []) ∷ (codes "aa", codes "v1" ∷ codes "v2" ∷ codes "v3" ∷ []) ∷ []

get_pub_chain_submitted_tx-ordered_example :
    get_pub_chain_submitted_tx chains 5 (λ _. ok first_items) (out_req 1)
    ≡ get_pub_chain_submitted_tx chains 5 (λ _. ok second_items) (out_req 1)
get_pub_chain_submitted_tx-ordered_example =
    get_pub_chain_submitted_tx-ordered chains 5 first_items second_items (out_req 1)
      (inr (omega arith)) (omega arith) ∣ Permᴰ.swap refl refl ∣₁

abbrev addresses : ConsAddresses
addresses = record {
  get_cons_address = λ pk. pk;
  address_string = λ adr. adr;
  cons_address_from_bech32 = some;
}

abbrev old_set : ValidatorSet
old_set = record {
  active_validators =
      (codes "old", record { address = codes "old"; pub_key = codes "old"; voting_power = pos 9 })
      ∷ [];
  block_height = pos 3;
}

abbrev updates : List VaultValidator
updates =
    record { pub_key = codes "a"; power = pos 1 }
    ∷ record { pub_key = codes "b"; power = pos 2 }
    ∷ record { pub_key = codes "a"; power = pos 5 }
    ∷ []

update_validator_set-replaces_example :
    ((k : Text)
      → load k (update_validator_set addresses updates (pos 8) old_set).active_validators
        ≡ last_update addresses k none updates)
    × Nodup (keys (update_validator_set addresses updates (pos 8) old_set).active_validators)
    × (length
          (get_active_validators addresses
            (update_validator_set addresses updates (pos 8) old_set)).0
        ≡ length (update_validator_set addresses updates (pos 8) old_set).active_validators)
    × ((get_active_validators addresses (update_validator_set addresses updates (pos 8) old_set)).1
        ≡ pos 8)
update_validator_set-replaces_example =
    update_validator_set-replaces addresses updates (pos 8) old_set

-- The second attempt makes the key.
abbrev new_key : KeygenResponse
new_key = record { success = true; pub_key = codes "pk" }

abbrev key_gen : ℕ → Outcome KeygenResponse
key_gen zero = err sign_failed
key_gen (suc retry) = ok new_key

abbrev answers : KeygenAnswers
answers = record {
  validators = ok updates;
  marshal_pub_key = ok;
  my_pub_key = ok (codes "a");
  key_gen = λ pub_keys height retry. key_gen retry;
  operator = ok (codes "op");
}

first-Fails : (j : ℕ) → j < 1 → Fails (key_gen (0 + j))
first-Fails zero lt = tt
first-Fails (suc j) lt = absurd (omega arith)

do_keygen-announces_example :
    (do_keygen answers (codes "a" ∷ codes "b" ∷ []) (pos 8) jolt_chain
      ≡ ok (record jolt_chain {
        key_gen_cache = pool_message (codes "op") (codes "pk") (pos 9) ∷ [];
      }))
    × (check_and_update_pool
          (pos 9)
          (λ _. err other_fault)
          (record jolt_chain {
            key_gen_cache = pool_message (codes "op") (codes "pk") (pos 9) ∷ [];
          })
        ≡ after_submission
            (err other_fault)
            (pool_message (codes "op") (codes "pk") (pos 9))
            jolt_chain)
unfolding ◌+ℤ◌
do_keygen-announces_example =
    do_keygen-announces answers (codes "a" ∷ codes "b" ∷ []) (pos 8) jolt_chain (codes "op") 1
      new_key refl first-Fails refl refl (omega arith) refl (pos 9) (λ _. err other_fault)

-- A chain with one header in the queue and one in the channel.
abbrev chain : ChainInfo
chain = record {
  chain_type = codes "BSC";
  client = 1;
  subscribed = true;
  sub_channel_now = codes "h2" ∷ [];
  channel_queue = (codes "h1", codes "BSC") ∷ [];
}

abbrev refused : DialAnswers
refused = record { dial = ok tt; subscribe = err other_fault }

abbrev accepted : DialAnswers
accepted = record { dial = ok tt; subscribe = ok tt }

abbrev renewed : Outcome Done × ChainInfo
renewed = retry_pub_chain (err other_fault) (refused ∷ accepted ∷ []) chain

retry_pub_chain-keeps_example :
    (pending_heads renewed.1 ≡ (codes "h1", codes "BSC") ∷ (codes "h2", codes "BSC") ∷ [])
    × (renewed.1.chain_type ≡ codes "BSC")
    × (renewed.0 ≡ ok tt → (renewed.1.subscribed ≡ true) × (renewed.1.sub_channel_now ≡ []))
retry_pub_chain-keeps_example = retry_pub_chain-keeps other_fault (refused ∷ accepted ∷ []) chain

abbrev lost : ChainInfo
lost = (retry_pub_chain (err other_fault) (refused ∷ refused ∷ []) chain).1

retry_pub_chain-LosesSubscription_example :
    (lost.subscribed ≡ false)
    × ((later : List DialAnswers) → (retry_pub_chain (ok tt) later lost).1.subscribed ≡ false)
    × ((health : Outcome Done) (later : List DialAnswers)
        → (health_check_and_reset (ok tt) health later lost).subscribed ≡ false)
retry_pub_chain-LosesSubscription_example =
    retry_pub_chain-LosesSubscription other_fault refused (refused ∷ []) chain
      (refl, (other_fault, refl)) ((refl, (other_fault, refl)), tt)

check_tx_status-decides_example :
    ((status : ℕ) (after : List (Outcome ℕ))
      → check_tx_status other_fault (err other_fault ∷ ok status ∷ after)
        ≡ (if status == 1 then ok tt else err tx_failed))
    × ((e : Fault) × (check_tx_status other_fault (err other_fault ∷ []) ≡ err e))
check_tx_status-decides_example =
    check_tx_status-decides (err other_fault ∷ []) other_fault (tt, tt)
