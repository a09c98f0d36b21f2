-- ===== src/Bridge/Mint.antt =====
-- cosbridge/mint.go: a batch of deposits becomes messages that issue tokens, which are signed and
-- sent together.
pub mod Taken
use joltifychain_bridge.Base.{ℕ, Option, none, some, List, [], ◌∷◌, Text}
use joltifychain_bridge.Base.SyncMap.{SyncMap, store}
use joltifychain_bridge.Base.Outcome.{Outcome, ok, err, panic, ◌>>=◌, Done}
use joltifychain_bridge.Common.Libraries.{Chains}
use joltifychain_bridge.Common.Types.{Coin, InBoundReq}
use joltifychain_bridge.Common.Requests.{in_hash}
use joltifychain_bridge.CosSend.TxConfig.{TxConfig, TxAnswers}
use joltifychain_bridge.CosSend.Gas.{gas_estimation}
use joltifychain_bridge.CosSend.Batch.{SeqMap, load_at, batch_compose_and_send}

-- The messages of the vault module.
pub record IssueToken (config : TxConfig) : Type 0 where
  -- NewMsgCreateIssueToken, for a creator, an index, and a coin and an address in place of their
  -- texts
  pub new_msg : Text → Text → Coin → Text → Outcome config.Msg
  -- the nil message that a failed request leaves
  pub nil_msg : config.Msg

unfoldable pub or_empty : Option Text → Text
or_empty none = []
or_empty (some hash) = hash

-- txHashes[accSeq], of which a missing one is empty
unfoldable pub hash_at : SeqMap Text → ℕ → Text
unfolding or_empty
hash_at hashes acc_seq = or_empty (load_at acc_seq hashes)

-- the hashes after an error that is only logged
unfoldable pub hashes_or_none : Outcome (SeqMap Text) → Outcome (SeqMap Text)
hashes_or_none (ok hashes) = ok hashes
hashes_or_none (err e) = ok []
hashes_or_none panic = panic

module _ (chains : Chains) where
  -- item.Hash().Hex()
  abbrev pub index_of : InBoundReq → Text
  index_of item = chains.hash_hex (in_hash chains item)

  -- hashIndexMap
  unfoldable pub hash_index_map : SeqMap Text → List InBoundReq → SyncMap Text → SyncMap Text
  unfolding hash_at
  hash_index_map hashes [] m = m
  hash_index_map hashes (el ∷ items) m =
      hash_index_map hashes items (store (index_of el) (hash_at hashes el.acc_seq) m)

  module _ (config : TxConfig) (answers : TxAnswers) (issue : IssueToken config) where
    -- prepareIssueTokenRequest, for the address and the index that the loop gives
    unfoldable pub prepare_issue_token_request : InBoundReq → Outcome config.Msg
    prepare_issue_token_request item =
        issue.new_msg item.pool_cos_address (index_of item) item.coin item.user_receiver_address

    -- issueReqs, with nil for a request that fails
    unfoldable pub issue_req : Outcome config.Msg → Outcome config.Msg
    issue_req (ok msg) = ok msg
    issue_req (err e) = ok issue.nil_msg
    issue_req panic = panic

    unfoldable pub issue_reqs : List InBoundReq → Outcome (List config.Msg)
    unfolding prepare_issue_token_request issue_req
    issue_reqs [] = ok []
    issue_reqs (item ∷ items) = do
      msg ← issue_req (prepare_issue_token_request item)
      rest ← issue_reqs items
      ok (msg ∷ rest)

    -- the key of signMsgs[0], which is nil if the first request fails
    unfoldable pub first_sign_msg : InBoundReq → Outcome config.Msg → Option Text
    first_sign_msg item (ok msg) = some item.pool_pk
    first_sign_msg item (err e) = none
    first_sign_msg item panic = none

    -- batchComposeAndSend, which reads the key of a nil message after the gas estimation
    unfoldable pub compose_batch : List config.Msg → ℕ → ℕ → Option Text → Outcome (SeqMap Text)
    compose_batch msgs acc_seq acc_num (some pk) =
        batch_compose_and_send config answers msgs acc_seq acc_num pk
    compose_batch msgs acc_seq acc_num none = do
      gas ← gas_estimation config answers msgs acc_seq none
      panic

    -- DoProcessInBound, with the answer of GetLastBlockHeightWithLock; without an item items[0] is
    -- out of range
    unfoldable pub do_process_in_bound : Outcome Done → List InBoundReq → Outcome (SyncMap Text)
    unfolding hash_index_map issue_reqs first_sign_msg compose_batch hashes_or_none
    do_process_in_bound jolt_height [] = do height ← jolt_height; panic
    do_process_in_bound jolt_height (item ∷ items) = do
      height ← jolt_height
      msgs ← issue_reqs (item ∷ items)
      let pk = first_sign_msg item (prepare_issue_token_request item)
      hashes ← hashes_or_none (compose_batch msgs item.acc_seq item.acc_num pk)
      ok (hash_index_map hashes (item ∷ items) [])
