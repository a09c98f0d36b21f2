-- ===== src/Bridge/JoltBlock.antt =====
-- A new block of the joltify chain: the case `ChannelQueueNewBlock` of bridge/bridge_service.go,
-- with CheckAndUpdatePool (cosbridge/bridge.go) and CheckWhetherSigner (cosbridge/validator.go).
pub mod Stalled
use joltifychain_bridge.Base.{
  ℕ, ◌+◌, ◌*◌, ◌/◌, Bool, true, false, not, ◌&&◌, Option, none, some, List, [], ◌∷◌, Text, text_eq,
  ltb, ℤ, pos, ltb_ℤ, ◌+ℤ◌, ◌-ℤ◌, if◌then◌else◌,
}
use joltifychain_bridge.Base.Int.{leb_ℤ}
use joltifychain_bridge.Base.SyncMap.{SyncMap}
use joltifychain_bridge.Base.Outcome.{Outcome, ok, err, panic, ◌>>=◌, Done}
use joltifychain_bridge.Common.Libraries.{Sdk, Chains}
use joltifychain_bridge.Common.Types.{PoolInfo, VaultPool, InBoundReq}
use joltifychain_bridge.Common.Fee.{FeeModule}
use joltifychain_bridge.TokenList.{TokenList, TokenFile, update_token_list}
use joltifychain_bridge.State.{JoltChain, PubChain, TssPoolMsg}
use joltifychain_bridge.Pools.{keep_pools}
use joltifychain_bridge.Outbound.{TxWithMemo}
use joltifychain_bridge.Outbound.Messages.{check_outbound_tx}
use joltifychain_bridge.Queue.Inbound.{is_empty, size}
use joltifychain_bridge.Bridge.Heights.{Service, pause_round}
use joltifychain_bridge.Bridge.Feed.{group_sign, Account, feed_inbound}
use joltifychain_bridge.Bridge.OnHold.{put_on_hold_inbound_back}

-- GroupBlockGap of pubchain/types.go, which this handler compares with
abbrev pub inbound_block_gap : ℤ
inbound_block_gap = pos 8

-- the loop of CheckWhetherSigner
unfoldable pub among_nodes : Text → List Text → Bool
among_nodes creator [] = false
among_nodes creator (node ∷ nodes) =
    if text_eq node creator then true else among_nodes creator nodes

-- CheckWhetherSigner, with the address of the operator's key
unfoldable pub check_whether_signer : Outcome Text → VaultPool → Outcome Bool
unfolding among_nodes
check_whether_signer operator last_pool_info = do
  creator ← operator
  ok (among_nodes creator last_pool_info.nodes)

-- the answer to the submission of a pool's message, which is dropped once it is accepted
unfoldable pub submitted : Outcome Done → List TssPoolMsg → JoltChain → Bool × JoltChain
submitted (ok done) rest jc = (true, record jc { key_gen_cache = rest })
submitted (err e) rest jc = (false, jc)
submitted panic rest jc = (false, jc)

-- the first message that waits, once its height has come
unfoldable pub submit_first :
    ℤ → (TssPoolMsg → Outcome Done) → List TssPoolMsg → JoltChain → Bool × JoltChain
unfolding submitted
submit_first block_height submit [] jc = (true, jc)
submit_first block_height submit (el ∷ rest) jc =
    if leb_ℤ el.block_height block_height then submitted (submit el) rest jc else (true, jc)

-- CheckAndUpdatePool, with the node's answer to the submission
unfoldable pub check_and_update_pool :
    ℤ → (TssPoolMsg → Outcome Done) → JoltChain → Bool × JoltChain
unfolding submit_first
check_and_update_pool block_height submit jc = submit_first block_height submit jc.key_gen_cache jc

-- a division that rounds towards zero, as that of an int64
abbrev pub quotient : ℤ → ℕ → ℤ
quotient (pos n) d = pos (n / d)
quotient (ℤ.negsuc n) d = pos 0 -ℤ pos ((n + 1) / d)

-- a product with a positive number
abbrev pub scaled : ℤ → ℕ → ℤ
scaled (pos n) d = pos (n * d)
scaled (ℤ.negsuc n) d = pos 0 -ℤ pos ((n + 1) * d)

-- one transaction of a block: its hash, the code of its result, and how it is decoded
pub record BlockTx : Type 0 where
  pub hash : Text
  pub code : Outcome ℕ
  pub decoded : Option TxWithMemo

module _ (sdk : Sdk) (chains : Chains) where
  -- What the handler asks its surroundings.
  pub record JoltAnswers : Type 0 where
    pub dial : Outcome Done
    pub latest_height : Outcome ℤ
    pub submit : TssPoolMsg → Outcome Done
    pub query_last_pool : Outcome (List VaultPool)
    pub block : ℤ → Outcome (List BlockTx)
    pub operator : Outcome Text
    pub fee_module : SyncMap (FeeModule sdk)
    pub query_token_price : Text → Outcome sdk.SdkDec
    pub token_file : TokenFile
    pub dial_grpc : Outcome Done
    pub check_tx_status : InBoundReq → Outcome Done
    pub query_account : Outcome Account

  -- the transactions of the block
  unfoldable pub check_txs :
      TokenList → JoltAnswers → ℤ → List BlockTx → JoltChain → Outcome JoltChain
  check_txs tl answers height [] jc = ok jc
  check_txs tl answers height (tx ∷ txs) jc = do
    after ←
        check_outbound_tx sdk chains tl answers.fee_module answers.query_token_price height tx.hash
          tx.code tx.decoded jc
    check_txs tl answers height txs after

  -- a signer reads the block; every other node ends the handler here
  unfoldable pub read_block :
      TokenList → JoltAnswers → ℤ → PoolInfo → List BlockTx → JoltChain → Outcome (Option JoltChain)
  unfolding check_txs check_whether_signer
  read_block tl answers height pool txs jc =
      elim (check_whether_signer answers.operator pool.pool_info) [
        | err e ↦ ok none
        | panic ↦ panic
        | ok signer ↦
            (if signer
              then (do after ← check_txs tl answers height txs jc; ok (some after))
              else ok none)
      ]

  -- the block that is old enough; none ends the handler
  unfoldable pub process_block :
      TokenList → JoltAnswers → ℤ → Option PoolInfo → JoltChain → Outcome (Option JoltChain)
  unfolding read_block
  process_block tl answers processable pool jc = elim (answers.block processable) [
    | err e ↦ ok none
    | panic ↦ panic
    | ok txs ↦ elim pool [ none ↦ panic | some p ↦ read_block tl answers processable p txs jc ]
  ]

  -- after more than five failures: no deposits until the next round of blocks
  unfoldable pub start_inbound_pause : ℤ → Service → Service
  start_inbound_pause latest s =
      if ltb 5 s.failed_inbound
      then record s {
        failed_inbound = 0;
        inbound_pause_height = scaled (quotient latest pause_round +ℤ pos 1) pause_round;
        inbound_wait = true;
      }
      else s

  -- the deposits on hold go back
  unfoldable pub reload_inbound : JoltAnswers → Service → Outcome Service
  reload_inbound answers s = do
    pi ← put_on_hold_inbound_back chains answers.dial_grpc answers.check_tx_status s.pi
    ok (record s { pi = pi })

  -- the error of FeedTx is only logged
  unfoldable pub logged_feed : PubChain → Outcome PubChain → Outcome PubChain
  logged_feed pi (ok after) = ok after
  logged_feed pi (err e) = ok pi
  logged_feed pi panic = panic

  -- FeedTx of the latest pool, and the flags that follow it
  unfoldable pub feed_deposits : ℤ → Option PoolInfo → JoltAnswers → Service → Outcome Service
  unfolding logged_feed
  feed_deposits current none answers s = panic
  feed_deposits current (some pool) answers s = do
    pi ← logged_feed s.pi (
        feed_inbound pool.pool_info (check_whether_signer answers.operator pool.pool_info)
          answers.query_account s.pi)
    ok (record s {
      pi = pi;
      inbound_process_done = false;
      previous_tss_block_inbound = current;
      first_time_inbound = true;
    })

  -- a batch that is due: a small one waits for one more round, and every one for the batch before
  -- it and for the key generation
  unfoldable pub feed_deposits_due :
      ℤ → ℤ → Option PoolInfo → JoltAnswers → Service → Outcome Service
  unfolding feed_deposits
  feed_deposits_due current processable pool answers s =
      if leb_ℤ inbound_block_gap (processable -ℤ s.previous_tss_block_inbound)
        && not (is_empty s.pi)
      then (if ltb (size s.pi) group_sign && s.first_time_inbound
          then ok (record s { first_time_inbound = false })
          else (if not s.inbound_process_done
              then ok s
              else (if s.in_keygen_in_progress
                  then ok s
                  else feed_deposits current pool answers s)))
      else ok s

  -- the handler from the pause on
  unfoldable pub process_deposits :
      ℤ → ℤ → ℤ → Option PoolInfo → JoltAnswers → Service → Outcome Service
  unfolding start_inbound_pause reload_inbound feed_deposits_due
  process_deposits current latest processable pool answers s =
      let started = start_inbound_pause latest s in
      if ltb_ℤ latest started.inbound_pause_height
      then (if leb_ℤ (started.inbound_pause_height -ℤ pos 1) latest
          then reload_inbound answers started
          else ok started)
      else (let resumed : Service = record started { inbound_wait = false } in
          if is_empty resumed.pi
          then (do
            reloaded ← reload_inbound answers resumed
            feed_deposits_due current processable pool answers reloaded)
          else feed_deposits_due current processable pool answers resumed)

  -- the token list; an error of its update is only logged
  unfoldable pub logged_tokens : TokenList → Outcome TokenList → Outcome TokenList
  logged_tokens tl (ok after) = ok after
  logged_tokens tl (err e) = ok tl
  logged_tokens tl panic = panic

  -- after the block
  unfoldable pub finish_block :
      TokenList
      → ℤ
      → ℤ
      → ℤ
      → Option PoolInfo
      → JoltAnswers
      → Option JoltChain
      → Service
      → Outcome (TokenList × Service)
  unfolding process_deposits logged_tokens
  finish_block tl current latest processable pool answers none s = ok (tl, s)
  finish_block tl current latest processable pool answers (some jolt) s = do
    tokens ← logged_tokens tl (update_token_list answers.token_file current tl)
    after ←
        process_deposits current latest processable pool answers
          (record s { jolt = record jolt { current_height = current } })
    ok (tokens, after)

  -- with the pools kept: the block, where it is old enough
  unfoldable pub with_kept_pools :
      TokenList
      → ℤ
      → ℤ
      → ℤ
      → Option PoolInfo
      → JoltAnswers
      → Service
      → Outcome (TokenList × Service)
  unfolding process_block finish_block
  with_kept_pools tl current latest rollback_gap pool answers s =
      if ltb_ℤ rollback_gap current
      then (do
        jolt ← process_block tl answers (current -ℤ rollback_gap) pool s.jolt
        finish_block tl current latest (current -ℤ rollback_gap) pool answers jolt s)
      else finish_block tl current latest (pos 0) pool answers (some s.jolt) s

  -- the two pools of the query; any other number ends the handler
  unfoldable pub with_queried_pools :
      TokenList → ℤ → ℤ → ℤ → JoltAnswers → List VaultPool → Service → Outcome (TokenList × Service)
  unfolding with_kept_pools
  with_queried_pools tl current latest rollback_gap answers [] s = ok (tl, s)
  with_queried_pools tl current latest rollback_gap answers (p ∷ []) s = ok (tl, s)
  with_queried_pools tl current latest rollback_gap answers (p ∷ q ∷ r ∷ pools) s = ok (tl, s)
  with_queried_pools tl current latest rollback_gap answers (p ∷ q ∷ []) s = do
    kept ← keep_pools chains latest p q (s.pi, s.jolt)
    let after : Service = record s { pi = kept.1.0; jolt = kept.1.1 }
    if kept.0
        then with_kept_pools tl current latest rollback_gap s.jolt.pool1 answers after
        else ok (tl, after)

  -- the whole case
  unfoldable pub new_block :
      TokenList → ℤ → ℤ → JoltAnswers → Service → Outcome (TokenList × Service)
  unfolding with_queried_pools check_and_update_pool
  new_block tl current rollback_gap answers s = elim answers.dial [
    | err e ↦ ok (tl, s)
    | panic ↦ panic
    | ok dialled ↦ elim answers.latest_height [
      | err e ↦ ok (tl, s)
      | panic ↦ panic
      | ok latest ↦
          (let updated : Service = record s {
            jolt = (check_and_update_pool latest answers.submit s.jolt).1;
          } in
            elim answers.query_last_pool [
              | err e ↦ ok (tl, updated)
              | panic ↦ panic
              | ok pools ↦ with_queried_pools tl current latest rollback_gap answers pools updated
            ])
    ]
  ]
