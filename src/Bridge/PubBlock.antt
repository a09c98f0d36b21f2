-- ===== src/Bridge/PubBlock.antt =====
-- A new block of a public chain: pubchainProcess (bridge/pubchain_routine.go).
pub mod Pause
use joltifychain_bridge.Base.{
  ℕ, ◌+◌, ◌-◌, ◌*◌, ◌/◌, ◌%◌, ◌^◌, Bool, true, false, not, ◌&&◌, Option, none, some, List, [], ◌∷◌,
  ◌++◌, Text, ltb, ◌==◌, ℤ, pos, ◌-ℤ◌, if◌then◌else◌,
}
use joltifychain_bridge.Base.Int.{leb_ℤ}
use joltifychain_bridge.Base.Outcome.{Outcome, ok, err, panic, ◌>>=◌, Done}
use joltifychain_bridge.Common.Libraries.{Sdk, Chains}
use joltifychain_bridge.Common.Types.{PoolInfo, VaultPool, OutBoundReq, MoveFundItem}
use joltifychain_bridge.TokenList.{TokenList}
use joltifychain_bridge.State.{JoltChain, PubChain}
use joltifychain_bridge.MoveFund.Items.{add_move_fund_item, pop_move_fund_item_after_block}
use joltifychain_bridge.MoveFund.Found.{FundAnswers, move_found}
use joltifychain_bridge.Inbound.Blocks.{Transaction, BlockAnswers, process_new_block}
use joltifychain_bridge.Queue.Outbound.{pop_item, is_empty, size}
use joltifychain_bridge.Bridge.Heights.{Service, set_height, get_height, pause_round}
use joltifychain_bridge.Bridge.Feed.{group_sign, feed_outbound}
use joltifychain_bridge.Bridge.OnHold.{put_on_hold_outbound_back}

-- GroupBlockGap of cosbridge/types.go, which this handler compares with
abbrev pub group_block_gap : ℤ
group_block_gap = pos 4

module _ (sdk : Sdk) (chains : Chains) where
  -- What the handler asks its surroundings.
  pub record PubAnswers : Type 0 where
    -- GetChainClient finds a client
    pub has_client : Bool
    pub latest_height : Outcome ℕ
    pub jolt_block_height : Outcome ℤ
    -- CheckWhetherSigner of the latest pool
    pub am_i_signer : VaultPool → Outcome Bool
    pub block : Outcome (List Transaction)
    pub block_answers : BlockAnswers sdk chains
    -- ethclient.Dial before MoveFound
    pub dial : Outcome Done
    pub fund : FundAnswers
    -- of putOnHoldBlockOutBoundBack
    pub dial_grpc : Outcome Done
    pub check_tx_status : Text → Outcome Done
    pub pending_nonce : Outcome ℕ

  -- ProcessNewBlock; an error is only logged
  unfoldable pub logged_block : Outcome (PubChain × JoltChain) → Service → Outcome Service
  logged_block (ok (pi, jolt)) s = ok (record s { pi = pi; jolt = jolt })
  logged_block (err e) s = ok s
  logged_block panic s = panic

  -- MoveFound of the pool that was popped; a pool that cannot be dialled for waits again
  unfoldable pub move_popped :
      TokenList
      → Text
      → PubAnswers
      → Option (MoveFundItem × ℤ) × PubChain
      → Outcome (Bool × PubChain)
  move_popped tl chain_type answers (none, pi) = ok (false, pi)
  move_popped tl chain_type answers (some (item, height), pi) = elim answers.dial [
    | ok dialled ↦ move_found tl height chain_type item.pool_info answers.fund pi
    | err e ↦ ok (false, add_move_fund_item item.pool_info height chain_type pi)
    | panic ↦ panic
  ]

  -- after more than five failures: no transfers until the next round of blocks
  unfoldable pub start_pause : ℕ → Text → Service → Outcome Service
  start_pause latest chain_type s =
      if ltb 5 s.failed_outbound
      then (do
        paused ←
            set_height ((latest / pause_round + 1) * pause_round % 2 ^ 64) chain_type
              s.outbound_pause_height
        ok (record s { outbound_pause_height = paused; failed_outbound = 0; outbound_wait = true }))
      else ok s

  -- the transfers on hold go back
  unfoldable pub reload_outbound : PubAnswers → Service → Outcome Service
  reload_outbound answers s = do
    jolt ← put_on_hold_outbound_back chains answers.dial_grpc answers.check_tx_status s.jolt
    ok (record s { jolt = jolt })

  -- the batch that was popped, once it has its nonces; the error of FeedTx drops it
  unfoldable pub send_batch : ℤ → Text → Outcome (List OutBoundReq) → Service → Outcome Service
  send_batch processable chain_type panic s = panic
  send_batch processable chain_type (err e) s = ok s
  send_batch processable chain_type (ok items) s = do
    previous ← set_height processable chain_type s.previous_tss_block_outbound
    ok (record s {
      previous_tss_block_outbound = previous;
      first_time_outbound = true;
      jolt = record s.jolt { outbound_req_chan = s.jolt.outbound_req_chan ++ items ∷ [] };
      outbound_process_done = false;
    })

  -- PopItem and FeedTx
  unfoldable pub feed_batch : ℤ → Text → PoolInfo → PubAnswers → Service → Outcome Service
  unfolding send_batch
  feed_batch processable chain_type pool answers s = do
    popped ← pop_item group_sign chain_type s.jolt
    let after : Service = record s { jolt = popped.1 }
    elim popped.0 [
      | none ↦ ok after
      | some items ↦
          send_batch processable chain_type
            (feed_outbound chains pool.pool_info answers.pending_nonce items) after
    ]

  -- a batch that is due: a small one waits for one more round
  unfoldable pub feed_due : ℤ → Text → PoolInfo → PubAnswers → Service → Outcome Service
  unfolding feed_batch
  feed_due processable chain_type pool answers s = do
    previous ← get_height chain_type s.previous_tss_block_outbound
    if leb_ℤ group_block_gap (processable -ℤ previous) && not (is_empty s.jolt)
        then (if ltb (size s.jolt) group_sign && s.first_time_outbound
            then ok (record s { first_time_outbound = false })
            else feed_batch processable chain_type pool answers s)
        else ok s

  -- the handler from `outBoundWait.Store(false)` on
  unfoldable pub feed_outbounds : ℤ → Text → PoolInfo → PubAnswers → Service → Outcome Service
  unfolding feed_due reload_outbound
  feed_outbounds processable chain_type pool answers s =
      if not s.outbound_process_done
      then ok s
      else (if s.in_keygen_in_progress
          then ok s
          else (if is_empty s.jolt
              then (do
                reloaded ← reload_outbound answers s
                feed_due processable chain_type pool answers reloaded)
              else feed_due processable chain_type pool answers s))

  -- the pause
  unfoldable pub unless_paused : ℕ → ℤ → Text → PoolInfo → PubAnswers → Service → Outcome Service
  unfolding start_pause reload_outbound feed_outbounds
  unless_paused latest processable chain_type pool answers s = do
    started ← start_pause latest chain_type s
    paused ← get_height chain_type started.outbound_pause_height
    if ltb latest paused
        then (if latest == paused - 1 then reload_outbound answers started else ok started)
        else feed_outbounds processable chain_type pool answers
            (record started { outbound_wait = false })

  -- the block, the waiting pools, and the transfers
  unfoldable pub process_as_signer :
      TokenList → ℕ → ℤ → ℤ → Text → PoolInfo → PubAnswers → Service → Outcome Service
  unfolding logged_block move_popped unless_paused
  process_as_signer tl latest jolt_height processable chain_type pool answers s = do
    read ←
        logged_block
          (process_new_block sdk chains tl answers.block_answers chain_type processable
            answers.block (s.pi, s.jolt))
          s
    popped ← pop_move_fund_item_after_block jolt_height chain_type read.pi
    moved ← move_popped tl chain_type answers popped
    let after : Service = record read { pi = moved.1 }
    if moved.0 then ok after else unless_paused latest processable chain_type pool answers after

  -- pubchainProcess, for the head of a chain at this height
  unfoldable pub pubchain_process :
      TokenList → ℤ → ℤ → Text → PubAnswers → Service → Outcome Service
  unfolding process_as_signer
  pubchain_process tl head rollback_gap chain_type answers s =
      if answers.has_client
      then (elim answers.latest_height [
        | err e ↦ ok s
        | panic ↦ panic
        | ok latest ↦ elim answers.jolt_block_height [
          | err e ↦ ok s
          | panic ↦ panic
          | ok jolt_height ↦ elim s.jolt.pool1 [
            | none ↦ ok s
            | some pool ↦ elim (answers.am_i_signer pool.pool_info) [
              | err e ↦ ok s
              | panic ↦ panic
              | ok signer ↦
                  (if signer
                    then process_as_signer tl latest jolt_height (head -ℤ rollback_gap) chain_type
                        pool answers s
                    else ok s)
            ]
          ]
        ]
      ])
      else ok s
