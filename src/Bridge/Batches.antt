-- ===== src/Bridge/Batches.antt =====
-- The batches of deposits: processInbound (bridge/bridge_service.go). The goroutines of a batch are
-- taken in the order of its items.
use joltifychain_bridge.Base.{ℕ, ◌+◌, Bool, Option, none, some, List, [], ◌∷◌, Text, if◌then◌else◌}
use joltifychain_bridge.Base.SyncMap.{SyncMap, load, store}
use joltifychain_bridge.Base.Outcome.{Outcome, ok, err, panic, ◌>>=◌, Done}
use joltifychain_bridge.Common.Libraries.{Chains}
use joltifychain_bridge.Common.Types.{InBoundReq}
use joltifychain_bridge.CosSend.TxConfig.{TxConfig, TxAnswers}
use joltifychain_bridge.Connections.TxStatus.{check_whether_already_exist, check_issue_status}
use joltifychain_bridge.Bridge.Mint.{IssueToken, index_of, do_process_in_bound}
use joltifychain_bridge.Queue.Inbound
use joltifychain_bridge.State.{PubChain}
use joltifychain_bridge.Bridge.Heights.{Service}

-- failedInbound or failedOutbound, unless the bridge waits
abbrev pub counted : Bool → ℕ → ℕ
counted waits failed = if waits then failed else failed + 1

-- What a batch of deposits asks its surroundings, but for its transaction.
pub record InboundAnswers : Type 0 where
  pub dial : Outcome Done
  -- the query of CheckWhetherAlreadyExist: whether there is a token for an index
  pub token_query : Text → Outcome Bool
  -- GetLastBlockHeightWithLock
  pub jolt_height : Outcome Done
  pub dial_local : Text → Outcome Done
  -- the queries of CheckTxStatus for an index, twenty-one at most
  pub status_queries : Text → List (Outcome Bool)

module _ (chains : Chains) (config : TxConfig) (tx_answers : TxAnswers)
    (issue : IssueToken config) where
  -- itemsMap
  unfoldable pub items_map : List InBoundReq → SyncMap InBoundReq → SyncMap InBoundReq
  items_map [] m = m
  items_map (el ∷ items) m = items_map items (store (index_of chains el) el m)

  -- needToBeProcessed
  unfoldable pub not_existing : InboundAnswers → List InBoundReq → List InBoundReq
  unfolding check_whether_already_exist
  not_existing answers [] = []
  not_existing answers (item ∷ items) =
      let rest = not_existing answers items in
      if check_whether_already_exist (answers.token_query (index_of chains item))
      then rest
      else item ∷ rest

  -- all the items of a batch go on hold
  unfoldable pub hold_all : List InBoundReq → PubChain → PubChain
  hold_all [] pi = pi
  hold_all (el ∷ items) pi = hold_all items (Inbound.add_on_hold_queue el pi)

  -- an item that the chain does not confirm; one that is not in the map would be put on hold as nil
  unfoldable pub hold_unconfirmed : Option InBoundReq → Service → Outcome Service
  hold_unconfirmed none s = panic
  hold_unconfirmed (some item) s = ok (record s {
    failed_inbound = counted s.inbound_wait s.failed_inbound;
    pi = Inbound.add_on_hold_queue item s.pi;
  })

  -- one goroutine: without a connection of its own it ends, and the item with it
  unfoldable pub confirm :
      SyncMap InBoundReq → Text → Outcome Done → Outcome Done → Service → Outcome Service
  confirm items index (err e) status s = ok s
  confirm items index panic status s = panic
  confirm items index (ok dialled) panic s = panic
  confirm items index (ok dialled) (ok done) s = ok (record s { failed_inbound = 0 })
  confirm items index (ok dialled) (err e) s = hold_unconfirmed (load index items) s

  -- the goroutines, one for each hash
  unfoldable pub confirm_all :
      InboundAnswers → SyncMap InBoundReq → SyncMap Text → Service → Outcome Service
  unfolding check_issue_status
  confirm_all answers items [] s = ok s
  confirm_all answers items ((index, tx_hash) ∷ m) s = do
    after ←
        confirm items index (answers.dial_local index)
          (check_issue_status (answers.status_queries index)) s
    confirm_all answers items m after

  -- the batch without the items that others have submitted
  unfoldable pub process_needed :
      InboundAnswers → List InBoundReq → List InBoundReq → Service → Outcome Service
  unfolding do_process_in_bound
  process_needed answers items [] s = ok (record s { failed_inbound = 0 })
  process_needed answers items (el ∷ needed) s =
      elim (do_process_in_bound chains config tx_answers issue answers.jolt_height (el ∷ needed)) [
        | err e ↦ ok (record s { pi = hold_all items s.pi })
        | panic ↦ panic
        | ok m ↦ confirm_all answers (items_map items []) m s
      ]

  -- processInbound: a batch that cannot be dialled for is gone
  unfoldable pub process_inbound : InboundAnswers → List InBoundReq → Service → Outcome Service
  process_inbound answers items s = elim answers.dial [
    | err e ↦ ok s
    | panic ↦ panic
    | ok dialled ↦ process_needed answers items (not_existing answers items) s
  ]
