-- ===== src/Bridge/OnHold.antt =====
-- putOnHoldBlockInBoundBack and putOnHoldBlockOutBoundBack: the transfers on hold go back to the
-- retry pools, less those that the chain has meanwhile confirmed. The goroutines of the items are
-- taken in the order of the queue.
use joltifychain_bridge.Base.{List, [], ◌∷◌, Text, text_eq, if◌then◌else◌}
use joltifychain_bridge.Base.Outcome.{Outcome, ok, err, panic, ◌>>=◌, Done}
use joltifychain_bridge.Common.Libraries.{Chains}
use joltifychain_bridge.Common.Types.{OutBoundReq, InBoundReq}
use joltifychain_bridge.Common.Requests.{empty_hash}
use joltifychain_bridge.Queue.Inbound.{add_in_bound_item}
use joltifychain_bridge.Queue.Outbound.{add_item}
use joltifychain_bridge.Queue.Inbound
use joltifychain_bridge.Queue.Outbound
use joltifychain_bridge.State.{JoltChain, PubChain}

module _ (chains : Chains) where
  -- one inbound item: kept unless CheckTxStatus finds it on the joltify chain
  unfoldable pub back_inbound : Outcome Done → InBoundReq → PubChain → Outcome PubChain
  back_inbound (ok done) each pi = ok pi
  back_inbound (err e) each pi = ok (add_in_bound_item chains each pi)
  back_inbound panic each pi = panic

  unfoldable pub back_all_inbound :
      (InBoundReq → Outcome Done) → List InBoundReq → PubChain → Outcome PubChain
  back_all_inbound check_tx_status [] pi = ok pi
  back_all_inbound check_tx_status (each ∷ items) pi = do
    after ← back_inbound (check_tx_status each) each pi
    back_all_inbound check_tx_status items after

  -- putOnHoldBlockInBoundBack
  unfoldable pub put_on_hold_inbound_back :
      Outcome Done → (InBoundReq → Outcome Done) → PubChain → Outcome PubChain
  put_on_hold_inbound_back (err e) check_tx_status pi = ok pi
  put_on_hold_inbound_back panic check_tx_status pi = panic
  put_on_hold_inbound_back (ok dialled) check_tx_status pi =
      let dumped = Inbound.dump_queue pi in back_all_inbound check_tx_status dumped.0 dumped.1

  -- one outbound item that was sent before: kept unless the public chain confirms it
  unfoldable pub back_sent : Outcome Done → OutBoundReq → JoltChain → Outcome JoltChain
  back_sent (ok done) each jc = ok jc
  back_sent (err e) each jc = add_item chains each jc
  back_sent panic each jc = panic

  -- one outbound item
  unfoldable pub back_outbound : (Text → Outcome Done) → OutBoundReq → JoltChain → Outcome JoltChain
  back_outbound check_tx_status each jc =
      if text_eq each.submitted_tx_hash empty_hash
      then add_item chains each jc
      else back_sent (check_tx_status each.submitted_tx_hash) each jc

  unfoldable pub back_all_outbound :
      (Text → Outcome Done) → List OutBoundReq → JoltChain → Outcome JoltChain
  back_all_outbound check_tx_status [] jc = ok jc
  back_all_outbound check_tx_status (each ∷ items) jc = do
    after ← back_outbound check_tx_status each jc
    back_all_outbound check_tx_status items after

  -- putOnHoldBlockOutBoundBack, with CheckTxStatus of the chain whose block came in
  unfoldable pub put_on_hold_outbound_back :
      Outcome Done → (Text → Outcome Done) → JoltChain → Outcome JoltChain
  put_on_hold_outbound_back (err e) check_tx_status jc = ok jc
  put_on_hold_outbound_back panic check_tx_status jc = panic
  put_on_hold_outbound_back (ok dialled) check_tx_status jc =
      let dumped = Outbound.dump_queue jc in back_all_outbound check_tx_status dumped.0 dumped.1
