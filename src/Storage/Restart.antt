-- ===== src/Storage/Restart.antt =====
-- NewBridgeService (bridge/bridge_service.go): what is read before the loop starts, and what is
-- written after it has ended.
use joltifychain_bridge.Base.{Bool, List, [], ◌∷◌}
use joltifychain_bridge.Base.Outcome.{Outcome, ok, ◌>>=◌, Done, panic, err}
use joltifychain_bridge.Common.Libraries.{Chains}
use joltifychain_bridge.Common.Types.{OutBoundReq, InBoundReq, MoveFundItem}
use joltifychain_bridge.Queue.Outbound
use joltifychain_bridge.Queue.Inbound
use joltifychain_bridge.MoveFund.Items.{add_move_fund_item, export_move_fund_items}
use joltifychain_bridge.State.{JoltChain, PubChain}
use joltifychain_bridge.Storage.{
  Codec, Files, Written, save_state, load_state, load_pending_items, outbound_file, inbound_file,
  move_fund_file,
}

-- the codecs of the three lists
pub record Codecs (Buf : Type 0) : Type 0 where
  pub outbound : Codec Buf OutBoundReq
  pub inbound : Codec Buf InBoundReq
  pub move_fund : Codec Buf MoveFundItem

-- the loop of AddItem
unfoldable pub add_items : Chains → List OutBoundReq → JoltChain → Outcome JoltChain
add_items chains [] jc = ok jc
add_items chains (el ∷ items) jc = do
  after ← Outbound.add_item chains el jc
  add_items chains items after

-- the loop of AddInBoundItem
unfoldable pub add_in_bound_items : Chains → List InBoundReq → PubChain → PubChain
add_in_bound_items chains [] pi = pi
add_in_bound_items chains (el ∷ items) pi =
    add_in_bound_items chains items (Inbound.add_in_bound_item chains el pi)

-- the loop of AddMoveFundItem
unfoldable pub add_move_fund_items : List MoveFundItem → PubChain → PubChain
add_move_fund_items [] pi = pi
add_move_fund_items (item ∷ items) pi =
    add_move_fund_items items (add_move_fund_item item.pool_info item.height item.chain_type pi)

-- len(pubItems) != 0, after an error that is only logged
unfoldable pub loaded_move_funds : Outcome (List MoveFundItem) → PubChain → PubChain
unfolding add_move_fund_items
loaded_move_funds (ok items) pi = add_move_fund_items items pi
loaded_move_funds (err e) pi = pi
loaded_move_funds panic pi = pi

-- Whether the home folder has no name, and the answers of the three reads.
pub record ReadAnswers : Type 0 where
  pub empty_folder : Bool
  pub outbound : Outcome Done
  pub inbound : Outcome Done
  pub move_fund : Outcome Done

-- from "now we load the existing outbound requests" to addEventLoop
unfoldable pub load_items :
    {Buf : Type 0}
    → Chains
    → Codecs Buf
    → ReadAnswers
    → Files Buf
    → JoltChain × PubChain
    → Outcome (JoltChain × PubChain)
unfolding add_items add_in_bound_items loaded_move_funds
load_items chains codecs read files (jc, pi) = do
  loaded ←
      add_items chains
        (load_state codecs.outbound read.empty_folder outbound_file read.outbound files).0 jc
  ok (
    loaded,
    loaded_move_funds
        (load_pending_items codecs.move_fund read.empty_folder move_fund_file read.move_fund files)
        (add_in_bound_items chains
          (load_state codecs.inbound read.empty_folder inbound_file read.inbound files).0 pi),
  )

-- The answers of the three writes.
pub record WriteAnswers (Buf : Type 0) : Type 0 where
  pub outbound : Written Buf
  pub inbound : Written Buf
  pub move_fund : Written Buf

-- the three saves, whose errors are only logged
unfoldable pub save_items :
    {Buf : Type 0} → Codecs Buf → WriteAnswers Buf → JoltChain × PubChain → Files Buf → Files Buf
save_items codecs written (jc, pi) files =
    let first =
      (save_state codecs.outbound outbound_file (Outbound.export_items jc) written.outbound
        files).1 in
    let second =
      (save_state codecs.inbound inbound_file (Inbound.export_items pi) written.inbound first).1 in
    (save_state codecs.move_fund move_fund_file (export_move_fund_items pi) written.move_fund
      second).1

-- after the loop: the items on hold go back to the pools, and the pools are saved
unfoldable pub shut_down :
    {Buf : Type 0}
    → Chains
    → Codecs Buf
    → WriteAnswers Buf
    → JoltChain × PubChain
    → Files Buf
    → Outcome ((JoltChain × PubChain) × Files Buf)
unfolding add_items add_in_bound_items save_items
shut_down chains codecs written (jc, pi) files = do
  let dumped = Outbound.dump_queue jc
  back ← add_items chains dumped.0 dumped.1
  let dumped_in = Inbound.dump_queue pi
  let back_in = add_in_bound_items chains dumped_in.0 dumped_in.1
  ok ((back, back_in), save_items codecs written (back, back_in) files)
