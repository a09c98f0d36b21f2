-- ===== src/Queue/Outbound.antt =====
-- cosbridge/oppy_item_process.go: the retry pool and the on-hold queue of outbound requests.
use joltifychain_bridge.Base.{
  ℕ, Bool, Option, none, some, List, [], ◌∷◌, ◌++◌, Text, text_eq, length, take, ltb, ◌==◌,
  if◌then◌else◌,
}
use joltifychain_bridge.Base.Sort.{sort}
use joltifychain_bridge.Base.SyncMap.{SyncMap, store, keys, values}
use joltifychain_bridge.Base.Outcome.{Outcome, ok, panic, ◌>>=◌}
use joltifychain_bridge.Common.Libraries.{Chains}
use joltifychain_bridge.Common.Types.{OutBoundReq}
use joltifychain_bridge.Common.Decimal.{parse_int}
use joltifychain_bridge.Common.Requests.{out_index}
use joltifychain_bridge.Queue.PopLoop.{pop_loop, passing, comparable}
use joltifychain_bridge.State.{JoltChain}

-- AddOnHoldQueue
unfoldable pub add_on_hold_queue : OutBoundReq → JoltChain → JoltChain
add_on_hold_queue item jc = record jc { on_hold_retry_queue = jc.on_hold_retry_queue ++ item ∷ [] }

-- DumpQueue: the queue, and the chain without it
unfoldable pub dump_queue : JoltChain → List OutBoundReq × JoltChain
dump_queue jc = (jc.on_hold_retry_queue, record jc { on_hold_retry_queue = [] })

-- ExportItems
unfoldable pub export_items : JoltChain → List OutBoundReq
export_items jc = values jc.retry_outbound_req

-- AddItem
unfoldable pub add_item : Chains → OutBoundReq → JoltChain → Outcome JoltChain
add_item chains req jc = do
  index ← out_index chains req
  ok (record jc { retry_outbound_req = store index req jc.retry_outbound_req })

-- `req.ChainType != chainType`, the other way round
abbrev pub for_chain : Text → OutBoundReq → Bool
for_chain chain_type req = text_eq req.chain_type chain_type

-- allkeys, sorted by the numbers that they stand for
abbrev pub sorted_keys : SyncMap OutBoundReq → List Text
sorted_keys m = sort parse_int (keys m)

-- PopItem; none is the nil slice
unfoldable pub pop_item : ℕ → Text → JoltChain → Outcome (Option (List OutBoundReq) × JoltChain)
pop_item n chain_type jc =
    let allkeys = sorted_keys (passing (for_chain chain_type) jc.retry_outbound_req) in
    let index_num = length allkeys in
    let return_num = if ltb index_num n then index_num else n in
    if comparable (keys (passing (for_chain chain_type) jc.retry_outbound_req))
    then (if index_num == 0 then ok (none, jc) else do
      (reqs, left) ← pop_loop (take return_num allkeys) jc.retry_outbound_req
      ok (some reqs, record jc { retry_outbound_req = left }))
    else panic

abbrev is_nil {ℓ} : {A : Type ℓ} → List A → Bool
is_nil [] = Bool.true
is_nil (x ∷ xs) = Bool.false

-- IsEmpty
unfoldable pub is_empty : JoltChain → Bool
is_empty jc = is_nil jc.retry_outbound_req

-- Size
unfoldable pub size : JoltChain → ℕ
size jc = length jc.retry_outbound_req
