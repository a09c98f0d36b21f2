-- ===== src/Queue/Inbound.antt =====
-- pubchain/public_items_process.go: the retry pool and the on-hold queue of inbound requests.
-- `AddOutBoundItem` writes the outbound pool of the other half: it is `Outbound.add_item`.
use joltifychain_bridge.Base.{
  ℕ, Bool, Option, none, some, List, [], ◌∷◌, ◌++◌, Text, length, take, ltb, ◌==◌, if◌then◌else◌,
}
use joltifychain_bridge.Base.Sort.{sort}
use joltifychain_bridge.Base.SyncMap.{SyncMap, store, keys, values}
use joltifychain_bridge.Base.Outcome.{Outcome, ok, panic, ◌>>=◌}
use joltifychain_bridge.Common.Libraries.{Chains}
use joltifychain_bridge.Common.Types.{InBoundReq}
use joltifychain_bridge.Common.Decimal.{parse_int}
use joltifychain_bridge.Common.Requests.{in_index}
use joltifychain_bridge.Queue.PopLoop.{pop_loop, comparable}
use joltifychain_bridge.State.{PubChain}

-- AddInBoundItem
unfoldable pub add_in_bound_item : Chains → InBoundReq → PubChain → PubChain
add_in_bound_item chains req pi = record pi {
  retry_inbound_req = store (in_index chains req) req pi.retry_inbound_req;
}

-- AddOnHoldQueue
unfoldable pub add_on_hold_queue : InBoundReq → PubChain → PubChain
add_on_hold_queue item pi = record pi { on_hold_retry_queue = pi.on_hold_retry_queue ++ item ∷ [] }

-- DumpQueue: the queue, and the instance without it
unfoldable pub dump_queue : PubChain → List InBoundReq × PubChain
dump_queue pi = (pi.on_hold_retry_queue, record pi { on_hold_retry_queue = [] })

-- ExportItems
unfoldable pub export_items : PubChain → List InBoundReq
export_items pi = values pi.retry_inbound_req

-- allkeys, sorted by the numbers that they stand for
abbrev pub sorted_keys : SyncMap InBoundReq → List Text
sorted_keys m = sort parse_int (keys m)

-- PopItem; none is the nil slice
unfoldable pub pop_item : ℕ → PubChain → Outcome (Option (List InBoundReq) × PubChain)
pop_item n pi =
    let allkeys = sorted_keys pi.retry_inbound_req in
    let index_num = length allkeys in
    let return_num = if ltb index_num n then index_num else n in
    if comparable (keys pi.retry_inbound_req)
    then (if index_num == 0 then ok (none, pi) else do
      (reqs, left) ← pop_loop (take return_num allkeys) pi.retry_inbound_req
      ok (some reqs, record pi { retry_inbound_req = left }))
    else panic

abbrev is_nil {ℓ} : {A : Type ℓ} → List A → Bool
is_nil [] = Bool.true
is_nil (x ∷ xs) = Bool.false

-- IsEmpty
unfoldable pub is_empty : PubChain → Bool
is_empty pi = is_nil pi.retry_inbound_req

-- Size
unfoldable pub size : PubChain → ℕ
size pi = length pi.retry_inbound_req
