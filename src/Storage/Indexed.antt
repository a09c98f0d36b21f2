-- ===== src/Storage/Indexed.antt =====
-- What it means for the pools to be indexed, and the loops that fill them.
use mathlib.Core.List.{Nodup}
use joltifychain_bridge.Base.{◌≡◌, refl, false, List, [], ◌∷◌, Text, All}
use joltifychain_bridge.Base.SyncMap.{store, keys}
use joltifychain_bridge.Base.Outcome.{Outcome, ok, err, panic}
use joltifychain_bridge.Common.Libraries.{Chains}
use joltifychain_bridge.Common.Types.{OutBoundReq, InBoundReq, MoveFundItem}
use joltifychain_bridge.Common.Requests.{out_index, in_index}
use joltifychain_bridge.Queue.Outbound
use joltifychain_bridge.Queue.Inbound
use joltifychain_bridge.MoveFund.Items.{add_move_fund_item, move_fund_index}
use joltifychain_bridge.State.{JoltChain, PubChain}
use joltifychain_bridge.Storage.{Codec, all_written}
use joltifychain_bridge.Storage.Restart.{
  ReadAnswers, WriteAnswers, add_items, add_in_bound_items, add_move_fund_items,
}
use joltifychain_bridge.Storage.Refill.{store_all, IsKeyed}

abbrev pub text_or_empty : Outcome Text → Text
text_or_empty (ok t) = t
text_or_empty (err e) = []
text_or_empty panic = []

module _ (chains : Chains) where
  -- the index of a request whose transaction id can be decoded
  abbrev pub index_of : OutBoundReq → Text
  index_of o = text_or_empty (out_index chains o)

  abbrev pub HasIndex : OutBoundReq → Type 0
  HasIndex o = out_index chains o ≡ ok (index_of o)

  pub add_items_lem :
      (items : List OutBoundReq) (jc : JoltChain)
      → All HasIndex items
      → add_items chains items jc
        ≡ ok (record jc { retry_outbound_req = store_all index_of items jc.retry_outbound_req })
  unfolding add_items Outbound.add_item
  add_items_lem [] jc h = refl
  add_items_lem (el ∷ items) jc h = rw h.0 (
      add_items_lem items
        (record jc { retry_outbound_req = store (index_of el) el jc.retry_outbound_req }) h.1)

  pub add_in_bound_items_lem :
      (items : List InBoundReq) (pi : PubChain)
      → add_in_bound_items chains items pi
        ≡ record pi { retry_inbound_req = store_all (in_index chains) items pi.retry_inbound_req }
  unfolding add_in_bound_items Inbound.add_in_bound_item
  add_in_bound_items_lem [] pi = refl
  add_in_bound_items_lem (el ∷ items) pi =
      add_in_bound_items_lem items
        (record pi { retry_inbound_req = store (in_index chains el) el pi.retry_inbound_req })

abbrev pub pool_index : MoveFundItem → Text
pool_index item = move_fund_index item.height item.chain_type

pub add_move_fund_items_lem :
    (items : List MoveFundItem) (pi : PubChain)
    → add_move_fund_items items pi
      ≡ record pi { move_fund_req = store_all pool_index items pi.move_fund_req }
unfolding add_move_fund_items add_move_fund_item
add_move_fund_items_lem [] pi = refl
add_move_fund_items_lem (item ∷ items) pi =
    add_move_fund_items_lem items
      (record pi { move_fund_req = store (pool_index item) item pi.move_fund_req })

-- Every request and every waiting pool stands under its index, and what is on hold has one.
pub record IsIndexed (chains : Chains) (jc : JoltChain) (pi : PubChain) : Type 0 where
  pub outbound : IsKeyed (index_of chains) (HasIndex chains) jc.retry_outbound_req
  pub outbound_distinct : Nodup (keys jc.retry_outbound_req)
  pub held : All (HasIndex chains) jc.on_hold_retry_queue
  pub inbound : IsKeyed (in_index chains) (λ _. Unit {0}) pi.retry_inbound_req
  pub inbound_distinct : Nodup (keys pi.retry_inbound_req)
  pub pools : IsKeyed pool_index (λ _. Unit {0}) pi.move_fund_req
  pub pools_distinct : Nodup (keys pi.move_fund_req)

-- A codec that encodes every list.
abbrev pub Encodes : {Buf A : Type 0} → Codec Buf A → Type 0
Encodes {Buf} {A} codec = (xs : List A) → (buf : Buf) × (codec.marshal xs ≡ ok buf)

abbrev pub all_saved : {Buf : Type 0} → WriteAnswers Buf
all_saved = record { outbound = all_written; inbound = all_written; move_fund = all_written }

abbrev pub all_read : ReadAnswers
all_read = record { empty_folder = false; outbound = ok tt; inbound = ok tt; move_fund = ok tt }

pub trivially : {V : Type 0} (vs : List V) → All (λ _. Unit {0}) vs
trivially [] = tt
trivially (v ∷ vs) = (tt, trivially vs)
