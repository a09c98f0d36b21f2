-- ===== src/Storage/Restored.antt =====
-- What a restart brings back.
use joltifychain_bridge.Base.{◌≡◌, refl, ◌∙◌, ap, false, [], Text}
use joltifychain_bridge.Base.SyncMap.{load, store, values}
use joltifychain_bridge.Base.Outcome.{Outcome, ok, ◌>>=◌, Done}
use joltifychain_bridge.Common.Libraries.{Chains}
use joltifychain_bridge.Common.Requests.{in_index}
use joltifychain_bridge.Queue.Outbound
use joltifychain_bridge.Queue.Inbound
use joltifychain_bridge.MoveFund.Items.{export_move_fund_items}
use joltifychain_bridge.State.{JoltChain, PubChain}
use joltifychain_bridge.Storage.{
  Files, all_written, save_state, load_state, load_pending_items, outbound_file, inbound_file,
  move_fund_file,
}
use joltifychain_bridge.Storage.Restart.{
  Codecs, add_items, add_in_bound_items, add_move_fund_items, loaded_move_funds, load_items,
  save_items, shut_down,
}
use joltifychain_bridge.Storage.Refill.{
  store_all, last_of, load-store_all, store_all-Nodup, IsKeyed, store_all-IsKeyed, values-All,
  refill,
}
use joltifychain_bridge.Storage.Indexed.{
  index_of, HasIndex, pool_index, IsIndexed, Encodes, all_saved, all_read, add_items_lem,
  add_in_bound_items_lem, add_move_fund_items_lem, trivially,
}
use joltifychain_bridge.Storage.Saved.{
  save_state_lem, load_state_lem, load_pending_lem, saved, saved_outbound, saved_inbound,
  saved_move_fund,
}

module _ {Buf : Type 0} (chains : Chains) (codecs : Codecs Buf) (jc fresh_jc : JoltChain)
    (pi fresh_pi : PubChain) (files : Files Buf) (h : IsIndexed chains jc pi) where
  abbrev back : JoltChain
  back = record jc {
    retry_outbound_req = store_all (index_of chains) jc.on_hold_retry_queue jc.retry_outbound_req;
    on_hold_retry_queue = [];
  }

  abbrev back_in : PubChain
  back_in = record pi {
    retry_inbound_req = store_all (in_index chains) pi.on_hold_retry_queue pi.retry_inbound_req;
    on_hold_retry_queue = [];
  }

  back-IsKeyed : IsKeyed (index_of chains) (HasIndex chains) back.retry_outbound_req
  back-IsKeyed =
      store_all-IsKeyed (index_of chains) (HasIndex chains) jc.on_hold_retry_queue
        jc.retry_outbound_req h.held h.outbound

  outbound_refilled :
      store_all (index_of chains) (values back.retry_outbound_req) [] ≡ back.retry_outbound_req
  outbound_refilled =
      refill (index_of chains) (HasIndex chains) back.retry_outbound_req back-IsKeyed (
        store_all-Nodup (index_of chains) jc.on_hold_retry_queue jc.retry_outbound_req
          h.outbound_distinct)

  inbound_refilled :
      store_all (in_index chains) (values back_in.retry_inbound_req) [] ≡ back_in.retry_inbound_req
  inbound_refilled =
      refill (in_index chains) (λ _. Unit {0}) back_in.retry_inbound_req
        (store_all-IsKeyed (in_index chains) (λ _. Unit {0}) pi.on_hold_retry_queue
          pi.retry_inbound_req (trivially pi.on_hold_retry_queue) h.inbound)
        (store_all-Nodup (in_index chains) pi.on_hold_retry_queue pi.retry_inbound_req
          h.inbound_distinct)

  pools_refilled : store_all pool_index (values pi.move_fund_req) [] ≡ pi.move_fund_req
  pools_refilled = refill pool_index (λ _. Unit {0}) pi.move_fund_req h.pools h.pools_distinct

  module _ (a b c : Buf) (e_a : codecs.outbound.marshal (values back.retry_outbound_req) ≡ ok a)
      (e_b : codecs.inbound.marshal (values back_in.retry_inbound_req) ≡ ok b)
      (e_c : codecs.move_fund.marshal (values pi.move_fund_req) ≡ ok c) where
    save_items_lem : save_items codecs all_saved (back, back_in) files ≡ saved a b c files
    unfolding save_items Outbound.export_items Inbound.export_items export_move_fund_items
    save_items_lem =
        let first =
          save_state_lem codecs.outbound outbound_file (values back.retry_outbound_req) a files
            e_a in
        let second =
          save_state_lem codecs.inbound inbound_file (values back_in.retry_inbound_req) b
            (store outbound_file a files) e_b in
        let third =
          save_state_lem codecs.move_fund move_fund_file (values pi.move_fund_req) c
            (store inbound_file b (store outbound_file a files)) e_c in
        ap
          (λ (p : Outcome Done × Files Buf).
            (save_state codecs.move_fund move_fund_file (values pi.move_fund_req) all_written
              (save_state codecs.inbound inbound_file (values back_in.retry_inbound_req) all_written
                p.1).1).1)
          first
        ∙ ap
            (λ (p : Outcome Done × Files Buf).
              (save_state codecs.move_fund move_fund_file (values pi.move_fund_req) all_written
                p.1).1)
            second
        ∙ ap (λ (p : Outcome Done × Files Buf). p.1) third

    shut_down_lem :
        shut_down chains codecs all_saved (jc, pi) files ≡ ok ((back, back_in), saved a b c files)
    unfolding shut_down Outbound.dump_queue Inbound.dump_queue
    shut_down_lem =
        rw
          (
            add_items_lem chains jc.on_hold_retry_queue (record jc { on_hold_retry_queue = [] })
                h.held,
            add_in_bound_items_lem chains pi.on_hold_retry_queue
                (record pi { on_hold_retry_queue = [] }),
          )
          (ap (λ fs. ok ((back, back_in), fs)) save_items_lem)

    abbrev restored : JoltChain
    restored = record fresh_jc { retry_outbound_req = back.retry_outbound_req }

    abbrev restored_in : PubChain
    restored_in = record fresh_pi {
      retry_inbound_req = back_in.retry_inbound_req;
      move_fund_req = pi.move_fund_req;
    }

    abbrev after : Files Buf
    after = saved a b c files

    outbound_loaded :
        fresh_jc.retry_outbound_req ≡ []
        → add_items chains (load_state codecs.outbound false outbound_file (ok tt) after).0 fresh_jc
          ≡ ok restored
    outbound_loaded empty =
        ap (λ p. add_items chains p.0 fresh_jc)
          (load_state_lem codecs.outbound outbound_file (values back.retry_outbound_req) a after e_a
            (saved_outbound a b c files))
        ∙ add_items_lem chains (values back.retry_outbound_req) fresh_jc
            (values-All (index_of chains) (HasIndex chains) back.retry_outbound_req back-IsKeyed)
        ∙ ap (λ m. ok (record fresh_jc { retry_outbound_req = m }))
            (ap (store_all (index_of chains) (values back.retry_outbound_req)) empty
              ∙ outbound_refilled)

    inbound_loaded :
        fresh_pi.retry_inbound_req ≡ []
        → fresh_pi.move_fund_req ≡ []
        → loaded_move_funds
            (load_pending_items codecs.move_fund false move_fund_file (ok tt) after)
            (add_in_bound_items chains
              (load_state codecs.inbound false inbound_file (ok tt) after).0
              fresh_pi)
          ≡ restored_in
    unfolding loaded_move_funds
    inbound_loaded empty no_pools =
        ap
          (λ l. loaded_move_funds l (
            add_in_bound_items chains (load_state codecs.inbound false inbound_file (ok tt) after).0
              fresh_pi))
          (load_pending_lem codecs.move_fund move_fund_file (values pi.move_fund_req) c after e_c
            (saved_move_fund a b c files))
        ∙ ap
            (λ p.
              add_move_fund_items (values pi.move_fund_req)
                (add_in_bound_items chains p.0 fresh_pi))
            (load_state_lem codecs.inbound inbound_file (values back_in.retry_inbound_req) b after
              e_b (saved_inbound a b c files))
        ∙ ap (add_move_fund_items (values pi.move_fund_req))
            (add_in_bound_items_lem chains (values back_in.retry_inbound_req) fresh_pi)
        ∙ add_move_fund_items_lem (values pi.move_fund_req) _
        ∙ ap
            (λ m. record fresh_pi {
              retry_inbound_req =
                  store_all (in_index chains) (values back_in.retry_inbound_req)
                    fresh_pi.retry_inbound_req;
              move_fund_req = m;
            })
            (ap (store_all pool_index (values pi.move_fund_req)) no_pools ∙ pools_refilled)
        ∙ ap (λ m. record fresh_pi { retry_inbound_req = m; move_fund_req = pi.move_fund_req })
            (ap (store_all (in_index chains) (values back_in.retry_inbound_req)) empty
              ∙ inbound_refilled)

    load_items_lem :
        fresh_jc.retry_outbound_req ≡ []
        → fresh_pi.retry_inbound_req ≡ []
        → fresh_pi.move_fund_req ≡ []
        → load_items chains codecs all_read after (fresh_jc, fresh_pi) ≡ ok (restored, restored_in)
    unfolding load_items
    load_items_lem no_out no_in no_pools =
        ap
          (λ (x : Outcome JoltChain). x >>= λ (loaded : JoltChain). ok (
            loaded,
            loaded_move_funds
                (load_pending_items codecs.move_fund false move_fund_file (ok tt) after)
                (add_in_bound_items chains
                  (load_state codecs.inbound false inbound_file (ok tt) after).0 fresh_pi),
          ))
          (outbound_loaded no_out)
        ∙ ap (λ p. ok (restored, p)) (inbound_loaded no_in no_pools)

-- A restart loses nothing: where the three files are written and read, the bridge that starts again
-- has the retry pools and the waiting pools of the one that was shut down, the items on hold are
-- back in the retry pools, and an index stands for its last item on hold, or else for the one that
-- the pool had.
pub restart_restores :
    {Buf : Type 0} (chains : Chains) (codecs : Codecs Buf) (jc fresh_jc : JoltChain)
    (pi fresh_pi : PubChain) (files : Files Buf)
    → IsIndexed chains jc pi
    → Encodes codecs.outbound
    → Encodes codecs.inbound
    → Encodes codecs.move_fund
    → fresh_jc.retry_outbound_req ≡ []
    → fresh_pi.retry_inbound_req ≡ []
    → fresh_pi.move_fund_req ≡ []
    → (jc' : JoltChain) × (pi' : PubChain) × (files' : Files Buf) × (jc2 : JoltChain)
      × (pi2 : PubChain) × (shut_down chains codecs all_saved (jc, pi) files
          ≡ ok ((jc', pi'), files'))
      × (load_items chains codecs all_read files' (fresh_jc, fresh_pi) ≡ ok (jc2, pi2))
      × (jc2.retry_outbound_req ≡ jc'.retry_outbound_req)
      × (pi2.retry_inbound_req ≡ pi'.retry_inbound_req)
      × (pi2.move_fund_req ≡ pi.move_fund_req)
      × ((k : Text)
          → load k jc2.retry_outbound_req
            ≡ last_of (index_of chains) k (load k jc.retry_outbound_req) jc.on_hold_retry_queue)
      × ((k : Text)
          → load k pi2.retry_inbound_req
            ≡ last_of (in_index chains) k (load k pi.retry_inbound_req) pi.on_hold_retry_queue)
restart_restores chains codecs jc fresh_jc pi fresh_pi files h enc_out enc_in enc_pools no_out no_in
      no_pools =
    let (a, e_a) =
      enc_out (values (back chains codecs jc fresh_jc pi fresh_pi files h).retry_outbound_req) in
    let (b, e_b) =
      enc_in (values (back_in chains codecs jc fresh_jc pi fresh_pi files h).retry_inbound_req) in
    let (c, e_c) = enc_pools (values pi.move_fund_req) in
    (
      back chains codecs jc fresh_jc pi fresh_pi files h,
      back_in chains codecs jc fresh_jc pi fresh_pi files h,
      saved a b c files,
      _,
      _,
      shut_down_lem chains codecs jc fresh_jc pi fresh_pi files h a b c e_a e_b e_c,
      load_items_lem chains codecs jc fresh_jc pi fresh_pi files h a b c e_a e_b e_c no_out no_in
          no_pools,
      refl,
      refl,
      refl,
      (λ k. load-store_all (index_of chains) k jc.on_hold_retry_queue jc.retry_outbound_req),
      (λ k. load-store_all (in_index chains) k pi.on_hold_retry_queue pi.retry_inbound_req),
    )
