-- ===== src/Examples/Restarts.antt =====
-- A restart at concrete inputs.
use mathlib.Core.List.{Nodup, Nodup-cons, Nodup-nil, not-mem-nil}
use joltifychain_bridge.Base.{◌≡◌, refl, subst, List, [], ◌∷◌, Text, codes, pos}
use joltifychain_bridge.Base.Outcome.{Outcome, ok, err, Done, other_fault, ok_injective}
use joltifychain_bridge.Base.SyncMap.{load}
use joltifychain_bridge.Common.Types.{OutBoundReq, InBoundReq, MoveFundItem}
use joltifychain_bridge.Common.Requests.{
  out_index, in_index, index_str, new_outbound_req, new_account_inbound_req,
}
use joltifychain_bridge.Common.Hex.{decode_string}
use joltifychain_bridge.Common.Decimal.{format_int}
use joltifychain_bridge.MoveFund.Items.{move_fund_index}
use joltifychain_bridge.State.{JoltChain, PubChain}
use joltifychain_bridge.Storage.{Files}
use joltifychain_bridge.Storage.Restart.{Codecs, load_items, shut_down}
use joltifychain_bridge.Storage.Refill.{last_of}
use joltifychain_bridge.Storage.Indexed.{index_of, IsIndexed, all_saved, all_read}
use joltifychain_bridge.Storage.Restored.{restart_restores}
use joltifychain_bridge.Examples.Libraries.{chains}
use joltifychain_bridge.Examples.Instances.{jolt_chain, pub_chain, out_req, in_req, p1}

-- Files that hold the lists themselves.
data Content : Type 0 where
  outbound_list : List OutBoundReq → Content
  inbound_list : List InBoundReq → Content
  move_fund_list : List MoveFundItem → Content

abbrev read_outbound : Content → List OutBoundReq × Outcome Done
read_outbound (outbound_list xs) = (xs, ok tt)
read_outbound (inbound_list xs) = ([], err other_fault)
read_outbound (move_fund_list xs) = ([], err other_fault)

abbrev read_inbound : Content → List InBoundReq × Outcome Done
read_inbound (inbound_list xs) = (xs, ok tt)
read_inbound (outbound_list xs) = ([], err other_fault)
read_inbound (move_fund_list xs) = ([], err other_fault)

abbrev read_move_fund : Content → List MoveFundItem × Outcome Done
read_move_fund (move_fund_list xs) = (xs, ok tt)
read_move_fund (outbound_list xs) = ([], err other_fault)
read_move_fund (inbound_list xs) = ([], err other_fault)

abbrev codecs : Codecs Content
codecs = record {
  outbound = record {
    marshal = λ xs. ok (outbound_list xs);
    unmarshal = read_outbound;
    no_bytes = inbound_list [];
    unmarshal-marshal =
        λ xs buf e. subst (λ b. read_outbound b ≡ (xs, ok tt)) (ok_injective e) refl;
  };
  inbound = record {
    marshal = λ xs. ok (inbound_list xs);
    unmarshal = read_inbound;
    no_bytes = outbound_list [];
    unmarshal-marshal = λ xs buf e. subst (λ b. read_inbound b ≡ (xs, ok tt)) (ok_injective e) refl;
  };
  move_fund = record {
    marshal = λ xs. ok (move_fund_list xs);
    unmarshal = read_move_fund;
    no_bytes = outbound_list [];
    unmarshal-marshal =
        λ xs buf e. subst (λ b. read_move_fund b ≡ (xs, ok tt)) (ok_injective e) refl;
  };
}

-- One request in each pool, and one on hold.
abbrev busy_chain : JoltChain
busy_chain = record jolt_chain {
  retry_outbound_req = (codes "22", out_req 2) ∷ [];
  on_hold_retry_queue = out_req 1 ∷ [];
}

abbrev busy_pub : PubChain
busy_pub = record pub_chain {
  retry_inbound_req = (codes "22", in_req 2) ∷ [];
  move_fund_req =
      (codes "4:BSC", record { pool_info = p1; chain_type = codes "BSC"; height = pos 4 }) ∷ [];
  on_hold_retry_queue = in_req 1 ∷ [];
}

one_key : (k : Text) → Nodup (k ∷ [])
one_key k = Nodup-cons.1 (not-mem-nil, Nodup-nil)

busy-IsIndexed : IsIndexed chains busy_chain busy_pub
unfolding out_index in_index move_fund_index decode_string new_outbound_req index_str format_int
    new_account_inbound_req
busy-IsIndexed = record {
  outbound = ((refl, refl), tt);
  outbound_distinct = one_key _;
  held = (refl, tt);
  inbound = ((refl, tt), tt);
  inbound_distinct = one_key _;
  pools = ((refl, tt), tt);
  pools_distinct = one_key _;
}

abbrev empty_chain : JoltChain
empty_chain = record jolt_chain { retry_outbound_req = [] }

abbrev empty_pub : PubChain
empty_pub = record pub_chain { retry_inbound_req = []; move_fund_req = [] }

restart_restores_example :
    (jc' : JoltChain) × (pi' : PubChain) × (files' : Files Content) × (jc2 : JoltChain)
    × (pi2 : PubChain) × (shut_down chains codecs all_saved (busy_chain, busy_pub) []
        ≡ ok ((jc', pi'), files'))
    × (load_items chains codecs all_read files' (empty_chain, empty_pub) ≡ ok (jc2, pi2))
    × (jc2.retry_outbound_req ≡ jc'.retry_outbound_req)
    × (pi2.retry_inbound_req ≡ pi'.retry_inbound_req)
    × (pi2.move_fund_req ≡ busy_pub.move_fund_req)
    × ((k : Text)
        → load k jc2.retry_outbound_req
          ≡ last_of (index_of chains) k (load k busy_chain.retry_outbound_req) (out_req 1 ∷ []))
    × ((k : Text)
        → load k pi2.retry_inbound_req
          ≡ last_of (in_index chains) k (load k busy_pub.retry_inbound_req) (in_req 1 ∷ []))
restart_restores_example =
    restart_restores chains codecs busy_chain empty_chain busy_pub empty_pub [] busy-IsIndexed
      (λ xs. (outbound_list xs, refl)) (λ xs. (inbound_list xs, refl))
      (λ xs. (move_fund_list xs, refl)) refl refl refl
