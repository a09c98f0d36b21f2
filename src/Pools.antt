-- ===== src/Pools.antt =====
-- The two latest pools, which both halves of the bridge keep: UpdatePool, GetPool and checkToBridge
-- of pubchain/tx_inbound.go, UpdatePool of cosbridge/tx_outbound.go, NeedUpdate of bridge/helper.go,
-- and the part of the block handler of bridge/bridge_service.go that keeps them.
pub mod Settling
use joltifychain_bridge.Base.{
  Bool, true, false, not, ◌&&◌, ◌||◌, Option, none, some, List, [], ◌∷◌, Text, codes, text_eq, ℤ,
  pos, ◌+ℤ◌, ◌-ℤ◌, if◌then◌else◌,
}
use joltifychain_bridge.Base.Outcome.{Outcome, ok, err, panic, ◌>>=◌, bad_address, nil_pool}
use joltifychain_bridge.Common.Libraries.{Chains}
use joltifychain_bridge.Common.Types.{PoolInfo, VaultPool}
use joltifychain_bridge.MoveFund.Items.{add_move_fund_item, min_check_block_gap}
use joltifychain_bridge.State.{JoltChain, PubChain}

module _ (chains : Chains) where
  open chains use {address_hex, pool_pub_key_to_eth_address, pool_pub_key_to_oppy_address}

  -- the PoolInfo that both UpdatePools build; none where the key has no address
  unfoldable pub pool_info_of : VaultPool → Option PoolInfo
  pool_info_of pool = elim (pool_pub_key_to_eth_address pool.pool_pub_key) [
    | none ↦ none
    | some eth_addr ↦ elim (pool_pub_key_to_oppy_address pool.pool_pub_key) [
      | none ↦ none
      | some addr ↦ some (record {
        pk = pool.pool_pub_key;
        cos_address = addr;
        eth_address = eth_addr;
        pool_info = pool;
      })
    ]
  ]

  -- `if lastTwoPools[1] != nil { lastTwoPools[0] = lastTwoPools[1] }`
  abbrev pub shifted : Option PoolInfo → Option PoolInfo → Option PoolInfo
  shifted pool0 none = pool0
  shifted pool0 (some p) = some p

  -- (pi *Instance) UpdatePool
  unfoldable pub update_pool : Option VaultPool → PubChain → Outcome PubChain
  update_pool none pi = err nil_pool
  update_pool (some pool) pi = elim (pool_info_of pool) [
    | none ↦ err bad_address
    | some p ↦ ok (record pi { pool0 = shifted pi.pool0 pi.pool1; pool1 = some p })
  ]

  -- (jc *JoltChainInstance) UpdatePool, with the pool that it returns
  unfoldable pub update_last_two_pools : VaultPool → JoltChain → Option PoolInfo × JoltChain
  update_last_two_pools pool jc = elim (pool_info_of pool) [
    | none ↦ (none, jc)
    | some p ↦ (jc.pool0, record jc { pool0 = shifted jc.pool0 jc.pool1; pool1 = some p })
  ]

  -- GetPool, of either half
  abbrev pub get_pool : PubChain → List (Option PoolInfo)
  get_pool pi = pi.pool0 ∷ pi.pool1 ∷ []

  -- the loop of checkToBridge
  unfoldable pub among_pools : Text → List (Option PoolInfo) → Bool
  among_pools dest [] = false
  among_pools dest (none ∷ pools) = among_pools dest pools
  among_pools dest (some el ∷ pools) =
      text_eq (address_hex dest) (address_hex el.eth_address) || among_pools dest pools

  -- checkToBridge
  unfoldable pub check_to_bridge : Text → PubChain → Bool
  unfolding among_pools
  check_to_bridge dest pi = among_pools dest (get_pool pi)

  -- NeedUpdate, on the two pools of the query, the latest first
  unfoldable pub need_update : VaultPool → VaultPool → Option PoolInfo → Option PoolInfo → Bool
  need_update latest older (some cur0) (some cur1) = elim (pool_info_of latest) [
    | none ↦ false
    | some q0 ↦ elim (pool_info_of older) [
      | none ↦ false
      | some q1 ↦
          not (text_eq q0.cos_address cur1.cos_address && text_eq q1.cos_address cur0.cos_address)
    ]
  ]
  need_update latest older (some cur0) none = true
  need_update latest older none cur1 = true

  -- an error of UpdatePool is only logged
  unfoldable pub logged_update : VaultPool → PubChain → PubChain
  unfolding update_pool
  logged_update pool pi = elim (update_pool (some pool) pi) [
    | ok after ↦ after
    | err e ↦ pi
    | panic ↦ pi
  ]

  -- the two pools of one entry of the query, in both halves
  unfoldable pub fill_pool : VaultPool → PubChain × JoltChain → PubChain × JoltChain
  unfolding logged_update update_last_two_pools
  fill_pool el (pi, jc) = (logged_update el pi, (update_last_two_pools el jc).1)

  -- the funds of the pool that drops out and of the one that is no longer the latest. UpdatePool fills
  -- index 1 first, so that there is a second pool where there is a first one; without it, which stops
  -- this model, the source would store nil for it.
  unfoldable pub retire_pools : ℤ → PoolInfo → Option PoolInfo → PubChain → Outcome PubChain
  retire_pools latest_height previous none pi = panic
  retire_pools latest_height previous (some second) pi =
      let start = latest_height -ℤ pos min_check_block_gap in
      ok (
        add_move_fund_item second (start +ℤ pos 10) (codes "ETH") (
          add_move_fund_item second (start +ℤ pos 10) (codes "BSC") (
            add_move_fund_item previous (start +ℤ pos 5) (codes "ETH")
              (add_move_fund_item previous (start +ℤ pos 5) (codes "BSC") pi))))

  -- the new latest pool; a joltify half without a pool to return ends in a nil dereference
  unfoldable pub churn_pools : ℤ → VaultPool → PubChain × JoltChain → Outcome (PubChain × JoltChain)
  unfolding logged_update update_last_two_pools retire_pools
  churn_pools latest_height latest (pi, jc) =
      let updated = logged_update latest pi in
      let jolt = update_last_two_pools latest jc in
      elim jolt.0 [
        | none ↦ panic
        | some previous ↦
            (if text_eq previous.pk latest.pool_pub_key
              then ok (updated, jolt.1)
              else retire_pools latest_height previous pi.pool1 updated >>= λ after.
                  ok (after, jolt.1))
      ]

  -- The pools of one block, from the two pools of the query; the flag tells that the handler goes on
  -- with the block.
  unfoldable pub keep_pools :
      ℤ → VaultPool → VaultPool → PubChain × JoltChain → Outcome (Bool × (PubChain × JoltChain))
  unfolding fill_pool churn_pools need_update
  keep_pools latest_height latest older (pi, jc) = elim pi.pool0 [
    | none ↦ ok (false, fill_pool older (fill_pool latest (pi, jc)))
    | some p ↦
        (if need_update latest older pi.pool0 pi.pool1
          then (churn_pools latest_height latest (pi, jc) >>= λ after. ok (true, after))
          else ok (true, (pi, jc)))
  ]
