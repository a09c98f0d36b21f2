-- ===== src/Pools/Settling.antt =====
-- What the block handler's pools come to.
use joltifychain_bridge.Base.{
  true, false, Option, none, some, Text, text_eq, text_eq_refl, text_eq_iff, text_neq, arith, ℤ,
  ◌≡◌, ◌≢◌, refl, sym, ◌∙◌,
}
use joltifychain_bridge.Base.Outcome.{ok}
use joltifychain_bridge.Common.Libraries.{Chains}
use joltifychain_bridge.Common.Types.{PoolInfo, VaultPool}
use joltifychain_bridge.State.{JoltChain, PubChain}
use joltifychain_bridge.Pools.{
  pool_info_of, update_pool, update_last_two_pools, logged_update, fill_pool, need_update, shifted,
  churn_pools, keep_pools,
}

-- Both halves with these two pools.
abbrev pub with_pools :
    Option PoolInfo → Option PoolInfo → PubChain × JoltChain → PubChain × JoltChain
with_pools pool0 pool1 (pi, jc) =
    (record pi { pool0 = pool0; pool1 = pool1 }, record jc { pool0 = pool0; pool1 = pool1 })

logged_update-some :
    (chains : Chains) (pool : VaultPool) (p : PoolInfo) (pi : PubChain)
    → pool_info_of chains pool ≡ some p
    → logged_update chains pool pi
      ≡ record pi { pool0 = shifted chains pi.pool0 pi.pool1; pool1 = some p }
unfolding logged_update update_pool
logged_update-some chains pool p pi e = rw (e, logged_update, update_pool) refl

update_last_two_pools-some :
    (chains : Chains) (pool : VaultPool) (p : PoolInfo) (jc : JoltChain)
    → pool_info_of chains pool ≡ some p
    → update_last_two_pools chains pool jc
      ≡ (jc.pool0, record jc { pool0 = shifted chains jc.pool0 jc.pool1; pool1 = some p })
unfolding update_last_two_pools
update_last_two_pools-some chains pool p jc e = rw (e, update_last_two_pools) refl

module _ (chains : Chains) (latest older : VaultPool) (p q : PoolInfo)
    (e_latest : pool_info_of chains latest ≡ some p)
    (e_older : pool_info_of chains older ≡ some q) where
  fill_empty :
      (s : PubChain × JoltChain)
      → fill_pool chains older (fill_pool chains latest (with_pools none none s))
        ≡ with_pools (some p) (some q) s
  unfolding fill_pool
  fill_empty (pi, jc) =
      rw
        (
          logged_update-some chains latest p _ e_latest,
          update_last_two_pools-some chains latest p _ e_latest,
          logged_update-some chains older q _ e_older,
          update_last_two_pools-some chains older q _ e_older,
        )
        refl

  need_swap :
      p.cos_address ≢ q.cos_address → need_update chains latest older (some p) (some q) ≡ true
  unfolding need_update
  need_swap differ = rw (e_latest, e_older, text_neq _ _ differ, need_update) refl

  need_none : need_update chains latest older (some q) (some p) ≡ false
  unfolding need_update
  need_none =
      rw (e_latest, e_older, text_eq_refl p.cos_address, text_eq_refl q.cos_address, need_update)
        refl

  churn_same :
      (height : ℤ) (s : PubChain × JoltChain)
      → text_eq p.pk latest.pool_pub_key ≡ true
      → churn_pools chains height latest (with_pools (some p) (some q) s)
        ≡ ok (with_pools (some q) (some p) s)
  unfolding churn_pools
  churn_same height (pi, jc) same =
      rw
        (
          update_last_two_pools-some chains latest p _ e_latest,
          churn_pools,
          same,
          logged_update-some chains latest p _ e_latest,
          update_last_two_pools-some chains latest p _ e_latest,
        )
        refl

joined : VaultPool → Option Text → Option Text → Option PoolInfo
joined pool none addr = none
joined pool (some eth_addr) none = none
joined pool (some eth_addr) (some addr) = some (record {
  pk = pool.pool_pub_key;
  cos_address = addr;
  eth_address = eth_addr;
  pool_info = pool;
})

joined-pk :
    (pool : VaultPool) (p : PoolInfo) (eth_addr addr : Option Text)
    → joined pool eth_addr addr ≡ some p
    → p.pk ≡ pool.pool_pub_key
unfolding joined
joined-pk pool p none addr e = ground (arith, e)
joined-pk pool p (some eth_addr) none e = ground (arith, e)
joined-pk pool p (some eth_addr) (some addr) e = ground (arith, e)

pool_info_of-joined :
    (chains : Chains) (pool : VaultPool)
    → pool_info_of chains pool
      ≡ joined pool
          (chains.pool_pub_key_to_eth_address pool.pool_pub_key)
          (chains.pool_pub_key_to_oppy_address pool.pool_pub_key)
unfolding pool_info_of joined
pool_info_of-joined chains pool = ground arith

pool_info_of-pk :
    (chains : Chains) (pool : VaultPool) (p : PoolInfo)
    → pool_info_of chains pool ≡ some p
    → p.pk ≡ pool.pool_pub_key
pool_info_of-pk chains pool p e = joined-pk pool p _ _ (sym (pool_info_of-joined chains pool) ∙ e)

-- Two pools with addresses, of different joltify addresses, that the query keeps answering, latest
-- first: two blocks after both halves start empty they hold the older pool first and the latest
-- second, no pool waits to be emptied for it, and no later block changes them. In between, the first
-- block leaves the two pools the wrong way round.
pub keep_pools-settles :
    (chains : Chains) (latest older : VaultPool) (p q : PoolInfo) (s : PubChain × JoltChain)
    (height1 height2 height3 : ℤ)
    → pool_info_of chains latest ≡ some p
    → pool_info_of chains older ≡ some q
    → p.cos_address ≢ q.cos_address
    → (keep_pools chains height1 latest older (with_pools none none s)
        ≡ ok (false, with_pools (some p) (some q) s))
      × (keep_pools chains height2 latest older (with_pools (some p) (some q) s)
          ≡ ok (true, with_pools (some q) (some p) s))
      × (keep_pools chains height3 latest older (with_pools (some q) (some p) s)
          ≡ ok (true, with_pools (some q) (some p) s))
unfolding keep_pools
keep_pools-settles chains latest older p q (pi, jc) height1 height2 height3 e_latest e_older
      differ =
    let same = (text_eq_iff _ _).1 (pool_info_of-pk chains latest p e_latest) in
    (
      rw (fill_empty chains latest older p q e_latest e_older (pi, jc)) refl,
      rw
          (
            need_swap chains latest older p q e_latest e_older differ,
            churn_same chains latest older p q e_latest e_older height2 (pi, jc) same,
          )
          refl,
      rw (need_none chains latest older p q e_latest e_older) refl,
    )
