-- ===== src/Bridge/PubBlock/Pause.antt =====
-- The pause of the transfers after failures.
use joltifychain_bridge.Base.{
  ℕ, ◌+◌, ◌*◌, ◌/◌, ◌%◌, ◌^◌, ◌<◌, ◌≤◌, ◌≡◌, refl, ◌⊎◌, inl, inr, Text, codes, text_eq, ltb, arith,
  true, ap, ◌∙◌,
}
use joltifychain_bridge.Base.Outcome.{ok}
use joltifychain_bridge.Common.Libraries.{Sdk, Chains}
use joltifychain_bridge.Bridge.Heights.{Service, TwoHeights, set_height, get_height, pause_round}
use joltifychain_bridge.Bridge.PubBlock.{start_pause}

-- A height that is set for one of the two chains is the one that is read for it.
set_height-get_height :
    {A : Type 0} (h : A) (chain_type : Text) (p : TwoHeights A)
    → (chain_type ≡ codes "BSC") ⊎ (chain_type ≡ codes "ETH")
    → (after : TwoHeights A) × (set_height h chain_type p ≡ ok after)
      × (get_height chain_type after ≡ ok h)
unfolding set_height get_height text_eq
set_height-get_height h chain_type p (inl e) = (record p { bsc_height = h }, rw e refl, rw e refl)
set_height-get_height h chain_type p (inr e) = (record p { eth_height = h }, rw e refl, rw e refl)

next_round :
    (latest : ℕ)
    → latest + 100 < 2 ^ 64
    → (latest / pause_round + 1) * pause_round % 2 ^ 64 ≡ (latest / 100 + 1) * 100
next_round latest fits = omega (arith, fits)

-- After more than five failures, the transfers to a public chain pause until a height that is ahead
-- of its latest block, by at most 100 blocks, and a multiple of 100; the failures start again at 0.
pub start_pause-ahead :
    (sdk : Sdk) (chains : Chains) (latest : ℕ) (chain_type : Text) (s : Service)
    → 5 < s.failed_outbound
    → (chain_type ≡ codes "BSC") ⊎ (chain_type ≡ codes "ETH")
    → latest + 100 < 2 ^ 64
    → (after : Service) × (h : ℕ) × (start_pause sdk chains latest chain_type s ≡ ok after)
      × (get_height chain_type after.outbound_pause_height ≡ ok h)
      × (latest < h)
      × (h ≤ latest + 100)
      × (h % 100 ≡ 0)
      × (after.failed_outbound ≡ 0)
unfolding start_pause
start_pause-ahead sdk chains latest chain_type s failed chain fits =
    let test : ltb 5 s.failed_outbound ≡ true = ground (arith, failed) in
    let set =
      set_height-get_height ((latest / pause_round + 1) * pause_round % 2 ^ 64) chain_type
        s.outbound_pause_height chain in
    (
      record s { outbound_pause_height = set.0; failed_outbound = 0; outbound_wait = true },
      (latest / 100 + 1) * 100,
      rw (test, set.1) refl,
      set.2 ∙ ap ok (next_round latest fits),
      omega arith,
      omega arith,
      omega arith,
      refl,
    )
