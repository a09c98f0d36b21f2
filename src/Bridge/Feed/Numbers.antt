-- ===== src/Bridge/Feed/Numbers.antt =====
-- The numbers that a batch gets.
use joltifychain_bridge.Base.{
  ℕ, suc, ◌+◌, ◌%◌, ◌^◌, ◌<◌, ◌≡◌, refl, ap, List, [], ◌∷◌, ◌++◌, length, Text, arith,
}
use joltifychain_bridge.Common.Types.{OutBoundReq}
use joltifychain_bridge.Common.Requests.{set_item_nonce}
use joltifychain_bridge.Bridge.Feed.{set_nonces, next_uint64}

no_shift : (nonce : ℕ) → nonce < 2 ^ 64 → (nonce + 0) % 2 ^ 64 ≡ nonce
no_shift nonce fits = omega (arith, fits)

no_shift_next : (nonce : ℕ) → (nonce + 0 + 1) % 2 ^ 64 ≡ next_uint64 nonce
no_shift_next nonce = omega arith

shift : (nonce n : ℕ) → nonce < 2 ^ 64 → (next_uint64 nonce + n) % 2 ^ 64 ≡ (nonce + suc n) % 2 ^ 64
shift nonce n fits = omega (arith, fits)

shift_next :
    (nonce n : ℕ)
    → nonce < 2 ^ 64
    → (next_uint64 nonce + n + 1) % 2 ^ 64 ≡ (nonce + suc n + 1) % 2 ^ 64
shift_next nonce n fits = omega (arith, fits)

next_below : (nonce : ℕ) → next_uint64 nonce < 2 ^ 64
next_below nonce = omega arith

-- Below 2 ^ 64, each transfer of a batch gets the pool's nonce plus the number of transfers before
-- it, as a uint64, whatever comes before and after it.
pub set_nonces-consecutive :
    (pool_eth_address : Text) (nonce : ℕ) (before : List OutBoundReq) (el : OutBoundReq)
    (after : List OutBoundReq)
    → nonce < 2 ^ 64
    → set_nonces pool_eth_address nonce (before ++ (el ∷ after))
      ≡ set_nonces pool_eth_address nonce before
        ++ (set_item_nonce pool_eth_address ((nonce + length before) % 2 ^ 64) el
            ∷ set_nonces pool_eth_address ((nonce + length before + 1) % 2 ^ 64) after)
unfolding set_nonces
set_nonces-consecutive pool nonce [] el after fits =
    rw (no_shift nonce fits, no_shift_next nonce) refl
set_nonces-consecutive pool nonce (b ∷ before) el after fits =
    ap (λ l. set_item_nonce pool nonce b ∷ l)
      (rw (← shift nonce (length before) fits, ← shift_next nonce (length before) fits)
        (set_nonces-consecutive pool (next_uint64 nonce) before el after (next_below nonce)))
