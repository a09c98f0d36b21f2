-- ===== src/Bridge/Feed.antt =====
-- FeedTx of pubchain/feed.go and of cosbridge/feed.go: a batch gets the numbers under which the
-- chain will accept its transactions.
pub mod Numbers
use joltifychain_bridge.Base.{
  ℕ, ◌+◌, ◌%◌, ◌^◌, Bool, Option, none, some, List, [], ◌∷◌, ◌++◌, Text, if◌then◌else◌,
}
use joltifychain_bridge.Base.Outcome.{Outcome, ok, err, ◌>>=◌, bad_address}
use joltifychain_bridge.Common.Types.{OutBoundReq, InBoundReq, VaultPool}
use joltifychain_bridge.Common.Libraries.{Chains}
use joltifychain_bridge.Common.Requests.{set_item_nonce, set_account_info}
use joltifychain_bridge.Queue.Inbound.{pop_item}
use joltifychain_bridge.State.{PubChain}

-- GroupSign of pubchain/types.go
abbrev pub group_sign : ℕ
group_sign = 4

-- the increment of a uint64
abbrev pub next_uint64 : ℕ → ℕ
next_uint64 n = (n + 1) % 2 ^ 64

-- the loop of the FeedTx of the public chains
unfoldable pub set_nonces : Text → ℕ → List OutBoundReq → List OutBoundReq
set_nonces pool_eth_address nonce [] = []
set_nonces pool_eth_address nonce (el ∷ items) =
    set_item_nonce pool_eth_address nonce el ∷ set_nonces pool_eth_address (next_uint64 nonce) items

-- the loop of the FeedTx of the joltify chain
unfoldable pub set_accounts : ℕ → ℕ → Text → Text → List InBoundReq → List InBoundReq
set_accounts acc_num acc_seq address pool_pubkey [] = []
set_accounts acc_num acc_seq address pool_pubkey (el ∷ items) =
    set_account_info acc_num acc_seq address pool_pubkey el
    ∷ set_accounts acc_num (next_uint64 acc_seq) address pool_pubkey items

-- the account of a pool on the joltify chain
pub record Account : Type 0 where
  pub acc_number : ℕ
  pub acc_sequence : ℕ
  pub acc_address : Text

-- (pi *Instance) FeedTx, with the answer to getPendingNonceWithLock
unfoldable pub feed_outbound :
    Chains → VaultPool → Outcome ℕ → List OutBoundReq → Outcome (List OutBoundReq)
unfolding set_nonces
feed_outbound chains last_pool_info pending_nonce outbound_reqs =
    elim (chains.pool_pub_key_to_eth_address last_pool_info.pool_pub_key) [
      | none ↦ err bad_address
      | some pool_eth_address ↦ (do
        nonce ← pending_nonce
        ok (set_nonces pool_eth_address nonce outbound_reqs))
    ]

-- what FeedTx sends to the channel of inbound batches
unfoldable pub feed_popped : VaultPool → Account → Option (List InBoundReq) × PubChain → PubChain
unfolding set_accounts
feed_popped last_pool_info acc (none, pi) = pi
feed_popped last_pool_info acc (some items, pi) = record pi {
  inbound_req_chan =
      pi.inbound_req_chan
      ++ set_accounts acc.acc_number acc.acc_sequence acc.acc_address last_pool_info.pool_pub_key
          items
        ∷ [];
}

-- (jc *JoltChainInstance) FeedTx, with the answers to CheckWhetherSigner and queryAccount
unfoldable pub feed_inbound :
    VaultPool → Outcome Bool → Outcome Account → PubChain → Outcome PubChain
unfolding feed_popped
feed_inbound last_pool_info is_signer query_account pi = do
  found ← is_signer
  if found
      then (do
        acc ← query_account
        popped ← pop_item group_sign pi
        ok (feed_popped last_pool_info acc popped))
      else ok pi
