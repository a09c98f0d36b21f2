-- ===== src/Bridge/Transfers/OnHoldCount.antt =====
-- Where the transfers of an outbound batch end up.
use joltifychain_bridge.Base.{ℕ, ◌≡◌, some, List, ◌++◌, ℤ}
use joltifychain_bridge.Base.Outcome.{Outcome, ok}
use joltifychain_bridge.Common.Libraries.{Chains}
use joltifychain_bridge.Common.Types.{PoolInfo, OutBoundReq}
use joltifychain_bridge.Common.Requests.{out_hash}
use joltifychain_bridge.Bridge.Heights.{Service}
use joltifychain_bridge.Bridge.Records.{parse_int64}
use joltifychain_bridge.Bridge.Transfers.Held.{Held, IsCalm}
use joltifychain_bridge.Bridge.Transfers.{OutboundAnswers, needed_outbound, send_all}

module _ (chains : Chains) (answers : OutboundAnswers) (calm : IsCalm answers) (current : PoolInfo)
    (height : ℤ) (created : parse_int64 current.pool_info.block_height ≡ some height) where
  -- a request whose hash can be computed
  abbrev pub IsHashed : OutBoundReq → Type 0
  IsHashed item = (hash : ℕ) × (out_hash chains item ≡ ok hash)

  -- the transfers of a batch, sent from a state on
  Ends : ℕ → List OutBoundReq → List OutBoundReq → Service → Type 0
  Ends index items needed s =
      (after : Service) × (held : List OutBoundReq) × (send_all chains answers index needed s
        ≡ ok after)
      × Held answers index items held
      × (after.jolt.on_hold_retry_queue ≡ s.jolt.on_hold_retry_queue ++ held)

  abbrev AllEnd : List OutBoundReq → List OutBoundReq → Type 0
  AllEnd items needed =
      (index : ℕ) (s : Service) → s.pi.pool1 ≡ some current → Ends index items needed s

  -- what the batch goes on with
  abbrev AllEnding : List OutBoundReq → Type 0
  AllEnding items =
      (needed : List OutBoundReq) × (needed_outbound answers items ≡ ok needed)
      × AllEnd items needed
