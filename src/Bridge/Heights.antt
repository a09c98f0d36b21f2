-- ===== src/Bridge/Heights.antt =====
-- The state of the service (bridge/bridge_service.go), and the heights that it keeps for the two
-- public chains: OutboundPauseHeight and PreviousTssBlockOutBound.
use joltifychain_bridge.Base.{ℕ, Bool, Text, codes, text_eq, ℤ, if◌then◌else◌}
use joltifychain_bridge.Base.Outcome.{Outcome, ok, panic}
use joltifychain_bridge.State.{JoltChain, PubChain}

-- OutboundPauseHeight, or PreviousTssBlockOutBound
pub record TwoHeights {ℓ} (A : Type ℓ) : Type ℓ where
  pub bsc_height : A
  pub eth_height : A

module _ {ℓ} {A : Type ℓ} where
  -- SetHeight
  unfoldable pub set_height : A → Text → TwoHeights A → Outcome (TwoHeights A)
  set_height h chain_type p =
      if text_eq chain_type (codes "BSC")
      then ok (record p { bsc_height = h })
      else (if text_eq chain_type (codes "ETH") then ok (record p { eth_height = h }) else panic)

  -- GetHeight
  unfoldable pub get_height : Text → TwoHeights A → Outcome A
  get_height chain_type p =
      if text_eq chain_type (codes "BSC")
      then ok p.bsc_height
      else (if text_eq chain_type (codes "ETH") then ok p.eth_height else panic)

-- ROUNDBLOCK of bridge/bridge_service.go
abbrev pub pause_round : ℕ
pause_round = 100

-- The state of the service.
pub record Service : Type 0 where
  pub pi : PubChain
  pub jolt : JoltChain
  pub failed_outbound : ℕ
  pub failed_inbound : ℕ
  pub outbound_pause_height : TwoHeights ℕ
  pub inbound_pause_height : ℤ
  pub outbound_wait : Bool
  pub inbound_wait : Bool
  pub outbound_process_done : Bool
  pub inbound_process_done : Bool
  pub in_keygen_in_progress : Bool
  pub first_time_outbound : Bool
  pub first_time_inbound : Bool
  pub previous_tss_block_outbound : TwoHeights ℤ
  pub previous_tss_block_inbound : ℤ
