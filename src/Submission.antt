-- ===== src/Submission.antt =====
-- cosbridge/submit_outboundtx.go: GetPubChainSubmittedTx, the transaction of a public chain that
-- enough validators have recorded for a request.
pub mod Quorum
use joltifychain_bridge.Base.{ℕ, ◌*◌, ◌/◌, List, [], ◌∷◌, Text, length, leb, if◌then◌else◌}
use joltifychain_bridge.Base.Outcome.{Outcome, ok, ◌>>=◌}
use joltifychain_bridge.Base.SyncMap.{SyncMap}
use joltifychain_bridge.Common.Libraries.{Chains}
use joltifychain_bridge.Common.Types.{OutBoundReq}
use joltifychain_bridge.Common.Requests.{out_hash}

-- resp.OutboundTx.Items: the validators that recorded a transaction, under the transaction
abbrev pub OutboundTxItems : Type 0
OutboundTxItems = SyncMap (List Text)

-- int(float32(n*2) / float32(3)). The quotient of a float32 rounds like the exact one up to 2 ^ 22
-- validators.
unfoldable pub quorum : ℕ → ℕ
quorum n = n * 2 / 3

-- the loop over the items: the first that reaches the quorum, or the empty string
unfoldable pub target_of : ℕ → OutboundTxItems → Text
target_of least [] = []
target_of least ((key, entry) ∷ items) =
    if leb least (length entry) then key else target_of least items

-- GetPubChainSubmittedTx, with the number of validators and the chain's answer for a request id
unfoldable pub get_pub_chain_submitted_tx :
    Chains → ℕ → (Text → Outcome OutboundTxItems) → OutBoundReq → Outcome Text
unfolding quorum target_of
get_pub_chain_submitted_tx chains validators outbound_tx req = do
  hash ← out_hash chains req
  items ← outbound_tx (chains.hash_hex hash)
  ok (target_of (quorum validators) items)
