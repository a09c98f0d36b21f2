-- ===== src/Lib.antt =====
-- A bridge between the joltify chain and two public chains (BSC and ETH): the nodes of a pool watch
-- both sides, move deposits of the public chains to the joltify chain, and transfers out of the
-- joltify chain to the public ones.
--
-- The parts, and the files that model them:
--   Base           what the other modules share: Boolean tests, integers, bytes, association lists
--                  for Go's maps, sorting, and the outcomes of a Go call (value, error or panic)
--   Common         common/: requests and their indices, amounts in 18 decimals, fees;
--                  Common/Libraries has the parameters that stand for cosmos-sdk and go-ethereum
--   State          the fields of JoltChainInstance (cosbridge/types.go) and Instance
--                  (pubchain/types.go) that the operations change
--   Queue          cosbridge/oppy_item_process.go and pubchain/public_items_process.go
--   TokenList      tokenlist/tokenlist.go
--   PubSend        pubchain/tx_send.go: the wait for a nonce, and the transfers of the native token
--                  and of tokens with the signatures of one transaction or of a batch
--   MoveFund       pubchain/move_fund.go: the pools that wait to be emptied, and emptying them
--   Pools          the two latest pools: UpdatePool, NeedUpdate and the block handler's part of them
--   Outbound       cosbridge/tx_outbound.go and CheckOutBoundTx: transfers out of the joltify chain
--   Inbound        pubchain/tx_inbound.go: deposits on the public chains
--   Bridge         bridge/: the handlers of a new block of either side, the batches and the way back
--                  from hold, with FeedTx of both halves and cosbridge/mint.go
--   SigningRound   pubchain/broadcast.go, and the goroutines of processEachOutBound that collect the
--                  messages of a batch and hand out its signatures (bridge/bridge_service.go)
--   Signatures     misc/helper.go: SerializeSig, MakeSignature and RecoverRecID, with the bytes of a
--                  big integer and base64
--   CosSend        cosbridge/bridge.go and cosbridge/helper.go: signing and sending transactions of
--                  the joltify chain, one or a batch, and SubmitOutboundTx
--   Submission     GetPubChainSubmittedTx of cosbridge/submit_outboundtx.go, with its quorum
--   Validators     validators/, and the key generation of cosbridge/event.go and prepareTssPool
--   Storage        storage/, and what NewBridgeService (bridge/bridge_service.go) reads at its start
--                  and writes at its end
--   Connections    pubchain/retry.go and cosbridge/retry.go, the health checks, and the waits for the
--                  outcome of a transaction
--   Examples       the theorems at concrete inputs
--
-- An operation of the Go code is a function with the code's name in snake case. It takes the state
-- and gives the new one, in an `Outcome` where it may fail; pubchain.Instance is `PubChain`,
-- JoltChainInstance is `JoltChain`, and the loop of bridge/bridge_service.go has `Service`. The
-- retry pool of outbound requests is one map for both halves and stands in `JoltChain`.
-- The answers of nodes, of the signing service and of decoders are arguments, gathered in records
-- (`SendAnswers`, `FundAnswers`, `PubAnswers`, `JoltAnswers` and others), so that every statement is
-- about all their answers. Goroutines over the items of a batch are taken in the order of the items,
-- and a map is visited in the order of its entries; the order of Go is open in both places. Where the
-- goroutines of a batch wait for each other, their steps are a relation (`SigningRound.Steps.Step`)
-- and every interleaving is a sequence of steps.
-- Strings are lists of bytes; amounts are natural numbers; a nonce wraps at 2 ^ 64. No function
-- takes fuel but the digits of a number and the bytes of a big integer, whose fuel is the number,
-- which has no more of either, and the attempts of a key generation, which are the five of the
-- source. Every other loop is over a list; the answers that an operation sees until its backoff gives
-- up are one. The quorum is the exact quotient, with which a float32 agrees up to 2 ^ 22 validators.
-- The encodings of requests (JSON), transactions and keys are parameters.
--
-- Not modelled: the signing service, which is third-party code behind tssclient/; generated bindings;
-- metrics, the HTTP server, flags and the configuration; the single queries of a node, which stand as
-- answers; and the constructors that only connect (NewChainInstance, NewJoltifyBridge,
-- InitValidators).
pub mod Base
pub mod Common
pub mod State
pub mod Queue
pub mod TokenList
pub mod PubSend
pub mod MoveFund
pub mod Outbound
pub mod Inbound
pub mod Bridge
mod Examples
pub mod Pools
pub mod Submission
pub mod Validators
pub mod SigningRound
pub mod Signatures
pub mod Storage
pub mod Connections
pub mod CosSend
