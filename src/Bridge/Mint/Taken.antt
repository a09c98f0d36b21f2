-- ===== src/Bridge/Mint/Taken.antt =====
-- What a hash that DoProcessInBound gives says of the deposit.
use mathlib.Core.List.{Mem}
use joltifychain_bridge.Base.{ℕ, ◌⊎◌, ◌≡◌, ◌≢◌, some, List, [], Text}
use joltifychain_bridge.Base.SyncMap.{SyncMap, load}
use joltifychain_bridge.Base.Outcome.{Outcome, ok, err, Fault}
use joltifychain_bridge.Common.Libraries.{Chains}
use joltifychain_bridge.Common.Types.{InBoundReq}
use joltifychain_bridge.CosSend.TxConfig.{TxConfig, TxAnswers}
use joltifychain_bridge.CosSend.Origins.{Numbered}
use joltifychain_bridge.CosSend.Hashes.{WasTaken}
use joltifychain_bridge.Bridge.Mint.{IssueToken, index_of}

module _ (chains : Chains) (config : TxConfig) (answers : TxAnswers)
    (issue : IssueToken config) where
  -- The message issues the tokens of a deposit, or it is nil because none could be made for it.
  abbrev pub IsMsgOf : InBoundReq → config.Msg → Type 0
  IsMsgOf item msg =
      let made =
        issue.new_msg item.pool_cos_address (index_of chains item) item.coin
          item.user_receiver_address in
      (made ≡ ok msg) ⊎ ((e : Fault) × (made ≡ err e) × (msg ≡ issue.nil_msg))

  -- A transaction that the chain took, of the deposit whose place in the batch, counted from a first
  -- sequence on, is this sequence.
  pub record IsIssued (start : ℕ) (items : List InBoundReq) (sequence : ℕ) (hash : Text)
      : Type 0 where
    pub msgs : List config.Msg
    pub taken : WasTaken config answers start msgs sequence hash
    pub origin : InBoundReq
    pub in_place : Numbered start items sequence origin
    pub issues : IsMsgOf origin taken.made_from.1.msg

  -- An item of the batch with this index, and the transaction that its sequence stands for.
  pub record IsMinted (start : ℕ) (items : List InBoundReq) (index hash : Text) : Type 0 where
    pub item : InBoundReq
    pub in_batch : Mem item items
    pub indexed : index_of chains item ≡ index
    pub issued : IsIssued start items item.acc_seq hash

  abbrev pub AllMinted : ℕ → List InBoundReq → SyncMap Text → Type 0
  AllMinted start items m =
      (index hash : Text) → load index m ≡ some hash → hash ≢ [] → IsMinted start items index hash
