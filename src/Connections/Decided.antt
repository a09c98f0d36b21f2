-- ===== src/Connections/Decided.antt =====
-- What decides the outcome of a transaction, and what a renewal of the joltify chain keeps.
use joltifychain_bridge.Base.{
  ℕ, ◌≡◌, refl, ◌∙◌, ap, true, false, Bool, List, [], ◌∷◌, ◌++◌, Text, All, ◌==◌, if◌then◌else◌,
}
use joltifychain_bridge.Base.Outcome.{Outcome, ok, err, panic, Done, Fault, tx_failed, other_fault}
use joltifychain_bridge.Connections.PubChainConn.{go_on}
use joltifychain_bridge.Connections.JoltConn.{
  JoltConn, RenewAnswers, made, both_subscribed, switch_channels, update_subscribe, renew_once,
  retry_renew, retry_oppy_chain,
}
use joltifychain_bridge.Connections.TxStatus.{check_tx_status}

-- an answer that makes the check ask again
abbrev pub IsError : Outcome ℕ → Type 0
IsError (ok status) = ⊥
IsError (err e) = Unit {0}
IsError panic = ⊥

-- The first receipt decides: status 1 is success, any other one is a failure that is not asked
-- again, and without a receipt the check fails.
pub check_tx_status-decides :
    (before : List (Outcome ℕ)) (last : Fault)
    → All IsError before
    → ((status : ℕ) (after : List (Outcome ℕ))
        → check_tx_status last (before ++ (ok status ∷ after))
          ≡ (if status == 1 then ok tt else err tx_failed))
      × ((e : Fault) × (check_tx_status last before ≡ err e))
unfolding check_tx_status
check_tx_status-decides [] last h = ((λ status after. refl), (last, refl))
check_tx_status-decides (ok status ∷ before) last h = absurd h.0
check_tx_status-decides (err e ∷ before) last h = check_tx_status-decides before e h.1
check_tx_status-decides (panic ∷ before) last h = absurd h.0

-- Neither a block nor a change of the validators is lost.
abbrev KeepsEvents : JoltConn → Outcome Done × JoltConn → Type 0
KeepsEvents jc after =
    (after.1.channel_queue_new_block ++ after.1.current_new_block_chan
      ≡ jc.channel_queue_new_block ++ jc.current_new_block_chan)
    × (after.1.channel_queue_validator ++ after.1.current_new_validator
        ≡ jc.channel_queue_validator ++ jc.current_new_validator)

append_nil : (xs : List Text) → xs ++ [] ≡ xs
append_nil [] = refl
append_nil (x ∷ xs) = ap (◌∷◌ x) (append_nil xs)

renew_once-keeps :
    (clients subscribed : Outcome Done) (jc : JoltConn)
    → KeepsEvents jc (renew_once clients subscribed jc)
unfolding renew_once update_subscribe switch_channels
renew_once-keeps (ok done) (ok subscribed) jc = (append_nil _, append_nil _)
renew_once-keeps (ok done) (err e) jc = (refl, refl)
renew_once-keeps (ok done) panic jc = (refl, refl)
renew_once-keeps (err e) subscribed jc = (refl, refl)
renew_once-keeps panic subscribed jc = (refl, refl)

go_on-keeps :
    (jc : JoltConn) (once : Outcome Done × JoltConn)
    (again : Fault → JoltConn → Outcome Done × JoltConn)
    → ((e : Fault) (after : JoltConn) → KeepsEvents after (again e after))
    → KeepsEvents jc once
    → KeepsEvents jc (go_on once again)
unfolding go_on
go_on-keeps jc (ok done, after) again later h = h
go_on-keeps jc (err e, after) again later h = let l = later e after in (l.0 ∙ h.0, l.1 ∙ h.1)
go_on-keeps jc (panic, after) again later h = h

retry_renew-keeps :
    (last : Fault) (attempts : List RenewAnswers) (jc : JoltConn)
    → KeepsEvents jc (retry_renew last attempts jc)
unfolding retry_renew
retry_renew-keeps last [] jc = (refl, refl)
retry_renew-keeps last (answers ∷ attempts) jc =
    go_on-keeps jc (renew_once (made answers) (both_subscribed answers.subscribe) jc) _
      (λ e after. retry_renew-keeps e attempts after)
      (renew_once-keeps (made answers) (both_subscribed answers.subscribe) jc)

-- Whatever the answers, a renewal of the connection to the joltify chain loses, repeats and reorders
-- no block and no change of the validators that waits in a queue or in its channel.
pub retry_oppy_chain-keeps :
    (grpc_healthy ws_healthy : Bool) (attempts : List RenewAnswers) (jc : JoltConn)
    → let after = (retry_oppy_chain grpc_healthy ws_healthy attempts jc).1 in
      (after.channel_queue_new_block ++ after.current_new_block_chan
        ≡ jc.channel_queue_new_block ++ jc.current_new_block_chan)
      × (after.channel_queue_validator ++ after.current_new_validator
          ≡ jc.channel_queue_validator ++ jc.current_new_validator)
unfolding retry_oppy_chain
retry_oppy_chain-keeps true true attempts jc = (refl, refl)
retry_oppy_chain-keeps true false attempts jc = retry_renew-keeps other_fault attempts jc
retry_oppy_chain-keeps false ws_healthy attempts jc = retry_renew-keeps other_fault attempts jc
