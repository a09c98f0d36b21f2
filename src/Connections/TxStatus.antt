-- ===== src/Connections/TxStatus.antt =====
-- The waits for the outcome of a transaction: CheckTxStatus of pubchain/helper.go and of
-- cosbridge/validator.go.
use joltifychain_bridge.Base.{ℕ, Bool, false, List, [], ◌∷◌, ◌==◌, if◌then◌else◌}
use joltifychain_bridge.Base.Outcome.{Outcome, ok, err, panic, Done, Fault, tx_failed, other_fault}

-- (c *ChainInfo) CheckTxStatus: the answers to checkEachTx, thirty-one at most, which are the status
-- of the receipt or an error
unfoldable pub check_tx_status : Fault → List (Outcome ℕ) → Outcome Done
check_tx_status last [] = err last
check_tx_status last (ok status ∷ answers) = if status == 1 then ok tt else err tx_failed
check_tx_status last (err e ∷ answers) = check_tx_status e answers
check_tx_status last (panic ∷ answers) = panic

-- CheckWhetherAlreadyExist, of the query's answer: whether there is a token
unfoldable pub check_whether_already_exist : Outcome Bool → Bool
check_whether_already_exist (ok found) = found
check_whether_already_exist (err e) = false
check_whether_already_exist panic = false

-- (jc *JoltChainInstance) CheckTxStatus: the answers to the queries, one more than retryNum
unfoldable pub check_issue_status : List (Outcome Bool) → Outcome Done
unfolding check_whether_already_exist
check_issue_status [] = err other_fault
check_issue_status (answer ∷ answers) =
    let again = check_issue_status answers in
    if check_whether_already_exist answer then ok tt else again
