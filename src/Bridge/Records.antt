-- ===== src/Bridge/Records.antt =====
-- The record of a transfer that has gone out: the call of SubmitOutboundTx, with its retries, in
-- processEachOutBound (bridge/bridge_service.go).
use joltifychain_bridge.Base.{
  ◌^◌, ◌-◌, Bool, true, false, Option, none, some, List, [], ◌∷◌, Text, ℤ, pos, negsuc, leb, ltb,
  ◌==◌, ◌&&◌, if◌then◌else◌,
}
use joltifychain_bridge.Base.Outcome.{Outcome, ok, err, panic, ◌>>=◌, Done}
use joltifychain_bridge.Common.Libraries.{Chains}
use joltifychain_bridge.Common.Types.{PoolInfo, OutBoundReq}
use joltifychain_bridge.Common.Decimal.{digits_value}
use joltifychain_bridge.Common.Requests.{out_hash}
use joltifychain_bridge.CosSend.Submit.{OutboundRecord}

-- whether a text has digits only
abbrev only_digits : Text → Bool
only_digits [] = true
only_digits (c ∷ s) = leb b'0' c && leb c b'9' && only_digits s

-- the digits of ParseInt, of a number that is below the limit
abbrev digits_below : Bool → Text → Option ℤ
digits_below negative [] = none
digits_below negative (c ∷ s) =
    let n = digits_value 0 (c ∷ s) in
    if only_digits (c ∷ s)
    then (if negative
        then (if n == 0
            then some (pos 0)
            else if leb n (2 ^ 63)
            then some (negsuc (n - 1))
            else none)
        else if ltb n (2 ^ 63)
        then some (pos n)
        else none)
    else none

-- strconv.ParseInt(s, 10, 64); none is its error
unfoldable pub parse_int64 : Text → Option ℤ
parse_int64 [] = none
parse_int64 (c ∷ s) =
    if c == b'-'
    then digits_below true s
    else if c == b'+'
    then digits_below false s
    else digits_below false (c ∷ s)

-- One attempt of the retries: grpc.Dial, and what SubmitOutboundTx answers for a record.
pub record SubmitAnswers : Type 0 where
  pub dial : Outcome Done
  pub submit_outbound_tx : OutboundRecord → Outcome Done

module _ (chains : Chains) where
  -- poolCreateHeight, with pools[1]
  unfoldable pub pool_create_height : Option PoolInfo → Outcome ℤ
  pool_create_height none = panic
  pool_create_height (some pool) = elim (parse_int64 pool.pool_info.block_height) [
    | none ↦ panic
    | some height ↦ ok height
  ]

  -- the arguments of SubmitOutboundTx
  unfoldable pub record_of : Option PoolInfo → OutBoundReq → Text → Outcome OutboundRecord
  unfolding pool_create_height
  record_of pool item tx_hash = do
    height ← pool_create_height pool
    hash ← out_hash chains item
    ok (record {
      request_id = chains.hash_hex hash;
      block_height = height;
      pubchain_tx = tx_hash;
      fee = item.fee_to_validator;
      chain_type = item.chain_type;
      in_tx_hash = item.tx_id;
      receiver_address = item.out_receiver_address;
      need_mint = item.need_mint;
    })

  -- one attempt: a dial that fails does not look at the record
  unfoldable pub submit_once : Outcome OutboundRecord → SubmitAnswers → Outcome Done
  submit_once r answers = do dialled ← answers.dial; args ← r; answers.submit_outbound_tx args

  -- backoff.Retry, with the answers of as many attempts as its minute allows; that none succeeds is
  -- only logged
  unfoldable pub submit_record : Outcome OutboundRecord → List SubmitAnswers → Outcome Done
  unfolding submit_once
  submit_record r [] = ok tt
  submit_record r (answers ∷ attempts) =
      let rest = submit_record r attempts in
      elim (submit_once r answers) [ ok done ↦ ok tt | err e ↦ rest | panic ↦ panic ]
