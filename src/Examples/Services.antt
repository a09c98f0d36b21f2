-- ===== src/Examples/Services.antt =====
-- The service at concrete inputs.
use joltifychain_bridge.Base.{
  ℕ, ◌+◌, ◌%◌, ◌^◌, ◌<◌, ◌≤◌, ◌≡◌, Bool, refl, true, false, some, [], ◌∷◌, ◌++◌, text_eq, codes,
  pos, arith, inr, if◌then◌else◌, ◌==◌,
}
use joltifychain_bridge.Base.Outcome.{Outcome, ok, err, Done, other_fault}
use joltifychain_bridge.Common.Requests.{set_item_nonce, empty_hash}
use joltifychain_bridge.TokenList.{parsed}
use joltifychain_bridge.Bridge.Heights.{Service, get_height}
use joltifychain_bridge.Bridge.Feed.{set_nonces}
use joltifychain_bridge.Bridge.Feed.Numbers.{set_nonces-consecutive}
use joltifychain_bridge.Bridge.PubBlock.{start_pause}
use joltifychain_bridge.Bridge.PubBlock.Pause.{start_pause-ahead}
use joltifychain_bridge.Bridge.JoltBlock.{JoltAnswers, process_deposits}
use joltifychain_bridge.Bridge.JoltBlock.Stalled.{StaysUnset, process_deposits-stays}
use joltifychain_bridge.Bridge.Records.{SubmitAnswers}
use joltifychain_bridge.Bridge.Transfers.{OutboundAnswers}
use joltifychain_bridge.Bridge.Transfers.Held.{Held}
use joltifychain_bridge.Examples.Libraries.{sdk, chains}
use joltifychain_bridge.Examples.Instances.{p2, out_req, service, token}

set_nonces-consecutive_example :
    set_nonces (codes "p2") 7 ((out_req 1 ∷ []) ++ (out_req 2 ∷ out_req 3 ∷ []))
    ≡ set_nonces (codes "p2") 7 (out_req 1 ∷ [])
      ++ (set_item_nonce (codes "p2") ((7 + 1) % 2 ^ 64) (out_req 2)
          ∷ set_nonces (codes "p2") ((7 + 1 + 1) % 2 ^ 64) (out_req 3 ∷ []))
set_nonces-consecutive_example =
    set_nonces-consecutive (codes "p2") 7 (out_req 1 ∷ []) (out_req 2) (out_req 3 ∷ [])
      (omega arith)

start_pause-ahead_example :
    (after : Service) × (h : ℕ) × (start_pause sdk chains 250 (codes "ETH") service ≡ ok after)
    × (get_height (codes "ETH") after.outbound_pause_height ≡ ok h)
    × (250 < h)
    × (h ≤ 250 + 100)
    × (h % 100 ≡ 0)
    × (after.failed_outbound ≡ 0)
start_pause-ahead_example =
    start_pause-ahead sdk chains 250 (codes "ETH") service (omega arith) (inr refl) (omega arith)

abbrev answers : JoltAnswers sdk chains
answers = record {
  dial = ok tt;
  latest_height = ok (pos 30);
  submit = λ msg. ok tt;
  query_last_pool = err other_fault;
  block = λ height. ok [];
  operator = ok (codes "node");
  fee_module = [];
  query_token_price = λ denom. err other_fault;
  token_file = parsed (token ∷ []);
  dial_grpc = ok tt;
  check_tx_status = λ req. err other_fault;
  query_account = err other_fault;
}

abbrev unset : Service
unset = record service { inbound_process_done = false }

process_deposits-stays_example :
    StaysUnset sdk chains []
      (process_deposits sdk chains (pos 30) (pos 30) (pos 20) (some p2) answers unset)
process_deposits-stays_example =
    process_deposits-stays sdk chains (pos 30) (pos 30) (pos 20) (some p2) answers unset refl

abbrev unreached : SubmitAnswers
unreached = record { dial = err other_fault; submit_outbound_tx = λ r. ok tt }

abbrev reached : SubmitAnswers
reached = record { dial = ok tt; submit_outbound_tx = λ r. ok tt }

abbrev status_of : Bool → Outcome Done
status_of true = ok tt
status_of false = err other_fault

abbrev out_answers : OutboundAnswers
out_answers = record {
  submitted_tx = λ req. err other_fault;
  check_tx_status = λ hash. status_of (text_eq hash (codes "a"));
  send_native_token_batch = λ index req. if index == 0 then codes "a" else empty_hash;
  send_token_batch = λ index req. codes "b";
  attempts = λ hash. unreached ∷ reached ∷ [];
}
