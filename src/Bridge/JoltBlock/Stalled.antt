-- ===== src/Bridge/JoltBlock/Stalled.antt =====
-- The flag `inBoundProcessDone` and the channel of batches over a block of the joltify chain.
use joltifychain_bridge.Base.{
  ◌≡◌, refl, subst, if◌then◌else◌, false, not, ◌&&◌, Option, List, [], ◌∷◌, ltb, ltb_ℤ, ℤ, pos,
  ◌-ℤ◌, Bool-cases, inl, inr,
}
use joltifychain_bridge.Base.Int.{leb_ℤ}
use joltifychain_bridge.Base.Outcome.{Outcome, ok, err, panic, ◌>>=◌, Done}
use joltifychain_bridge.Common.Libraries.{Sdk, Chains}
use joltifychain_bridge.Common.Types.{PoolInfo, InBoundReq}
use joltifychain_bridge.State.{PubChain}
use joltifychain_bridge.Queue.Inbound.{add_in_bound_item, dump_queue, is_empty, size}
use joltifychain_bridge.Bridge.Heights.{Service}
use joltifychain_bridge.Bridge.Feed.{group_sign}
use joltifychain_bridge.Bridge.OnHold.{back_inbound, back_all_inbound, put_on_hold_inbound_back}
use joltifychain_bridge.Bridge.JoltBlock.{
  JoltAnswers, start_inbound_pause, reload_inbound, feed_deposits_due, process_deposits,
  inbound_block_gap,
}

module _ (sdk : Sdk) (chains : Chains) where
  -- A result with the flag unset and this channel of batches.
  abbrev pub StaysUnset : List (List InBoundReq) → Outcome Service → Type 0
  StaysUnset batches (ok after) =
      (after.inbound_process_done ≡ false) × (after.pi.inbound_req_chan ≡ batches)
  StaysUnset batches (err e) = ⊥
  StaysUnset batches panic = Unit

  abbrev SameChannel : List (List InBoundReq) → Outcome PubChain → Type 0
  SameChannel batches (ok after) = after.inbound_req_chan ≡ batches
  SameChannel batches (err e) = ⊥
  SameChannel batches panic = Unit

  back_inbound-same :
      (status : Outcome Done) (each : InBoundReq) (pi : PubChain)
      → SameChannel pi.inbound_req_chan (back_inbound chains status each pi)
  unfolding back_inbound add_in_bound_item
  back_inbound-same (ok done) each pi = refl
  back_inbound-same (err e) each pi = refl
  back_inbound-same panic each pi = tt

  back_all_inbound-same :
      (check_tx_status : InBoundReq → Outcome Done) (items : List InBoundReq) (pi : PubChain)
      → SameChannel pi.inbound_req_chan (back_all_inbound chains check_tx_status items pi)
  unfolding back_all_inbound
  back_all_inbound-same check_tx_status [] pi = refl
  back_all_inbound-same check_tx_status (each ∷ items) pi =
      go (back_inbound chains (check_tx_status each) each pi)
        (back_inbound-same (check_tx_status each) each pi)
        (back_all_inbound-same check_tx_status items)
    where
      go :
          (o : Outcome PubChain)
          → SameChannel pi.inbound_req_chan o
          → ((after : PubChain)
              → SameChannel after.inbound_req_chan
                  (back_all_inbound chains check_tx_status items after))
          → SameChannel pi.inbound_req_chan
              (o >>= λ after. back_all_inbound chains check_tx_status items after)
      go (ok after) h rest = rw⁻¹ h (rest after)
      go (err e) h rest = absurd h
      go panic h rest = tt

  put_on_hold_inbound_back-same :
      (dialled : Outcome Done) (check_tx_status : InBoundReq → Outcome Done) (pi : PubChain)
      → SameChannel pi.inbound_req_chan (put_on_hold_inbound_back chains dialled check_tx_status pi)
  unfolding put_on_hold_inbound_back dump_queue
  put_on_hold_inbound_back-same (ok done) check_tx_status pi =
      back_all_inbound-same check_tx_status pi.on_hold_retry_queue
        (record pi { on_hold_retry_queue = [] })
  put_on_hold_inbound_back-same (err e) check_tx_status pi = refl
  put_on_hold_inbound_back-same panic check_tx_status pi = tt

  reload_inbound-stays :
      (answers : JoltAnswers sdk chains) (s : Service) (next : Service → Outcome Service)
      → s.inbound_process_done ≡ false
      → ((after : Service)
          → after.inbound_process_done ≡ false
          → StaysUnset after.pi.inbound_req_chan (next after))
      → StaysUnset s.pi.inbound_req_chan (reload_inbound sdk chains answers s >>= next)
  unfolding reload_inbound
  reload_inbound-stays answers s next unset keep =
      go (put_on_hold_inbound_back chains answers.dial_grpc answers.check_tx_status s.pi)
        (put_on_hold_inbound_back-same answers.dial_grpc answers.check_tx_status s.pi)
    where
      go :
          (o : Outcome PubChain)
          → SameChannel s.pi.inbound_req_chan o
          → StaysUnset s.pi.inbound_req_chan ((o >>= λ pi. ok (record s { pi = pi })) >>= next)
      go (ok after) h = rw⁻¹ h (keep (record s { pi = after }) unset)
      go (err e) h = absurd h
      go panic h = tt

  feed_deposits_due-stays :
      (current processable : ℤ) (pool : Option PoolInfo) (answers : JoltAnswers sdk chains)
      (s : Service)
      → s.inbound_process_done ≡ false
      → StaysUnset s.pi.inbound_req_chan
          (feed_deposits_due sdk chains current processable pool answers s)
  unfolding feed_deposits_due
  feed_deposits_due-stays current processable pool answers s unset =
      elim (Bool-cases (
        leb_ℤ inbound_block_gap (processable -ℤ s.previous_tss_block_inbound)
        && not (is_empty s.pi))) [
          | inl due ↦ elim (Bool-cases (ltb (size s.pi) group_sign && s.first_time_inbound)) [
            | inl small ↦ rw (due, small) (unset, refl)
            | inr full ↦ rw (due, full, unset) (refl, refl)
          ]
          | inr early ↦ rw early (unset, refl)
        ]

  -- the handler after the failures are counted
  abbrev after_count :
      ℤ → ℤ → ℤ → Option PoolInfo → JoltAnswers sdk chains → Service → Outcome Service
  after_count current latest processable pool answers started =
      if ltb_ℤ latest started.inbound_pause_height
      then (if leb_ℤ (started.inbound_pause_height -ℤ pos 1) latest
          then reload_inbound sdk chains answers started
          else ok started)
      else (let resumed : Service = record started { inbound_wait = false } in
          if is_empty resumed.pi
          then (reload_inbound sdk chains answers resumed >>= λ reloaded.
              feed_deposits_due sdk chains current processable pool answers reloaded)
          else feed_deposits_due sdk chains current processable pool answers resumed)

  bind_ok : (o : Outcome Service) → (o >>= λ s. ok s) ≡ o
  bind_ok (ok s) = refl
  bind_ok (err e) = refl
  bind_ok panic = refl

  after_count-stays :
      (current latest processable : ℤ) (pool : Option PoolInfo) (answers : JoltAnswers sdk chains)
      (s : Service)
      → s.inbound_process_done ≡ false
      → StaysUnset s.pi.inbound_req_chan (after_count current latest processable pool answers s)
  after_count-stays current latest processable pool answers s unset =
      elim (Bool-cases (ltb_ℤ latest s.inbound_pause_height)) [
        | inl paused ↦ elim (Bool-cases (leb_ℤ (s.inbound_pause_height -ℤ pos 1) latest)) [
          | inl last ↦
              rw (paused, last)
                (subst (StaysUnset s.pi.inbound_req_chan)
                  (bind_ok (reload_inbound sdk chains answers s))
                  (reload_inbound-stays answers s (λ after. ok after) unset (λ after h. (h, refl))))
          | inr waits ↦ rw (paused, waits) (unset, refl)
        ]
        | inr runs ↦ elim (Bool-cases (is_empty s.pi)) [
          | inl none_left ↦
              rw (runs, none_left)
                (reload_inbound-stays answers (record s { inbound_wait = false }) _ unset
                  (feed_deposits_due-stays current processable pool answers))
          | inr some_left ↦
              rw (runs, some_left)
                (feed_deposits_due-stays current processable pool answers
                  (record s { inbound_wait = false }) unset)
        ]
      ]

  -- Once the flag `inBoundProcessDone` is unset, a block of the joltify chain neither sets it again
  -- nor sends a batch to the channel whose handling would, whatever the surroundings answer.
  pub process_deposits-stays :
      (current latest processable : ℤ) (pool : Option PoolInfo) (answers : JoltAnswers sdk chains)
      (s : Service)
      → s.inbound_process_done ≡ false
      → StaysUnset s.pi.inbound_req_chan
          (process_deposits sdk chains current latest processable pool answers s)
  unfolding process_deposits start_inbound_pause
  process_deposits-stays current latest processable pool answers s unset =
      elim (Bool-cases (ltb 5 s.failed_inbound)) [
        | inl many ↦ rw many (after_count-stays current latest processable pool answers _ unset)
        | inr few ↦ rw few (after_count-stays current latest processable pool answers s unset)
      ]
