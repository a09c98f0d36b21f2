-- ===== src/Bridge/Transfers/Held.antt =====
-- Which transfers of an outbound batch go on hold.
use joltifychain_bridge.Base.{
  ℕ, ◌+◌, ◌≡◌, ◌≢◌, ◌⊎◌, All, refl, ◌∙◌, List, [], ◌∷◌, Text, codes, Bool-cases, inl, inr, text_eq,
  text_eq_iff,
}
use joltifychain_bridge.Base.Outcome.{Outcome, ok, err, panic, Fault}
use joltifychain_bridge.Common.Libraries.{Chains}
use joltifychain_bridge.Common.Types.{OutBoundReq}
use joltifychain_bridge.Common.Requests.{empty_hash}
use joltifychain_bridge.CosSend.Submit.{OutboundRecord}
use joltifychain_bridge.Bridge.Records.{SubmitAnswers, submit_once, submit_record}
use joltifychain_bridge.Bridge.Transfers.{OutboundAnswers, process_out_bound}

-- The batch goes on with this transfer: no transaction is found for it, or one that is not in order.
abbrev pub IsDue : OutboundAnswers → OutBoundReq → Type 0
IsDue answers item =
    ((e : Fault) × (answers.submitted_tx item ≡ err e))
    ⊎ ((tx : Text) × (e : Fault) × (answers.submitted_tx item ≡ ok tx)
        × (tx ≢ [])
        × (answers.check_tx_status tx ≡ err e))

-- The hash of what the batch sends for a transfer: of the native token or of another one.
abbrev pub HasHash : OutboundAnswers → ℕ → OutBoundReq → Text → Type 0
HasHash answers index item tx_hash =
    ((item.token_addr ≡ codes "native") × (answers.send_native_token_batch index item ≡ tx_hash))
    ⊎ ((item.token_addr ≢ codes "native") × (answers.send_token_batch index item ≡ tx_hash))

-- The transfers of a batch that go on hold, where the due ones are numbered from an index on.
pub data Held (answers : OutboundAnswers) : ℕ → List OutBoundReq → List OutBoundReq → Type 0 where
  none_left : (index : ℕ) → Held answers index [] []
  -- the empty transaction is found for it: it is neither sent nor held
  forgotten :
      (index : ℕ) (item : OutBoundReq) (items held : List OutBoundReq)
      → answers.submitted_tx item ≡ ok []
      → Held answers index items held
      → Held answers index (item ∷ items) held
  by_others :
      (index : ℕ) (item : OutBoundReq) (items held : List OutBoundReq) (tx : Text)
      → answers.submitted_tx item ≡ ok tx
      → tx ≢ []
      → answers.check_tx_status tx ≡ ok tt
      → Held answers index items held
      → Held answers index (item ∷ items) held
  gone_out :
      (index : ℕ) (item : OutBoundReq) (items held : List OutBoundReq) (tx_hash : Text)
      → IsDue answers item
      → HasHash answers index item tx_hash
      → tx_hash ≢ empty_hash
      → answers.check_tx_status tx_hash ≡ ok tt
      → Held answers (index + 1) items held
      → Held answers index (item ∷ items) held
  kept_back :
      (index : ℕ) (item : OutBoundReq) (items held : List OutBoundReq) (tx_hash : Text)
      → IsDue answers item
      → HasHash answers index item tx_hash
      → (tx_hash ≡ empty_hash) ⊎ ((e : Fault) × (answers.check_tx_status tx_hash ≡ err e))
      → Held answers (index + 1) items held
      → Held answers index (item ∷ items) (record item { submitted_tx_hash = tx_hash } ∷ held)

-- The surroundings of a batch never panic.
pub record IsCalm (answers : OutboundAnswers) : Type 0 where
  pub submitted_tx : (item : OutBoundReq) → answers.submitted_tx item ≢ panic
  pub check_tx_status : (tx : Text) → answers.check_tx_status tx ≢ panic
  pub attempts :
      (tx_hash : Text)
      → All
          (λ a. (a.dial ≢ panic) × ((r : OutboundRecord) → a.submit_outbound_tx r ≢ panic))
          (answers.attempts tx_hash)

pub Outcome-cases :
    {A : Type 0} (r : Outcome A)
    → ((a : A) × (r ≡ ok a)) ⊎ (((e : Fault) × (r ≡ err e)) ⊎ (r ≡ panic))
Outcome-cases (ok a) = inl (a, refl)
Outcome-cases (err e) = inr (inl (e, refl))
Outcome-cases panic = inr (inr refl)

submit_once-unreached :
    (chains : Chains) (r : OutboundRecord) (a : SubmitAnswers) (e : Fault)
    → a.dial ≡ err e
    → submit_once chains (ok r) a ≡ err e
unfolding submit_once
submit_once-unreached chains r a e failed = rw failed refl

submit_once-answers :
    (chains : Chains) (r : OutboundRecord) (a : SubmitAnswers)
    → a.dial ≡ ok tt
    → submit_once chains (ok r) a ≡ a.submit_outbound_tx r
unfolding submit_once
submit_once-answers chains r a dialled = rw dialled refl

submit_record-succeeds :
    (chains : Chains) (r : Outcome OutboundRecord) (a : SubmitAnswers)
    (attempts : List SubmitAnswers)
    → submit_once chains r a ≡ ok tt
    → submit_record chains r (a ∷ attempts) ≡ ok tt
unfolding submit_record
submit_record-succeeds chains r a attempts e = rw (submit_record, e) refl

submit_record-goes_on :
    (chains : Chains) (r : Outcome OutboundRecord) (a : SubmitAnswers)
    (attempts : List SubmitAnswers) (e : Fault)
    → submit_once chains r a ≡ err e
    → submit_record chains r (a ∷ attempts) ≡ submit_record chains r attempts
unfolding submit_record
submit_record-goes_on chains r a attempts e failed = rw (submit_record, failed) refl

pub submit_record-ends :
    (chains : Chains) (r : OutboundRecord) (attempts : List SubmitAnswers)
    → All (λ a. (a.dial ≢ panic) × ((r : OutboundRecord) → a.submit_outbound_tx r ≢ panic)) attempts
    → submit_record chains (ok r) attempts ≡ ok tt
unfolding submit_record
submit_record-ends chains r [] h = refl
submit_record-ends chains r (a ∷ attempts) h =
    let rest = submit_record-ends chains r attempts h.1 in
    elim (Outcome-cases a.dial) [
      | inr (inl (e, failed)) ↦
          submit_record-goes_on chains (ok r) a attempts e
            (submit_once-unreached chains r a e failed)
          ∙ rest
      | inr (inr panicked) ↦ absurd (h.0.0 panicked)
      | inl (dialled, e_dial) ↦ elim (Outcome-cases (a.submit_outbound_tx r)) [
        | inl (done, e) ↦
            submit_record-succeeds chains (ok r) a attempts
              (submit_once-answers chains r a e_dial ∙ e)
        | inr (inl (e, failed)) ↦
            submit_record-goes_on chains (ok r) a attempts e
              (submit_once-answers chains r a e_dial ∙ failed)
            ∙ rest
        | inr (inr panicked) ↦ absurd (h.0.1 r panicked)
      ]
    ]

pub process_out_bound-HasHash :
    (answers : OutboundAnswers) (index : ℕ) (item : OutBoundReq)
    → HasHash answers index item (process_out_bound answers index item)
unfolding process_out_bound
process_out_bound-HasHash answers index item =
    elim (Bool-cases (text_eq item.token_addr (codes "native"))) [
      | inl e ↦ inl ((text_eq_iff item.token_addr (codes "native")).0 e, rw e refl)
      | inr e ↦ inr (
        (λ same. absurd (cc (e, (text_eq_iff item.token_addr (codes "native")).1 same))),
        rw e refl,
      )
    ]
