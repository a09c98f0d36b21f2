-- ===== src/Submission/Quorum.antt =====
-- When the recorded transaction does not depend on the order in which a map is visited.
use mathlib.Core.List.{Perm, Permᴰ}
use mathlib.Core.Logic.{∥∥₁_elim}
use joltifychain_bridge.Base.{
  ℕ, ◌+◌, ◌≤◌, ◌<◌, ◌≡◌, refl, ap, ◌∙◌, ◌↔◌, ◌⊎◌, [], ◌∷◌, Text, length, arith,
}
use joltifychain_bridge.Base.Outcome.{ok}
use joltifychain_bridge.Common.Libraries.{Chains}
use joltifychain_bridge.Common.Types.{OutBoundReq}
use joltifychain_bridge.Submission.{OutboundTxItems, quorum, target_of, get_pub_chain_submitted_tx}

-- how many records there are, over all transactions
abbrev pub records : OutboundTxItems → ℕ
records [] = 0
records ((key, entry) ∷ items) = length entry + records items

-- Two quorums share a validator exactly for three validators and for five or more: with one, two or
-- four, two different transactions can both reach it.
pub quorums_overlap : (n : ℕ) → (n < quorum n + quorum n) ↔ ((n ≡ 3) ⊎ (5 ≤ n))
unfolding quorum
quorums_overlap n = (λ h. ground arith, λ h. ground arith)

records-perm : {xs ys : OutboundTxItems} → Permᴰ xs ys → records xs ≡ records ys
records-perm Permᴰ.nil = refl
records-perm (Permᴰ.cons e h) = omega (arith, ap (λ x. length x.1) e, records-perm h)
records-perm (Permᴰ.swap e f) = omega (arith, ap (λ x. length x.1) e, ap (λ x. length x.1) f)
records-perm (Permᴰ.trans h g) = records-perm h ∙ records-perm g

Text-set : IsSet Text
Text-set = hlevel

-- Two transactions cannot both reach more than half of the records.
target_of-permᴰ :
    {xs ys : OutboundTxItems} (least : ℕ)
    → Permᴰ xs ys
    → records xs < least + least
    → target_of least xs ≡ target_of least ys
unfolding target_of
target_of-permᴰ least Permᴰ.nil few = refl
target_of-permᴰ least (Permᴰ.cons {l₁ = l₁} e h) few =
    let rest : records l₁ < least + least = omega arith in
    ground (arith, ap (λ x. x.0) e, ap (λ x. length x.1) e, target_of-permᴰ least h rest)
target_of-permᴰ least (Permᴰ.swap e f) few =
    ground (arith, ap (λ x. x.0) e, ap (λ x. length x.1) e, ap (λ x. x.0) f, ap (λ x. length x.1) f)
target_of-permᴰ least (Permᴰ.trans h g) few =
    target_of-permᴰ least h few ∙ target_of-permᴰ least g (omega (arith, records-perm h))

-- Where every validator stands in at most one record of a request, and there are three validators
-- or at least five, the transaction found for the request does not depend on the order in which the
-- records are visited.
pub get_pub_chain_submitted_tx-ordered :
    (chains : Chains) (validators : ℕ) (xs ys : OutboundTxItems) (req : OutBoundReq)
    → (validators ≡ 3) ⊎ (5 ≤ validators)
    → records xs ≤ validators
    → Perm xs ys
    → get_pub_chain_submitted_tx chains validators (λ _. ok xs) req
      ≡ get_pub_chain_submitted_tx chains validators (λ _. ok ys) req
unfolding get_pub_chain_submitted_tx
get_pub_chain_submitted_tx-ordered chains validators xs ys req enough once order = rw same refl
  where
    majority : validators < quorum validators + quorum validators
    majority = (quorums_overlap validators).1 enough

    same : target_of (quorum validators) xs ≡ target_of (quorum validators) ys
    same =
        ∥∥₁_elim order (Text-set _ _)
          (λ p. target_of-permᴰ (quorum validators) p (omega (arith, majority)))
