-- ===== src/Connections/Renewed.antt =====
-- What a renewal of the connections keeps.
use joltifychain_bridge.Base.{◌+◌, ◌≡◌, refl, ◌∙◌, ap, true, false, List, [], ◌∷◌, ◌++◌, Text, All}
use joltifychain_bridge.Base.Outcome.{Outcome, ok, err, panic, Done, Fault, other_fault}
use joltifychain_bridge.Connections.PubChainConn.{
  ChainInfo, DialAnswers, block_heads, renew_eth_client, renew_once, go_on, retry_renew,
  retry_pub_chain, health_check_and_reset,
}

-- the headers that are still to be processed, in order
abbrev pub pending_heads : ChainInfo → List (Text × Text)
pending_heads c = c.channel_queue ++ block_heads c.chain_type c.sub_channel_now

append_nil : (xs : List (Text × Text)) → xs ++ [] ≡ xs
append_nil [] = refl
append_nil (x ∷ xs) = ap (◌∷◌ x) (append_nil xs)

-- Nothing of a chain is lost, and its kind stays.
abbrev KeepsHeads : ChainInfo → Outcome Done × ChainInfo → Type 0
KeepsHeads c after =
    (pending_heads after.1 ≡ pending_heads c)
    × (after.1.chain_type ≡ c.chain_type)
    × (after.0 ≡ ok tt → (after.1.subscribed ≡ true) × (after.1.sub_channel_now ≡ []))

renew_eth_client-keeps :
    (subscribe : Outcome Done) (c : ChainInfo) → KeepsHeads c (renew_eth_client subscribe c)
unfolding renew_eth_client
renew_eth_client-keeps (ok done) c = (append_nil _, refl, λ _. (refl, refl))
renew_eth_client-keeps (err e) c = (refl, refl, λ h. absurd (cc h))
renew_eth_client-keeps panic c = (refl, refl, λ h. absurd (cc h))

renew_once-keeps :
    (dial subscribe : Outcome Done) (c : ChainInfo) → KeepsHeads c (renew_once dial subscribe c)
unfolding renew_once
renew_once-keeps (ok done) subscribe c = renew_eth_client-keeps subscribe c
renew_once-keeps (err e) subscribe c = (refl, refl, λ h. absurd (cc h))
renew_once-keeps panic subscribe c = (refl, refl, λ h. absurd (cc h))

go_on-keeps :
    (c : ChainInfo) (once : Outcome Done × ChainInfo)
    (again : Fault → ChainInfo → Outcome Done × ChainInfo)
    → ((e : Fault) (after : ChainInfo) → KeepsHeads after (again e after))
    → KeepsHeads c once
    → KeepsHeads c (go_on once again)
unfolding go_on
go_on-keeps c (ok done, after) again later h = (h.0, h.1, λ _. h.2 (ap ok refl))
go_on-keeps c (err e, after) again later h = let l = later e after in (l.0 ∙ h.0, l.1 ∙ h.1, l.2)
go_on-keeps c (panic, after) again later h = (h.0, h.1, λ p. absurd (cc p))

retry_renew-keeps :
    (last : Fault) (attempts : List DialAnswers) (c : ChainInfo)
    → KeepsHeads c (retry_renew last attempts c)
unfolding retry_renew
retry_renew-keeps last [] c = (refl, refl, λ h. absurd (cc h))
retry_renew-keeps last (answers ∷ attempts) c =
    go_on-keeps c (renew_once answers.dial answers.subscribe c) _
      (λ e after. retry_renew-keeps e attempts after)
      (renew_once-keeps answers.dial answers.subscribe c)

-- Whatever the answers, a renewal of the connection to a public chain loses, repeats and reorders no
-- header of those that wait in the queue and in the channel; where it was needed and succeeds, a
-- subscription is running and its channel is new.
pub retry_pub_chain-keeps :
    (e : Fault) (attempts : List DialAnswers) (c : ChainInfo)
    → let after = retry_pub_chain (err e) attempts c in
      (pending_heads after.1 ≡ pending_heads c)
      × (after.1.chain_type ≡ c.chain_type)
      × (after.0 ≡ ok tt → (after.1.subscribed ≡ true) × (after.1.sub_channel_now ≡ []))
unfolding retry_pub_chain
retry_pub_chain-keeps e attempts c = retry_renew-keeps other_fault attempts c

-- An attempt that makes a client and fails to subscribe.
abbrev pub LosesSubscription : DialAnswers → Type 0
LosesSubscription answers = (answers.dial ≡ ok tt) × ((e : Fault) × (answers.subscribe ≡ err e))

retry_renew-loses :
    (last : Fault) (attempts : List DialAnswers) (c : ChainInfo)
    → All LosesSubscription attempts
    → c.subscribed ≡ false
    → (retry_renew last attempts c).1.subscribed ≡ false
unfolding retry_renew
retry_renew-loses last [] c h gone = gone
retry_renew-loses last (answers ∷ attempts) c h gone =
    let lost = h.0 in
    rw (lost.0, lost.1.1)
      (retry_renew-loses lost.1.0 attempts (record c { client = c.client + 1; subscribed = false })
        h.1 refl)

-- Where every attempt makes a client and none can subscribe, the subscription is gone; and while
-- that client answers, neither a renewal nor the health check of a new block brings it back.
pub retry_pub_chain-LosesSubscription :
    (e : Fault) (first : DialAnswers) (attempts : List DialAnswers) (c : ChainInfo)
    → LosesSubscription first
    → All LosesSubscription attempts
    → let after = (retry_pub_chain (err e) (first ∷ attempts) c).1 in
      (after.subscribed ≡ false)
      × ((later : List DialAnswers) → (retry_pub_chain (ok tt) later after).1.subscribed ≡ false)
      × ((health : Outcome Done) (later : List DialAnswers)
          → (health_check_and_reset (ok tt) health later after).subscribed ≡ false)
unfolding retry_pub_chain health_check_and_reset retry_renew
retry_pub_chain-LosesSubscription e first attempts c lost h =
    let gone : (retry_pub_chain (err e) (first ∷ attempts) c).1.subscribed ≡ false =
      rw (lost.0, lost.1.1)
        (retry_renew-loses lost.1.0 attempts
          (record c { client = c.client + 1; subscribed = false }) h refl) in
    (gone, (λ later. gone), (λ health later. gone))
