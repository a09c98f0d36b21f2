-- ===== src/Queue/Pops.antt =====
-- What `PopItem` takes from a retry pool.
use mathlib.Core.List.{Perm, Permᴰ, Mem, Nodup, not-mem-nil}
use mathlib.Core.Logic.{∥∥₁_elim}
use native.Mathlib.Nat.{ℕ_set}
use mathlib.Core.List.Perm
use Prim.Native.Nat.{min}
use joltifychain_bridge.Base.{
  ℕ, suc, false, ◌≡◌, refl, ap, ◌∙◌, sym, subst, Bool, true, Option, none, some, List, [], ◌∷◌,
  ◌++◌, arith, Text, All, length, length-map, length-take, take, drop, take-append-drop, Bool-cases,
  inl, inr, ltb, ◌==◌, if◌then◌else◌, ◌≤ℤ◌,
}
use joltifychain_bridge.Base.Sort.{
  sort, sort-perm, sort-IsSorted, take-drop-le, IsSorted, take-IsSorted,
}
use joltifychain_bridge.Base.SyncMap.{SyncMap, keys, values}
use joltifychain_bridge.Base.Outcome.{ok}
use joltifychain_bridge.Common.Types.{OutBoundReq, InBoundReq}
use joltifychain_bridge.Common.Decimal.{parse_int}
use joltifychain_bridge.Queue.PopLoop.{pop_loop, passing, failing, comparable, pop_loop-TakesOut}
use joltifychain_bridge.Queue.Outbound
use joltifychain_bridge.Queue.Outbound.{for_chain}
use joltifychain_bridge.Queue.Inbound
use joltifychain_bridge.State.{JoltChain, PubChain}

-- The entries popped from `pool` are those of the n least indices among the entries that pass the
-- test, in the order of their indices; the rest of the pool stays.
pub record PopsLeast {ℓ} {V : Type ℓ} (p : V → Bool) (n : ℕ) (pool popped rest : SyncMap V)
    : Type ℓ where
  pub passes : All (λ e. p e.1 ≡ true) popped
  pub as_many : length popped ≡ min n (length (passing p pool))
  pub in_order : IsSorted parse_int (keys popped)
  pub together : Perm pool (popped ++ rest)
  pub least :
      (k j : Text)
      → Mem k (keys popped)
      → Mem j (keys (passing p rest))
      → parse_int k ≤ℤ parse_int j
  pub others : failing p rest ≡ failing p pool
  pub distinct : Nodup (keys rest)

length-permᴰ {ℓ} : {A : Type ℓ} {xs ys : List A} → Permᴰ xs ys → length xs ≡ length ys
length-permᴰ Permᴰ.nil = refl
length-permᴰ (Permᴰ.cons e h) = ap suc (length-permᴰ h)
length-permᴰ (Permᴰ.swap e f) = refl
length-permᴰ (Permᴰ.trans h g) = length-permᴰ h ∙ length-permᴰ g

length-perm {ℓ} : {A : Type ℓ} {xs ys : List A} → Perm xs ys → length xs ≡ length ys
length-perm h = ∥∥₁_elim h (ℕ_set _ _) length-permᴰ

module _ {ℓ} {V : Type ℓ} (p : V → Bool) (n : ℕ) (m : SyncMap V) (d : Nodup (keys m)) where
  abbrev sorted : List Text
  sorted = sort parse_int (keys (passing p m))

  abbrev wanted : ℕ
  wanted = let count = length sorted in if ltb count n then count else n

  length-sorted : length sorted ≡ length (passing p m)
  length-sorted = length-perm (sort-perm parse_int _) ∙ length-map (passing p m) (λ e. e.0)

  pop_sorted :
      (popped : SyncMap V) × (rest : SyncMap V) × (pop_loop (take wanted sorted) m
        ≡ ok (values popped, rest))
      × PopsLeast p n m popped rest
  pop_sorted =
      let (popped, rest, t) =
        pop_loop-TakesOut p (take wanted sorted) (drop wanted sorted) m d cut in
      (
        popped,
        rest,
        t.runs,
        record {
          passes = t.passes;
          as_many =
              counted popped t.in_order ∙ wanted-min (length sorted) ∙ ap (min n) length-sorted;
          in_order =
              subst (IsSorted parse_int) (sym t.in_order)
                (take-IsSorted parse_int wanted sorted (sort-IsSorted parse_int _));
          together = t.together;
          least = λ k j hk hj.
              take-drop-le parse_int wanted k j sorted (sort-IsSorted parse_int _)
                (subst (Mem k) t.in_order hk) ((Perm.mem_iff t.left).0 hj);
          others = t.others;
          distinct = t.distinct;
        },
      )
    where
      cut : Perm (keys (passing p m)) (take wanted sorted ++ drop wanted sorted)
      cut =
          subst (Perm (keys (passing p m))) (sym (take-append-drop wanted sorted))
            (Perm.symm (sort-perm parse_int _))

      wanted-min : (c : ℕ) → min (if ltb c n then c else n) c ≡ min n c
      wanted-min c = ground arith

      counted :
          (popped : SyncMap V)
          → keys popped ≡ take wanted sorted
          → length popped ≡ min wanted (length sorted)
      counted popped e =
          sym (length-map popped (λ x. x.0)) ∙ ap length e ∙ length-take wanted sorted

  none_popped : length (passing p m) ≡ 0 → PopsLeast p n m [] m
  none_popped e = record {
    passes = tt;
    as_many = omega arith;
    in_order = tt;
    together = Perm.refl m;
    least = λ k j hk hj. absurd (not-mem-nil hk);
    others = refl;
    distinct = d;
  }

passing_all {ℓ} : {V : Type ℓ} (m : SyncMap V) → passing (λ _. true) m ≡ m
passing_all [] = refl
passing_all (e ∷ m) = ap (◌∷◌ e) (passing_all m)

abbrev pub answer {ℓ} : {V : Type ℓ} → ℕ → List V → Option (List V)
answer count vs = if count == 0 then none else some vs

-- Where the indices of the requests for the chain are numbers, `PopItem` of the outbound pool never
-- panics: it takes the requests with the n least indices among
-- those for the chain, in the order of their indices, all if there are fewer, and nil if there is
-- none; every other request stays.
pub outbound_pop_item_least :
    (n : ℕ) (chain_type : Text) (jc : JoltChain)
    → Nodup (keys jc.retry_outbound_req)
    → comparable (keys (passing (for_chain chain_type) jc.retry_outbound_req)) ≡ true
    → (popped : SyncMap OutBoundReq) × (rest : SyncMap OutBoundReq) × (Outbound.pop_item n
          chain_type jc
        ≡ ok (
          answer (length (passing (for_chain chain_type) jc.retry_outbound_req)) (values popped),
          record jc { retry_outbound_req = rest },
        ))
      × PopsLeast (for_chain chain_type) n jc.retry_outbound_req popped rest
unfolding Outbound.pop_item
outbound_pop_item_least n chain_type jc d numbers =
    elim (Bool-cases (length (sorted p n m d) == 0)) [
      | inl nothing ↦
          let zero_left : length (passing p m) ≡ 0 = ground (arith, length-sorted p n m d) in
          ([], m, rw (numbers, nothing, zero_left), none_popped p n m d zero_left)
      | inr some_left ↦
          let (popped, rest, runs, least) = pop_sorted p n m d in
          let counted : (length (passing p m) == 0) ≡ false =
            ground (arith, length-sorted p n m d) in
          (popped, rest, rw (numbers, some_left, runs, counted), least)
    ]
  where
    p : OutBoundReq → Bool
    p = for_chain chain_type

    m : SyncMap OutBoundReq
    m = jc.retry_outbound_req

-- Where the indices are numbers, `PopItem` of the inbound pool never panics: it takes the requests with the n least indices, in the
-- order of their indices, all if there are fewer, and nil if there is none; every other request
-- stays.
pub inbound_pop_item_least :
    (n : ℕ) (pi : PubChain)
    → Nodup (keys pi.retry_inbound_req)
    → comparable (keys pi.retry_inbound_req) ≡ true
    → (popped : SyncMap InBoundReq) × (rest : SyncMap InBoundReq) × (Inbound.pop_item n pi
        ≡ ok (
          answer (length pi.retry_inbound_req) (values popped),
          record pi { retry_inbound_req = rest },
        ))
      × PopsLeast (λ _. true) n pi.retry_inbound_req popped rest
unfolding Inbound.pop_item
inbound_pop_item_least n pi d numbers = elim (Bool-cases (length (sort parse_int (keys m)) == 0)) [
  | inl nothing ↦
      let zero_left : length m ≡ 0 = ground (arith, count) in
      ([], m, rw (numbers, nothing, zero_left), none_popped p n m d (rw (passing_all m) zero_left))
  | inr some_left ↦
      let (popped, rest, runs, least) = pop_sorted p n m d in
      let counted : (length m == 0) ≡ false = ground (arith, count) in
      let here = rw (passing_all m) at runs in
      (popped, rest, rw (numbers, some_left, here, counted), least)
]
  where
    p : InBoundReq → Bool
    p = λ _. true

    m : SyncMap InBoundReq
    m = pi.retry_inbound_req

    count : length (sort parse_int (keys m)) ≡ length m
    count = length-perm (sort-perm parse_int _) ∙ length-map m (λ e. e.0)
