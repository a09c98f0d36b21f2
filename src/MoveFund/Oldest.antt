-- ===== src/MoveFund/Oldest.antt =====
-- What `PopMoveFundItemAfterBlock` takes.
use joltifychain_bridge.Base.{
  ◌≡◌, ◌≢◌, refl, sym, Bool, false, true, false, Option, none, some, [], ◌∷◌, ◌⊎◌, inl, inr, Text,
  text_eq, text_eq_iff, subst, arith, ℤ, pos, ◌-ℤ◌, ◌≤ℤ◌, ltb_ℤ, All, ◌&&◌, Bool-cases,
  if◌then◌else◌,
}
use joltifychain_bridge.Base.Int.{leb_ℤ, -ℤ_parts}
use joltifychain_bridge.Base.SyncMap.{SyncMap, load, store, delete}
use joltifychain_bridge.Base.Outcome.{ok}
use joltifychain_bridge.Common.Types.{PoolInfo, MoveFundItem}
use joltifychain_bridge.MoveFund.Items.{
  move_fund_index, move_fund_item, add_move_fund_item, least_height, pop_move_fund_item_after_block,
  max_int64, taken, min_check_block_gap,
}
use joltifychain_bridge.State.{PubChain}

-- Every pool waits under its own height and chain, at a height that an int64 holds.
abbrev pub IsIndexed : SyncMap MoveFundItem → Type 0
IsIndexed m = All (λ e. (e.0 ≡ move_fund_index e.1.height e.1.chain_type)) m

-- Every pool of the chain waits from `least` on, or later.
abbrev pub AtLeast : Text → ℤ → SyncMap MoveFundItem → Type 0
AtLeast chain_type least m = All (λ e. e.1.chain_type ≡ chain_type → least ≤ℤ e.1.height) m

store-IsIndexed :
    (item : MoveFundItem) (m : SyncMap MoveFundItem)
    → IsIndexed m
    → IsIndexed (store (move_fund_index item.height item.chain_type) item m)
unfolding store
store-IsIndexed item [] h = (refl, tt)
store-IsIndexed item ((k, other) ∷ m) h =
    elim (Bool-cases (text_eq k (move_fund_index item.height item.chain_type))) [
      | inl e ↦ rw e ((text_eq_iff k _).0 e, h.1)
      | inr e ↦ rw e (h.0, store-IsIndexed item m h.1)
    ]

-- Adding a pool keeps the pools under their heights and chains.
add_move_fund_item-IsIndexed :
    (pool : PoolInfo) (height : ℤ) (chain_type : Text) (pi : PubChain)
    → IsIndexed pi.move_fund_req
    → IsIndexed (add_move_fund_item pool height chain_type pi).move_fund_req
unfolding add_move_fund_item
add_move_fund_item-IsIndexed pool height chain_type pi h =
    store-IsIndexed (move_fund_item pool height chain_type) pi.move_fund_req h

least_height-le :
    (chain_type : Text) (least : ℤ) (m : SyncMap MoveFundItem)
    → least_height chain_type least m ≤ℤ least
unfolding least_height
least_height-le chain_type least [] = omega arith
least_height-le chain_type least ((k, item) ∷ m) =
    ground (arith, least_height-le chain_type item.height m, least_height-le chain_type least m)

AtLeast-le :
    (chain_type : Text) (a b : ℤ) (m : SyncMap MoveFundItem)
    → a ≤ℤ b
    → AtLeast chain_type b m
    → AtLeast chain_type a m
AtLeast-le chain_type a b [] l h = tt
AtLeast-le chain_type a b (e ∷ m) l h =
    ((λ same. omega (arith, l, h.0 same)), AtLeast-le chain_type a b m l h.1)

-- The two cases of one pool of the `Range`.
least_height-lower :
    (chain_type : Text) (least : ℤ) (k : Text) (item : MoveFundItem) (m : SyncMap MoveFundItem)
    → (leb_ℤ item.height least && text_eq item.chain_type chain_type) ≡ true
    → least_height chain_type least ((k, item) ∷ m) ≡ least_height chain_type item.height m
unfolding least_height
least_height-lower chain_type least k item m e = rw e refl

least_height-same :
    (chain_type : Text) (least : ℤ) (k : Text) (item : MoveFundItem) (m : SyncMap MoveFundItem)
    → (leb_ℤ item.height least && text_eq item.chain_type chain_type) ≡ false
    → least_height chain_type least ((k, item) ∷ m) ≡ least_height chain_type least m
unfolding least_height
least_height-same chain_type least k item m e = rw e refl

least_height-skip :
    (chain_type : Text) (least : ℤ) (item : MoveFundItem) (m : SyncMap MoveFundItem)
    → (leb_ℤ item.height least && text_eq item.chain_type chain_type) ≡ false
    → item.chain_type ≡ chain_type
    → least_height chain_type least m ≤ℤ item.height
least_height-skip chain_type least item m e same =
    let le = least_height-le chain_type least m in
    let eq = (text_eq_iff item.chain_type chain_type).1 same in ground (arith, le, eq, e)

least_height-AtLeast :
    (chain_type : Text) (least : ℤ) (m : SyncMap MoveFundItem)
    → AtLeast chain_type (least_height chain_type least m) m
least_height-AtLeast chain_type least [] = tt
least_height-AtLeast chain_type least ((k, item) ∷ m) =
    elim (Bool-cases (leb_ℤ item.height least && text_eq item.chain_type chain_type)) [
      | inl e ↦
          subst (λ l. AtLeast chain_type l ((k, item) ∷ m))
            (sym (least_height-lower chain_type least k item m e))
            (
              (λ same. least_height-le chain_type item.height m),
              least_height-AtLeast chain_type item.height m,
            )
      | inr e ↦
          subst (λ l. AtLeast chain_type l ((k, item) ∷ m))
            (sym (least_height-same chain_type least k item m e))
            (least_height-skip chain_type least item m e, least_height-AtLeast chain_type least m)
    ]

absurd_eq : {A : Type 0} (k j : Text) → k ≡ j → text_eq k j ≡ false → A
absurd_eq k j same e = let eq = (text_eq_iff k j).1 same in cc

and_right : (a b : Bool) → (a && b) ≡ true → b ≡ true
and_right true b e = e
and_right false b e = cc

index_here :
    (chain_type : Text) (k : Text) (l : ℤ) (item : MoveFundItem)
    → k ≡ move_fund_index item.height item.chain_type
    → text_eq item.chain_type chain_type ≡ true
    → l ≡ item.height
    → k ≡ move_fund_index l chain_type
index_here chain_type k l item h e same =
    let chain = (text_eq_iff item.chain_type chain_type).0 e in rw (h, same, chain) refl

-- A pool under its own height and chain is found there, whatever stands before it.
load_here :
    (j k : Text) (item : MoveFundItem) (m : SyncMap MoveFundItem)
    → (k ≡ j) ⊎ (load j m ≢ none)
    → load j ((k, item) ∷ m) ≢ none
unfolding load
load_here j k item m h = elim (Bool-cases (text_eq k j)) [
  | inl e ↦ rw e (λ q. cc)
  | inr e ↦ rw e (elim h [ inl same ↦ absurd_eq k j same e | inr found ↦ found ])
]

-- The least height is the start, or that of a waiting pool of the chain.
least_height-found :
    (chain_type : Text) (least : ℤ) (m : SyncMap MoveFundItem)
    → IsIndexed m
    → (least_height chain_type least m ≡ least)
      ⊎ (load (move_fund_index (least_height chain_type least m) chain_type) m ≢ none)
unfolding least_height
least_height-found chain_type least [] h = inl refl
least_height-found chain_type least ((k, item) ∷ m) h =
    elim (Bool-cases (leb_ℤ item.height least && text_eq item.chain_type chain_type)) [
      | inl e ↦
          subst (λ l. (l ≡ least) ⊎ (load (move_fund_index l chain_type) ((k, item) ∷ m) ≢ none))
            (sym (least_height-lower chain_type least k item m e))
            (elim (least_height-found chain_type item.height m h.1) [
              | inl same ↦ inr (
                  load_here _ k item m
                    (inl (index_here chain_type k _ item h.0 (and_right _ _ e) same)))
              | inr found ↦ inr (load_here _ k item m (inr found))
            ])
      | inr e ↦
          subst (λ l. (l ≡ least) ⊎ (load (move_fund_index l chain_type) ((k, item) ∷ m) ≢ none))
            (sym (least_height-same chain_type least k item m e))
            (elim (least_height-found chain_type least m h.1) [
              | inl same ↦ inl same
              | inr found ↦ inr (load_here _ k item m (inr found))
            ])
    ]

-- What the call answers: nothing, while every pool of the chain is a height that an int64 cannot
-- hold, or at most 30 blocks old; or a pool at the least height of the chain.
abbrev pub TakesOldest : ℤ → Text → PubChain → Option (MoveFundItem × ℤ) → PubChain → Type 0
TakesOldest current chain_type pi none after =
    (after ≡ pi)
    × All
        (λ e.
          e.1.chain_type ≡ chain_type
          → (max_int64 ≤ℤ e.1.height) ⊎ ((current -ℤ e.1.height) ≤ℤ pos min_check_block_gap))
        pi.move_fund_req
TakesOldest current chain_type pi (some (item, height)) after =
    (load (move_fund_index height chain_type) pi.move_fund_req ≡ some item)
    × AtLeast chain_type height pi.move_fund_req
    × (ltb_ℤ (pos min_check_block_gap) (current -ℤ height) ≡ true)
    × (after.move_fund_req ≡ delete (move_fund_index height chain_type) pi.move_fund_req)

wait_left :
    (current least height : ℤ)
    → (ltb_ℤ least max_int64 && ltb_ℤ (pos min_check_block_gap) (current -ℤ least)) ≡ false
    → least ≤ℤ height
    → (max_int64 ≤ℤ height) ⊎ ((current -ℤ height) ≤ℤ pos min_check_block_gap)
wait_left current least height e h =
    let a = -ℤ_parts current least in let b = -ℤ_parts current height in ground (arith, a, b, e, h)

All-waiting :
    (current : ℤ) (chain_type : Text) (least : ℤ) (m : SyncMap MoveFundItem)
    → (ltb_ℤ least max_int64 && ltb_ℤ (pos min_check_block_gap) (current -ℤ least)) ≡ false
    → AtLeast chain_type least m
    → All
        (λ e.
          e.1.chain_type ≡ chain_type
          → (max_int64 ≤ℤ e.1.height) ⊎ ((current -ℤ e.1.height) ≤ℤ pos min_check_block_gap))
        m
All-waiting current chain_type least [] e h = tt
All-waiting current chain_type least (x ∷ m) e h = (
  (λ same. wait_left current least x.1.height e (h.0 same)),
  All-waiting current chain_type least m e h.1,
)

taken-TakesOldest :
    (current : ℤ) (chain_type : Text) (least : ℤ) (pi : PubChain) (o : Option MoveFundItem)
    → load (move_fund_index least chain_type) pi.move_fund_req ≡ o
    → o ≢ none
    → AtLeast chain_type least pi.move_fund_req
    → ltb_ℤ (pos min_check_block_gap) (current -ℤ least) ≡ true
    → (r : Option (MoveFundItem × ℤ)) × (after : PubChain) × (taken o least
          (record pi { move_fund_req = delete (move_fund_index least chain_type) pi.move_fund_req })
        ≡ ok (r, after))
      × TakesOldest current chain_type pi r after
taken-TakesOldest current chain_type least pi none found some_item low old = absurd (some_item refl)
taken-TakesOldest current chain_type least pi (some item) found some_item low old =
    (some (item, least), _, refl, (found, low, old, refl))

not_below : (b : Bool) (least : ℤ) → (ltb_ℤ least max_int64 && b) ≡ true → least ≢ max_int64
not_below b least e top = ground (arith, e, top)

pop_cases :
    (current : ℤ) (chain_type : Text) (least : ℤ) (pi : PubChain) (b : Bool)
    → (ltb_ℤ least max_int64 && ltb_ℤ (pos min_check_block_gap) (current -ℤ least)) ≡ b
    → AtLeast chain_type least pi.move_fund_req
    → (least ≡ max_int64) ⊎ (load (move_fund_index least chain_type) pi.move_fund_req ≢ none)
    → (o : Option (MoveFundItem × ℤ)) × (after : PubChain) × ((if b
          then taken (load (move_fund_index least chain_type) pi.move_fund_req) least (record pi {
            move_fund_req = delete (move_fund_index least chain_type) pi.move_fund_req;
          })
          else ok (none, pi))
        ≡ ok (o, after))
      × TakesOldest current chain_type pi o after
pop_cases current chain_type least pi false e low found =
    (none, pi, refl, (refl, All-waiting current chain_type least pi.move_fund_req e low))
pop_cases current chain_type least pi true e low (inl top) = absurd (not_below _ least e top)
pop_cases current chain_type least pi true e low (inr found) =
    taken-TakesOldest current chain_type least pi _ refl found low (and_right _ _ e)

-- With every pool under its own height and chain, `PopMoveFundItemAfterBlock` never panics, and it
-- answers the oldest pool of the chain when one is more than 30 blocks old, taken off the map.
pub pop_move_fund_item_after_block-oldest :
    (current : ℤ) (chain_type : Text) (pi : PubChain)
    → IsIndexed pi.move_fund_req
    → (o : Option (MoveFundItem × ℤ)) × (after : PubChain) × (pop_move_fund_item_after_block current
          chain_type pi
        ≡ ok (o, after))
      × TakesOldest current chain_type pi o after
unfolding pop_move_fund_item_after_block
pop_move_fund_item_after_block-oldest current chain_type pi h =
    let least = least_height chain_type max_int64 pi.move_fund_req in
    pop_cases current chain_type least pi _ refl
      (least_height-AtLeast chain_type max_int64 pi.move_fund_req)
      (least_height-found chain_type max_int64 pi.move_fund_req h)
