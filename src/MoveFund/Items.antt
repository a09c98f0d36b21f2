-- ===== src/MoveFund/Items.antt =====
-- The pools that wait to be emptied, under their height and chain.
use joltifychain_bridge.Base.{
  ℕ, ◌-◌, ◌^◌, Option, none, some, List, [], ◌∷◌, ◌++◌, Text, codes, text_eq, ◌&&◌, ℤ, pos, ◌-ℤ◌,
  ltb_ℤ, if◌then◌else◌,
}
use joltifychain_bridge.Base.Int.{leb_ℤ}
use joltifychain_bridge.Base.SyncMap.{SyncMap, load, store, delete, values}
use joltifychain_bridge.Base.Outcome.{Outcome, ok, panic}
use joltifychain_bridge.Common.Types.{PoolInfo, MoveFundItem}
use joltifychain_bridge.Common.Decimal.{format_int}
use joltifychain_bridge.State.{PubChain}

-- config.MINCHECKBLOCKGAP
abbrev pub min_check_block_gap : ℕ
min_check_block_gap = 30

-- math.MaxInt64
abbrev pub max_int64 : ℤ
max_int64 = pos (2 ^ 63 - 1)

-- fmt.Sprintf("%v:%v", height, chainType)
unfoldable pub move_fund_index : ℤ → Text → Text
move_fund_index height chain_type = format_int height ++ (codes ":" ++ chain_type)

abbrev pub move_fund_item : PoolInfo → ℤ → Text → MoveFundItem
move_fund_item pool height chain_type = record {
  pool_info = pool;
  chain_type = chain_type;
  height = height;
}

-- AddMoveFundItem
unfoldable pub add_move_fund_item : PoolInfo → ℤ → Text → PubChain → PubChain
add_move_fund_item pool height chain_type pi = record pi {
  move_fund_req =
      store (move_fund_index height chain_type) (move_fund_item pool height chain_type)
        pi.move_fund_req;
}

-- ExportMoveFundItems
unfoldable pub export_move_fund_items : PubChain → List MoveFundItem
export_move_fund_items pi = values pi.move_fund_req

-- the Range of PopMoveFundItemAfterBlock
unfoldable pub least_height : Text → ℤ → SyncMap MoveFundItem → ℤ
least_height chain_type least [] = least
least_height chain_type least ((k, item) ∷ m) =
    least_height chain_type
      (if leb_ℤ item.height least && text_eq item.chain_type chain_type then item.height else least)
      m

-- the type assertion on a value that was not there panics
abbrev pub taken :
    Option MoveFundItem → ℤ → PubChain → Outcome (Option (MoveFundItem × ℤ) × PubChain)
taken none least pi = panic
taken (some item) least pi = ok (some (item, least), pi)

-- PopMoveFundItemAfterBlock
unfoldable pub pop_move_fund_item_after_block :
    ℤ → Text → PubChain → Outcome (Option (MoveFundItem × ℤ) × PubChain)
unfolding least_height
pop_move_fund_item_after_block current chain_type pi =
    let least = least_height chain_type max_int64 pi.move_fund_req in
    let index = move_fund_index least chain_type in
    if ltb_ℤ least max_int64 && ltb_ℤ (pos min_check_block_gap) (current -ℤ least)
    then taken (load index pi.move_fund_req) least
        (record pi { move_fund_req = delete index pi.move_fund_req })
    else ok (none, pi)
