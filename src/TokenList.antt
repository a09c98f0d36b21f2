-- ===== src/TokenList.antt =====
-- tokenlist/tokenlist.go: the tokens that the bridge moves, found by their address or by their
-- denomination on a chain. The file and its JSON are input.
pub mod Lookup
use joltifychain_bridge.Base.{
  ℕ, zero, suc, ◌%◌, ◌≡◌, refl, Bool, Option, none, some, List, [], ◌∷◌, ◌++◌, Text, codes, text_eq,
  to_lower, ℤ, pos, negsuc, ◌==◌, if◌then◌else◌,
}
use joltifychain_bridge.Base.SyncMap.{SyncMap, load, store, keys}
use joltifychain_bridge.Base.Outcome.{
  Outcome, ok, err, panic, ◌>>=◌, Fault, no_file, bad_json, empty_list,
}
use joltifychain_bridge.Common.Decimals.{abs}

pub record TokenItem : Type 0 where
  pub token_addr : Text
  pub denom : Text
  pub decimals : ℕ
  pub chain_type : Text

pub record TokenList : Type 0 where
  pub oppy_token_list : SyncMap TokenItem
  pub pub_token_list : SyncMap TokenItem
  pub update_gap : ℕ

-- What reading tokenlist.json gives.
pub data TokenFile : Type 0 where
  unreadable malformed : TokenFile
  parsed : List TokenItem → TokenFile

abbrev pub colon : Text
colon = codes ":"

-- strings.ToLower(name + ":" + chainType)
unfoldable pub token_key : Text → Text → Text
token_key name chain_type = to_lower (name ++ (colon ++ chain_type))

abbrev pub addr_key : TokenItem → Text
addr_key item = token_key item.token_addr item.chain_type

abbrev pub denom_key : TokenItem → Text
denom_key item = token_key item.denom item.chain_type

-- the loop that stores every item under a key
unfoldable pub load_token_list :
    (TokenItem → Text) → List TokenItem → SyncMap TokenItem → SyncMap TokenItem
load_token_list key [] m = m
load_token_list key (item ∷ items) m = load_token_list key items (store (key item) item m)

abbrev is_nil {ℓ} : {A : Type ℓ} → List A → Bool
is_nil [] = Bool.true
is_nil (x ∷ xs) = Bool.false

-- the items of a file, or the error that both NewTokenList and UpdateTokenList return
unfoldable pub read_token_items : TokenFile → Outcome (List TokenItem)
read_token_items unreadable = err no_file
read_token_items malformed = err bad_json
read_token_items (parsed items) = if is_nil items then err empty_list else ok items

-- NewTokenList
unfoldable pub new_token_list : TokenFile → ℕ → Outcome TokenList
unfolding read_token_items
new_token_list file update_gap = do
  items ← read_token_items file
  ok (record {
    oppy_token_list = load_token_list denom_key items [];
    pub_token_list = load_token_list addr_key items [];
    update_gap = update_gap;
  })

-- UpdateTokenList: the new list, or the error with the list as it was; a gap of zero divides by
-- zero and panics
unfoldable pub update_token_list : TokenFile → ℤ → TokenList → Outcome TokenList
unfolding read_token_items
update_token_list file height tl =
    if tl.update_gap == 0
    then panic
    else if abs height % tl.update_gap == 0
    then (do
      items ← read_token_items file
      ok (record tl {
        oppy_token_list = load_token_list denom_key items [];
        pub_token_list = load_token_list addr_key items [];
      }))
    else ok tl

-- GetTokenInfoByDenomAndChainType
unfoldable pub get_token_info_by_denom : Text → Text → TokenList → Option TokenItem
get_token_info_by_denom denom chain_type tl = load (token_key denom chain_type) tl.oppy_token_list

-- GetTokenInfoByAddressAndChainType
unfoldable pub get_token_info_by_address : Text → Text → TokenList → Option TokenItem
get_token_info_by_address addr chain_type tl = load (token_key addr chain_type) tl.pub_token_list

-- strings.Split(s, ":"), the first piece and the others
unfoldable pub split_colon : Text → Text × List Text
split_colon [] = ([], [])
split_colon (c ∷ s) =
    let (piece, pieces) = split_colon s in
    if c == b':' then ([], piece ∷ pieces) else (c ∷ piece, pieces)

-- one key of GetAllExistedTokenAddresses; a key with no colon would index out of range
unfoldable pub address_of_key : Text → Text → List Text → Outcome (List Text)
address_of_key chain_type first [] = panic
address_of_key chain_type first (second ∷ more) =
    ok (if text_eq second (to_lower chain_type) then to_lower first ∷ [] else [])

-- GetAllExistedTokenAddresses
unfoldable pub existed_addresses : Text → List Text → Outcome (List Text)
unfolding address_of_key split_colon
existed_addresses chain_type [] = ok []
existed_addresses chain_type (it ∷ its) = do
  here ← (let (first, more) = split_colon it in address_of_key chain_type first more)
  rest ← existed_addresses chain_type its
  ok (here ++ rest)

unfoldable pub get_all_existed_token_addresses : Text → TokenList → Outcome (List Text)
unfolding existed_addresses
get_all_existed_token_addresses chain_type tl =
    existed_addresses chain_type (keys tl.pub_token_list)
