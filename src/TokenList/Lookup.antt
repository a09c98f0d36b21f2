-- ===== src/TokenList/Lookup.antt =====
-- What the lookups of a token list answer.
use joltifychain_bridge.Base.{
  ◌%◌, ◌≡◌, refl, ap, ◌∙◌, Option, none, some, List, [], ◌∷◌, Text, text_eq, to_lower,
  to_lower-append, arith, if◌then◌else◌, ℤ,
}
use joltifychain_bridge.Base.SyncMap.{SyncMap, load, store}
use joltifychain_bridge.Base.SyncMap.Laws.{load-store}
use joltifychain_bridge.Base.Outcome.{ok}
use joltifychain_bridge.Common.Decimals.{abs}
use joltifychain_bridge.TokenList.{
  TokenItem, TokenList, parsed, token_key, addr_key, denom_key, load_token_list, update_token_list,
  get_token_info_by_denom, get_token_info_by_address,
}

-- The last item of a file whose key is the one that is asked for.
abbrev or_earlier : Option TokenItem → Option TokenItem → Option TokenItem
or_earlier none earlier = earlier
or_earlier (some later) earlier = some later

abbrev pub last_item : (TokenItem → Text) → Text → List TokenItem → Option TokenItem
last_item key k [] = none
last_item key k (item ∷ items) =
    or_earlier (last_item key k items) (if text_eq (key item) k then some item else none)

load-load_token_list :
    (key : TokenItem → Text) (k : Text) (items : List TokenItem) (m : SyncMap TokenItem)
    → load k (load_token_list key items m) ≡ or_earlier (last_item key k items) (load k m)
unfolding load_token_list
load-load_token_list key k [] m = refl
load-load_token_list key k (item ∷ items) m =
    load-load_token_list key k items (store (key item) item m)
    ∙ rw (load-store (key item) k item m) (ground arith)

load_fresh :
    (key : TokenItem → Text) (k : Text) (items : List TokenItem)
    → load k (load_token_list key items []) ≡ last_item key k items
load_fresh key k items = load-load_token_list key k items [] ∙ unfold load in ground arith

-- After an update that was due and took the file, both lookups answer with the last item of the
-- file under the name and the chain, upper and lower case alike, and with nothing else.
pub update_token_list-lookup :
    (items : List TokenItem) (height : ℤ) (tl tl' : TokenList) (name chain_type : Text)
    → abs height % tl.update_gap ≡ 0
    → update_token_list (parsed items) height tl ≡ ok tl'
    → (get_token_info_by_address name chain_type tl'
        ≡ last_item addr_key (token_key name chain_type) items)
      × (get_token_info_by_denom name chain_type tl'
          ≡ last_item denom_key (token_key name chain_type) items)
unfolding update_token_list get_token_info_by_address get_token_info_by_denom
update_token_list-lookup items height tl tl' name chain_type due done = ground (
  arith,
  load_fresh addr_key (token_key name chain_type) items,
  load_fresh denom_key (token_key name chain_type) items,
)

-- Names and chains that differ in case alone are one token.
pub get_token_info_case :
    (addr addr' chain_type chain_type' : Text) (tl : TokenList)
    → to_lower addr ≡ to_lower addr'
    → to_lower chain_type ≡ to_lower chain_type'
    → (get_token_info_by_address addr chain_type tl
        ≡ get_token_info_by_address addr' chain_type' tl)
      × (get_token_info_by_denom addr chain_type tl ≡ get_token_info_by_denom addr' chain_type' tl)
unfolding get_token_info_by_address get_token_info_by_denom
get_token_info_case addr addr' chain_type chain_type' tl names chains =
    (ap (λ k. load k tl.pub_token_list) same, ap (λ k. load k tl.oppy_token_list) same)
  where
    same : token_key addr chain_type ≡ token_key addr' chain_type'
    same = unfold token_key in simp to_lower-append (rw (names, chains))
