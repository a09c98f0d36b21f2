-- ===== src/Common/Requests.antt =====
-- common/requests_queue.go: hashes and queue indices of the requests, and their setters.
pub mod Order
use joltifychain_bridge.Base.{
  ℕ, ℤ, ◌++◌, [], ◌∷◌, List, Bool, Option, none, some, Text, codes, replicate, if◌then◌else◌, pos,
}
use joltifychain_bridge.Base.Outcome.{Outcome, ok, panic, ◌>>=◌}
use joltifychain_bridge.Common.Libraries.{Chains}
use joltifychain_bridge.Common.Types.{OutBoundReq, InBoundReq, Coin}
use joltifychain_bridge.Common.Hex.{decode_string}
use joltifychain_bridge.Common.Decimal.{format_int, format_nat}

-- common.Hash{}.Hex(): 0x and 64 zeros
abbrev pub empty_hash : Text
empty_hash = b'0' ∷ b'x' ∷ replicate 64 b'0'

-- an undecodable transaction id panics
unfoldable pub or_panic {ℓ} : {A : Type ℓ} → Option A → Outcome A
or_panic none = panic
or_panic (some a) = ok a

unfoldable pub need_mint_str : Bool → Text
need_mint_str need_mint = if need_mint then codes "true" else codes "false"

-- the text of an index: the height and the hash in decimal, side by side
unfoldable pub index_str : ℤ → ℕ → Text
index_str height hash = format_int height ++ format_nat hash

module _ (chains : Chains) where
  open chains use {keccak256}

  -- (o *OutBoundReq) Hash
  unfoldable pub out_hash : OutBoundReq → Outcome ℕ
  unfolding or_panic need_mint_str
  out_hash o = do
    decoded ← or_panic (decode_string o.tx_id)
    ok (
        keccak256
          (o.out_receiver_address ++ (o.chain_type ++ (need_mint_str o.need_mint ++ decoded))))

  -- (o *OutBoundReq) Index
  unfoldable pub out_index : OutBoundReq → Outcome Text
  unfolding or_panic
  out_index o = do
    decoded ← or_panic (decode_string o.tx_id)
    ok (index_str o.block_height (keccak256 (o.out_receiver_address ++ decoded)))

  -- (i *InBoundReq) Hash
  unfoldable pub in_hash : InBoundReq → ℕ
  in_hash i = keccak256 (i.user_receiver_address ++ i.tx_id)

  -- (i *InBoundReq) Index
  unfoldable pub in_index : InBoundReq → Text
  in_index i = index_str i.block_height (keccak256 (i.user_receiver_address ++ i.tx_id))

-- NewOutboundReq
unfoldable pub new_outbound_req :
    Text → Text → Text → Coin → Text → ℤ → List Coin → Text → Bool → OutBoundReq
new_outbound_req tx_id address from_pool_addr coin coin_addr height fee chain_type need_mint =
    record {
      tx_id = tx_id;
      out_receiver_address = address;
      from_pool_addr = from_pool_addr;
      coin = coin;
      token_addr = coin_addr;
      block_height = height;
      nonce = 0;
      submitted_tx_hash = empty_hash;
      fee_to_validator = fee;
      chain_type = chain_type;
      need_mint = need_mint;
    }

-- NewAccountInboundReq
unfoldable pub new_account_inbound_req : Text → Text → Coin → Text → ℤ → InBoundReq
new_account_inbound_req address to_pool_addr coin tx_id height = record {
  user_receiver_address = address;
  tx_id = tx_id;
  to_pool_addr = to_pool_addr;
  coin = coin;
  block_height = height;
  acc_num = 0;
  acc_seq = 0;
  pool_cos_address = [];
  pool_pk = [];
}

-- SetItemNonce
unfoldable pub set_item_nonce : Text → ℕ → OutBoundReq → OutBoundReq
set_item_nonce from_pool_addr nonce o = record o { from_pool_addr = from_pool_addr; nonce = nonce }

-- SetAccountInfo
unfoldable pub set_account_info : ℕ → ℕ → Text → Text → InBoundReq → InBoundReq
set_account_info number seq address pk i = record i {
  acc_num = number;
  acc_seq = seq;
  pool_cos_address = address;
  pool_pk = pk;
}
