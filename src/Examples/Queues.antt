-- ===== src/Examples/Queues.antt =====
-- The queues, the codings and the token list, at concrete inputs.
use joltifychain_bridge.Base.{
  ◌+◌, ◌-◌, ◌^◌, ◌≤◌, ◌<◌, ◌≡◌, refl, true, some, [], ◌∷◌, text_eq, codes, length, pos, negsuc,
  pos_part, arith, to_lower,
}
use mathlib.Core.List.{Nodup, Nodup-nil}
use joltifychain_bridge.Base.SyncMap.{SyncMap, keys, values, store}
use joltifychain_bridge.Base.SyncMap.Laws.{store-Nodup}
use joltifychain_bridge.Base.Outcome.{ok}
use joltifychain_bridge.Common.Types.{OutBoundReq, InBoundReq}
use joltifychain_bridge.Common.Decimal.{format_int, format_nat, parse_int, parse-format_int}
use joltifychain_bridge.Common.Hex.{encode_to_string, decode_string, decode-encode}
use joltifychain_bridge.Common.Requests.Order.{
  index_value, index_follows_height, index_inverts_height,
}
use joltifychain_bridge.Common.Decimals.{
  inbound_adjust, outbound_adjust, precision, adjust_round_trip,
}
use joltifychain_bridge.Common.Fee.{FeeModule}
use joltifychain_bridge.TokenList.{
  load_token_list, addr_key, denom_key, token_key, update_token_list, get_token_info_by_address,
  get_token_info_by_denom,
}
use joltifychain_bridge.TokenList.Lookup.{last_item, update_token_list-lookup}
use joltifychain_bridge.Queue.Outbound
use joltifychain_bridge.Queue.Inbound
use joltifychain_bridge.Queue.Outbound.{for_chain}
use joltifychain_bridge.Queue.PopLoop.{passing}
use joltifychain_bridge.Common.Requests.{new_outbound_req}
use joltifychain_bridge.Queue.PopLoop.{comparable}
use joltifychain_bridge.Queue.Pops.{
  PopsLeast, answer, outbound_pop_item_least, inbound_pop_item_least,
}
use joltifychain_bridge.Examples.Libraries.{sdk}
use joltifychain_bridge.Examples.Instances.{out_req, in_req, jolt_chain, pub_chain, token, tokens}

out_keys-Nodup : Nodup (keys jolt_chain.retry_outbound_req)
unfolding store text_eq
out_keys-Nodup =
    store-Nodup (codes "11") (out_req 1) ((codes "21", out_req 2) ∷ [])
      (store-Nodup (codes "21") (out_req 2) [] Nodup-nil)

in_keys-Nodup : Nodup (keys pub_chain.retry_inbound_req)
unfolding store text_eq
in_keys-Nodup =
    store-Nodup (codes "11") (in_req 1) ((codes "21", in_req 2) ∷ [])
      (store-Nodup (codes "21") (in_req 2) [] Nodup-nil)

outbound_pop_item_least_example :
    (popped : SyncMap OutBoundReq) × (rest : SyncMap OutBoundReq) × (Outbound.pop_item 1
        (codes "BSC")
        jolt_chain
      ≡ ok (
        answer
            (length (passing (for_chain (codes "BSC")) jolt_chain.retry_outbound_req))
            (values popped),
        record jolt_chain { retry_outbound_req = rest },
      ))
    × PopsLeast (for_chain (codes "BSC")) 1 jolt_chain.retry_outbound_req popped rest
unfolding comparable text_eq new_outbound_req
outbound_pop_item_least_example =
    outbound_pop_item_least 1 (codes "BSC") jolt_chain out_keys-Nodup refl

index_follows_height_example : pos_part (index_value 8 41) < pos_part (index_value 9 17)
index_follows_height_example =
    index_follows_height 8 9 41 17 (unfold format_nat in refl) (omega arith)

index_inverts_height_example : pos_part (index_value 12 7) < pos_part (index_value 8 41)
index_inverts_height_example =
    index_inverts_height 8 12 41 7 (unfold format_nat in refl) (omega arith)

adjust_round_trip_example :
    let back = outbound_adjust sdk (inbound_adjust sdk 1234567 6 precision) 6 precision in
    (back ≤ 1234567) × (1234567 < back + 10 ^ (6 - precision))
adjust_round_trip_example = adjust_round_trip sdk 1234567 6 (omega arith)

parse-format_int_example : parse_int (format_int (negsuc 41)) ≡ negsuc 41
parse-format_int_example = parse-format_int (negsuc 41)

decode-encode_example : decode_string (encode_to_string (7 ∷ 255 ∷ [])) ≡ some (7 ∷ 255 ∷ [])
decode-encode_example = decode-encode (7 ∷ 255 ∷ []) (omega arith, (omega arith, tt))

abbrev bsc_module : FeeModule sdk
bsc_module = record {
  chain_type = codes "BSC";
  fee_ratio = 100000000000000;
  ceil = 1000000000000000000000;
  floor = 100000000000000000;
}

update_token_list-lookup_example :
    (get_token_info_by_address (codes "0xa") (codes "BSC") tokens
      ≡ last_item addr_key (token_key (codes "0xa") (codes "BSC")) (token ∷ []))
    × (get_token_info_by_denom (codes "0xa") (codes "BSC") tokens
        ≡ last_item denom_key (token_key (codes "0xa") (codes "BSC")) (token ∷ []))
unfolding update_token_list load_token_list store token_key to_lower
update_token_list-lookup_example =
    update_token_list-lookup (token ∷ []) (pos 4) tokens tokens (codes "0xa") (codes "BSC") refl
      refl

inbound_pop_item_least_example :
    (popped : SyncMap InBoundReq) × (rest : SyncMap InBoundReq) × (Inbound.pop_item 1 pub_chain
      ≡ ok (
        answer (length pub_chain.retry_inbound_req) (values popped),
        record pub_chain { retry_inbound_req = rest },
      ))
    × PopsLeast (λ _. true) 1 pub_chain.retry_inbound_req popped rest
unfolding comparable
inbound_pop_item_least_example = inbound_pop_item_least 1 pub_chain in_keys-Nodup refl
