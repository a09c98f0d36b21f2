-- ===== src/Common/Requests/Order.antt =====
-- How the queue indices order the requests.
use native.Mathlib.Nat.{mul-le-mul_right, pow-suc}
use joltifychain_bridge.Base.{ℕ, suc, ◌+◌, ◌*◌, ◌^◌, ◌≤◌, ◌<◌, ◌≡◌, ℤ, pos, pos_part, arith, length}
use joltifychain_bridge.Common.Decimal.{
  format_nat, format_int, parse_int, parse_int-append, format_nat_bound,
}
use joltifychain_bridge.Common.Requests.{index_str}

-- The number by which the retry pools order the index of a request.
abbrev pub index_value : ℕ → ℕ → ℤ
index_value height hash = parse_int (index_str (pos height) hash)

abbrev width : ℕ → ℕ
width hash = 10 ^ length (format_nat hash)

index_value_lem : (height hash : ℕ) → index_value height hash ≡ pos (height * width hash + hash)
unfolding index_str format_int
index_value_lem height hash = parse_int-append height hash

before : (h h' w t t' : ℕ) → h < h' → t < w → h * w + t < h' * w + t'
before h h' w t t' lt fits =
    let rows : suc h * w ≤ h' * w = mul-le-mul_right w lt in omega (arith, rows)

inverted : (h h' w t t' : ℕ) → h' < 10 * h → t' < w → h' * w + t' < h * (w * 10) + t
inverted h h' w t t' lt fits =
    let rows : suc h' * w ≤ 10 * h * w = mul-le-mul_right w lt in omega (arith, rows)

module _ (height height' hash hash' : ℕ) where
  -- Of two requests whose hashes have equally many decimal digits, the one from the earlier block
  -- has the smaller index.
  pub index_follows_height :
      length (format_nat hash) ≡ length (format_nat hash')
      → height < height'
      → pos_part (index_value height hash) < pos_part (index_value height' hash')
  index_follows_height same earlier =
      rw (index_value_lem height hash, index_value_lem height' hash', same)
        (before height height' (width hash') hash hash' earlier
          (rw same at (format_nat_bound hash)))

  -- Where the hash of the later request has one digit less, the later request comes first.
  pub index_inverts_height :
      length (format_nat hash) ≡ suc (length (format_nat hash'))
      → height' < 10 * height
      → pos_part (index_value height' hash') < pos_part (index_value height hash)
  index_inverts_height longer later =
      rw
        (
          index_value_lem height hash,
          index_value_lem height' hash',
          longer,
          pow-suc 10 (length (format_nat hash')),
        )
        (inverted height height' (width hash') hash hash' later (format_nat_bound hash'))
