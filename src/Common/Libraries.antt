-- ===== src/Common/Libraries.antt =====
-- The third-party code that the bridge calls: the integers, decimals and addresses of cosmos-sdk
-- (v0.45) and the hashes and addresses of go-ethereum. Their operations are parameters, with the
-- documented behaviour that the proofs rely on as fields.
use joltifychain_bridge.Base.{
  ℕ, ◌-◌, ◌*◌, ◌/◌, ◌^◌, ◌≤◌, ◌<◌, ◌≡◌, ◌↔◌, Bool, true, false, Option, List, [], Text,
}
use joltifychain_bridge.Common.Types.{Coin}

-- sdk.Int and sdk.Dec. Amounts are never negative, so an sdk.Int is a natural number; a product
-- that does not fit into the 255 bits of an sdk.Int panics, and the law says nothing of it.
pub record Sdk : Type 1 where
  pub SdkDec : Type 0
  pub int_limit : ℕ
  pub int_mul : ℕ → ℕ → ℕ
  pub int_quo : ℕ → ℕ → ℕ
  pub int_sub : ℕ → ℕ → ℕ
  pub int_lt : ℕ → ℕ → Bool
  pub int_gt : ℕ → ℕ → Bool
  pub int_equal : ℕ → ℕ → Bool
  pub int_mul_lem : (a b : ℕ) → a * b < int_limit → int_mul a b ≡ a * b
  pub int_quo_lem : (a b : ℕ) → 0 < b → int_quo a b ≡ a / b
  pub int_sub_lem : (a b : ℕ) → b ≤ a → int_sub a b ≡ a - b
  pub int_lt_iff : (a b : ℕ) → (int_lt a b ≡ true) ↔ (a < b)
  pub int_gt_iff : (a b : ℕ) → (int_gt a b ≡ true) ↔ (b < a)
  pub int_equal_iff : (a b : ℕ) → (int_equal a b ≡ true) ↔ (a ≡ b)
  -- sdk.Coins: IsZero holds of the empty list
  pub coins_is_zero : List Coin → Bool
  pub coins_is_zero_nil : coins_is_zero [] ≡ true
  pub to_dec : ℕ → SdkDec
  pub dec_mul : SdkDec → SdkDec → SdkDec
  pub dec_quo : SdkDec → SdkDec → SdkDec
  pub mul_int : SdkDec → ℕ → SdkDec
  pub round_int : SdkDec → ℕ
  pub new_dec_with_prec : ℕ → ℕ → SdkDec
  -- the order of decimals, and that these operations follow it
  pub DecLe : SdkDec → SdkDec → Type 0
  pub mul_int_mono : (a b : SdkDec) (n : ℕ) → DecLe a b → DecLe (mul_int a n) (mul_int b n)
  -- an sdk.Dec is signed; its Quo panics for zero, and follows the order for a positive divisor
  pub dec_is_zero : SdkDec → Bool
  pub dec_is_positive : SdkDec → Bool
  pub dec_positive_lem : (p : SdkDec) → dec_is_positive p ≡ true → dec_is_zero p ≡ false
  pub dec_quo_mono :
      (a b p : SdkDec) → dec_is_positive p ≡ true → DecLe a b → DecLe (dec_quo a p) (dec_quo b p)
  pub round_int_mono : (a b : SdkDec) → DecLe a b → round_int a ≤ round_int b
  pub prec_mono :
      (a n b m : ℕ)
      → a * 10 ^ m ≤ b * 10 ^ n
      → DecLe (new_dec_with_prec a n) (new_dec_with_prec b m)

-- go-ethereum and the address functions of cosmos-sdk. An address is the list of its bytes.
pub record Chains : Type 0 where
  pub keccak256 : Text → ℕ
  pub hash_hex : ℕ → Text
  pub is_hex_address : Text → Bool
  pub hex_to_address : Text → Text
  pub address_hex : Text → Text
  pub acc_address_from_bech32 : Text → Option Text
  pub pool_pub_key_to_eth_address : Text → Option Text
  pub pool_pub_key_to_oppy_address : Text → Option Text
