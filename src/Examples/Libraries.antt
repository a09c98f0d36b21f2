-- ===== src/Examples/Libraries.antt =====
-- A concrete reading of the third-party libraries: integers without a limit that matters, decimals
-- with 18 places, and names that are their own addresses.
use native.Mathlib.Nat.{
  mul-le-mul_right, le_trans, le-div_iff_mul-le, div-zero, div-mul-le_self, one-le-pow,
  le_of_mul-le-mul_right, mul_right_comm,
}
use joltifychain_bridge.Base.{
  ℕ, zero, suc, ◌-◌, ◌*◌, ◌/◌, ◌^◌, ◌≤◌, ◌<◌, refl, Bool, false, ◌&&◌, some, List, [], ◌∷◌, ltb,
  ◌==◌, ==_iff, ◌↔◌, ◌<◌, ◌≡◌, true, length, arith,
}
use joltifychain_bridge.Common.Libraries.{Sdk, Chains}
use joltifychain_bridge.Common.Types.{Coin}
use joltifychain_bridge.Common.Decimal.{format_nat}

abbrev pub prec_of : ℕ → ℕ → ℕ
prec_of a n = a * 10 ^ 18 / 10 ^ n

pub div_mono : (a b d : ℕ) → a ≤ b → a / d ≤ b / d
div_mono a b zero le = rw (div-zero a, div-zero b) (omega arith)
div_mono a b (suc d) le =
    (le-div_iff_mul-le (omega arith)).1 (le_trans (div-mul-le_self a (suc d)) le)

scaled_le : (q x y a b s : ℕ) → 0 < y → q * y ≤ a * s → a * x ≤ b * y → q * x ≤ b * s
scaled_le q x y a b s pos_y h le =
    let wide : q * x * y ≤ b * s * y =
      rw (mul_right_comm q x y, mul_right_comm b s y)
        (le_trans (mul-le-mul_right x h) (rw (mul_right_comm a s x) (mul-le-mul_right s le))) in
    le_of_mul-le-mul_right wide pos_y

pub prec_of_mono : (a n b m : ℕ) → a * 10 ^ m ≤ b * 10 ^ n → prec_of a n ≤ prec_of b m
prec_of_mono a n b m le = (le-div_iff_mul-le (one-le-pow m 10 (omega arith))).1 (
    scaled_le (prec_of a n) (10 ^ m) (10 ^ n) a b (10 ^ 18) (one-le-pow n 10 (omega arith))
      (div-mul-le_self (a * 10 ^ 18) (10 ^ n)) le)

abbrev pub all_zero : List Coin → Bool
all_zero [] = true
all_zero (c ∷ cs) = (c.amount == 0) && all_zero cs

pub positive_lem : (p : ℕ) → ltb 0 p ≡ true → (p == 0) ≡ false
positive_lem p positive = ground arith

pub ltb_iff : (a b : ℕ) → (ltb a b ≡ true) ↔ (a < b)
ltb_iff a b = ground arith

abbrev pub sdk : Sdk
sdk = record {
  SdkDec = ℕ;
  int_limit = 2 ^ 255;
  int_mul = ◌*◌;
  int_quo = ◌/◌;
  int_sub = ◌-◌;
  int_lt = ltb;
  int_gt = λ a b. ltb b a;
  int_equal = ◌==◌;
  int_mul_lem = λ a b h. refl;
  int_quo_lem = λ a b h. refl;
  int_sub_lem = λ a b h. refl;
  int_lt_iff = ltb_iff;
  int_gt_iff = λ a b. ltb_iff b a;
  int_equal_iff = ==_iff;
  coins_is_zero = all_zero;
  coins_is_zero_nil = refl;
  to_dec = λ n. n * 10 ^ 18;
  dec_mul = λ a b. a * b / 10 ^ 18;
  dec_quo = λ a b. a * 10 ^ 18 / b;
  mul_int = λ a n. a * n;
  round_int = λ a. a / 10 ^ 18;
  new_dec_with_prec = prec_of;
  DecLe = λ a b. a ≤ b;
  mul_int_mono = λ a b n h. mul-le-mul_right n h;
  dec_is_zero = λ p. p == 0;
  dec_is_positive = λ p. ltb 0 p;
  dec_positive_lem = positive_lem;
  dec_quo_mono =
      λ a b p positive h. div_mono (a * 10 ^ 18) (b * 10 ^ 18) p (mul-le-mul_right (10 ^ 18) h);
  round_int_mono = λ a b h. div_mono a b (10 ^ 18) h;
  prec_mono = prec_of_mono;
}

abbrev pub chains : Chains
chains = record {
  keccak256 = length;
  hash_hex = format_nat;
  is_hex_address = λ t. length t == 42;
  hex_to_address = λ t. t;
  address_hex = λ t. t;
  acc_address_from_bech32 = some;
  pool_pub_key_to_eth_address = some;
  pool_pub_key_to_oppy_address = some;
}
