-- ===== src/Common/Fee.antt =====
-- common/fee.go: the fee of a transfer, a share of the amount between a floor and a ceiling in
-- dollars.
use joltifychain_bridge.Base.{
  ℕ, ◌^◌, ◌≤◌, ◌≡◌, refl, true, [], ◌∷◌, arith, Text, codes, text_eq, if◌then◌else◌,
}
use joltifychain_bridge.Base.SyncMap.{SyncMap}
use joltifychain_bridge.Base.Outcome.{Outcome, ok, panic}
use joltifychain_bridge.Common.Libraries.{Sdk}
use joltifychain_bridge.Common.Types.{Coin}

abbrev pub ujolt : Text
ujolt = codes "ujolt"

module _ (sdk : Sdk) where
  open sdk use {
    SdkDec, int_lt, int_gt, int_lt_iff, int_gt_iff, to_dec, dec_mul, dec_quo, mul_int, round_int,
    new_dec_with_prec, DecLe, mul_int_mono, dec_is_zero, dec_is_positive, dec_positive_lem,
    dec_quo_mono, round_int_mono, prec_mono,
  }

  pub record FeeModule : Type 0 where
    pub chain_type : Text
    pub fee_ratio : SdkDec
    pub ceil : SdkDec
    pub floor : SdkDec

  -- a bound in dollars, in units of a token at its price
  unfoldable pub bound_amount : SdkDec → SdkDec → ℕ → ℕ
  bound_amount bound price decimal = round_int (dec_quo (mul_int bound (10 ^ decimal)) price)

  -- doGetFee
  unfoldable pub do_get_fee : SdkDec → SdkDec → SdkDec → SdkDec → ℕ → ℕ → ℕ
  unfolding bound_amount
  do_get_fee price ceil floor fee_ratio transfer_amount decimal =
      let fee_amount = round_int (dec_mul (to_dec transfer_amount) fee_ratio) in
      let ceil_amount = bound_amount ceil price decimal in
      let floor_amount = bound_amount floor price decimal in
      if int_lt fee_amount floor_amount
      then floor_amount
      else if int_gt fee_amount ceil_amount
      then ceil_amount
      else fee_amount

  abbrev pub fee_decimal : Text → ℕ
  fee_decimal denom = if text_eq denom ujolt then 6 else 18

  -- CalculateFee; it returns no error, and Quo panics for a price of zero. A negative price would give
  -- a negative bound, which the amounts of this model do not have.
  unfoldable pub calculate_fee : FeeModule → SdkDec → Coin → Outcome Coin
  unfolding do_get_fee
  calculate_fee m price token =
      if dec_is_zero price
      then panic
      else ok (record {
        denom = token.denom;
        amount = do_get_fee price m.ceil m.floor m.fee_ratio token.amount (fee_decimal token.denom);
      })

  abbrev eth_fee_module : FeeModule
  eth_fee_module = record {
    chain_type = codes "ETH";
    fee_ratio = new_dec_with_prec 1 4;
    ceil = new_dec_with_prec 1000 0;
    floor = new_dec_with_prec 25 1;
  }

  abbrev bsc_fee_module : FeeModule
  bsc_fee_module = record {
    chain_type = codes "BSC";
    fee_ratio = new_dec_with_prec 1 4;
    ceil = new_dec_with_prec 1000 0;
    floor = new_dec_with_prec 10 2;
  }

  -- InitFeeModule
  unfoldable pub init_fee_module : SyncMap FeeModule
  init_fee_module = (codes "ETH", eth_fee_module) ∷ (codes "BSC", bsc_fee_module) ∷ []

  bound_amount_mono :
      (floor ceil price : SdkDec) (decimal : ℕ)
      → dec_is_positive price ≡ true
      → DecLe floor ceil
      → bound_amount floor price decimal ≤ bound_amount ceil price decimal
  unfolding bound_amount
  bound_amount_mono floor ceil price decimal positive h =
      round_int_mono _ _
        (dec_quo_mono _ _ price positive (mul_int_mono floor ceil (10 ^ decimal) h))

  clamp_bounds :
      (fee floor ceil : ℕ)
      → floor ≤ ceil
      → let r = if int_lt fee floor then floor else if int_gt fee ceil then ceil else fee in
        (floor ≤ r) × (r ≤ ceil)
  clamp_bounds fee floor ceil h = ground (arith, int_lt_iff fee floor, int_gt_iff fee ceil)

  -- At a positive price, the fee of a module whose floor is not above its ceiling lies between the
  -- two.
  pub calculate_fee_bounds :
      (m : FeeModule) (price : SdkDec) (token : Coin)
      → dec_is_positive price ≡ true
      → DecLe m.floor m.ceil
      → (fee : Coin) × (calculate_fee m price token ≡ ok fee)
        × (bound_amount m.floor price (fee_decimal token.denom) ≤ fee.amount)
        × (fee.amount ≤ bound_amount m.ceil price (fee_decimal token.denom))
  unfolding calculate_fee
  calculate_fee_bounds m price token positive h =
      let bounds =
        clamp_bounds (round_int (dec_mul (to_dec token.amount) m.fee_ratio)) _ _
          (bound_amount_mono m.floor m.ceil price (fee_decimal token.denom) positive h) in
      (
        record {
          denom = token.denom;
          amount =
              do_get_fee price m.ceil m.floor m.fee_ratio token.amount (fee_decimal token.denom);
        },
        rw (dec_positive_lem price positive) refl,
        bounds.0,
        bounds.1,
      )
