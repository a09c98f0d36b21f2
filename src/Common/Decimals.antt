-- ===== src/Common/Decimals.antt =====
-- common/decimals.go, and the adjustments to and from the 18 decimals of the joltify chain
-- (pubchain/helper.go, cosbridge/helper.go).
use native.Mathlib.Nat.{
  one-le-pow, mul-div_cancel, div-mul-le_self, lt-div-mul-add, pow-le-pow_right, mul-le-mul_left,
}
use native.Mathlib.Nat.{lt_of_le_of_lt, le-mul_of_pos_right, sub-le}
use joltifychain_bridge.Base.{
  ℕ, zero, suc, ◌+◌, ◌-◌, ◌*◌, ◌/◌, ◌^◌, ◌≤◌, ◌<◌, ◌≡◌, ◌∙◌, ap, ℤ, pos, negsuc, sub_ℕ, ltb_ℤ, ◌==◌,
  if◌then◌else◌, arith,
}
use native.Mathlib.Decide.{dec_lt}
use joltifychain_bridge.Common.Libraries.{Sdk}

-- types.Precision
abbrev pub precision : ℕ
precision = 18

abbrev pub abs : ℤ → ℕ
abs (pos n) = n
abs (negsuc n) = suc n

sub_ℕ_nonneg : (a b : ℕ) → b ≤ a → sub_ℕ a b ≡ pos (a - b)
sub_ℕ_nonneg a b h = ground arith

sub_ℕ_neg : (a b : ℕ) → a < b → sub_ℕ a b ≡ negsuc (b - a - 1)
sub_ℕ_neg a b h = ground arith

scale_pos : (n : ℕ) → 0 < 10 ^ n
scale_pos n = one-le-pow n 10 (omega arith)

module _ (sdk : Sdk) where
  open sdk use {int_limit, int_mul, int_quo, int_mul_lem, int_quo_lem}

  -- AdjustInt
  unfoldable pub adjust_int : ℕ → ℤ → ℕ
  adjust_int input delta =
      let val = 10 ^ abs delta in
      if ltb_ℤ delta (pos 0) then int_quo input val else int_mul input val

  -- the body of `inboundAdjust` and `outboundAdjust`, over their `delta`
  unfoldable pub adjust : ℕ → ℤ → ℕ
  unfolding adjust_int
  adjust amount delta = if abs delta == 0 then amount else adjust_int amount delta

  unfoldable pub inbound_adjust : ℕ → ℕ → ℕ → ℕ
  inbound_adjust amount decimals prec = adjust amount (sub_ℕ prec decimals)

  unfoldable pub outbound_adjust : ℕ → ℕ → ℕ → ℕ
  outbound_adjust amount decimals prec = adjust amount (sub_ℕ decimals prec)

  adjust_pos :
      (amount n : ℕ) → amount * 10 ^ n < int_limit → adjust amount (pos n) ≡ amount * 10 ^ n
  unfolding adjust
  adjust_pos amount zero fits = omega arith
  adjust_pos amount (suc n) fits = ground (arith, int_mul_lem amount (10 ^ suc n) fits)

  adjust_neg : (amount n : ℕ) → adjust amount (negsuc n) ≡ amount / 10 ^ suc n
  unfolding adjust
  adjust_neg amount n = ground (arith, int_quo_lem amount (10 ^ suc n) (scale_pos (suc n)))

  -- Scaling up.
  pub adjust_up :
      (amount a b : ℕ)
      → b ≤ a
      → amount * 10 ^ (a - b) < int_limit
      → adjust amount (sub_ℕ a b) ≡ amount * 10 ^ (a - b)
  adjust_up amount a b h fits = rw (sub_ℕ_nonneg a b h) (adjust_pos amount (a - b) fits)

  -- Scaling down.
  pub adjust_down : (amount a b : ℕ) → a < b → adjust amount (sub_ℕ a b) ≡ amount / 10 ^ (b - a)
  adjust_down amount a b h =
      rw (sub_ℕ_neg a b h) (adjust_neg amount (b - a - 1) ∙ ap (λ k. amount / 10 ^ k) (omega arith))

  coarse_trip :
      (amount a b : ℕ)
      → b ≤ a
      → amount * 10 ^ (a - b) < int_limit
      → adjust (adjust amount (sub_ℕ a b)) (sub_ℕ b a) ≡ amount
  coarse_trip amount a b h fits = elim (dec_lt b a) [
    | yes lt ↦
        rw (adjust_up amount a b h fits)
          (adjust_down (amount * 10 ^ (a - b)) b a lt ∙ mul-div_cancel amount (scale_pos (a - b)))
    | no ge ↦ let same : b ≡ a = omega arith in rw same (self a)
  ]
    where
      self : (n : ℕ) → adjust (adjust amount (sub_ℕ n n)) (sub_ℕ n n) ≡ amount
      self n = unfold adjust in ground arith

  fine_trip :
      (amount a b : ℕ)
      → a < b
      → amount < int_limit
      → let back = adjust (adjust amount (sub_ℕ a b)) (sub_ℕ b a) in
        (back ≤ amount) × (amount < back + 10 ^ (b - a))
  fine_trip amount a b h fits =
      let part = amount / 10 ^ (b - a) in
      let whole : part * 10 ^ (b - a) ≤ amount = div-mul-le_self amount (10 ^ (b - a)) in
      rw (adjust_down amount a b h, adjust_up part b a (omega arith) (omega arith))
        (whole, lt-div-mul-add (scale_pos (b - a)))

  -- An amount that comes in and goes out again in the decimals of its token is what it was, less
  -- than one unit of the coarser scale missing: nothing at all if the token has 18 decimals or
  -- fewer, and never more than there was.
  pub adjust_round_trip :
      (amount decimals : ℕ)
      → amount * 10 ^ precision < int_limit
      → let back = outbound_adjust (inbound_adjust amount decimals precision) decimals precision in
        (back ≤ amount) × (amount < back + 10 ^ (decimals - precision))
  unfolding inbound_adjust outbound_adjust
  adjust_round_trip amount decimals fits = elim (dec_lt precision decimals) [
    | yes fine ↦
        fine_trip amount precision decimals fine
          (lt_of_le_of_lt (le-mul_of_pos_right amount (scale_pos precision)) fits)
    | no coarse ↦
        rw
          (coarse_trip amount precision decimals (omega arith) (
            lt_of_le_of_lt
              (mul-le-mul_left amount (pow-le-pow_right (omega arith) (sub-le precision decimals)))
              fits))
          (omega arith, omega (arith, scale_pos (decimals - precision)))
  ]
