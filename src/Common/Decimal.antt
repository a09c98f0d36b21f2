-- ===== src/Common/Decimal.antt =====
-- strconv.FormatInt and big.Int's String and SetString, base 10: the digits of the queue indices.
use native.Mathlib.Nat.{pow-suc, mul-le-mul_right, le_trans}
use joltifychain_bridge.Base.{
  ℕ, zero, suc, ◌+◌, ◌-◌, ◌*◌, ◌/◌, ◌%◌, ◌^◌, ◌≤◌, ◌<◌, ◌≡◌, refl, ℤ, pos, negsuc, [], ◌∷◌, ◌++◌,
  arith, ap, ◌∙◌, inl, inr, Text, All, All-append, Bool-cases, length, ltb, ◌==◌, if◌then◌else◌,
}

-- The digits of n in front of `acc`, on fuel; n rounds are more than enough.
unfoldable pub digits_loop : ℕ → ℕ → Text → Text
digits_loop zero n acc = acc
digits_loop (suc f) n acc =
    let rest = digits_loop f (n / 10) ((n % 10 + b'0') ∷ acc) in
    if ltb n 10 then (n + b'0') ∷ acc else rest

unfoldable pub format_nat : ℕ → Text
unfolding digits_loop
format_nat n = digits_loop (suc n) n []

-- strconv.FormatInt(n, 10)
unfoldable pub format_int : ℤ → Text
unfolding format_nat
format_int (pos n) = format_nat n
format_int (negsuc n) = b'-' ∷ format_nat (suc n)

unfoldable pub digits_value : ℕ → Text → ℕ
digits_value acc [] = acc
digits_value acc (c ∷ s) = digits_value (acc * 10 + (c - b'0')) s

-- big.Int.SetString(s, 10) of a text of digits, with an optional sign
unfoldable pub parse_int : Text → ℤ
unfolding digits_value
parse_int [] = pos 0
parse_int (c ∷ s) =
    if c == b'-'
    then (let n = digits_value 0 s in if n == 0 then pos 0 else negsuc (n - 1))
    else pos (digits_value 0 (c ∷ s))

zero_plus : (d : ℕ) → d ≡ 0 + d
zero_plus d = omega arith

shift_step : (acc d w v : ℕ) → (acc * 10 + d) * w + v ≡ acc * (w * 10) + (d * w + v)
shift_step acc d w v = omega arith

-- A prefix of digits counts ten to the length of what follows.
pub digits_value_shift :
    (acc : ℕ) (s : Text) → digits_value acc s ≡ acc * 10 ^ length s + digits_value 0 s
unfolding digits_value
digits_value_shift acc [] = omega arith
digits_value_shift acc (c ∷ s) =
    rw
      (
        digits_value_shift (acc * 10 + (c - b'0')) s,
        digits_value_shift (0 + (c - b'0')) s,
        pow-suc 10 (length s),
      )
      (shift_step acc (c - b'0') (10 ^ length s) (digits_value 0 s)
        ∙ ap (λ (d : ℕ). acc * (10 ^ length s * 10) + (d * 10 ^ length s + digits_value 0 s))
            (zero_plus (c - b'0')))

pub digits_value-append :
    (acc : ℕ) (s t : Text) → digits_value acc (s ++ t) ≡ digits_value (digits_value acc s) t
unfolding digits_value
digits_value-append acc [] t = refl
digits_value-append acc (c ∷ s) t = digits_value-append (acc * 10 + (c - b'0')) s t

digits_loop_value :
    (f n : ℕ) (acc : Text) → n < f → digits_value 0 (digits_loop f n acc) ≡ digits_value n acc
unfolding digits_loop digits_value
digits_loop_value zero n acc h = elim h [ ]
digits_loop_value (suc f) n acc h =
    ground (arith, digits_loop_value f (n / 10) ((n % 10 + b'0') ∷ acc))

-- The digits of a number stand for it.
pub value-format_nat : (n : ℕ) → digits_value 0 (format_nat n) ≡ n
unfolding format_nat digits_value
value-format_nat n = digits_loop_value (suc n) n [] (omega arith)

bound_step : (n w : ℕ) → n < 10 → (n + 1) * w ≤ w * 10
bound_step n w h = grind arith

bound_carry : (n w x : ℕ) → (n / 10 + 1) * (w * 10) ≤ x → (n + 1) * w ≤ x
bound_carry n w x h =
    let fits : n + 1 ≤ (n / 10 + 1) * 10 = omega arith in
    le_trans (mul-le-mul_right w fits) (omega arith)

digits_loop_bound :
    (f n : ℕ) (acc : Text) → n < f → (n + 1) * 10 ^ length acc ≤ 10 ^ length (digits_loop f n acc)
unfolding digits_loop
digits_loop_bound zero n acc h = elim h [ ]
digits_loop_bound (suc f) n acc h = elim (Bool-cases (ltb n 10)) [
  | inl e ↦ rw (e, pow-suc 10 (length acc)) (bound_step n (10 ^ length acc) (ground arith))
  | inr e ↦ rw e (
      bound_carry n (10 ^ length acc) _ (
        rw (pow-suc 10 (length acc)) at
          (digits_loop_bound f (n / 10) ((n % 10 + b'0') ∷ acc) (ground arith))))
]

-- A number is below ten to the number of its digits.
pub format_nat_bound : (n : ℕ) → n < 10 ^ length (format_nat n)
unfolding format_nat
format_nat_bound n = omega (arith, digits_loop_bound (suc n) n [] (omega arith))

abbrev IsDigit : ℕ → Type 0
IsDigit c = b'0' ≤ c

digits_loop-IsDigit : (f n : ℕ) (acc : Text) → All IsDigit acc → All IsDigit (digits_loop f n acc)
unfolding digits_loop
digits_loop-IsDigit zero n acc h = h
digits_loop-IsDigit (suc f) n acc h = elim (Bool-cases (ltb n 10)) [
  | inl e ↦ rw e (omega arith, h)
  | inr e ↦ rw e (digits_loop-IsDigit f (n / 10) ((n % 10 + b'0') ∷ acc) (omega arith, h))
]

pub format_nat-IsDigit : (n : ℕ) → All IsDigit (format_nat n)
unfolding format_nat
format_nat-IsDigit n = digits_loop-IsDigit (suc n) n [] tt

parse_int-digits : (s : Text) → All IsDigit s → parse_int s ≡ pos (digits_value 0 s)
unfolding parse_int digits_value
parse_int-digits [] h = refl
parse_int-digits (c ∷ s) h = ground arith

-- Two printed numbers side by side stand for the first, shifted by the digits of the second, and
-- the second.
pub parse_int-append :
    (h t : ℕ) → parse_int (format_nat h ++ format_nat t) ≡ pos (h * 10 ^ length (format_nat t) + t)
parse_int-append h t =
    parse_int-digits _ (All-append IsDigit _ _ (format_nat-IsDigit h) (format_nat-IsDigit t))
    ∙ ap pos (
        digits_value-append 0 (format_nat h) (format_nat t)
        ∙ digits_value_shift (digits_value 0 (format_nat h)) (format_nat t)
        ∙ rw (value-format_nat h, value-format_nat t))

-- Printing and reading back.
pub parse-format_int : (n : ℤ) → parse_int (format_int n) ≡ n
unfolding format_int
parse-format_int (pos n) = parse_int-digits _ (format_nat-IsDigit n) ∙ ap pos (value-format_nat n)
parse-format_int (negsuc n) = unfold parse_int in rw (value-format_nat (suc n)) (ground arith)
