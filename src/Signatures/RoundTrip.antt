-- ===== src/Signatures/RoundTrip.antt =====
-- Decoding base64 gives back the bytes that were encoded.
use joltifychain_bridge.Base.{
  ℕ, ◌+◌, ◌*◌, ◌/◌, ◌%◌, ◌<◌, ◌≡◌, refl, ap, ◌∙◌, arith, false, some, [], ◌∷◌, Text, All, ◌||◌,
  ◌==◌,
}
use joltifychain_bridge.Signatures.Base64.{
  digit_of, value_of, encode, without_breaks, one_byte, two_bytes, three_bytes, padded_group,
  decode_groups, decode,
}

-- A number of six bits has a digit that stands for it, and that is no padding and no line break.
value_of-digit_of : (n : ℕ) → n < 64 → value_of (digit_of n) ≡ some n
unfolding value_of digit_of
value_of-digit_of n h = ground arith

digit_of-unpadded : (n : ℕ) → n < 64 → (digit_of n == b'=') ≡ false
unfolding digit_of
digit_of-unpadded n h = ground arith

digit_of-unbroken : (n : ℕ) → n < 64 → ((digit_of n == 10) || (digit_of n == 13)) ≡ false
unfolding digit_of
digit_of-unbroken n h = ground arith

without_breaks-encode : (s : Text) → All (λ b. b < 256) s → without_breaks (encode s) ≡ encode s
unfolding encode without_breaks
without_breaks-encode [] h = refl
without_breaks-encode (a ∷ []) h =
    rw
      (
        digit_of-unbroken (a / 4) (omega (arith, h.0)),
        digit_of-unbroken (a % 4 * 16) (omega (arith, h.0)),
      )
      refl
without_breaks-encode (a ∷ b ∷ []) h =
    rw
      (
        digit_of-unbroken (a / 4) (omega (arith, h.0)),
        digit_of-unbroken (a % 4 * 16 + b / 16) (omega (arith, h.0, h.1.0)),
        digit_of-unbroken (b % 16 * 4) (omega (arith, h.1.0)),
      )
      refl
without_breaks-encode (a ∷ b ∷ c ∷ s) h =
    rw
      (
        digit_of-unbroken (a / 4) (omega (arith, h.0)),
        digit_of-unbroken (a % 4 * 16 + b / 16) (omega (arith, h.0, h.1.0)),
        digit_of-unbroken (b % 16 * 4 + c / 64) (omega (arith, h.1.0, h.1.1.0)),
        digit_of-unbroken (c % 64) (omega (arith, h.1.1.0)),
        without_breaks-encode s h.1.1.1,
      )
      refl

-- a group without padding, whether or not it is the last one
decode_groups-full :
    (a b c d : ℕ) (s : Text)
    → (d == b'=') ≡ false
    → decode_groups (a ∷ b ∷ c ∷ d ∷ s)
      ≡ three_bytes (value_of a) (value_of b) (value_of c) (value_of d) (decode_groups s)
unfolding decode_groups
decode_groups-full a b c d [] h = rw h refl
decode_groups-full a b c d (e ∷ s) h = refl

decode_groups-encode : (s : Text) → All (λ b. b < 256) s → decode_groups (encode s) ≡ some s
unfolding encode decode_groups padded_group one_byte two_bytes three_bytes
decode_groups-encode [] h = refl
decode_groups-encode (a ∷ []) h =
    rw
      (
        value_of-digit_of (a / 4) (omega (arith, h.0)),
        value_of-digit_of (a % 4 * 16) (omega (arith, h.0)),
      )
      (ap (λ x. some (x ∷ [])) (omega (arith, h.0)))
decode_groups-encode (a ∷ b ∷ []) h =
    let first : a / 4 * 4 + (a % 4 * 16 + b / 16) / 16 ≡ a = omega (arith, h.0, h.1.0) in
    let second : (a % 4 * 16 + b / 16) % 16 * 16 + b % 16 * 4 / 4 ≡ b = omega (arith, h.0, h.1.0) in
    rw
      (
        digit_of-unpadded (b % 16 * 4) (omega (arith, h.1.0)),
        value_of-digit_of (a / 4) (omega (arith, h.0)),
        value_of-digit_of (a % 4 * 16 + b / 16) (omega (arith, h.0, h.1.0)),
        value_of-digit_of (b % 16 * 4) (omega (arith, h.1.0)),
      )
      (cc (first, second))
decode_groups-encode (a ∷ b ∷ c ∷ s) h =
    let first : a / 4 * 4 + (a % 4 * 16 + b / 16) / 16 ≡ a = omega (arith, h.0, h.1.0) in
    let second : (a % 4 * 16 + b / 16) % 16 * 16 + (b % 16 * 4 + c / 64) / 4 ≡ b =
      omega (arith, h.0, h.1.0, h.1.1.0) in
    let third : (b % 16 * 4 + c / 64) % 4 * 64 + c % 64 ≡ c = omega (arith, h.1.0, h.1.1.0) in
    decode_groups-full (digit_of (a / 4)) (digit_of (a % 4 * 16 + b / 16))
      (digit_of (b % 16 * 4 + c / 64)) (digit_of (c % 64)) (encode s)
      (digit_of-unpadded (c % 64) (omega (arith, h.1.1.0)))
    ∙ rw
        (
          value_of-digit_of (a / 4) (omega (arith, h.0)),
          value_of-digit_of (a % 4 * 16 + b / 16) (omega (arith, h.0, h.1.0)),
          value_of-digit_of (b % 16 * 4 + c / 64) (omega (arith, h.1.0, h.1.1.0)),
          value_of-digit_of (c % 64) (omega (arith, h.1.1.0)),
          decode_groups-encode s h.1.1.1,
        )
        (cc (first, second, third))

-- Bytes that are encoded and decoded come back.
pub decode-encode : (s : Text) → All (λ b. b < 256) s → decode (encode s) ≡ some s
unfolding decode
decode-encode s h = ap decode_groups (without_breaks-encode s h) ∙ decode_groups-encode s h
