-- ===== src/Common/Hex.antt =====
-- encoding/hex, as `NewOutboundReq`'s callers write transaction ids and `Hash` and `Index` read
-- them back.
use joltifychain_bridge.Base.{
  ℕ, ◌+◌, ◌-◌, ◌*◌, ◌/◌, ◌%◌, ◌<◌, ◌≡◌, refl, ◌&&◌, Option, none, some, [], ◌∷◌, arith, Text, All,
  ltb, leb, if◌then◌else◌,
}

unfoldable pub hex_digit : ℕ → ℕ
hex_digit n = if ltb n 10 then n + b'0' else n + 87

unfoldable pub hex_value : ℕ → Option ℕ
hex_value c =
    if leb b'0' c && leb c b'9'
    then some (c - b'0')
    else if leb b'a' c && leb c b'f'
    then some (c - 87)
    else if leb b'A' c && leb c b'F'
    then some (c - 55)
    else none

-- hex.EncodeToString
unfoldable pub encode_to_string : Text → Text
unfolding hex_digit
encode_to_string [] = []
encode_to_string (b ∷ bs) = hex_digit (b / 16) ∷ hex_digit (b % 16) ∷ encode_to_string bs

pair : Option ℕ → Option ℕ → Option Text → Option Text
pair (some h) (some l) (some bs) = some ((h * 16 + l) ∷ bs)
pair _ _ _ = none

-- hex.DecodeString; none is its error
unfoldable pub decode_string : Text → Option Text
unfolding hex_value pair
decode_string [] = some []
decode_string (c ∷ []) = none
decode_string (c ∷ d ∷ s) = pair (hex_value c) (hex_value d) (decode_string s)

hex_value-hex_digit : (n : ℕ) → n < 16 → hex_value (hex_digit n) ≡ some n
unfolding hex_value hex_digit
hex_value-hex_digit n h = ground arith

abbrev pub IsByte : ℕ → Type 0
IsByte b = b < 256

-- Reading back what was written gives the bytes.
pub decode-encode : (bs : Text) → All IsByte bs → decode_string (encode_to_string bs) ≡ some bs
unfolding encode_to_string decode_string
decode-encode [] h = refl
decode-encode (b ∷ bs) h =
    rw (hex_value-hex_digit (b / 16) (omega (arith, h.0)))
      (rw (hex_value-hex_digit (b % 16) (omega arith)) (rw (decode-encode bs h.1) (ground arith)))
