-- ===== src/Signatures/Base64.antt =====
-- base64.StdEncoding, in which the signing service gives and takes messages and signatures.
use joltifychain_bridge.Base.{
  ℕ, ◌+◌, ◌-◌, ◌*◌, ◌/◌, ◌%◌, Option, none, some, [], ◌∷◌, Text, ◌&&◌, ◌||◌, leb, ltb, ◌==◌,
  if◌then◌else◌,
}

unfoldable pub digit_of : ℕ → ℕ
digit_of n =
    if ltb n 26
    then n + b'A'
    else if ltb n 52
    then n + 71
    else if ltb n 62
    then n - 4
    else if n == 62
    then b'+'
    else b'/'

unfoldable pub value_of : ℕ → Option ℕ
value_of c =
    if leb b'A' c && leb c b'Z'
    then some (c - b'A')
    else if leb b'a' c && leb c b'z'
    then some (c - 71)
    else if leb b'0' c && leb c b'9'
    then some (c + 4)
    else if c == b'+'
    then some 62
    else if c == b'/'
    then some 63
    else none

-- EncodeToString
unfoldable pub encode : Text → Text
unfolding digit_of
encode [] = []
encode (a ∷ []) = digit_of (a / 4) ∷ digit_of (a % 4 * 16) ∷ b'=' ∷ b'=' ∷ []
encode (a ∷ b ∷ []) =
    digit_of (a / 4) ∷ digit_of (a % 4 * 16 + b / 16) ∷ digit_of (b % 16 * 4) ∷ b'=' ∷ []
encode (a ∷ b ∷ c ∷ s) =
    digit_of (a / 4)
    ∷ digit_of (a % 4 * 16 + b / 16)
    ∷ digit_of (b % 16 * 4 + c / 64)
    ∷ digit_of (c % 64)
    ∷ encode s

-- the line breaks, which the decoder passes over
unfoldable pub without_breaks : Text → Text
without_breaks [] = []
without_breaks (c ∷ s) =
    let rest = without_breaks s in if (c == 10) || (c == 13) then rest else c ∷ rest

unfoldable pub one_byte : Option ℕ → Option ℕ → Option Text
one_byte (some w) (some x) = some ((w * 4 + x / 16) ∷ [])
one_byte (some w) none = none
one_byte none x = none

unfoldable pub two_bytes : Option ℕ → Option ℕ → Option ℕ → Option Text
two_bytes (some w) (some x) (some y) = some ((w * 4 + x / 16) ∷ (x % 16 * 16 + y / 4) ∷ [])
two_bytes (some w) (some x) none = none
two_bytes (some w) none y = none
two_bytes none x y = none

unfoldable pub three_bytes : Option ℕ → Option ℕ → Option ℕ → Option ℕ → Option Text → Option Text
three_bytes (some w) (some x) (some y) (some z) (some bs) =
    some ((w * 4 + x / 16) ∷ (x % 16 * 16 + y / 4) ∷ (y % 4 * 64 + z) ∷ bs)
three_bytes (some w) (some x) (some y) (some z) none = none
three_bytes (some w) (some x) (some y) none bs = none
three_bytes (some w) (some x) none z bs = none
three_bytes (some w) none y z bs = none
three_bytes none x y z bs = none

-- the last four characters, of which the fourth is the padding
unfoldable pub padded_group : ℕ → ℕ → ℕ → Option Text
unfolding value_of one_byte two_bytes
padded_group a b c =
    if c == b'='
    then one_byte (value_of a) (value_of b)
    else two_bytes (value_of a) (value_of b) (value_of c)

unfoldable pub decode_groups : Text → Option Text
unfolding value_of padded_group three_bytes
decode_groups [] = some []
decode_groups (a ∷ []) = none
decode_groups (a ∷ b ∷ []) = none
decode_groups (a ∷ b ∷ c ∷ []) = none
decode_groups (a ∷ b ∷ c ∷ d ∷ []) =
    if d == b'='
    then padded_group a b c
    else three_bytes (value_of a) (value_of b) (value_of c) (value_of d) (some [])
decode_groups (a ∷ b ∷ c ∷ d ∷ e ∷ s) =
    three_bytes (value_of a) (value_of b) (value_of c) (value_of d) (decode_groups (e ∷ s))

-- DecodeString; none is its error
unfoldable pub decode : Text → Option Text
unfolding decode_groups without_breaks
decode s = decode_groups (without_breaks s)
