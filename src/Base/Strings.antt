-- ===== src/Base/Strings.antt =====
-- Go strings as lists of byte values, with their equality and `strings.ToLower` on ASCII.
use Prim.Native.Char.{code}
use Prim.Native.String.{String}
use Prim.Native.Nat.{ℕ, ◌+◌}
use mathlib.Core.Path.{◌≡◌, refl, ap₂}
use mathlib.Core.Logic.{◌↔◌, ◌≢◌, inl, inr}
use mathlib.Core.Bool.{Bool, true, false, ◌&&◌}
use mathlib.Core.List.{List, [], ◌∷◌, ◌++◌, map}
use native.Mathlib.Omega.{arith}
use joltifychain_bridge.Base.Tests.{Bool-cases, leb, ◌==◌, if◌then◌else◌}

abbrev pub Text : Type 0
Text = List ℕ

-- The bytes of an ASCII literal.
abbrev pub codes : String → Text
codes String.[] = []
codes (String.◌∷◌ c s) = code c ∷ codes s

-- The comparison of two strings.
unfoldable pub text_eq : Text → Text → Bool
text_eq [] [] = true
text_eq [] (b ∷ t) = false
text_eq (a ∷ s) [] = false
text_eq (a ∷ s) (b ∷ t) = (a == b) && text_eq s t

text_eq_sound : (s t : Text) → text_eq s t ≡ true → s ≡ t
unfolding text_eq
text_eq_sound [] [] h = refl
text_eq_sound [] (b ∷ t) h = cc
text_eq_sound (a ∷ s) [] h = cc
text_eq_sound (a ∷ s) (b ∷ t) h = ground (arith, text_eq_sound s t)

pub text_eq_refl : (s : Text) → text_eq s s ≡ true
unfolding text_eq
text_eq_refl [] = refl
text_eq_refl (a ∷ s) = ground (arith, text_eq_refl s)

pub text_eq_iff : (s t : Text) → (text_eq s t ≡ true) ↔ (s ≡ t)
text_eq_iff s t = (text_eq_sound s t, λ e. rw e (text_eq_refl t))

-- Different strings fail the test.
pub text_neq : (s t : Text) → s ≢ t → text_eq s t ≡ false
text_neq s t differ = elim (Bool-cases (text_eq s t)) [
  | inl e ↦ absurd (differ ((text_eq_iff s t).0 e))
  | inr e ↦ e
]

-- `strings.ToLower` of an ASCII string.
unfoldable pub lower_byte : ℕ → ℕ
lower_byte c = if leb b'A' c && leb c b'Z' then c + 32 else c

unfoldable pub to_lower : Text → Text
unfolding lower_byte
to_lower = map lower_byte

pub lower_byte_idem : (c : ℕ) → lower_byte (lower_byte c) ≡ lower_byte c
unfolding lower_byte
lower_byte_idem c = ground arith

pub to_lower_idem : (s : Text) → to_lower (to_lower s) ≡ to_lower s
unfolding to_lower
to_lower_idem [] = refl
to_lower_idem (c ∷ s) = ap₂ ◌∷◌ (lower_byte_idem c) (to_lower_idem s)

pub to_lower-append : (s t : Text) → to_lower (s ++ t) ≡ to_lower s ++ to_lower t
unfolding to_lower
to_lower-append [] t = refl
to_lower-append (c ∷ s) t = ap₂ ◌∷◌ refl (to_lower-append s t)

pub ruleset text_laws = (text_eq_refl, to_lower_idem, to_lower-append)
