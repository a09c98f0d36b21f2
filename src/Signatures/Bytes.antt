-- ===== src/Signatures/Bytes.antt =====
-- big.Int's Bytes and SetBytes: the bytes of a number, the first one the highest.
use native.Mathlib.Nat.{pow-suc}
use joltifychain_bridge.Base.{
  ℕ, zero, suc, ◌+◌, ◌*◌, ◌/◌, ◌%◌, ◌^◌, ◌<◌, ◌≤◌, ◌≡◌, refl, ◌∙◌, ap, arith, [], ◌∷◌, ◌++◌, Text,
  length, replicate, ◌==◌, if◌then◌else◌, inl, inr, Bool-cases,
}

-- The bytes of n in front of `acc`, on fuel; n rounds are more than enough.
unfoldable pub bytes_loop : ℕ → ℕ → Text → Text
bytes_loop zero n acc = acc
bytes_loop (suc f) n acc =
    let rest = bytes_loop f (n / 256) (n % 256 ∷ acc) in if n == 0 then acc else rest

-- Bytes: without leading zeros
unfoldable pub to_bytes : ℕ → Text
unfolding bytes_loop
to_bytes n = bytes_loop n n []

unfoldable pub value_from : ℕ → Text → ℕ
value_from acc [] = acc
value_from acc (b ∷ bs) = value_from (acc * 256 + b) bs

-- SetBytes
abbrev pub of_bytes : Text → ℕ
of_bytes bs = value_from 0 bs

pub value_from-append :
    (acc : ℕ) (xs ys : Text) → value_from acc (xs ++ ys) ≡ value_from (value_from acc xs) ys
unfolding value_from
value_from-append acc [] ys = refl
value_from-append acc (b ∷ xs) ys = value_from-append (acc * 256 + b) xs ys

-- Leading zeros count nothing.
pub value_from-zeros : (k : ℕ) (bs : Text) → of_bytes (replicate k 0 ++ bs) ≡ of_bytes bs
unfolding value_from
value_from-zeros zero bs = refl
value_from-zeros (suc k) bs = value_from-zeros k bs

bytes_loop_value : (f n : ℕ) (acc : Text) → n ≤ f → of_bytes (bytes_loop f n acc) ≡ value_from n acc
unfolding bytes_loop
bytes_loop_value zero n acc le = ap (λ k. value_from k acc) (omega arith)
bytes_loop_value (suc f) n acc le = elim (Bool-cases (n == 0)) [
  | inl z ↦ rw z (ap (λ k. value_from k acc) (ground arith))
  | inr more ↦ rw more (
      bytes_loop_value f (n / 256) (n % 256 ∷ acc) (ground arith)
      ∙ (unfold value_from in ap (λ k. value_from k acc) (omega arith)))
]

-- Reading the bytes of a number gives the number.
pub of-to_bytes : (n : ℕ) → of_bytes (to_bytes n) ≡ n
unfolding to_bytes
of-to_bytes n = bytes_loop_value n n [] (omega arith) ∙ (unfold value_from in refl)

length-bytes_loop :
    (k f n : ℕ) (acc : Text) → n < 256 ^ k → length (bytes_loop f n acc) ≤ k + length acc
unfolding bytes_loop
length-bytes_loop k zero n acc small = omega arith
length-bytes_loop zero (suc f) n acc small =
    let none_left : n ≡ 0 = omega arith in rw none_left (omega arith)
length-bytes_loop (suc k) (suc f) n acc small = elim (Bool-cases (n == 0)) [
  | inl z ↦ rw z (omega arith)
  | inr more ↦
      let smaller : n / 256 < 256 ^ k = omega (arith, rw (pow-suc 256 k) at small) in
      rw more (omega (arith, length-bytes_loop k f (n / 256) (n % 256 ∷ acc) smaller))
]

-- A number below 256 ^ k has at most k bytes.
pub length-to_bytes : (k n : ℕ) → n < 256 ^ k → length (to_bytes n) ≤ k
unfolding to_bytes
length-to_bytes k n small = omega (arith, length-bytes_loop k n n [] small)
