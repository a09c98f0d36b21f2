-- ===== src/Signatures/Layout.antt =====
-- Where the parts of a serialized signature stand.
use joltifychain_bridge.Base.{
  ℕ, zero, suc, ◌+◌, ◌-◌, ◌/◌, ◌%◌, ◌^◌, ◌<◌, ◌≤◌, ◌≡◌, ◌⊎◌, refl, sym, ◌∙◌, ap, arith, true, false,
  some, List, [], ◌∷◌, ◌++◌, Text, length, length-append, length-replicate, take, drop, replicate,
  ltb, inl, inr, Bool-cases,
}
use joltifychain_bridge.Base.Outcome.{ok}
use joltifychain_bridge.Signatures.Base64.{decode}
use joltifychain_bridge.Signatures.Bytes.{
  to_bytes, of_bytes, value_from-zeros, of-to_bytes, length-to_bytes,
}
use joltifychain_bridge.Signatures.Serialize.{
  Signature, copy_before, low_s, lay_out, serialize_sig, make_signature,
}

suc_add : (a b : ℕ) → suc a + b ≡ suc (a + b)
suc_add a b = omega arith

take-append {ℓ} :
    {A : Type ℓ} (xs ys : List A) (n : ℕ) → take (length xs + n) (xs ++ ys) ≡ xs ++ take n ys
take-append [] ys n = ap (λ k. take k ys) (omega arith)
take-append (x ∷ xs) ys n = rw (suc_add (length xs) n) (ap (◌∷◌ x) (take-append xs ys n))

drop-append {ℓ} :
    {A : Type ℓ} (xs ys : List A) (n : ℕ) → drop (length xs + n) (xs ++ ys) ≡ drop n ys
drop-append [] ys n = ap (λ k. drop k ys) (omega arith)
drop-append (x ∷ xs) ys n = rw (suc_add (length xs) n) (drop-append xs ys n)

take-replicate : (k m : ℕ) → take k (replicate {A = ℕ} (k + m) 0) ≡ replicate k 0
take-replicate zero m = refl
take-replicate (suc k) m = rw (suc_add k m) (ap (◌∷◌ 0) (take-replicate k m))

drop-replicate : (k m : ℕ) → drop k (replicate {A = ℕ} (k + m) 0) ≡ replicate m 0
drop-replicate zero m = ap (λ n. replicate n 0) (omega arith)
drop-replicate (suc k) m = rw (suc_add k m) (drop-replicate k m)

append_assoc {ℓ} : {A : Type ℓ} (xs ys zs : List A) → (xs ++ ys) ++ zs ≡ xs ++ (ys ++ zs)
append_assoc [] ys zs = refl
append_assoc (x ∷ xs) ys zs = ap (◌∷◌ x) (append_assoc xs ys zs)

-- the k last bytes of a number
abbrev pub window : ℕ → ℕ → Text
window k n = replicate (k - length (to_bytes n)) 0 ++ to_bytes n

pub length-window : (k n : ℕ) → n < 256 ^ k → length (window k n) ≡ k
length-window k n small = omega (
  arith,
  length-append {0} (replicate (k - length (to_bytes n)) 0) (to_bytes n),
  length-replicate {A = ℕ} (k - length (to_bytes n)) 0,
  length-to_bytes k n small,
)

pub of-window : (k n : ℕ) → of_bytes (window k n) ≡ n
of-window k n = value_from-zeros (k - length (to_bytes n)) (to_bytes n) ∙ of-to_bytes n

-- Copying into the zeros that follow a prefix fills the next k bytes.
copy_next :
    (xs : Text) (k m n : ℕ)
    → n < 256 ^ k
    → copy_before (length xs + k) (to_bytes n) (xs ++ replicate (k + m) 0)
      ≡ ok ((xs ++ window k n) ++ replicate m 0)
unfolding copy_before
copy_next xs k m n small =
    let fits : length (to_bytes n) ≤ k = length-to_bytes k n small in
    let no_panic : ltb (length xs + k) (length (to_bytes n)) ≡ false = ground arith in
    let from : length xs + k - length (to_bytes n) ≡ length xs + (k - length (to_bytes n)) =
      omega arith in
    let zeros : k + m ≡ (k - length (to_bytes n)) + (length (to_bytes n) + m) = omega arith in
    let before : take (length xs + (k - length (to_bytes n))) (xs ++ replicate (k + m) 0)
        ≡ xs ++ replicate (k - length (to_bytes n)) 0 =
      take-append xs (replicate (k + m) 0) (k - length (to_bytes n))
      ∙ ap (λ (z : Text). xs ++ z)
          (ap (λ c. take (k - length (to_bytes n)) (replicate c 0)) zeros
            ∙ take-replicate (k - length (to_bytes n)) (length (to_bytes n) + m)) in
    let after : drop (length xs + k) (xs ++ replicate (k + m) 0) ≡ replicate m 0 =
      drop-append xs (replicate (k + m) 0) k ∙ drop-replicate k m in
    rw (no_panic, from, before, after)
      (ap ok (
        sym
          (append_assoc (xs ++ replicate (k - length (to_bytes n)) 0) (to_bytes n) (replicate m 0))
        ∙ ap (λ (z : Text). z ++ replicate m 0)
            (append_assoc xs (replicate (k - length (to_bytes n)) 0) (to_bytes n))))

module _ (r s : ℕ) (small_r : r < 256 ^ 32) (small_s : s < 256 ^ 32) where
  abbrev both : Text
  both = window 32 r ++ window 32 s

  length-both : length both ≡ 64
  length-both = omega (
    arith,
    length-append {0} (window 32 r) (window 32 s),
    length-window 32 r small_r,
    length-window 32 s small_s,
  )

  copy_r :
      (m : ℕ)
      → copy_before 32 (to_bytes r) (replicate (32 + m) 0) ≡ ok (window 32 r ++ replicate m 0)
  copy_r m = copy_next [] 32 m r small_r

  copy_s :
      (m : ℕ)
      → copy_before 64 (to_bytes s) (window 32 r ++ replicate (32 + m) 0)
        ≡ ok (both ++ replicate m 0)
  copy_s m =
      let at : length (window 32 r) + 32 ≡ 64 = omega (arith, length-window 32 r small_r) in
      ap (λ e. copy_before e (to_bytes s) (window 32 r ++ replicate (32 + m) 0)) (sym at)
      ∙ copy_next (window 32 r) 32 m s small_s

  copy_v :
      (v : ℕ)
      → v < 256 ^ 1
      → copy_before 65 (to_bytes v) (both ++ replicate 1 0) ≡ ok ((both ++ window 1 v) ++ [])
  copy_v v small_v =
      let at : length both + 1 ≡ 65 = omega (arith, length-both) in
      ap (λ e. copy_before e (to_bytes v) (both ++ replicate 1 0)) (sym at)
      ∙ copy_next both 1 0 v small_v

append_nil : (xs : Text) → xs ++ [] ≡ xs
append_nil [] = refl
append_nil (x ∷ xs) = ap (◌∷◌ x) (append_nil xs)

-- The bytes of MakeSignature.
pub make_signature-small :
    (r s v : ℕ)
    → r < 256 ^ 32
    → s < 256 ^ 32
    → v < 256
    → make_signature r s v ≡ ok ((window 32 r ++ window 32 s) ++ v ∷ [])
unfolding make_signature
make_signature-small r s v small_r small_s small_v =
    let at : length (both r s small_r small_s) + 0 ≡ 64 =
      omega (arith, length-both r s small_r small_s) in
    let cut : take 64 ((window 32 r ++ window 32 s) ++ replicate 1 0) ≡ window 32 r ++ window 32 s =
      ap (λ e. take e ((window 32 r ++ window 32 s) ++ replicate 1 0)) (sym at)
      ∙ take-append (window 32 r ++ window 32 s) (replicate 1 0) 0
      ∙ append_nil (window 32 r ++ window 32 s) in
    let byte : v % 2 ^ 64 % 256 ≡ v = omega arith in
    rw (copy_r r s small_r small_s 33) (rw (copy_s r s small_r small_s 1) (rw (cut, byte) refl))

low_s-le : (order s : ℕ) → s < order → low_s order s ≤ order / 2
unfolding low_s
low_s-le order s small = ground arith

low_s-cases : (order s : ℕ) → s < order → (low_s order s ≡ s) ⊎ (low_s order s + s ≡ order)
unfolding low_s
low_s-cases order s small = elim (Bool-cases (ltb (order / 2) s)) [
  | inl high ↦ inr (ground arith)
  | inr low ↦ inl (ground arith)
]

-- Of the numbers that the signing service gives, r has the first 32 bytes of the signature, s or
-- its negative, whichever is not above half of the order, has the next 32, and the recovery id has
-- the last byte, where it is asked for.
pub serialize_sig-lays_out :
    (order : ℕ) (sig : Signature) (r_bytes s_bytes v_bytes : Text)
    → decode sig.r ≡ some r_bytes
    → decode sig.s ≡ some s_bytes
    → decode sig.recovery_id ≡ some v_bytes
    → of_bytes r_bytes < 256 ^ 32
    → of_bytes s_bytes < order
    → order ≤ 256 ^ 32
    → of_bytes v_bytes < 256
    → (rs : Text) × (ss : Text) × (vs : Text) × (serialize_sig order sig true
        ≡ ok ((rs ++ ss) ++ vs))
      × (serialize_sig order sig false ≡ ok (rs ++ ss))
      × (length rs ≡ 32)
      × (length ss ≡ 32)
      × (length vs ≡ 1)
      × (of_bytes rs ≡ of_bytes r_bytes)
      × (of_bytes vs ≡ of_bytes v_bytes)
      × (of_bytes ss ≤ order / 2)
      × ((of_bytes ss ≡ of_bytes s_bytes) ⊎ (of_bytes ss + of_bytes s_bytes ≡ order))
unfolding serialize_sig lay_out
serialize_sig-lays_out order sig r_bytes s_bytes v_bytes e_r e_s e_v small_r small_s small_order
      small_v =
    (
      window 32 r,
      window 32 low,
      window 1 v,
      rw (e_r, e_s, e_v)
          (rw (copy_r r low small_r small_low 33) (
            rw (copy_s r low small_r small_low 1)
              (copy_v r low small_r small_low v small_v ∙ ap ok (append_nil _)))),
      rw (e_r, e_s, e_v)
          (rw (copy_r r low small_r small_low 32)
            (copy_s r low small_r small_low 0 ∙ ap ok (append_nil _))),
      length-window 32 r small_r,
      length-window 32 low small_low,
      length-window 1 v small_v,
      of-window 32 r,
      of-window 1 v,
      rw (of-window 32 low) (low_s-le order s small_s),
      rw (of-window 32 low) (low_s-cases order s small_s),
    )
  where
    r : ℕ
    r = of_bytes r_bytes

    s : ℕ
    s = of_bytes s_bytes

    v : ℕ
    v = of_bytes v_bytes

    low : ℕ
    low = low_s order s

    small_low : low < 256 ^ 32
    small_low = omega (arith, low_s-le order s small_s)
