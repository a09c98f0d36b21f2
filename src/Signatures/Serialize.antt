-- ===== src/Signatures/Serialize.antt =====
-- SerializeSig and MakeSignature.
use joltifychain_bridge.Base.{
  ℕ, ◌-◌, ◌/◌, ◌%◌, ◌^◌, Bool, Option, none, some, [], ◌∷◌, ◌++◌, Text, length, take, drop,
  replicate, ltb, leb, if◌then◌else◌,
}
use joltifychain_bridge.Base.Outcome.{Outcome, ok, err, panic, bad_encoding, ◌>>=◌}
use joltifychain_bridge.Signatures.Base64.{decode}
use joltifychain_bridge.Signatures.Bytes.{to_bytes, of_bytes}

-- keysign.Signature of the signing service
pub record Signature : Type 0 where
  pub msg : Text
  pub r : Text
  pub s : Text
  pub recovery_id : Text

-- copy(buf[e-len(bs):e], bs); a slice that starts below 0 panics
unfoldable pub copy_before : ℕ → Text → Text → Outcome Text
copy_before e bs buf =
    if ltb e (length bs) then panic else ok (take (e - length bs) buf ++ (bs ++ drop e buf))

unfoldable pub or_bad_encoding : Option Text → Outcome Text
or_bad_encoding none = err bad_encoding
or_bad_encoding (some bs) = ok bs

-- S, or N - S where S is above half of N; Bytes of a negative number are those of its absolute value
unfoldable pub low_s : ℕ → ℕ → ℕ
low_s order s = if ltb (order / 2) s then (if leb s order then order - s else s - order) else s

-- the bytes of the two numbers, and of the recovery id where that is wanted
unfoldable pub lay_out : ℕ → ℕ → ℕ → Bool → Outcome Text
unfolding copy_before to_bytes
lay_out r s v need_recovery =
    if need_recovery
    then (do
      with_r ← copy_before 32 (to_bytes r) (replicate 65 0)
      with_s ← copy_before 64 (to_bytes s) with_r
      copy_before 65 (to_bytes v) with_s)
    else (do
      with_r ← copy_before 32 (to_bytes r) (replicate 64 0)
      copy_before 64 (to_bytes s) with_r)

-- SerializeSig, for the order N of the curve
unfoldable pub serialize_sig : ℕ → Signature → Bool → Outcome Text
unfolding or_bad_encoding low_s lay_out
serialize_sig order sig need_recovery = do
  r_bytes ← or_bad_encoding (decode sig.r)
  s_bytes ← or_bad_encoding (decode sig.s)
  v_bytes ← or_bad_encoding (decode sig.recovery_id)
  lay_out (of_bytes r_bytes) (low_s order (of_bytes s_bytes)) (of_bytes v_bytes) need_recovery

-- MakeSignature
unfoldable pub make_signature : ℕ → ℕ → ℕ → Outcome Text
unfolding copy_before to_bytes
make_signature r s v = do
  with_r ← copy_before 32 (to_bytes r) (replicate 65 0)
  with_s ← copy_before 64 (to_bytes s) with_r
  ok (take 64 with_s ++ (v % 2 ^ 64 % 256) ∷ [])
