-- ===== src/Signatures/RecoverId.antt =====
-- RecoverRecID (misc/helper.go), and the signature that retrieveAddrfromRawTx (pubchain/helper.go)
-- makes with it.
use joltifychain_bridge.Base.{
  ℕ, ◌+◌, ◌-◌, ◌*◌, ◌%◌, ◌^◌, ◌<◌, ◌≡◌, ap, ◌∙◌, arith, ◌⊎◌, inl, inr, [], ◌∷◌, ◌++◌, length, Bool,
  true, not, ◌&&◌, ◌||◌, Text, ltb, ◌==◌, if◌then◌else◌,
}
use joltifychain_bridge.Base.Outcome.{Outcome, ok}
use joltifychain_bridge.Signatures.Bytes.{of_bytes}
use joltifychain_bridge.Signatures.Layout.{window, length-window, of-window, make_signature-small}
use joltifychain_bridge.Signatures.Serialize.{make_signature}

-- Uint64
abbrev pub uint64 : ℕ → ℕ
uint64 n = n % 2 ^ 64

-- a - b of two uint64
abbrev pub sub_uint64 : ℕ → ℕ → ℕ
sub_uint64 a b = (a + 2 ^ 64 - b) % 2 ^ 64

-- isProtectedV; a BitLen of 8 or less is a number below 256
unfoldable pub is_protected_v : ℕ → Bool
is_protected_v v =
    if ltb v 256
    then not (uint64 v == 27)
      && (not (uint64 v == 28) && (not (uint64 v == 1) && not (uint64 v == 0)))
    else true

-- RecoverRecID
unfoldable pub recover_rec_id : ℕ → ℕ → ℕ
unfolding is_protected_v
recover_rec_id chain_id v =
    if (uint64 v == 0) || (uint64 v == 1)
    then v
    else if is_protected_v v
    then sub_uint64 (sub_uint64 (uint64 v) 35) (uint64 (2 * chain_id))
    else sub_uint64 (uint64 v) 27

-- the signature of a transaction whose raw values are r, s and v
unfoldable pub raw_signature : ℕ → ℕ → ℕ → ℕ → Outcome Text
unfolding recover_rec_id make_signature
raw_signature chain_id r s v = make_signature r s (recover_rec_id chain_id v)

recover_plain : (chain_id y : ℕ) → y < 2 → recover_rec_id chain_id y ≡ y
unfolding recover_rec_id
recover_plain chain_id y h = ground arith

recover_27 : (chain_id y : ℕ) → y < 2 → recover_rec_id chain_id (27 + y) ≡ y
unfolding recover_rec_id
recover_27 chain_id y h = ground arith

recover_155 :
    (chain_id y : ℕ)
    → y < 2
    → chain_id < 2 ^ 62
    → recover_rec_id chain_id (35 + 2 * chain_id + y) ≡ y
unfolding recover_rec_id
recover_155 chain_id y h small = ground arith

-- The three ways in which a transaction states the parity y of its signature.
abbrev pub States : ℕ → ℕ → ℕ → Type 0
States chain_id y v = (v ≡ y) ⊎ (v ≡ 27 + y) ⊎ (v ≡ 35 + 2 * chain_id + y)

recover_rec_id-parity :
    (chain_id y v : ℕ)
    → y < 2
    → chain_id < 2 ^ 62
    → States chain_id y v
    → recover_rec_id chain_id v ≡ y
recover_rec_id-parity chain_id y v h small (inl e) =
    ap (recover_rec_id chain_id) e ∙ recover_plain chain_id y h
recover_rec_id-parity chain_id y v h small (inr (inl e)) =
    ap (recover_rec_id chain_id) e ∙ recover_27 chain_id y h
recover_rec_id-parity chain_id y v h small (inr (inr e)) =
    ap (recover_rec_id chain_id) e ∙ recover_155 chain_id y h small

-- The signature made from the raw values of a transaction has r in its first 32 bytes, s in the
-- next 32, and the parity in the last byte, whether the transaction states the parity itself, with
-- 27, or with its chain.
pub raw_signature-reads :
    (chain_id r s y v : ℕ)
    → y < 2
    → chain_id < 2 ^ 62
    → r < 256 ^ 32
    → s < 256 ^ 32
    → States chain_id y v
    → (rs : Text) × (ss : Text) × (raw_signature chain_id r s v ≡ ok ((rs ++ ss) ++ y ∷ []))
      × (length rs ≡ 32)
      × (length ss ≡ 32)
      × (of_bytes rs ≡ r)
      × (of_bytes ss ≡ s)
unfolding raw_signature
raw_signature-reads chain_id r s y v h small small_r small_s states = (
  window 32 r,
  window 32 s,
  ap (make_signature r s) (recover_rec_id-parity chain_id y v h small states)
      ∙ make_signature-small r s y small_r small_s (omega arith),
  length-window 32 r small_r,
  length-window 32 s small_s,
  of-window 32 r,
  of-window 32 s,
)
