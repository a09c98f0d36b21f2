-- ===== src/Base/Outcome.antt =====
-- What a Go call ends in: a value, an error value, or a panic, which ends the process.
use mathlib.Core.Path.{◌≡◌, refl}

-- The errors that the program distinguishes or returns.
pub data Fault : Type 0 where
  token_not_listed zero_amount not_a_top_up bad_address query_failed no_token_price : Fault
  cannot_find_token not_our_contract invalid_data unknown_chain_type no_file bad_json : Fault
  empty_list nil_pool no_chain_id wrong_sender sign_failed already_known already_passed : Fault
  not_our_round transfer_failed tx_failed move_failed invalid_nonce signature_mismatch : Fault
  bad_encoding no_key broadcast_failed already_subscribed other_fault : Fault

pub data Outcome {ℓ} (A : Type ℓ) : Type ℓ where
  ok : A → Outcome A
  err : Fault → Outcome A
  panic : Outcome A

-- a call that returns only an error value
abbrev pub Done : Type 0
Done = Unit {0}

infixl 5 ◌>>=◌
abbrev pub ◌>>=◌ {ℓ κ} : {A : Type ℓ} {B : Type κ} → Outcome A → (A → Outcome B) → Outcome B
ok a >>= f = f a
err e >>= f = err e
panic >>= f = panic

pub ok_injective : {A : Type 0} {a b : A} → ok a ≡ ok b → a ≡ b
ok_injective h = cc h

-- A sequence of two calls that ends well: both do.
pub bound :
    {A B : Type 0} (m : Outcome A) (f : A → Outcome B) (b : B)
    → (m >>= f) ≡ ok b
    → (a : A) × (m ≡ ok a) × (f a ≡ ok b)
bound (ok a) f b h = (a, refl, h)
bound (err e) f b h = absurd (cc h)
bound panic f b h = absurd (cc h)
