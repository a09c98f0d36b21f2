-- ===== src/Validators.antt =====
-- validators/: the validator set of the joltify chain, and its users in cosbridge/validator.go.
pub mod Update
pub mod Keygen
pub mod Cached
use joltifychain_bridge.Base.{ℤ, pos, Option, none, some, List, [], ◌∷◌, Text}
use joltifychain_bridge.Base.Outcome.{Outcome, ok, err, bad_address, ◌>>=◌}
use joltifychain_bridge.Base.SyncMap.{SyncMap, store, values}

-- The addresses of the consensus keys: cosmos-sdk's functions.
pub record ConsAddresses : Type 0 where
  -- types.GetConsAddress
  pub get_cons_address : Text → Text
  -- String of a consensus address, and its inverse
  pub address_string : Text → Text
  pub cons_address_from_bech32 : Text → Option Text

pub record Validator : Type 0 where
  pub address : Text
  pub pub_key : Text
  pub voting_power : ℤ

-- vaulttypes.Validator
pub record VaultValidator : Type 0 where
  pub pub_key : Text
  pub power : ℤ

-- tmservice.Validator, with its unpacked key: none where that fails
pub record TipValidator : Type 0 where
  pub address : Text
  pub pub_key : Option Text
  pub voting_power : ℤ

pub record ValidatorSet : Type 0 where
  pub active_validators : SyncMap Validator
  pub block_height : ℤ

-- NewValidator
unfoldable pub new_validator : ValidatorSet
new_validator = record { active_validators = []; block_height = pos 0 }

module _ (addresses : ConsAddresses) where
  open addresses use {get_cons_address, address_string, cons_address_from_bech32}

  -- the loop of SetupValidatorSet
  unfoldable pub set_up : List Validator → SyncMap Validator → SyncMap Validator
  set_up [] m = m
  set_up (el ∷ validators) m = set_up validators (store (address_string el.address) el m)

  -- SetupValidatorSet
  unfoldable pub setup_validator_set : List Validator → ℤ → ValidatorSet → ValidatorSet
  unfolding set_up
  setup_validator_set validators block_height v = record {
    active_validators = set_up validators v.active_validators;
    block_height = block_height;
  }

  -- localVal of UpdateValidatorSet
  abbrev pub updated_validator : VaultValidator → Validator
  updated_validator el = record {
    address = get_cons_address el.pub_key;
    pub_key = el.pub_key;
    voting_power = el.power;
  }

  -- newValidatorSet
  unfoldable pub update_all : List VaultValidator → SyncMap Validator → SyncMap Validator
  update_all [] m = m
  update_all (el ∷ updates) m =
      update_all updates
        (store (address_string (get_cons_address el.pub_key)) (updated_validator el) m)

  -- UpdateValidatorSet, which UpdateLatestValidator calls; it never fails
  unfoldable pub update_validator_set : List VaultValidator → ℤ → ValidatorSet → ValidatorSet
  unfolding update_all
  update_validator_set validator_updates block_height v = record {
    active_validators = update_all validator_updates [];
    block_height = block_height;
  }

  -- GetActiveValidators, which GetLastValidator calls
  unfoldable pub get_active_validators : ValidatorSet → List Validator × ℤ
  get_active_validators v = (values v.active_validators, v.block_height)

  -- localVals of doInitValidator
  unfoldable pub local_vals : List TipValidator → Outcome (List Validator)
  local_vals [] = ok []
  local_vals (el ∷ tip) = elim el.pub_key [
    | none ↦ err bad_address
    | some pk ↦ elim (cons_address_from_bech32 el.address) [
      | none ↦ err bad_address
      | some adr ↦ (do
        vals ← local_vals tip
        ok (record { address = adr; pub_key = pk; voting_power = el.voting_power } ∷ vals))
    ]
  ]

  -- doInitValidator: a failure leaves the new and empty set
  unfoldable pub do_init_validator : ℤ → List TipValidator → Outcome ValidatorSet
  unfolding local_vals setup_validator_set new_validator
  do_init_validator block_height tip = do
    vals ← local_vals tip
    ok (setup_validator_set vals block_height new_validator)
