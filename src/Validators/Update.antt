-- ===== src/Validators/Update.antt =====
-- What an update leaves of the validator set.
use mathlib.Core.List.{Nodup, Nodup-nil}
use joltifychain_bridge.Base.{
  ◌≡◌, refl, ℤ, Option, none, some, List, [], ◌∷◌, Text, text_eq, length, length-map, if◌then◌else◌,
}
use joltifychain_bridge.Base.SyncMap.{SyncMap, load, store, keys}
use joltifychain_bridge.Base.SyncMap.Laws.{load-store, store-Nodup}
use joltifychain_bridge.Validators.{
  ConsAddresses, Validator, VaultValidator, ValidatorSet, updated_validator, update_all,
  update_validator_set, get_active_validators,
}

module _ (addresses : ConsAddresses) where
  -- the text under which an update stands
  abbrev pub key_of : VaultValidator → Text
  key_of el = addresses.address_string (addresses.get_cons_address el.pub_key)

  -- The last update of an address, or else `before`.
  abbrev pub last_update : Text → Option Validator → List VaultValidator → Option Validator
  last_update k before [] = before
  last_update k before (el ∷ updates) =
      last_update k
        (if text_eq (key_of el) k then some (updated_validator addresses el) else before) updates

  load-update_all :
      (k : Text) (updates : List VaultValidator) (m : SyncMap Validator)
      → load k (update_all addresses updates m) ≡ last_update k (load k m) updates
  unfolding update_all
  load-update_all k [] m = refl
  load-update_all k (el ∷ updates) m =
      rw
        (
          load-update_all k updates (store (key_of el) (updated_validator addresses el) m),
          load-store (key_of el) k (updated_validator addresses el) m,
        )
        refl

  update_all-Nodup :
      (updates : List VaultValidator) (m : SyncMap Validator)
      → Nodup (keys m)
      → Nodup (keys (update_all addresses updates m))
  unfolding update_all
  update_all-Nodup [] m d = d
  update_all-Nodup (el ∷ updates) m d =
      update_all-Nodup updates (store (key_of el) (updated_validator addresses el) m)
        (store-Nodup (key_of el) (updated_validator addresses el) m d)

  -- After an update the set has the validators of the update alone, each once, the last one given
  -- for an address, at the height of the update; the validators of before are gone.
  pub update_validator_set-replaces :
      (updates : List VaultValidator) (height : ℤ) (v : ValidatorSet)
      → let after = update_validator_set addresses updates height v in
        ((k : Text) → load k after.active_validators ≡ last_update k none updates)
        × Nodup (keys after.active_validators)
        × (length (get_active_validators addresses after).0 ≡ length after.active_validators)
        × ((get_active_validators addresses after).1 ≡ height)
  unfolding update_validator_set get_active_validators load
  update_validator_set-replaces updates height v = (
    (λ k. load-update_all k updates []),
    update_all-Nodup updates [] Nodup-nil,
    length-map (update_all addresses updates []) (λ e. e.1),
    refl,
  )
