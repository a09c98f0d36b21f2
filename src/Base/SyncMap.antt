-- ===== src/Base/SyncMap.antt =====
-- Go's `map[string]V` and `sync.Map` with string keys, as association lists. `Range` visits the
-- entries in the order of the list; Go leaves the order open.
pub mod Laws
use mathlib.Core.Option.{Option, none, some}
use mathlib.Core.List.{List, [], ◌∷◌, map}
use joltifychain_bridge.Base.Strings.{Text, text_eq}
use joltifychain_bridge.Base.Tests.{if◌then◌else◌}

abbrev pub SyncMap {ℓ} : Type ℓ → Type ℓ
SyncMap V = List (Text × V)

module _ {ℓ} {V : Type ℓ} where
  unfoldable pub load : Text → SyncMap V → Option V
  load k [] = none
  load k ((j, v) ∷ m) = if text_eq j k then some v else load k m

  -- `Store`: the entry of the key is replaced, or added.
  unfoldable pub store : Text → V → SyncMap V → SyncMap V
  store k v [] = (k, v) ∷ []
  store k v ((j, w) ∷ m) = if text_eq j k then (j, v) ∷ m else (j, w) ∷ store k v m

  unfoldable pub delete : Text → SyncMap V → SyncMap V
  delete k [] = []
  delete k ((j, w) ∷ m) = if text_eq j k then m else (j, w) ∷ delete k m

  abbrev pub keys : SyncMap V → List Text
  keys = map (λ e. e.0)

  abbrev pub values : SyncMap V → List V
  values = map (λ e. e.1)
