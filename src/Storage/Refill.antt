-- ===== src/Storage/Refill.antt =====
-- A map that is emptied into a list and filled again from it.
use mathlib.Core.List.{Mem, Nodup, Nodup-cons, mem-cons_self, mem-cons_of_mem}
use joltifychain_bridge.Base.{
  ◌≡◌, refl, ◌∙◌, ap, sym, arith, false, Option, none, some, List, [], ◌∷◌, ◌++◌, Text, text_eq,
  text_eq_iff, All, if◌then◌else◌, Bool-cases, inl, inr,
}
use joltifychain_bridge.Base.SyncMap.{SyncMap, load, store, keys, values}
use joltifychain_bridge.Base.SyncMap.Laws.{load-store, store-Nodup}

module _ {V : Type 0} where
  store_new : (k : Text) (v : V) (m : SyncMap V) → load k m ≡ none → store k v m ≡ m ++ (k, v) ∷ []
  unfolding load store
  store_new k v [] h = refl
  store_new k v ((j, w) ∷ m) h = ground (arith, store_new k v m)

  others_differ : (k : Text) (m : SyncMap V) → ¬ Mem k (keys m) → All (λ e. text_eq k e.0 ≡ false) m
  others_differ k [] absent = tt
  others_differ k ((j, w) ∷ m) absent = (
    elim (Bool-cases (text_eq k j)) [
      | inl e ↦ absurd (absent (rw ((text_eq_iff k j).0 e) mem-cons_self))
      | inr e ↦ e
    ],
    others_differ k m (λ hit. absent (mem-cons_of_mem j hit)),
  )

  still_absent :
      (k : Text) (v : V) (acc m : SyncMap V)
      → All (λ e. text_eq k e.0 ≡ false) m
      → All (λ e. load e.0 acc ≡ none) m
      → All (λ e. load e.0 (store k v acc) ≡ none) m
  still_absent k v acc [] differ absent = tt
  still_absent k v acc ((j, w) ∷ m) differ absent =
      (rw (load-store k j v acc, differ.0) (absent.0), still_absent k v acc m differ.1 absent.1)

  append_assoc : (xs ys zs : SyncMap V) → (xs ++ ys) ++ zs ≡ xs ++ (ys ++ zs)
  append_assoc [] ys zs = refl
  append_assoc (x ∷ xs) ys zs = ap (◌∷◌ x) (append_assoc xs ys zs)

  append_nil : (xs : SyncMap V) → xs ++ [] ≡ xs
  append_nil [] = refl
  append_nil (x ∷ xs) = ap (◌∷◌ x) (append_nil xs)

  nothing_there : (m : SyncMap V) → All (λ e. load {V = V} e.0 [] ≡ none) m
  unfolding load
  nothing_there [] = tt
  nothing_there (e ∷ m) = (refl, nothing_there m)

  module _ (key : V → Text) where
    -- Each value stored under its key, in order.
    abbrev pub store_all : List V → SyncMap V → SyncMap V
    store_all [] m = m
    store_all (v ∷ vs) m = store_all vs (store (key v) v m)

    -- The last value of a key, or else `before`.
    abbrev pub last_of : Text → Option V → List V → Option V
    last_of k before [] = before
    last_of k before (v ∷ vs) = last_of k (if text_eq (key v) k then some v else before) vs

    pub load-store_all :
        (k : Text) (vs : List V) (m : SyncMap V) → load k (store_all vs m) ≡ last_of k (load k m) vs
    load-store_all k [] m = refl
    load-store_all k (v ∷ vs) m =
        rw (load-store_all k vs (store (key v) v m), load-store (key v) k v m) refl

    pub store_all-Nodup :
        (vs : List V) (m : SyncMap V) → Nodup (keys m) → Nodup (keys (store_all vs m))
    store_all-Nodup [] m d = d
    store_all-Nodup (v ∷ vs) m d =
        store_all-Nodup vs (store (key v) v m) (store-Nodup (key v) v m d)

    module _ (Q : V → Type 0) where
      -- Every value stands under its key and has the property.
      abbrev pub IsKeyed : SyncMap V → Type 0
      IsKeyed m = All (λ e. (key e.1 ≡ e.0) × Q e.1) m

      store-IsKeyed : (v : V) (m : SyncMap V) → Q v → IsKeyed m → IsKeyed (store (key v) v m)
      unfolding store
      store-IsKeyed v [] q h = ((refl, q), tt)
      store-IsKeyed v ((j, w) ∷ m) q h = elim (Bool-cases (text_eq j (key v))) [
        | inl e ↦ rw e ((sym ((text_eq_iff j (key v)).0 e), q), h.1)
        | inr e ↦ rw e (h.0, store-IsKeyed v m q h.1)
      ]

      pub store_all-IsKeyed :
          (vs : List V) (m : SyncMap V) → All Q vs → IsKeyed m → IsKeyed (store_all vs m)
      store_all-IsKeyed [] m qs h = h
      store_all-IsKeyed (v ∷ vs) m qs h =
          store_all-IsKeyed vs (store (key v) v m) qs.1 (store-IsKeyed v m qs.0 h)

      pub values-All : (m : SyncMap V) → IsKeyed m → All Q (values m)
      values-All [] h = tt
      values-All (e ∷ m) h = (h.0.1, values-All m h.1)

      refill_after :
          (m acc : SyncMap V)
          → IsKeyed m
          → Nodup (keys m)
          → All (λ e. load e.0 acc ≡ none) m
          → store_all (values m) acc ≡ acc ++ m
      refill_after [] acc h d absent = sym (append_nil acc)
      refill_after ((k, v) ∷ m) acc h d absent =
          ap (λ j. store_all (values m) (store j v acc)) h.0.0
          ∙ refill_after m (store k v acc) h.1 (Nodup-cons.0 d).1
              (still_absent k v acc m (others_differ k m (Nodup-cons.0 d).0) absent.1)
          ∙ ap (λ a. a ++ m) (store_new k v acc absent.0)
          ∙ append_assoc acc ((k, v) ∷ []) m

      -- The values of a map with distinct keys, stored again, give the map.
      pub refill : (m : SyncMap V) → IsKeyed m → Nodup (keys m) → store_all (values m) [] ≡ m
      refill m h d = refill_after m [] h d (nothing_there m)
