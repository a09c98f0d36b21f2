-- ===== src/Base/SyncMap/Laws.antt =====
-- The laws of the maps.
use mathlib.Core.List.{Perm, Mem, Nodup, Nodup-cons, mem-cons, mem-cons_self, mem-cons_of_mem}
use mathlib.Core.List.{not-mem-nil, Nodup-nil, Mem-prop}
use mathlib.Core.List.Perm
use mathlib.Core.Logic.Or
use mathlib.Core.HLevel.{⊥_prop}
use mathlib.Core.Bool.{Bool, true, false}
use mathlib.Core.Path.{◌≡◌, refl, sym}
use mathlib.Core.Logic.{inl, inr}
use mathlib.Core.Option.{none, some}
use mathlib.Core.List.{[], ◌∷◌}
use native.Mathlib.Omega.{arith}
use joltifychain_bridge.Base.Tests.{if◌then◌else◌, Bool-cases, Option-cases}
use joltifychain_bridge.Base.Lists.{keep, reject}
use joltifychain_bridge.Base.Strings.{Text, text_eq, text_eq_refl, text_eq_iff}
use joltifychain_bridge.Base.SyncMap.{SyncMap, load, store, delete, keys}

module _ {ℓ} {V : Type ℓ} where
  -- Reading after writing.
  pub load-store :
      (k j : Text) (v : V) (m : SyncMap V)
      → load j (store k v m) ≡ (if text_eq k j then some v else load j m)
  unfolding load store
  load-store k j v [] = refl
  load-store k j v ((i, w) ∷ m) =
      ground (arith, text_eq_iff i k, text_eq_iff i j, text_eq_iff k j, load-store k j v m)

  pub load-store_self : (k : Text) (v : V) (m : SyncMap V) → load k (store k v m) ≡ some v
  load-store_self k v m = rw (load-store k k v m, text_eq_refl k)

  -- A key that cannot be loaded is not there.
  pub not-mem_of_none : (k : Text) (m : SyncMap V) → load k m ≡ none → ¬ Mem k (keys m)
  unfolding load
  not-mem_of_none k [] h = not-mem-nil
  not-mem_of_none k ((j, w) ∷ m) h = λ hit.
      Or.elim ⊥_prop (mem-cons.0 hit) (λ e. ground (arith, text_eq_iff j k, sym e))
        (not-mem_of_none k m (ground (arith, text_eq_iff j k)))

  -- A loaded entry can be taken out, and the rest is what `delete` leaves.
  pub delete-perm :
      (k : Text) (m : SyncMap V) (v : V) → load k m ≡ some v → Perm m ((k, v) ∷ delete k m)
  unfolding load delete
  delete-perm k [] v h = cc
  delete-perm k ((j, w) ∷ m) v h = elim (Bool-cases (text_eq j k)) [
    | inl e ↦
        let jk : j ≡ k = (text_eq_iff j k).0 e in
        let wv : w ≡ v = ground arith in rw (e, jk, wv) (Perm.refl _)
    | inr e ↦ rw e (
        Perm.trans (Perm.cons (j, w) (delete-perm k m v (ground arith)))
          (Perm.swap (k, v) (j, w) _))
  ]

  pub mem_keys-keep :
      (p : V → Bool) (k : Text) (m : SyncMap V)
      → Mem k (keys (keep (λ e. p e.1) m))
      → Mem k (keys m)
  mem_keys-keep p k [] = λ hit. hit
  mem_keys-keep p k ((j, w) ∷ m) = elim (Bool-cases (p w)) [
    | inl e ↦ rw e (λ hit.
        Or.elim Mem-prop (mem-cons.0 hit) (λ kj. rw kj mem-cons_self)
          (λ later. mem-cons_of_mem j (mem_keys-keep p k m later)))
    | inr e ↦ rw e (λ hit. mem-cons_of_mem j (mem_keys-keep p k m hit))
  ]

  load_of_keep_here :
      (p : V → Bool) (j : Text) (w : V) (m : SyncMap V)
      → ¬ Mem j (keys m)
      → Mem j (keys (keep (λ e. p e.1) ((j, w) ∷ m)))
      → p w ≡ true
  load_of_keep_here p j w m fresh = elim (Bool-cases (p w)) [
    | inl e ↦ λ _. e
    | inr e ↦ rw e (λ hit. absurd (fresh (mem_keys-keep p j m hit)))
  ]

  mem_later :
      (p : V → Bool) (k j : Text) (w : V) (m : SyncMap V)
      → text_eq j k ≡ false
      → Mem k (keys (keep (λ e. p e.1) ((j, w) ∷ m)))
      → Mem k (keys (keep (λ e. p e.1) m))
  mem_later p k j w m ne = elim (Bool-cases (p w)) [
    | inl e ↦ rw e (λ hit.
        Or.elim Mem-prop (mem-cons.0 hit) (λ kj. ground (arith, text_eq_iff j k, sym kj))
          (λ later. later))
    | inr e ↦ rw e (λ hit. hit)
  ]

  -- With distinct keys, a key of the entries that pass a test has a value that passes it.
  pub load_of_keep :
      (p : V → Bool) (k : Text) (m : SyncMap V) (v : V)
      → Nodup (keys m)
      → Mem k (keys (keep (λ e. p e.1) m))
      → load k m ≡ some v
      → p v ≡ true
  unfolding load
  load_of_keep p k [] v d hit h = cc
  load_of_keep p k ((j, w) ∷ m) v d hit h = elim (Bool-cases (text_eq j k)) [
    | inl e ↦
        let jk : j ≡ k = (text_eq_iff j k).0 e in
        let wv : w ≡ v = ground arith in
        rw (← wv) (load_of_keep_here p j w m (Nodup-cons.0 d).0 (rw jk hit))
    | inr e ↦ load_of_keep p k m v (Nodup-cons.0 d).1 (mem_later p k j w m e hit) (ground arith)
  ]

  -- Taking out an entry that passes the test takes it from those that pass.
  pub keep-delete-perm :
      (p : V → Bool) (k : Text) (m : SyncMap V) (v : V)
      → load k m ≡ some v
      → p v ≡ true
      → Perm (keep (λ e. p e.1) m) ((k, v) ∷ keep (λ e. p e.1) (delete k m))
  unfolding load delete
  keep-delete-perm p k [] v h pv = cc
  keep-delete-perm p k ((j, w) ∷ m) v h pv = elim (Bool-cases (text_eq j k)) [
    | inl e ↦
        let jk : j ≡ k = (text_eq_iff j k).0 e in
        let wv : w ≡ v = ground arith in
        let pw : p w ≡ true = rw wv pv in rw (e, pw) (Perm.cons' (ground arith) (Perm.refl _))
    | inr e ↦
        let rest = keep-delete-perm p k m v (ground arith) pv in
        elim (Bool-cases (p w)) [
          | inl pw ↦ rw (e, pw) (Perm.trans (Perm.cons (j, w) rest) (Perm.swap (k, v) (j, w) _))
          | inr pw ↦ rw (e, pw) rest
        ]
  ]

  pub reject-delete :
      (p : V → Bool) (k : Text) (m : SyncMap V) (v : V)
      → load k m ≡ some v
      → p v ≡ true
      → reject (λ e. p e.1) (delete k m) ≡ reject (λ e. p e.1) m
  unfolding load delete
  reject-delete p k [] v h pv = refl
  reject-delete p k ((j, w) ∷ m) v h pv = ground (arith, reject-delete p k m v)

  -- Keys stay distinct.
  keys-store_mem :
      (k j : Text) (v : V) (m : SyncMap V) → Mem j (keys (store k v m)) → Mem j (k ∷ keys m)
  unfolding store
  keys-store_mem k j v [] = λ hit. hit
  keys-store_mem k j v ((i, w) ∷ m) = elim (Bool-cases (text_eq i k)) [
    | inl e ↦ rw e (λ hit. mem-cons_of_mem k hit)
    | inr e ↦ rw e (λ hit.
        Or.elim Mem-prop (mem-cons.0 hit) (λ ji. mem-cons_of_mem k (rw ji mem-cons_self))
          (λ later.
            Or.elim Mem-prop (mem-cons.0 (keys-store_mem k j v m later)) (λ jk. rw jk mem-cons_self)
              (λ old. mem-cons_of_mem k (mem-cons_of_mem i old))))
  ]

  pub store-Nodup : (k : Text) (v : V) (m : SyncMap V) → Nodup (keys m) → Nodup (keys (store k v m))
  unfolding store
  store-Nodup k v [] d = Nodup-cons.1 (not-mem-nil, Nodup-nil)
  store-Nodup k v ((i, w) ∷ m) d = elim (Bool-cases (text_eq i k)) [
    | inl e ↦ rw e d
    | inr e ↦ rw e (
        Nodup-cons.1 (
          (λ hit.
              Or.elim ⊥_prop (mem-cons.0 (keys-store_mem k i v m hit))
                (λ ik. ground (arith, text_eq_iff i k, ik)) (Nodup-cons.0 d).0),
          store-Nodup k v m (Nodup-cons.0 d).1,
        ))
  ]

  pub delete_absent : (k : Text) (m : SyncMap V) → load k m ≡ none → delete k m ≡ m
  unfolding load delete
  delete_absent k [] h = refl
  delete_absent k ((j, w) ∷ m) h = ground (arith, delete_absent k m)

  pub delete-Nodup : (k : Text) (m : SyncMap V) → Nodup (keys m) → Nodup (keys (delete k m))
  delete-Nodup k m d = elim (Option-cases (load k m)) [
    | inl e ↦ rw (delete_absent k m e) d
    | inr (v, e) ↦ (Nodup-cons.0 (Perm.nodup (Perm.map (λ x. x.0) (delete-perm k m v e)) d)).1
  ]
