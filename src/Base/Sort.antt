-- ===== src/Base/Sort.antt =====
-- `sort.Slice` by an integer key: insertion sort, with the two facts that the program relies on.
use mathlib.Core.List.{Perm, Mem, mem-cons, mem-cons_of_mem, not-mem-nil}
use mathlib.Core.List.Perm
use mathlib.Core.Logic.Or
use native.Mathlib.Bridge.{le_prop}
use Prim.Native.Nat.{ℕ, zero, suc}
use mathlib.Core.Logic.{inl, inr}
use mathlib.Core.List.{List, [], ◌∷◌}
use native.Mathlib.Omega.{arith}
use joltifychain_bridge.Base.Tests.{if◌then◌else◌, Bool-cases}
use joltifychain_bridge.Base.Lists.{take, drop, All}
use joltifychain_bridge.Base.Int.{ℤ, ltb_ℤ, ◌≤ℤ◌}

module _ {ℓ} {A : Type ℓ} (key : A → ℤ) where
  unfoldable pub insert : A → List A → List A
  insert a [] = a ∷ []
  insert a (x ∷ xs) = if ltb_ℤ (key x) (key a) then x ∷ insert a xs else a ∷ x ∷ xs

  unfoldable pub sort : List A → List A
  unfolding insert
  sort [] = []
  sort (x ∷ xs) = insert x (sort xs)

  insert-perm : (a : A) (xs : List A) → Perm (insert a xs) (a ∷ xs)
  unfolding insert
  insert-perm a [] = Perm.refl _
  insert-perm a (x ∷ xs) = elim (Bool-cases (ltb_ℤ (key x) (key a))) [
    | inl e ↦ rw e (Perm.trans (Perm.cons x (insert-perm a xs)) (Perm.swap a x xs))
    | inr e ↦ rw e (Perm.refl _)
  ]

  pub sort-perm : (xs : List A) → Perm (sort xs) xs
  unfolding sort
  sort-perm [] = Perm.refl _
  sort-perm (x ∷ xs) = Perm.trans (insert-perm x (sort xs)) (Perm.cons x (sort-perm xs))

  -- No entry comes before one with a smaller key.
  abbrev pub IsSorted : List A → Type 0
  IsSorted [] = Unit
  IsSorted (x ∷ xs) = All (λ b. key x ≤ℤ key b) xs × IsSorted xs

  All-insert :
      (lo a : A) (xs : List A)
      → key lo ≤ℤ key a
      → All (λ b. key lo ≤ℤ key b) xs
      → All (λ b. key lo ≤ℤ key b) (insert a xs)
  unfolding insert
  All-insert lo a [] h hs = (h, tt)
  All-insert lo a (x ∷ xs) h hs = elim (Bool-cases (ltb_ℤ (key x) (key a))) [
    | inl e ↦ rw e (hs.0, All-insert lo a xs h hs.1)
    | inr e ↦ rw e (h, hs)
  ]

  All-below :
      (a x : A) (xs : List A)
      → key a ≤ℤ key x
      → All (λ b. key x ≤ℤ key b) xs
      → All (λ b. key a ≤ℤ key b) xs
  All-below a x [] h hs = tt
  All-below a x (y ∷ xs) h hs = (omega (arith, hs.0), All-below a x xs h hs.1)

  insert-IsSorted : (a : A) (xs : List A) → IsSorted xs → IsSorted (insert a xs)
  unfolding insert
  insert-IsSorted a [] h = (tt, tt)
  insert-IsSorted a (x ∷ xs) h = elim (Bool-cases (ltb_ℤ (key x) (key a))) [
    | inl e ↦ rw e (All-insert x a xs (ground arith) h.0, insert-IsSorted a xs h.1)
    | inr e ↦
        let first : key a ≤ℤ key x = ground arith in rw e ((first, All-below a x xs first h.0), h)
  ]

  pub sort-IsSorted : (xs : List A) → IsSorted (sort xs)
  unfolding sort
  sort-IsSorted [] = tt
  sort-IsSorted (x ∷ xs) = insert-IsSorted x (sort xs) (sort-IsSorted xs)

  All-take :
      (n : ℕ) (lo : A) (xs : List A)
      → All (λ b. key lo ≤ℤ key b) xs
      → All (λ b. key lo ≤ℤ key b) (take n xs)
  All-take zero lo xs h = tt
  All-take (suc n) lo [] h = tt
  All-take (suc n) lo (x ∷ xs) h = (h.0, All-take n lo xs h.1)

  pub take-IsSorted : (n : ℕ) (xs : List A) → IsSorted xs → IsSorted (take n xs)
  take-IsSorted zero xs h = tt
  take-IsSorted (suc n) [] h = tt
  take-IsSorted (suc n) (x ∷ xs) h = (All-take n x xs h.0, take-IsSorted n xs h.1)

  le_of_All : (a b : A) (xs : List A) → All (λ y. key a ≤ℤ key y) xs → Mem b xs → key a ≤ℤ key b
  le_of_All a b [] hs m = absurd (not-mem-nil m)
  le_of_All a b (x ∷ xs) hs m =
      Or.elim le_prop (mem-cons.0 m) (λ e. rw e hs.0) (le_of_All a b xs hs.1)

  mem_of_mem-drop : (n : ℕ) (b : A) (xs : List A) → Mem b (drop n xs) → Mem b xs
  mem_of_mem-drop zero b xs m = m
  mem_of_mem-drop (suc n) b [] m = m
  mem_of_mem-drop (suc n) b (x ∷ xs) m = mem-cons_of_mem x (mem_of_mem-drop n b xs m)

  -- What a cut takes from a sorted list is not above what it leaves.
  pub take-drop-le :
      (n : ℕ) (a b : A) (xs : List A)
      → IsSorted xs
      → Mem a (take n xs)
      → Mem b (drop n xs)
      → key a ≤ℤ key b
  take-drop-le zero a b xs s ma mb = absurd (not-mem-nil ma)
  take-drop-le (suc n) a b [] s ma mb = absurd (not-mem-nil ma)
  take-drop-le (suc n) a b (x ∷ xs) s ma mb =
      Or.elim le_prop (mem-cons.0 ma) (λ e. rw e (le_of_All x b xs s.0 (mem_of_mem-drop n b xs mb)))
        (λ m. take-drop-le n a b xs s.1 m mb)
