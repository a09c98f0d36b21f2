-- ===== src/SigningRound/Phases.antt =====
-- Counting the goroutines of a batch and their messages.
use joltifychain_bridge.Base.{
  ℕ, zero, suc, ◌+◌, ◌<◌, ◌≤◌, ◌≡◌, refl, arith, Bool, true, false, none, some, List, [], ◌∷◌, ◌++◌,
  Text, length, ◌==◌, if◌then◌else◌, ◌⊎◌, inl, inr, All, Bool-cases, replicate,
}
use joltifychain_bridge.SigningRound.Steps.{Phase, TssReq, Received, put, get_elem?, set}

abbrev pub bit : Bool → ℕ
bit b = if b then 1 else 0

unfoldable pub count : (Phase → Bool) → List Phase → ℕ
count f [] = 0
count f (p ∷ ws) = bit (f p) + count f ws

-- how many messages of a goroutine wait in the channel
unfoldable pub waiting : ℕ → List TssReq → ℕ
waiting i [] = 0
waiting i (msg ∷ msgs) = bit (msg.index == i) + waiting i msgs

-- how many of them have been received
unfoldable pub taken : ℕ → Received → ℕ
taken i [] = 0
taken i ((j, d) ∷ received) = bit (j == i) + taken i received

pub get_elem?-set :
    (ws : List Phase) (i j : ℕ) (p q : Phase)
    → get_elem? ws i ≡ some p
    → get_elem? (set ws i q) j ≡ (if i == j then some q else get_elem? ws j)
get_elem?-set [] i j p q h = cc
get_elem?-set (w ∷ ws) zero zero p q h = refl
get_elem?-set (w ∷ ws) zero (suc j) p q h = ground arith
get_elem?-set (w ∷ ws) (suc i) zero p q h = ground arith
get_elem?-set (w ∷ ws) (suc i) (suc j) p q h = ground (arith, get_elem?-set ws i j p q h)

pub length-set : (ws : List Phase) (i : ℕ) (q : Phase) → length (set ws i q) ≡ length ws
length-set [] i q = refl
length-set (w ∷ ws) zero q = refl
length-set (w ∷ ws) (suc i) q = omega (arith, length-set ws i q)

module _ (f : Phase → Bool) where
  pub count-set :
      (ws : List Phase) (i : ℕ) (p q : Phase)
      → get_elem? ws i ≡ some p
      → count f (set ws i q) + bit (f p) ≡ count f ws + bit (f q)
  unfolding count
  count-set [] i p q h = cc
  count-set (w ∷ ws) zero p q h = let same : w ≡ p = ground arith in rw same (omega arith)
  count-set (w ∷ ws) (suc i) p q h = omega (arith, count-set ws i p q h)

  pub count-le : (ws : List Phase) → count f ws ≤ length ws
  unfolding count
  count-le [] = omega arith
  count-le (w ∷ ws) = ground (arith, count-le ws)

  pub count-lt :
      (ws : List Phase) (i : ℕ) (p : Phase)
      → get_elem? ws i ≡ some p
      → f p ≡ false
      → count f ws < length ws
  unfolding count
  count-lt [] i p h no_p = cc
  count-lt (w ∷ ws) zero p h no_p =
      let same : w ≡ p = ground arith in
      let none_here : f w ≡ false = rw same no_p in rw none_here (omega (arith, count-le ws))
  count-lt (w ∷ ws) (suc i) p h no_p = ground (arith, count-lt ws i p h no_p)

  pub count_pos :
      (ws : List Phase) (i : ℕ) (p : Phase) → get_elem? ws i ≡ some p → f p ≡ true → 0 < count f ws
  unfolding count
  count_pos [] i p h hit = cc
  count_pos (w ∷ ws) zero p h hit =
      let same : w ≡ p = ground arith in
      let here : f w ≡ true = rw same hit in rw here (omega arith)
  count_pos (w ∷ ws) (suc i) p h hit = omega (arith, count_pos ws i p h hit)

  -- A goroutine that passes the test, or all fail it.
  pub search_phase :
      (ws : List Phase)
      → ((i : ℕ) × (p : Phase) × (get_elem? ws i ≡ some p) × (f p ≡ true))
        ⊎ All (λ p. f p ≡ false) ws
  search_phase [] = inr tt
  search_phase (w ∷ ws) = elim (Bool-cases (f w)) [
    | inl hit ↦ inl (0, w, refl, hit)
    | inr miss ↦ elim (search_phase ws) [
      | inl (i, p, at_i, hit) ↦ inl (suc i, p, at_i, hit)
      | inr misses ↦ inr (miss, misses)
    ]
  ]

  pub count-All :
      (g : Phase → Bool) (ws : List Phase)
      → ((p : Phase) → g p ≡ false → f p ≡ true)
      → All (λ p. g p ≡ false) ws
      → count f ws ≡ length ws
  unfolding count
  count-All g [] covers misses = refl
  count-All g (w ∷ ws) covers misses =
      rw (covers w misses.0) (omega (arith, count-All g ws covers misses.1))

pub waiting-append :
    (i : ℕ) (msgs : List TssReq) (msg : TssReq)
    → waiting i (msgs ++ msg ∷ []) ≡ waiting i msgs + bit (msg.index == i)
unfolding waiting
waiting-append i [] msg = omega arith
waiting-append i (m ∷ msgs) msg = omega (arith, waiting-append i msgs msg)

-- A message of a goroutine that was not received before is one more.
pub length-put :
    (i : ℕ) (d : Text) (received : Received)
    → taken i received ≡ 0
    → length (put i d received) ≡ suc (length received)
unfolding taken put
length-put i d [] new = refl
length-put i d ((j, e) ∷ received) new = ground (arith, length-put i d received)

pub taken-put :
    (i k : ℕ) (d : Text) (received : Received)
    → taken i received ≡ 0
    → taken k (put i d received) ≡ taken k received + bit (i == k)
unfolding taken put
taken-put i k d [] new = omega arith
taken-put i k d ((j, e) ∷ received) new = ground (arith, taken-put i k d received)

pub get_elem?-replicate :
    (n i : ℕ) (p : Phase)
    → (get_elem? (replicate n p) i ≡ some p) ⊎ (get_elem? (replicate n p) i ≡ none)
get_elem?-replicate zero i p = inr refl
get_elem?-replicate (suc n) zero p = inl refl
get_elem?-replicate (suc n) (suc i) p = get_elem?-replicate n i p

pub count-replicate :
    (f : Phase → Bool) (n : ℕ) (p : Phase) → f p ≡ false → count f (replicate n p) ≡ 0
unfolding count
count-replicate f zero p h = refl
count-replicate f (suc n) p h = rw h (omega (arith, count-replicate f n p h))
