-- ===== src/Queue/PopLoop.antt =====
-- The loop that both `PopItem`s end in: the chosen keys are loaded and deleted one by one.
use mathlib.Core.List.{Perm, Mem, Nodup, mem-cons_self}
use mathlib.Core.List.Perm
use joltifychain_bridge.Base.{
  ◌≡◌, refl, ap, ◌∙◌, Bool, true, none, some, Option, List, [], ◌∷◌, ◌++◌, Text, false, ◌&&◌, ◌||◌,
  ◌==◌, leb, if◌then◌else◌, All, keep, reject, Option-cases, inl, inr,
}
use joltifychain_bridge.Base.SyncMap.{SyncMap, load, delete, keys, values}
use joltifychain_bridge.Base.SyncMap.Laws.{
  delete-perm, load_of_keep, keep-delete-perm, reject-delete, delete-Nodup, not-mem_of_none,
  mem_keys-keep,
}
use joltifychain_bridge.Base.Outcome.{Outcome, ok, panic, ◌>>=◌}

-- the digits of a number
abbrev all_digits : Text → Bool
all_digits [] = true
all_digits (c ∷ s) = leb b'0' c && leb c b'9' && all_digits s

abbrev is_digits : Text → Bool
is_digits [] = false
is_digits (c ∷ s) = all_digits (c ∷ s)

-- whether SetString of a big.Int takes a key
abbrev is_number : Text → Bool
is_number [] = false
is_number (c ∷ s) = if c == b'-' || c == b'+' then is_digits s else is_digits (c ∷ s)

abbrev all_numbers : List Text → Bool
all_numbers [] = true
all_numbers (k ∷ ks) = is_number k && all_numbers ks

-- whether the keys can be sorted: Cmp of a nil number panics, but a single key is compared with none
unfoldable pub comparable : List Text → Bool
comparable [] = true
comparable (k ∷ []) = true
comparable (k ∷ j ∷ ks) = all_numbers (k ∷ j ∷ ks)

module _ {ℓ} {V : Type ℓ} where
  -- A key that is not there panics, "should never fail".
  abbrev load_or_panic : Option V → Outcome V
  load_or_panic none = panic
  load_or_panic (some v) = ok v

  unfoldable pub pop_loop : List Text → SyncMap V → Outcome (List V × SyncMap V)
  pop_loop [] m = ok ([], m)
  pop_loop (k ∷ ks) m = do
    v ← load_or_panic (load k m)
    (vs, m') ← pop_loop ks (delete k m)
    ok (v ∷ vs, m')

  abbrev pub passing : (V → Bool) → SyncMap V → SyncMap V
  passing p = keep (λ e. p e.1)

  abbrev pub failing : (V → Bool) → SyncMap V → SyncMap V
  failing p = reject (λ e. p e.1)

  -- What taking out the entries of the keys `ks` leaves, of which `ks'` pass the test.
  pub record TakesOut (p : V → Bool) (ks ks' : List Text) (m : SyncMap V) (popped rest : SyncMap V)
      : Type ℓ where
    pub runs : pop_loop ks m ≡ ok (values popped, rest)
    pub in_order : keys popped ≡ ks
    pub passes : All (λ e. p e.1 ≡ true) popped
    pub together : Perm m (popped ++ rest)
    pub left : Perm (keys (passing p rest)) ks'
    pub others : failing p rest ≡ failing p m
    pub distinct : Nodup (keys rest)

  pub pop_loop-TakesOut :
      (p : V → Bool) (ks ks' : List Text) (m : SyncMap V)
      → Nodup (keys m)
      → Perm (keys (passing p m)) (ks ++ ks')
      → (popped : SyncMap V) × (rest : SyncMap V) × TakesOut p ks ks' m popped rest
  unfolding pop_loop
  pop_loop-TakesOut p [] ks' m d h = (
    [],
    m,
    record {
      runs = refl;
      in_order = refl;
      passes = tt;
      together = Perm.refl m;
      left = h;
      others = refl;
      distinct = d;
    },
  )
  pop_loop-TakesOut p (k ∷ ks) ks' m d h = elim (Option-cases (load k m)) [
    | inl missing ↦ absurd (not-mem_of_none k m missing (mem_keys-keep p k m here))
    | inr (v, found) ↦
        let pv : p v ≡ true = load_of_keep p k m v d here found in
        let fewer = Perm.map (λ e. e.0) (keep-delete-perm p k m v found pv) in
        let (popped, rest, t) =
          pop_loop-TakesOut p ks ks' (delete k m) (delete-Nodup k m d)
            (Perm.cons_inv (Perm.trans (Perm.symm fewer) h)) in
        (
          (k, v) ∷ popped,
          rest,
          record {
            runs = rw found (rw t.runs);
            in_order = ap (◌∷◌ k) t.in_order;
            passes = (pv, t.passes);
            together = Perm.trans (delete-perm k m v found) (Perm.cons (k, v) t.together);
            left = t.left;
            others = t.others ∙ reject-delete p k m v found pv;
            distinct = t.distinct;
          },
        )
  ]
    where
      here : Mem k (keys (passing p m))
      here = (Perm.mem_iff h).1 mem-cons_self
