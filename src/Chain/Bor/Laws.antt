-- ===== src/Chain/Bor/Laws.antt =====
-- What the schedules of `BorConfig` of chain/chain_config.go give.
use erigon_lib.Base.{
  ℕ, zero, suc, ◌≤◌, ◌<◌, ◌≡◌, refl, ap, arith, Bool, true, false, ◌&&◌, some, List, [], ◌∷◌,
  get_elem?, All, leb, ltb, Bool-cases, inl, inr,
}
use erigon_lib.Chain.Bor.{
  Schedule, parse_uint, sort_map_keys, value_of, scheduled, calc_config, sprint_size,
}

-- The keys in the order of their texts are in the order of their numbers.
abbrev pub Increasing : List (List ℕ) → Type 0
Increasing [] = Unit
Increasing (k ∷ []) = Unit
Increasing (k ∷ k' ∷ ks) = (parse_uint k < parse_uint k') × Increasing (k' ∷ ks)

-- The first key is not above the number.
abbrev pub Begun : ℕ → List (List ℕ) → Type 0
Begun number [] = ⊥
Begun number (k ∷ ks) = parse_uint k ≤ number

-- The greatest key that is not above the number.
abbrev pub IsInForce : ℕ → List (List ℕ) → List ℕ → Type 0
IsInForce number ks k =
    ((i : ℕ) × (get_elem? ks i ≡ some k))
    × (parse_uint k ≤ number)
    × All (λ (j : List ℕ). parse_uint j ≤ number → parse_uint j ≤ parse_uint k) ks

Increasing-above :
    (n : ℕ) (k : List ℕ) (ks : List (List ℕ))
    → Increasing (k ∷ ks)
    → n < parse_uint k
    → All (λ (j : List ℕ). n < parse_uint j) ks
Increasing-above n k [] h le = tt
Increasing-above n k (k' ∷ ks) h le =
    (omega (arith, h.0, le), Increasing-above n k' ks h.1 (omega (arith, h.0, le)))

All-above :
    (n m : ℕ) (ks : List (List ℕ))
    → All (λ (j : List ℕ). n < parse_uint j) ks
    → All (λ (j : List ℕ). parse_uint j ≤ n → parse_uint j ≤ m) ks
All-above n m [] h = tt
All-above n m (k ∷ ks) h = ((λ le. absurd (omega (arith, le, h.0))), All-above n m ks h.1)

sprint_scheduled :
    (field : Schedule) (number : ℕ) (k : List ℕ) (ks : List (List ℕ))
    → Increasing (k ∷ ks)
    → parse_uint k ≤ number
    → (j : List ℕ) × (scheduled (λ val next. leb val number && ltb number next) field (k ∷ ks)
        ≡ some (value_of j field))
      × IsInForce number (k ∷ ks) j
unfolding scheduled
sprint_scheduled field number k [] inc le = (k, refl, ((0, refl), le, ((λ h. omega arith), tt)))
sprint_scheduled field number k (k' ∷ ks) inc le =
    let low : leb (parse_uint k) number ≡ true = ground arith in
    elim (Bool-cases (ltb number (parse_uint k'))) [
      | inl t ↦
          let under : number < parse_uint k' = ground arith in
          (
            k,
            rw (scheduled, low, t),
            (
              (0, refl),
              le,
              (
                (λ h. omega arith),
                (
                  (λ h. absurd (omega (arith, h, under))),
                  All-above number (parse_uint k) ks (Increasing-above number k' ks inc.1 under),
                ),
              ),
            ),
          )
      | inr f ↦
          let over : parse_uint k' ≤ number = ground arith in
          let (j, result, in_force) = sprint_scheduled field number k' ks inc.1 over in
          let ((i, at), below, greatest) = in_force in
          (
            j,
            rw (scheduled, low, f) result,
            ((suc i, at), below, ((λ h. omega (arith, inc.0, greatest.0 over)), greatest)),
          )
    ]

-- Where the order of the keys' texts is that of their numbers and the first one is not above the block,
-- `sprintSize` gives the value of the greatest key that is not above it.
pub sprint_size-IsInForce :
    (field : Schedule) (number : ℕ)
    → Increasing (sort_map_keys field)
    → Begun number (sort_map_keys field)
    → (k : List ℕ) × (sprint_size field number ≡ some (value_of k field))
      × IsInForce number (sort_map_keys field) k
unfolding sprint_size
sprint_size-IsInForce field number inc begun = go (sort_map_keys field) inc begun
  where
    go :
        (ks : List (List ℕ))
        → Increasing ks
        → Begun number ks
        → (k : List ℕ) × (scheduled (λ val next. leb val number && ltb number next) field ks
            ≡ some (value_of k field))
          × IsInForce number ks k
    go [] inc begun = absurd begun
    go (k ∷ ks) inc begun = sprint_scheduled field number k ks inc begun

abbrev pub last_key : List (List ℕ) → List ℕ
last_key [] = []
last_key (k ∷ []) = k
last_key (k ∷ k' ∷ ks) = last_key (k' ∷ ks)

above_scheduled :
    (field : Schedule) (number : ℕ) (k : List ℕ) (ks : List (List ℕ))
    → Increasing (k ∷ ks)
    → number ≤ parse_uint k
    → scheduled (λ val next. ltb val number && ltb number next) field (k ∷ ks)
      ≡ some (value_of (last_key (k ∷ ks)) field)
unfolding scheduled
above_scheduled field number k [] inc le = refl
above_scheduled field number k (k' ∷ ks) inc le =
    let high : ltb (parse_uint k) number ≡ false = ground arith in
    rw (scheduled, high) (above_scheduled field number k' ks inc.1 (omega (arith, inc.0, le)))

key_scheduled :
    (field : Schedule) (ks : List (List ℕ)) (i : ℕ) (k : List ℕ)
    → Increasing ks
    → get_elem? ks i ≡ some k
    → scheduled (λ val next. ltb val (parse_uint k) && ltb (parse_uint k) next) field ks
      ≡ some (value_of (last_key ks) field)
unfolding scheduled
key_scheduled field [] i k inc at = cc
key_scheduled field (x ∷ ks) zero k inc at =
    let same : x ≡ k = cc in
    above_scheduled field (parse_uint k) x ks inc (omega (arith, ap parse_uint same))
key_scheduled field (x ∷ []) (suc i) k inc at = cc
key_scheduled field (x ∷ y ∷ ks) (suc i) k inc at =
    let low : ltb (parse_uint k) (parse_uint y) ≡ false = key_low y ks i inc.1 at in
    rw
      (
        scheduled,
        and_false (ltb (parse_uint x) (parse_uint k)) (ltb (parse_uint k) (parse_uint y)) low,
      )
      (key_scheduled field (y ∷ ks) i k inc.1 at)
  where
    and_false : (a b : Bool) → b ≡ false → (a && b) ≡ false
    and_false true b h = h
    and_false false b h = refl

    key_least :
        (y : List ℕ) (ks : List (List ℕ)) (i : ℕ)
        → Increasing (y ∷ ks)
        → get_elem? (y ∷ ks) i ≡ some k
        → parse_uint y ≤ parse_uint k
    key_least y ks zero inc at = let same : y ≡ k = cc in omega (arith, ap parse_uint same)
    key_least y [] (suc i) inc at = cc
    key_least y (z ∷ ks) (suc i) inc at = omega (arith, inc.0, key_least z ks i inc.1 at)

    key_low :
        (y : List ℕ) (ks : List (List ℕ)) (i : ℕ)
        → Increasing (y ∷ ks)
        → get_elem? (y ∷ ks) i ≡ some k
        → ltb (parse_uint k) (parse_uint y) ≡ false
    key_low y ks i inc at = let least = key_least y ks i inc at in ground (arith, least)

-- At a block that is a key itself, where the order of the keys' texts is that of their numbers,
-- `calcConfig` gives the value of the last key, whichever key the block is.
pub calc_config-at_key :
    (field : Schedule) (i : ℕ) (k : List ℕ)
    → Increasing (sort_map_keys field)
    → get_elem? (sort_map_keys field) i ≡ some k
    → calc_config field (parse_uint k) ≡ some (value_of (last_key (sort_map_keys field)) field)
unfolding calc_config
calc_config-at_key field i k inc at = key_scheduled field (sort_map_keys field) i k inc at
