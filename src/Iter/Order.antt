-- ===== src/Iter/Order.antt =====
-- The ordered types that the iterators of kv/iter/iter.go compare: Go's `constraints.Ordered`, of
-- which `uint64` is used, and byte slices under `bytes.Compare`.
use erigon_lib.Base.{
  ℕ, ◌≡◌, refl, arith, Bool, true, false, List, [], ◌∷◌, ltb, ◌==◌, if◌then◌else◌,
}

-- `zero_value` is what a variable of the type holds before it is set.
pub record Ordered (K : Type 0) : Type 0 where
  pub zero_value : K
  pub lt : K → K → Bool
  pub eq : K → K → Bool

-- What holds of the comparisons of such a type.
pub record IsOrdered {K : Type 0} (ord : Ordered K) : Type 0 where
  pub lt_trans : (a b c : K) → ord.lt a b ≡ true → ord.lt b c ≡ true → ord.lt a c ≡ true
  pub lt_irrefl : (a : K) → ord.lt a a ≡ false
  pub eq_sound : (a b : K) → ord.eq a b ≡ true → a ≡ b
  pub eq_refl : (a : K) → ord.eq a a ≡ true
  pub total : (a b : K) → ord.lt a b ≡ false → ord.eq a b ≡ false → ord.lt b a ≡ true

nat_trans : (a b c : ℕ) → ltb a b ≡ true → ltb b c ≡ true → ltb a c ≡ true
nat_trans a b c h k = ground arith

nat_total : (a b : ℕ) → ltb a b ≡ false → (a == b) ≡ false → ltb b a ≡ true
nat_total a b h k = ground arith

nat_irrefl : (a : ℕ) → ltb a a ≡ false
nat_irrefl a = ground arith

nat_sound : (a b : ℕ) → (a == b) ≡ true → a ≡ b
nat_sound a b h = ground arith

nat_refl : (a : ℕ) → (a == a) ≡ true
nat_refl a = ground arith

abbrev pub nat_ordered : Ordered ℕ
nat_ordered = record { zero_value = 0; lt = ltb; eq = ◌==◌ }

pub nat-IsOrdered : IsOrdered nat_ordered
nat-IsOrdered = record {
  lt_trans = nat_trans;
  lt_irrefl = nat_irrefl;
  eq_sound = nat_sound;
  eq_refl = nat_refl;
  total = nat_total;
}

-- `bytes.Compare(a, b) < 0` and `bytes.Compare(a, b) == 0`: lexicographic.
abbrev pub bytes_lt : List ℕ → List ℕ → Bool
bytes_lt [] [] = false
bytes_lt [] (b ∷ bs) = true
bytes_lt (a ∷ as') [] = false
bytes_lt (a ∷ as') (b ∷ bs) =
    let rest = bytes_lt as' bs in if ltb a b then true else if a == b then rest else false

abbrev pub bytes_eq : List ℕ → List ℕ → Bool
bytes_eq [] [] = true
bytes_eq [] (b ∷ bs) = false
bytes_eq (a ∷ as') [] = false
bytes_eq (a ∷ as') (b ∷ bs) = let rest = bytes_eq as' bs in if a == b then rest else false

bytes_trans : (a b c : List ℕ) → bytes_lt a b ≡ true → bytes_lt b c ≡ true → bytes_lt a c ≡ true
bytes_trans [] [] c h k = cc
bytes_trans [] (y ∷ b) [] h k = cc
bytes_trans [] (y ∷ b) (z ∷ c) h k = refl
bytes_trans (x ∷ a) [] c h k = cc
bytes_trans (x ∷ a) (y ∷ b) [] h k = cc
bytes_trans (x ∷ a) (y ∷ b) (z ∷ c) h k = ground (arith, bytes_trans a b c)

bytes_irrefl : (a : List ℕ) → bytes_lt a a ≡ false
bytes_irrefl [] = refl
bytes_irrefl (x ∷ a) = ground (arith, bytes_irrefl a)

bytes_sound : (a b : List ℕ) → bytes_eq a b ≡ true → a ≡ b
bytes_sound [] [] h = refl
bytes_sound [] (y ∷ b) h = cc
bytes_sound (x ∷ a) [] h = cc
bytes_sound (x ∷ a) (y ∷ b) h = ground (arith, bytes_sound a b)

bytes_refl : (a : List ℕ) → bytes_eq a a ≡ true
bytes_refl [] = refl
bytes_refl (x ∷ a) = ground (arith, bytes_refl a)

bytes_total : (a b : List ℕ) → bytes_lt a b ≡ false → bytes_eq a b ≡ false → bytes_lt b a ≡ true
bytes_total [] [] h k = cc
bytes_total [] (y ∷ b) h k = cc
bytes_total (x ∷ a) [] h k = refl
bytes_total (x ∷ a) (y ∷ b) h k = ground (arith, bytes_total a b)

abbrev pub bytes_ordered : Ordered (List ℕ)
bytes_ordered = record { zero_value = []; lt = bytes_lt; eq = bytes_eq }

pub bytes-IsOrdered : IsOrdered bytes_ordered
bytes-IsOrdered = record {
  lt_trans = bytes_trans;
  lt_irrefl = bytes_irrefl;
  eq_sound = bytes_sound;
  eq_refl = bytes_refl;
  total = bytes_total;
}

-- Pairs of a key and a value are compared by their keys.
abbrev pub keys_ordered : {V : Type 0} → V → Ordered (List ℕ × V)
keys_ordered none_ = record {
  zero_value = ([], none_);
  lt = λ a b. bytes_lt a.0 b.0;
  eq = λ a b. bytes_eq a.0 b.0;
}
