-- ===== src/Etl/Sorting.antt =====
-- The order of `bytes.Compare` on the keys of pairs, and the stable sort by it: what `sort.Stable` of the
-- buffers in etl/buffers.go gives.
use erigon_lib.Base.{
  ◌≡◌, refl, sym, ap, ◌∙◌, arith, Bool, true, false, List, [], ◌∷◌, ◌++◌, ℕ, suc, ◌+◌, length,
  if◌then◌else◌, map, All, Bool-cases, ◌⊎◌, inl, inr,
}
use erigon_lib.Iter.Order.{bytes_lt, bytes_eq, bytes-IsOrdered}

-- A key and its value.
abbrev pub Entry : Type 0
Entry = List ℕ × List ℕ

-- A strict order in which what is not less is at least.
pub record IsWeakOrder {A : Type 0} (less : A → A → Bool) : Type 0 where
  pub less_trans : (a b c : A) → less a b ≡ true → less b c ≡ true → less a c ≡ true
  pub less_asym : (a b : A) → less a b ≡ true → less b a ≡ false
  pub not_less_trans : (a b c : A) → less b a ≡ false → less c b ≡ false → less c a ≡ false

abbrev pub less_by : {A : Type 0} → (A → List ℕ) → A → A → Bool
less_by key a b = bytes_lt (key a) (key b)

bytes_lt_asym : (a b : List ℕ) → bytes_lt a b ≡ true → bytes_lt b a ≡ false
bytes_lt_asym a b h = elim (Bool-cases (bytes_lt b a)) [
  | inr n ↦ n
  | inl k ↦
      let loop = bytes-IsOrdered.lt_trans a b a h k in let none_ = bytes-IsOrdered.lt_irrefl a in cc
]

bytes_not_lt_trans :
    (a b c : List ℕ) → bytes_lt b a ≡ false → bytes_lt c b ≡ false → bytes_lt c a ≡ false
bytes_not_lt_trans a b c h k = elim (Bool-cases (bytes_lt c a)) [
  | inr n ↦ n
  | inl l ↦ elim (Bool-cases (bytes_eq b c)) [
    | inl e ↦
        let same = bytes-IsOrdered.eq_sound b c e in let k' : bytes_lt b a ≡ true = rw same l in cc
    | inr n ↦ elim (Bool-cases (bytes_lt b c)) [
      | inl bc ↦ let k' = bytes-IsOrdered.lt_trans b c a bc l in cc
      | inr nbc ↦ let k' = bytes-IsOrdered.total b c nbc n in cc
    ]
  ]
]

-- The order of the keys.
pub less_by-IsWeakOrder : {A : Type 0} → (key : A → List ℕ) → IsWeakOrder (less_by key)
less_by-IsWeakOrder key = record {
  less_trans = λ a b c. bytes-IsOrdered.lt_trans (key a) (key b) (key c);
  less_asym = λ a b. bytes_lt_asym (key a) (key b);
  not_less_trans = λ a b c. bytes_not_lt_trans (key a) (key b) (key c);
}

abbrev pub by_key : Entry → Entry → Bool
by_key a b = bytes_lt a.0 b.0

pub by_key-IsWeakOrder : IsWeakOrder by_key
by_key-IsWeakOrder = less_by-IsWeakOrder (λ (e : Entry). e.0)

module _ {A : Type 0} (less : A → A → Bool) where
  -- Before the first entry that is not less.
  unfoldable pub insert : A → List A → List A
  insert x [] = x ∷ []
  insert x (y ∷ ys) = let rest = insert x ys in if less y x then y ∷ rest else x ∷ y ∷ ys

  unfoldable pub inserts : List A → List A → List A
  inserts [] t = t
  inserts (x ∷ xs) t = insert x (inserts xs t)

  -- `sort.Stable`: by the keys, and entries with one key in the order in which they came.
  unfoldable pub stable_sort : List A → List A
  stable_sort xs = inserts xs []

  pub inserts-append : (xs ys t : List A) → inserts (xs ++ ys) t ≡ inserts xs (inserts ys t)
  unfolding inserts
  inserts-append [] ys t = refl
  inserts-append (x ∷ xs) ys t = ap (insert x) (inserts-append xs ys t)

  insert_skip : (x z : A) (l : List A) → less z x ≡ true → insert x (z ∷ l) ≡ z ∷ insert x l
  unfolding insert
  insert_skip x z l h = rw (h)

  insert_here : (x z : A) (l : List A) → less z x ≡ false → insert x (z ∷ l) ≡ x ∷ z ∷ l
  unfolding insert
  insert_here x z l h = rw (h)

  -- One is less than the other.
  abbrev pub Apart : A → A → Type 0
  Apart x y = (less y x ≡ true) ⊎ (less x y ≡ true)

  abbrev pub AtLeast : A → List A → Type 0
  AtLeast x l = All (λ (y : A). less y x ≡ false) l

  abbrev pub Above : A → List A → Type 0
  Above x l = All (λ (y : A). less x y ≡ true) l

  abbrev pub IsSorted : List A → Type 0
  IsSorted [] = Unit
  IsSorted (x ∷ l) = AtLeast x l × IsSorted l

  insert-All : (P : A → Type 0) (x : A) (l : List A) → P x → All P l → All P (insert x l)
  unfolding insert
  insert-All P x [] p h = (p, tt)
  insert-All P x (y ∷ l) p h = elim (Bool-cases (less y x)) [
    | inl k ↦ rw (k) (h.0, insert-All P x l p h.1)
    | inr k ↦ rw (k) (p, h)
  ]

  pub stable_sort-All : (P : A → Type 0) (xs : List A) → All P xs → All P (stable_sort xs)
  unfolding stable_sort inserts
  stable_sort-All P [] h = tt
  stable_sort-All P (x ∷ xs) h = insert-All P x (inserts xs []) h.0 (stable_sort-All P xs h.1)

  length-insert : (x : A) (l : List A) → length (insert x l) ≡ suc (length l)
  unfolding insert
  length-insert x [] = refl
  length-insert x (y ∷ l) = elim (Bool-cases (less y x)) [
    | inl h ↦ rw (h) (ap suc (length-insert x l))
    | inr h ↦ rw (h)
  ]

  length-inserts : (xs t : List A) → length (inserts xs t) ≡ length xs + length t
  unfolding inserts
  length-inserts [] t = omega arith
  length-inserts (x ∷ xs) t = omega (arith, length-insert x (inserts xs t), length-inserts xs t)

  pub length-stable_sort : (xs : List A) → length (stable_sort xs) ≡ length xs
  unfolding stable_sort
  length-stable_sort xs = omega (arith, length-inserts xs [])

-- The laws of the sort, for an order.
module _ {A : Type 0} (less : A → A → Bool) (ord : IsWeakOrder less) where
  insert_comm :
      (x y : A) (l : List A)
      → less y x ≡ true
      → insert less y (insert less x l) ≡ insert less x (insert less y l)
  unfolding insert
  insert_comm x y [] h = rw (h, ord.less_asym y x h)
  insert_comm x y (z ∷ l) h = elim (Bool-cases (less z y)) [
    | inl zy ↦
        let zx = ord.less_trans z y x zy h in
        ap (insert less y) (insert_skip less x z l zx)
        ∙ insert_skip less y z (insert less x l) zy
        ∙ ap (λ t. z ∷ t) (insert_comm x y l h)
        ∙ sym (
            ap (insert less x) (insert_skip less y z l zy)
            ∙ insert_skip less x z (insert less y l) zx)
    | inr zy ↦ elim (Bool-cases (less z x)) [
      | inl zx ↦
          ap (insert less y) (insert_skip less x z l zx)
          ∙ insert_here less y z (insert less x l) zy
          ∙ ap (λ t. y ∷ t) (sym (insert_skip less x z l zx))
          ∙ sym (ap (insert less x) (insert_here less y z l zy) ∙ insert_skip less x y (z ∷ l) h)
      | inr zx ↦
          ap (insert less y) (insert_here less x z l zx)
          ∙ insert_here less y x (z ∷ l) (ord.less_asym y x h)
          ∙ ap (λ t. y ∷ t) (sym (insert_here less x z l zx))
          ∙ sym (ap (insert less x) (insert_here less y z l zy) ∙ insert_skip less x y (z ∷ l) h)
    ]
  ]

  -- They are put in in any order.
  pub insert-inserts :
      (x : A) (xs t : List A)
      → All (Apart less x) xs
      → insert less x (inserts less xs t) ≡ inserts less xs (insert less x t)
  unfolding inserts
  insert-inserts x [] t h = refl
  insert-inserts x (y ∷ xs) t h =
      elim h.0 [
        | inl k ↦ sym (insert_comm x y (inserts less xs t) k)
        | inr k ↦ insert_comm y x (inserts less xs t) k
      ]
      ∙ ap (insert less y) (insert-inserts x xs t h.1)

  inserts-insert :
      (x : A) (xs t : List A)
      → inserts less (insert less x xs) t ≡ insert less x (inserts less xs t)
  unfolding inserts insert
  inserts-insert x [] t = refl
  inserts-insert x (y ∷ xs) t = elim (Bool-cases (less y x)) [
    | inl h ↦
        rw (h) (ap (insert less y) (inserts-insert x xs t) ∙ insert_comm x y (inserts less xs t) h)
    | inr h ↦ rw (h)
  ]

  -- To sort before is of no use.
  pub inserts-stable_sort :
      (xs t : List A) → inserts less (stable_sort less xs) t ≡ inserts less xs t
  unfolding stable_sort inserts
  inserts-stable_sort [] t = refl
  inserts-stable_sort (x ∷ xs) t =
      inserts-insert x (inserts less xs []) t ∙ ap (insert less x) (inserts-stable_sort xs t)

  pub AtLeast-mono : (x y : A) (l : List A) → less y x ≡ false → AtLeast less y l → AtLeast less x l
  AtLeast-mono x y [] h a = tt
  AtLeast-mono x y (z ∷ l) h a = (ord.not_less_trans x y z h a.0, AtLeast-mono x y l h a.1)

  insert-AtLeast :
      (x y : A) (l : List A)
      → less y x ≡ false
      → AtLeast less x l
      → AtLeast less x (insert less y l)
  unfolding insert
  insert-AtLeast x y [] h a = (h, tt)
  insert-AtLeast x y (z ∷ l) h a = elim (Bool-cases (less z y)) [
    | inl k ↦ rw (k) (a.0, insert-AtLeast x y l h a.1)
    | inr k ↦ rw (k) (h, a)
  ]

  insert-IsSorted : (x : A) (l : List A) → IsSorted less l → IsSorted less (insert less x l)
  unfolding insert
  insert-IsSorted x [] s = (tt, tt)
  insert-IsSorted x (y ∷ l) s = elim (Bool-cases (less y x)) [
    | inl k ↦ rw (k) (insert-AtLeast y x l (ord.less_asym y x k) s.0, insert-IsSorted x l s.1)
    | inr k ↦ rw (k) ((k, AtLeast-mono x y l k s.0), s)
  ]

  pub inserts-IsSorted : (xs t : List A) → IsSorted less t → IsSorted less (inserts less xs t)
  unfolding inserts
  inserts-IsSorted [] t s = s
  inserts-IsSorted (x ∷ xs) t s = insert-IsSorted x (inserts less xs t) (inserts-IsSorted xs t s)

  pub stable_sort-IsSorted : (xs : List A) → IsSorted less (stable_sort less xs)
  unfolding stable_sort
  stable_sort-IsSorted xs = inserts-IsSorted xs [] tt

  inserts-AtLeast :
      (x : A) (xs t : List A)
      → AtLeast less x xs
      → AtLeast less x t
      → AtLeast less x (inserts less xs t)
  unfolding inserts
  inserts-AtLeast x [] t a b = b
  inserts-AtLeast x (y ∷ xs) t a b =
      insert-AtLeast x y (inserts less xs t) a.0 (inserts-AtLeast x xs t a.1 b)

  insert_least : (x : A) (l : List A) → AtLeast less x l → insert less x l ≡ x ∷ l
  unfolding insert
  insert_least x [] a = refl
  insert_least x (y ∷ l) a = rw (a.0)

  -- An entry that is less than all before it and not above those behind it comes first.
  pub stable_sort_first :
      (x : A) (xs ys : List A)
      → Above less x xs
      → AtLeast less x ys
      → stable_sort less (xs ++ (x ∷ ys)) ≡ x ∷ stable_sort less (xs ++ ys)
  unfolding stable_sort inserts
  stable_sort_first x [] ys a b = insert_least x (inserts less ys []) (inserts-AtLeast x ys [] b tt)
  stable_sort_first x (y ∷ xs) ys a b =
      ap (insert less y) (stable_sort_first x xs ys a.1 b) ∙ behind (inserts less (xs ++ ys) [])
    where
      behind : (l : List A) → insert less y (x ∷ l) ≡ x ∷ insert less y l
      behind l = unfold insert in rw (a.0)

  -- What is sorted stays as it is.
  pub stable_sort-IsSorted_id : (xs : List A) → IsSorted less xs → stable_sort less xs ≡ xs
  unfolding stable_sort inserts
  stable_sort-IsSorted_id [] s = refl
  stable_sort-IsSorted_id (x ∷ xs) s =
      ap (insert less x) (stable_sort-IsSorted_id xs s.1) ∙ insert_least x xs s.0

-- Sorting by the keys of images is sorting the images.
module _ {A B : Type 0} (less : B → B → Bool) (f : A → B) where
  insert-map :
      (x : A) (l : List A)
      → map f (insert (λ (a b : A). less (f a) (f b)) x l) ≡ insert less (f x) (map f l)
  unfolding insert
  insert-map x [] = refl
  insert-map x (y ∷ l) = elim (Bool-cases (less (f y) (f x))) [
    | inl h ↦ rw (h) (ap (λ t. f y ∷ t) (insert-map x l))
    | inr h ↦ rw (h)
  ]

  inserts-map :
      (xs t : List A)
      → map f (inserts (λ (a b : A). less (f a) (f b)) xs t) ≡ inserts less (map f xs) (map f t)
  unfolding inserts
  inserts-map [] t = refl
  inserts-map (x ∷ xs) t =
      insert-map x (inserts (λ (a b : A). less (f a) (f b)) xs t)
      ∙ ap (insert less (f x)) (inserts-map xs t)

  pub stable_sort-map :
      (xs : List A)
      → map f (stable_sort (λ (a b : A). less (f a) (f b)) xs) ≡ stable_sort less (map f xs)
  unfolding stable_sort
  stable_sort-map xs = inserts-map xs []
