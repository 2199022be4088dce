-- ===== src/Etl/LoadNext/Oldest.antt =====
-- etl/collector.go: the load from a `SortableOldestAppearedBuffer`, which writes one value for a key.
use erigon_lib.Base.{
  ℕ, ◌+◌, ◌≡◌, ◌≢◌, refl, ap, ◌∙◌, arith, Bool, true, false, none, some, List, [], ◌∷◌, All, ◌==◌,
  Bool-cases, inl, inr, if◌then◌else◌,
}
use erigon_lib.Iter.Order.{bytes_lt, bytes_eq, bytes-IsOrdered}
use erigon_lib.Etl.Sorting.{Entry, by_key, by_key-IsWeakOrder, IsSorted, AtLeast}
use erigon_lib.Etl.LoadNext.{
  equals_prev, Target, LoadState, CursorCall, put, start, can_append, write_call, load_next,
  load_nexts,
}

abbrev pub seen_key : List ℕ → List (List ℕ) → Bool
seen_key k [] = false
seen_key k (s ∷ seen) = let rest = seen_key k seen in if bytes_eq s k then true else rest

-- The entries with a key that no entry before them has.
abbrev pub first_of_each : List (List ℕ) → List Entry → List Entry
first_of_each seen [] = []
first_of_each seen (e ∷ es) =
    let rest = first_of_each (e.0 ∷ seen) es in if seen_key e.0 seen then rest else e ∷ rest

abbrev pub HasValue : Entry → Type 0
HasValue e = e.1 ≢ []

-- The table is written by `Put`.
abbrev pub puts : List Entry → List CursorCall
puts [] = []
puts (e ∷ es) = put e.0 e.1 ∷ puts es

not_older :
    (k last : List ℕ) (older : List (List ℕ))
    → bytes_lt k last ≡ false
    → bytes_eq last k ≡ false
    → All (λ (o : List ℕ). bytes_lt last o ≡ false) older
    → seen_key k older ≡ false
not_older k last [] h n b = refl
not_older k last (o ∷ older) h n b = elim (Bool-cases (bytes_eq o k)) [
  | inr m ↦ rw m (not_older k last older h n b.1)
  | inl m ↦
      let is_k = bytes-IsOrdered.eq_sound o k m in
      let under : bytes_lt last k ≡ false = rw is_k at b.0 in
      let wrong = bytes-IsOrdered.total last k under n in cc
]

-- A key that is not below the last one is among the earlier ones only if it is the last one.
seen_last :
    (k last : List ℕ) (older : List (List ℕ))
    → bytes_lt k last ≡ false
    → All (λ (o : List ℕ). bytes_lt last o ≡ false) older
    → seen_key k (last ∷ older) ≡ bytes_eq last k
seen_last k last older h a = elim (Bool-cases (bytes_eq last k)) [
  | inl e ↦ rw e
  | inr n ↦ rw n (not_older k last older h n a)
]

module _ (t : Target) where
  -- Entries with a key that is not below the last one.
  abbrev After : List ℕ → List (List ℕ) → LoadState → Type 0
  After last older st =
      ((st.i == 0) ≡ false)
      × (st.can_use_append ≡ false)
      × (st.prev_k ≡ some last)
      × All (λ (o : List ℕ). bytes_lt last o ≡ false) older

  abbrev counted : LoadState → LoadState
  counted st = record st { i = st.i + 1; can_use_append = false }

  skip_step :
      (st : LoadState) (k v : List ℕ)
      → t.oldest_appeared ≡ true
      → can_append t st k ≡ false
      → equals_prev st.prev_k k ≡ true
      → load_next t st k v ≡ (counted st, none)
  unfolding load_next
  skip_step st k v o c same = rw (c, o, same)

  put_step :
      (st : LoadState) (k : List ℕ) (x : ℕ) (v : List ℕ)
      → t.oldest_appeared ≡ true
      → can_append t st k ≡ false
      → equals_prev st.prev_k k ≡ false
      → load_next t st k (x ∷ v) ≡ (record (counted st) { prev_k = some k }, some (put k (x ∷ v)))
  unfolding load_next write_call
  put_step st k x v o c other = rw (c, o, other)

  kept :
      (st : LoadState) (k : List ℕ)
      → (st.i == 0) ≡ false
      → st.can_use_append ≡ false
      → can_append t st k ≡ false
  unfolding can_append
  kept st k i c = rw (i, c)

  not_first : (n : ℕ) → (n + 1 == 0) ≡ false
  not_first n = ground arith

  as_least :
      (k last : List ℕ) (older : List (List ℕ))
      → bytes_lt k last ≡ false
      → All (λ (o : List ℕ). bytes_lt last o ≡ false) older
      → All (λ (o : List ℕ). bytes_lt k o ≡ false) older
  as_least k last [] h a = tt
  as_least k last (o ∷ older) h a = (
    by_key-IsWeakOrder.not_less_trans (o, []) (last, []) (k, []) a.0 h,
    as_least k last older h a.1,
  )

  oldest_rest :
      (es : List Entry) (last : List ℕ) (older : List (List ℕ)) (st : LoadState)
      → t.oldest_appeared ≡ true
      → After last older st
      → AtLeast by_key (last, []) es
      → IsSorted by_key es
      → All HasValue es
      → load_nexts t st es ≡ puts (first_of_each (last ∷ older) es)
  unfolding load_nexts
  oldest_rest [] last older st o a least sorted vals = refl
  oldest_rest ((k, []) ∷ es) last older st o a least sorted vals = absurd (vals.0 refl)
  oldest_rest ((k, x ∷ v) ∷ es) last older st o (i, can, prev, old) least sorted vals =
      let seen = seen_last k last older least.0 old in
      let older' : All (λ (q : List ℕ). bytes_lt k q ≡ false) (last ∷ older) =
        (least.0, as_least k last older least.0 old) in
      let never = kept st k i can in
      elim (Bool-cases (bytes_eq last k)) [
        | inl same ↦
            let step = skip_step st k (x ∷ v) o never (rw prev same) in
            rw (load_nexts, step, seen, same)
              (oldest_rest es k (last ∷ older) (counted st) o
                (
                  not_first st.i,
                  refl,
                  prev ∙ ap some (bytes-IsOrdered.eq_sound last k same),
                  older',
                )
                sorted.0 sorted.1 vals.1)
        | inr other ↦
            let step = put_step st k x v o never (rw prev other) in
            rw (load_nexts, step, seen, other)
              (ap (λ t. put k (x ∷ v) ∷ t)
                (oldest_rest es k (last ∷ older) (record (counted st) { prev_k = some k }) o
                  (not_first st.i, refl, refl, older') sorted.0 sorted.1 vals.1))
      ]

  -- A load from a buffer of the oldest values that is not by the identity function, of sorted entries that
  -- have values and of which the first has a key that is not empty, puts the first value of each key and
  -- calls nothing else.
  pub load_nexts-oldest :
      (b : ℕ) (k v : List ℕ) (es : List Entry)
      → t.oldest_appeared ≡ true
      → t.have_sorting_guaranties ≡ false
      → IsSorted by_key ((b ∷ k, v) ∷ es)
      → All HasValue ((b ∷ k, v) ∷ es)
      → load_nexts t start ((b ∷ k, v) ∷ es) ≡ puts (first_of_each [] ((b ∷ k, v) ∷ es))
  unfolding load_nexts
  load_nexts-oldest b k [] es o g sorted vals = absurd (vals.0 refl)
  load_nexts-oldest b k (x ∷ v) es o g sorted vals =
      let never : can_append t start (b ∷ k) ≡ false = first_kept g in
      rw (load_nexts, put_step start (b ∷ k) x v o never refl)
        (ap (λ t. put (b ∷ k) (x ∷ v) ∷ t)
          (oldest_rest es (b ∷ k) [] (record (counted start) { prev_k = some (b ∷ k) }) o
            (refl, refl, refl, tt) sorted.0 sorted.1 vals.1))
    where
      first_kept : t.have_sorting_guaranties ≡ false → can_append t start (b ∷ k) ≡ false
      first_kept h = unfold can_append in rw h
