-- ===== src/Iter/Intersect.antt =====
-- kv/iter/iter.go: `IntersectIter`, the values that two iterators have in common. `advanceX` and
-- `advanceY` are those of `UnionIter`.
use erigon_lib.Base.{
  ℕ, zero, suc, ◌+◌, ◌≤◌, ◌<◌, ◌≡◌, refl, ◌∙◌, arith, Bool, true, false, ◌&&◌, Option, none, some,
  Result, ok, err, ◌⊎◌, inl, inr, Bool-cases,
}
use erigon_lib.Iter.{Unary, Out, end, stop, item, Streams, ends, gives, size}
use erigon_lib.Iter.Order.{Ordered}
use erigon_lib.Iter.Union.{UnionIter, advance_x, advance_y, start, ◌>>=◌}
use erigon_lib.Iter.Advance.{IsLive, Rep, advance_both-Rep, advance_x-Rep, advance_y-Rep}

module _ {E X Y K : Type 0} (ord : Ordered K) (ix : Unary E X K) (iy : Unary E Y K) where
  -- `m.xHasNext = false`
  abbrev pub close : UnionIter E X Y K → UnionIter E X Y K
  close m = record m { x_has = false }

  -- The loop of `advance`, a round for each unit of fuel.
  unfoldable pub intersect_loop : ℕ → UnionIter E X Y K → Option (UnionIter E X Y K)
  intersect_loop zero m = none
  intersect_loop (suc fuel) m = elim (m.x_has && m.y_has) [
    | false ↦ some (close m)
    | true ↦ elim m.error [
      | some e ↦ some (close m)
      | none ↦ elim (ord.lt m.x_next_k m.y_next_k) [
        | true ↦ advance_x ord ix iy m >>= intersect_loop fuel
        | false ↦ elim (ord.eq m.x_next_k m.y_next_k) [
          | true ↦ some m
          | false ↦ advance_y ord ix iy m >>= intersect_loop fuel
        ]
      ]
    ]
  ]

  unfoldable pub intersect_advance : ℕ → UnionIter E X Y K → Option (UnionIter E X Y K)
  intersect_advance fuel m = advance_x ord ix iy m >>= advance_y ord ix iy >>= intersect_loop fuel

  -- `Intersect` of two iterators neither of which is nil.
  unfoldable pub intersect : ℕ → X → Y → Option (UnionIter E X Y K)
  intersect fuel x y = intersect_advance fuel (start ord ix iy x y)

  unfoldable pub intersect_has_next : UnionIter E X Y K → Bool × UnionIter E X Y K
  intersect_has_next m = (m.x_has && m.y_has, m)

  abbrev value_or_error : Option E → K → Result E K
  value_or_error none k = ok k
  value_or_error (some e) k = err e

  unfoldable pub intersect_next : ℕ → UnionIter E X Y K → Option (Result E K × UnionIter E X Y K)
  intersect_next fuel m =
      intersect_advance fuel m >>= λ m'. some (value_or_error m.error m.x_next_k, m')

  unfoldable pub intersect_iter : ℕ → Unary E (UnionIter E X Y K) K
  intersect_iter fuel = record { has_next = intersect_has_next; next = intersect_next fuel }

module _ {E K : Type 0} (ord : Ordered K) where
  -- The common values of two sequences. An error of either of them reads as an end.
  unfoldable pub intersect_of : Out E K → Out E K → Out E K
  intersect_of (stop e) b = end
  intersect_of end b = end
  intersect_of (item x xs) end = end
  intersect_of (item x xs) (stop e) = end
  intersect_of (item x xs) (item y ys) = elim (ord.lt x y) [
    | true ↦ intersect_of xs (item y ys)
    | false ↦ elim (ord.eq x y) [
      | true ↦ item x (intersect_of xs ys)
      | false ↦ intersect_of (item x xs) ys
    ]
  ]

  abbrev Swallowed : Out E K → Out E K → E → Type 0
  Swallowed a b e = intersect_of a b ≡ end

  Swallowed-x : (b : Out E K) (e : E) → Swallowed (stop e) b e
  unfolding intersect_of
  Swallowed-x b e = refl

  Swallowed-y : (a : Out E K) (e : E) → IsLive a → Swallowed a (stop e) e
  unfolding intersect_of
  Swallowed-y end e s = refl
  Swallowed-y (stop x) e s = refl
  Swallowed-y (item k o) e s = refl

module _ {E X Y K : Type 0} (ord : Ordered K) (ix : Unary E X K) (iy : Unary E Y K) where
  -- The state between calls: closed, or at a common value with fewer than `n` values left behind it.
  abbrev Stopped : UnionIter E X Y K → ℕ → Out E K → Type 0
  Stopped m n o =
      ((o ≡ end) × ((m.x_has && m.y_has) ≡ false))
      ⊎ ((xs : Out E K) × (ys : Out E K) × (o ≡ item m.x_next_k (intersect_of ord xs ys))
          × (m.error ≡ none)
          × (m.x_has ≡ true)
          × (m.y_has ≡ true)
          × Streams ix m.x xs
          × Streams iy m.y ys
          × (size xs + size ys < n))

  abbrev RepI : UnionIter E X Y K → Out E K → Out E K → Type 0
  RepI m a b = Rep ord ix iy (Swallowed ord) (Swallowed-x ord) (Swallowed-y ord) m a b

  -- A round that closes the state.
  loop_closed :
      (m : UnionIter E X Y K) (fuel : ℕ)
      → (m.x_has && m.y_has) ≡ false
      → intersect_loop ord ix iy (suc fuel) m ≡ some (close ord ix iy m)
  unfolding intersect_loop
  loop_closed m fuel h = simp (h, intersect_loop)

  loop_failed :
      (m : UnionIter E X Y K) (fuel : ℕ) (e : E)
      → m.error ≡ some e
      → intersect_loop ord ix iy (suc fuel) m ≡ some (close ord ix iy m)
  unfolding intersect_loop
  loop_failed m fuel e h = elim (Bool-cases (m.x_has && m.y_has)) [
    | inl both ↦ simp (both, h, intersect_loop)
    | inr not_both ↦ simp (not_both, intersect_loop)
  ]

  module _ (m : UnionIter E X Y K) (fuel : ℕ) (n : m.error ≡ none) (h : m.x_has ≡ true)
      (k : m.y_has ≡ true) where
    loop_less :
        (m' : UnionIter E X Y K)
        → ord.lt m.x_next_k m.y_next_k ≡ true
        → advance_x ord ix iy m ≡ some m'
        → intersect_loop ord ix iy (suc fuel) m ≡ intersect_loop ord ix iy fuel m'
    unfolding intersect_loop
    loop_less m' l p = simp (n, h, k, l, p, intersect_loop)

    loop_same :
        ord.lt m.x_next_k m.y_next_k ≡ false
        → ord.eq m.x_next_k m.y_next_k ≡ true
        → intersect_loop ord ix iy (suc fuel) m ≡ some m
    unfolding intersect_loop
    loop_same l e = simp (n, h, k, l, e, intersect_loop)

    loop_more :
        (m' : UnionIter E X Y K)
        → ord.lt m.x_next_k m.y_next_k ≡ false
        → ord.eq m.x_next_k m.y_next_k ≡ false
        → advance_y ord ix iy m ≡ some m'
        → intersect_loop ord ix iy (suc fuel) m ≡ intersect_loop ord ix iy fuel m'
    unfolding intersect_loop
    loop_more m' l e p = simp (n, h, k, l, e, p, intersect_loop)

  off_x : (m : UnionIter E X Y K) → m.x_has ≡ false → (m.x_has && m.y_has) ≡ false
  off_x m h = simp (h)

  off_y : (m : UnionIter E X Y K) → m.y_has ≡ false → (m.x_has && m.y_has) ≡ false
  off_y m h = elim (Bool-cases m.x_has) [ inl l ↦ simp (l, h) | inr l ↦ simp (l) ]

  -- The round of a state with a common value, or the state that the loop closes.
  closed :
      (m : UnionIter E X Y K) (fuel k : ℕ)
      → (m.x_has && m.y_has) ≡ false
      → (m' : UnionIter E X Y K) × (intersect_loop ord ix iy (suc fuel) m ≡ some m')
        × Stopped m' k end
  closed m fuel k h = (close ord ix iy m, loop_closed m fuel h, inl (refl, refl))

  at_round :
      (m m1 : UnionIter E X Y K) (fuel fuel' : ℕ) {k k' : ℕ} {o o' : Out E K}
      → intersect_loop ord ix iy fuel m ≡ intersect_loop ord ix iy fuel' m1
      → o ≡ o'
      → k' ≤ k
      → (m' : UnionIter E X Y K) × (intersect_loop ord ix iy fuel' m1 ≡ some m') × Stopped m' k' o'
      → (m' : UnionIter E X Y K) × (intersect_loop ord ix iy fuel m ≡ some m') × Stopped m' k o
  at_round m m1 fuel fuel' l e le (m', p, inl (en, h)) = (m', l ∙ p, inl (e ∙ en, h))
  at_round m m1 fuel fuel' l e le (m', p, inr (xs, ys, q, n, hx, hy, sx, sy, lt)) =
      (m', l ∙ p, inr (xs, ys, e ∙ q, n, hx, hy, sx, sy, omega arith))

  of_less :
      (x y : K) (xs ys : Out E K)
      → ord.lt x y ≡ true
      → intersect_of ord (item x xs) (item y ys) ≡ intersect_of ord xs (item y ys)
  unfolding intersect_of
  of_less x y xs ys l = rw (l, intersect_of)

  of_more :
      (x y : K) (xs ys : Out E K)
      → ord.lt x y ≡ false
      → ord.eq x y ≡ false
      → intersect_of ord (item x xs) (item y ys) ≡ intersect_of ord (item x xs) ys
  unfolding intersect_of
  of_more x y xs ys l e = rw (l, e, intersect_of)

  of_same :
      (x y : K) (xs ys : Out E K)
      → ord.lt x y ≡ false
      → ord.eq x y ≡ true
      → intersect_of ord (item x xs) (item y ys) ≡ item x (intersect_of ord xs ys)
  unfolding intersect_of
  of_same x y xs ys l e = rw (l, e, intersect_of)

  -- The loop ends at the next common value, or closed.
  loop_lem :
      (fuel : ℕ) (m : UnionIter E X Y K) (a b : Out E K)
      → RepI m a b
      → size a + size b < fuel
      → (m' : UnionIter E X Y K) × (intersect_loop ord ix iy fuel m ≡ some m')
        × Stopped m' (size a + size b) (intersect_of ord a b)
  unfolding intersect_of
  loop_lem zero m a b r lt = absurd (omega arith)
  loop_lem (suc fuel) m a b (inr (e, h, s)) lt =
      (close ord ix iy m, loop_failed m fuel e h, inl (s, refl))
  loop_lem (suc fuel) m (stop e) b (inl (n, sx, sy)) lt = absurd sx
  loop_lem (suc fuel) m end (stop e) (inl (n, sx, sy)) lt = absurd sy
  loop_lem (suc fuel) m (item x xs) (stop e) (inl (n, sx, sy)) lt = absurd sy
  loop_lem (suc fuel) m end end (inl (n, sx, sy)) lt = closed m fuel _ (off_x m sx)
  loop_lem (suc fuel) m end (item y ys) (inl (n, sx, sy)) lt = closed m fuel _ (off_x m sx)
  loop_lem (suc fuel) m (item x xs) end (inl (n, sx, sy)) lt = closed m fuel _ (off_y m sy)
  loop_lem (suc fuel) m (item x xs) (item y ys) (inl (n, (hx, ex, sx), (hy, ey, sy))) lt =
      elim (Bool-cases (ord.lt x y)) [
        | inl less ↦
            let (m', p, r) =
              advance_x-Rep ord ix iy (Swallowed ord) (Swallowed-x ord) (Swallowed-y ord) m
                (item y ys) n sx (hy, ey, sy) in
            at_round m m' (suc fuel) fuel (loop_less m fuel n hx hy m' (rw (ex, ey) less) p)
              (of_less x y xs ys less) (omega arith)
              (loop_lem fuel m' xs (item y ys) r (omega arith))
        | inr not_less ↦ elim (Bool-cases (ord.eq x y)) [
          | inl same ↦ (
            m,
            loop_same m fuel n hx hy (rw (ex, ey) not_less) (rw (ex, ey) same),
            inr (xs, ys, rw (of_same x y xs ys not_less same, ex), n, hx, hy, sx, sy, omega arith),
          )
          | inr other ↦
              let (m', p, r) =
                advance_y-Rep ord ix iy (Swallowed ord) (Swallowed-x ord) (Swallowed-y ord) m
                  (item x xs) n (hx, ex, sx) sy in
              at_round m m' (suc fuel) fuel
                (loop_more m fuel n hx hy m' (rw (ex, ey) not_less) (rw (ex, ey) other) p)
                (of_more x y xs ys not_less other) (omega arith)
                (loop_lem fuel m' (item x xs) ys r (omega arith))
        ]
      ]

  -- `advance` from inputs that stream `a` and `b`.
  intersect_advance_lem :
      (fuel : ℕ) (m : UnionIter E X Y K) {a b : Out E K}
      → m.error ≡ none
      → Streams ix m.x a
      → Streams iy m.y b
      → size a + size b < fuel
      → (m' : UnionIter E X Y K) × (intersect_advance ord ix iy fuel m ≡ some m')
        × Stopped m' (size a + size b) (intersect_of ord a b)
  unfolding intersect_advance
  intersect_advance_lem fuel m {a} {b} n sx sy lt =
      let (m1, m2, p, q, r) =
        advance_both-Rep ord ix iy (Swallowed ord) (Swallowed-x ord) (Swallowed-y ord) m n sx sy in
      let (m', l, s) = loop_lem fuel m2 a b r lt in (m', rw (p, q, l), s)

  next_same :
      (fuel : ℕ) (m m' : UnionIter E X Y K)
      → m.error ≡ none
      → intersect_advance ord ix iy fuel m ≡ some m'
      → intersect_next ord ix iy fuel m ≡ some (ok m.x_next_k, m')
  unfolding intersect_next
  next_same fuel m m' n p = simp (n, p, intersect_next)

  Stopped-Streams :
      (bound fuel : ℕ) (m : UnionIter E X Y K) (k : ℕ) {o : Out E K}
      → Stopped m k o
      → k ≤ bound
      → k ≤ fuel
      → Streams (intersect_iter ord ix iy fuel) m o
  unfolding intersect_iter intersect_has_next
  Stopped-Streams bound fuel m k (inl (e, h)) le lf = rw e (ends {s' = m} (simp (h)))
  Stopped-Streams zero fuel m k (inr (xs, ys, q, n, hx, hy, sx, sy, lt)) le lf =
      absurd (omega arith)
  Stopped-Streams (suc bound) fuel m k (inr (xs, ys, q, n, hx, hy, sx, sy, lt)) le lf =
      let (m', p, s) = intersect_advance_lem fuel m n sx sy (omega arith) in
      rw q (
        gives {s1 = m} (simp (hx, hy)) (next_same fuel m m' n p)
          (Stopped-Streams bound fuel m' _ s (omega arith) (omega arith)))

  -- Two inputs that stream `a` and `b` give an iterator that streams the values that a merge scan
  -- finds in both. Fuel above the number of values of both is enough for every call of `advance`.
  -- An error of an input is not passed on: the iterator ends there as if the input had ended.
  pub intersect-Streams :
      (fuel : ℕ) (x : X) (y : Y) {a b : Out E K}
      → Streams ix x a
      → Streams iy y b
      → size a + size b < fuel
      → (m : UnionIter E X Y K) × (intersect ord ix iy fuel x y ≡ some m)
        × Streams (intersect_iter ord ix iy fuel) m (intersect_of ord a b)
  unfolding intersect
  intersect-Streams fuel x y {a} {b} sx sy lt =
      let (m, p, s) = intersect_advance_lem fuel (start ord ix iy x y) refl sx sy lt in
      (m, p, Stopped-Streams (size a + size b) fuel m _ s (omega arith) (omega arith))
