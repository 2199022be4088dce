-- ===== src/Iter/UnionSpec.antt =====
-- `UnionIter` of kv/iter/iter.go against the merge of two sequences.
use erigon_lib.Base.{◌≡◌, refl, true, false, none, some, ok, inl, inr, Bool-cases}
use erigon_lib.Iter.{Unary, Out, end, stop, item, Streams, ends, stops, gives}
use erigon_lib.Iter.Order.{Ordered}
use erigon_lib.Iter.Advance.{IsLive, Rep, advance_x-Rep, advance_y-Rep, advance_both-Rep}
use erigon_lib.Iter.Union.{
  UnionIter, start, advance_x, advance_y, union, union_has_next, union_next, union_iter,
}

module _ {E K : Type 0} (ord : Ordered K) where
  -- Both inputs are read one value ahead, so an error of either is seen at once.
  unfoldable pub union_of : Out E K → Out E K → Out E K
  union_of (stop e) b = stop e
  union_of end b = b
  union_of (item x xs) end = item x xs
  union_of (item x xs) (stop e) = stop e
  union_of (item x xs) (item y ys) = elim (ord.lt x y) [
    | true ↦ item x (union_of xs (item y ys))
    | false ↦ elim (ord.eq x y) [
      | true ↦ item x (union_of xs ys)
      | false ↦ item y (union_of (item x xs) ys)
    ]
  ]

module _ {E K : Type 0} (ord : Ordered K) where
  -- An error ends the merge.
  abbrev Failed : Out E K → Out E K → E → Type 0
  Failed a b e = union_of ord a b ≡ stop e

  failed_x : (b : Out E K) (e : E) → Failed (stop e) b e
  unfolding union_of
  failed_x b e = refl

  failed_y : (a : Out E K) (e : E) → IsLive a → Failed a (stop e) e
  unfolding union_of
  failed_y end e s = refl
  failed_y (stop x) e s = absurd s
  failed_y (item k o) e s = refl

module _ {E X Y K : Type 0} (ord : Ordered K) (ix : Unary E X K) (iy : Unary E Y K) where
  failed-Streams :
      (m : UnionIter E X Y K) (e : E) → m.error ≡ some e → Streams (union_iter ord ix iy) m (stop e)
  unfolding union_iter
  failed-Streams m e h = stops {s1 = m} {s2 = m} (simp (h, union_has_next)) (simp (h, union_next))

  -- One call of `HasNext` and `Next` that returns `k`.
  union_gives :
      (m m' : UnionIter E X Y K) (k : K) (o : Out E K)
      → union_has_next ord ix iy m ≡ (true, m)
      → union_next ord ix iy m ≡ some (ok k, m')
      → Streams (union_iter ord ix iy) m' o
      → Streams (union_iter ord ix iy) m (item k o)
  unfolding union_iter
  union_gives m m' k o h n st = gives h n st

  -- The branches of `Next`.
  next_only_y :
      (m m' : UnionIter E X Y K)
      → m.error ≡ none
      → m.x_has ≡ false
      → advance_y ord ix iy m ≡ some m'
      → union_next ord ix iy m ≡ some (ok m.y_next_k, m')
  unfolding union_next
  next_only_y m m' n h a = simp (n, h, a, union_next)

  next_only_x :
      (m m' : UnionIter E X Y K)
      → m.error ≡ none
      → m.x_has ≡ true
      → m.y_has ≡ false
      → advance_x ord ix iy m ≡ some m'
      → union_next ord ix iy m ≡ some (ok m.x_next_k, m')
  unfolding union_next
  next_only_x m m' n h k a = simp (n, h, k, a, union_next)

  module _ (m m' : UnionIter E X Y K) (n : m.error ≡ none) (h : m.x_has ≡ true)
      (k : m.y_has ≡ true) where
    next_less :
        ord.lt m.x_next_k m.y_next_k ≡ true
        → advance_x ord ix iy m ≡ some m'
        → union_next ord ix iy m ≡ some (ok m.x_next_k, m')
    unfolding union_next
    next_less l a = simp (n, h, k, l, a, union_next)

    next_same :
        (m1 : UnionIter E X Y K)
        → ord.lt m.x_next_k m.y_next_k ≡ false
        → ord.eq m.x_next_k m.y_next_k ≡ true
        → advance_x ord ix iy m ≡ some m1
        → advance_y ord ix iy m1 ≡ some m'
        → union_next ord ix iy m ≡ some (ok m.x_next_k, m')
    unfolding union_next
    next_same m1 l e a b = simp (n, h, k, l, e, a, b, union_next)

    next_more :
        ord.lt m.x_next_k m.y_next_k ≡ false
        → ord.eq m.x_next_k m.y_next_k ≡ false
        → advance_y ord ix iy m ≡ some m'
        → union_next ord ix iy m ≡ some (ok m.y_next_k, m')
    unfolding union_next
    next_more l e a = simp (n, h, k, l, e, a, union_next)

  has_next_x :
      (m : UnionIter E X Y K)
      → m.error ≡ none
      → m.x_has ≡ true
      → union_has_next ord ix iy m ≡ (true, m)
  unfolding union_has_next
  has_next_x m n h = simp (n, h, union_has_next)

  has_next_y :
      (m : UnionIter E X Y K)
      → m.error ≡ none
      → m.x_has ≡ false
      → m.y_has ≡ true
      → union_has_next ord ix iy m ≡ (true, m)
  unfolding union_has_next
  has_next_y m n h k = simp (n, h, k, union_has_next)

  ended-Streams :
      (m : UnionIter E X Y K)
      → m.error ≡ none
      → m.x_has ≡ false
      → m.y_has ≡ false
      → Streams (union_iter ord ix iy) m end
  unfolding union_iter
  ended-Streams m n h k = ends {s' = m} (simp (n, h, k, union_has_next))

  union_of-end : (a : Out E K) → union_of ord a end ≡ a
  unfolding union_of
  union_of-end end = refl
  union_of-end (stop e) = refl
  union_of-end (item x o) = refl

  union_step :
      (m m' : UnionIter E X Y K) {k' : K} (k : K) (o : Out E K)
      → k' ≡ k
      → union_has_next ord ix iy m ≡ (true, m)
      → union_next ord ix iy m ≡ some (ok k', m')
      → Streams (union_iter ord ix iy) m' o
      → Streams (union_iter ord ix iy) m (item k o)
  union_step m m' k o e h n st = union_gives m m' k o h (rw (← e) n) st

  union-Rep :
      (a b : Out E K) (m : UnionIter E X Y K)
      → Rep ord ix iy (Failed ord) (failed_x ord) (failed_y ord) m a b
      → Streams (union_iter ord ix iy) m (union_of ord a b)
  unfolding union_of
  union-Rep a b m (inr (e, h, s)) = rw s (failed-Streams m e h)
  union-Rep (stop e) b m (inl (none_, sx, sy)) = absurd sx
  union-Rep end (stop e) m (inl (none_, sx, sy)) = absurd sy
  union-Rep (item x xs) (stop e) m (inl (none_, sx, sy)) = absurd sy
  union-Rep end end m (inl (none_, sx, sy)) = ended-Streams m none_ sx sy
  union-Rep end (item y ys) m (inl (none_, sx, (has, e, st))) =
      let (m', p, r) =
        advance_y-Rep ord ix iy (Failed ord) (failed_x ord) (failed_y ord) m end none_ sx st in
      rw (← e) (
        union_gives m m' m.y_next_k ys (has_next_y m none_ sx has) (next_only_y m m' none_ sx p)
          (union-Rep end ys m' r))
  union-Rep (item x xs) end m (inl (none_, (has, e, st), sy)) =
      let (m', p, r) =
        advance_x-Rep ord ix iy (Failed ord) (failed_x ord) (failed_y ord) m end none_ st sy in
      rw (← e) (
        union_gives m m' m.x_next_k xs (has_next_x m none_ has) (next_only_x m m' none_ has sy p)
          (rw (union_of-end xs) at (union-Rep xs end m' r)))
  union-Rep (item x xs) (item y ys) m (inl (none_, (hx, ex, sx), (hy, ey, sy))) =
      elim (Bool-cases (ord.lt x y)) [
        | inl less ↦
            let (m', p, r) =
              advance_x-Rep ord ix iy (Failed ord) (failed_x ord) (failed_y ord) m (item y ys) none_
                sx (hy, ey, sy) in
            rw (less, union_of)
              (union_step m m' x (union_of ord xs (item y ys)) ex (has_next_x m none_ hx)
                (next_less m m' none_ hx hy (rw (ex, ey) less) p) (union-Rep xs (item y ys) m' r))
        | inr not_less ↦ elim (Bool-cases (ord.eq x y)) [
          | inl same ↦
              let (m1, m', p, q, r) =
                advance_both-Rep ord ix iy (Failed ord) (failed_x ord) (failed_y ord) m none_ sx
                  sy in
              rw (not_less, same, union_of)
                (union_step m m' x (union_of ord xs ys) ex (has_next_x m none_ hx)
                  (next_same m m' none_ hx hy m1 (rw (ex, ey) not_less) (rw (ex, ey) same) p q)
                  (union-Rep xs ys m' r))
          | inr other ↦
              let (m', p, r) =
                advance_y-Rep ord ix iy (Failed ord) (failed_x ord) (failed_y ord) m (item x xs)
                  none_ (hx, ex, sx) sy in
              rw (not_less, other, union_of)
                (union_step m m' y (union_of ord (item x xs) ys) ey (has_next_x m none_ hx)
                  (next_more m m' none_ hx hy (rw (ex, ey) not_less) (rw (ex, ey) other) p)
                  (union-Rep (item x xs) ys m' r))
        ]
      ]

  -- Two inputs that stream `a` and `b` give an iterator that streams their merge: a value of both
  -- comes once, and an error of either input ends it as soon as that input is read that far.
  pub union-Streams :
      (x : X) (y : Y) {a b : Out E K}
      → Streams ix x a
      → Streams iy y b
      → (m : UnionIter E X Y K) × (union ord ix iy x y ≡ some m)
        × Streams (union_iter ord ix iy) m (union_of ord a b)
  unfolding union
  union-Streams x y {a} {b} sx sy =
      let m0 = start ord ix iy x y in
      let (m1, m', p, q, r) =
        advance_both-Rep ord ix iy (Failed ord) (failed_x ord) (failed_y ord) m0 refl sx sy in
      (m', rw (p, q), union-Rep a b m' r)
