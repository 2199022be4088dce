-- ===== src/Iter/UnionKv.antt =====
-- kv/iter/iter.go: `UnionKVIter`, the merge of two iterators of pairs. Where both have a key the
-- value of the first one counts. Its `Next` is that of `UnionIter` on pairs, which are compared by
-- `bytes.Compare` of their keys; its `HasNext` does not read the error.
use erigon_lib.Base.{
  ℕ, ◌≡◌, ap, arith, Bool, true, false, ◌||◌, Option, some, List, [], Result, ok, inl, inr,
  Option-cases,
}
use erigon_lib.Iter.{Unary, Out, Streams, ends, stops, gives}
use erigon_lib.Iter.Order.{Ordered, keys_ordered}
use erigon_lib.Iter.Union.{
  ◌>>=◌, >>=-eq-some, UnionIter, advance_x, advance_y, union, union_has_next, union_next,
  union_iter, start,
}
use erigon_lib.Iter.UnionSpec.{union_of, union-Streams}

module _ {E X Y : Type 0} (ix : Unary E X (List ℕ × List ℕ))
    (iy : Unary E Y (List ℕ × List ℕ)) where
  abbrev pub Kv : Type 0
  Kv = List ℕ × List ℕ

  -- A nil slice is the zero value of keys and of values.
  abbrev pub kv_ordered : Ordered Kv
  kv_ordered = keys_ordered []

  -- `UnionKV` of two iterators neither of which is nil.
  unfoldable pub union_kv : X → Y → Option (UnionIter E X Y Kv)
  union_kv x y = union kv_ordered ix iy x y

  unfoldable pub union_kv_has_next : UnionIter E X Y Kv → Bool × UnionIter E X Y Kv
  union_kv_has_next m = (m.x_has || m.y_has, m)

  unfoldable pub union_kv_next : UnionIter E X Y Kv → Option (Result E Kv × UnionIter E X Y Kv)
  union_kv_next m = union_next kv_ordered ix iy m

  unfoldable pub union_kv_iter : Unary E (UnionIter E X Y Kv) Kv
  union_kv_iter = record { has_next = union_kv_has_next; next = union_kv_next }

  -- An error is never without a side that has a next value, so `HasNext` need not read it.
  abbrev ErrorShows : UnionIter E X Y Kv → Type 0
  ErrorShows m = (e : E) → m.error ≡ some e → (m.x_has || m.y_has) ≡ true

  advance_x-ErrorShows :
      (m m' : UnionIter E X Y Kv)
      → ErrorShows m
      → advance_x kv_ordered ix iy m ≡ some m'
      → ErrorShows m'
  unfolding advance_x
  advance_x-ErrorShows m m' h p e q = ground (arith, h e)

  advance_y-ErrorShows :
      (m m' : UnionIter E X Y Kv)
      → ErrorShows m
      → advance_y kv_ordered ix iy m ≡ some m'
      → ErrorShows m'
  unfolding advance_y
  advance_y-ErrorShows m m' h p e q = ground (arith, h e)

  -- The return of `k` by a call that leaves the state `a`.
  abbrev given : Result E Kv → UnionIter E X Y Kv → Option (Result E Kv × UnionIter E X Y Kv)
  given k a = some (k, a)

  step_x :
      (m m' : UnionIter E X Y Kv) (k r : Result E Kv)
      → ErrorShows m
      → (e : E) → (advance_x kv_ordered ix iy m >>= given k) ≡ some (r, m')
      → m'.error ≡ some e
      → (m'.x_has || m'.y_has) ≡ true
  step_x m m' k r h e p =
      let (a, q, w) = >>=-eq-some (advance_x kv_ordered ix iy m) (given k) p in
      let same : a ≡ m' = cc in advance_x-ErrorShows m m' h (rw same at q) e

  step_y :
      (m m' : UnionIter E X Y Kv) (k r : Result E Kv)
      → ErrorShows m
      → (e : E) → (advance_y kv_ordered ix iy m >>= given k) ≡ some (r, m')
      → m'.error ≡ some e
      → (m'.x_has || m'.y_has) ≡ true
  step_y m m' k r h e p =
      let (a, q, w) = >>=-eq-some (advance_y kv_ordered ix iy m) (given k) p in
      let same : a ≡ m' = cc in advance_y-ErrorShows m m' h (rw same at q) e

  step_both :
      (m m' : UnionIter E X Y Kv) (k r : Result E Kv)
      → ErrorShows m
      → (e : E)
      → (advance_x kv_ordered ix iy m >>= λ m1. advance_y kv_ordered ix iy m1 >>= given k)
        ≡ some (r, m')
      → m'.error ≡ some e
      → (m'.x_has || m'.y_has) ≡ true
  step_both m m' k r h e p =
      let (m1, q, w) =
        >>=-eq-some (advance_x kv_ordered ix iy m) (λ m1. advance_y kv_ordered ix iy m1 >>= given k)
          p in
      step_y m1 m' k r (advance_x-ErrorShows m m1 h q) e w

  union_next-ErrorShows :
      (m m' : UnionIter E X Y Kv) {r : Result E Kv}
      → ErrorShows m
      → union_next kv_ordered ix iy m ≡ some (r, m')
      → ErrorShows m'
  unfolding union_next
  union_next-ErrorShows m m' {r} h p e q = ground (
    arith,
    h e,
    step_x m m' (ok m.x_next_k) r h e,
    step_y m m' (ok m.y_next_k) r h e,
    step_both m m' (ok m.x_next_k) r h e,
  )

  has_next_same :
      (m s : UnionIter E X Y Kv) (b : Bool)
      → ErrorShows m
      → union_has_next kv_ordered ix iy m ≡ (b, s)
      → union_kv_has_next m ≡ (b, s)
  unfolding union_has_next union_kv_has_next
  has_next_same m s b h p = elim (Option-cases m.error) [
    | inl n ↦ ground (arith, n)
    | inr (e, n) ↦ ground (arith, n, h e n)
  ]

  has_next_keeps :
      (m s : UnionIter E X Y Kv) (b : Bool) → union_has_next kv_ordered ix iy m ≡ (b, s) → m ≡ s
  unfolding union_has_next
  has_next_keeps m s b p = ap (λ t. t.1) p

  union_kv-of-union :
      {m : UnionIter E X Y Kv} {o : Out E Kv}
      → ErrorShows m
      → Streams (union_iter kv_ordered ix iy) m o
      → Streams union_kv_iter m o
  unfolding union_iter union_kv_iter union_kv_next
  union_kv-of-union h (ends {s = m} {s' = m'} p) = ends (has_next_same m m' false h p)
  union_kv-of-union h (stops {s = m} {s1 = m1} p n) = stops (has_next_same m m1 true h p) n
  union_kv-of-union h (gives {s = m} {s1 = m1} {s2 = m2} p n st) =
      let keep : ErrorShows m1 = rw (has_next_keeps m m1 true p) at h in
      gives (has_next_same m m1 true h p) n
        (union_kv-of-union (union_next-ErrorShows m1 m2 keep n) st)

  union-ErrorShows :
      (x : X) (y : Y) (m : UnionIter E X Y Kv) → union kv_ordered ix iy x y ≡ some m → ErrorShows m
  unfolding union
  union-ErrorShows x y m p =
      let m0 = start kv_ordered ix iy x y in
      let (m1, q, w) = >>=-eq-some (advance_x kv_ordered ix iy m0) (advance_y kv_ordered ix iy) p in
      advance_y-ErrorShows m1 m (advance_x-ErrorShows m0 m1 (λ e r. cc) q) w

  -- `UnionKV` of inputs that stream `a` and `b` streams their merge by keys: of two pairs with one
  -- key that of the first input comes, and an error of either input is not lost.
  pub union_kv-Streams :
      (x : X) (y : Y) {a b : Out E Kv}
      → Streams ix x a
      → Streams iy y b
      → (m : UnionIter E X Y Kv) × (union_kv x y ≡ some m)
        × Streams union_kv_iter m (union_of kv_ordered a b)
  unfolding union_kv
  union_kv-Streams x y sx sy =
      let (m, p, st) = union-Streams kv_ordered ix iy x y sx sy in
      (m, p, union_kv-of-union (union-ErrorShows x y m p) st)
