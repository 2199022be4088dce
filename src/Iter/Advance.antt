-- ===== src/Iter/Advance.antt =====
-- The state of the iterators of kv/iter/iter.go that read two inputs one value ahead, against what
-- is left of the inputs, and `advanceX` and `advanceY` on it.
use erigon_lib.Base.{◌≡◌, refl, true, false, none, some, ◌⊎◌, inl, inr}
use erigon_lib.Iter.{Unary, Out, end, stop, item, Streams, ends, stops, gives}
use erigon_lib.Iter.Order.{Ordered}
use erigon_lib.Iter.Union.{UnionIter, advance_x, advance_y}

-- A sequence that does not begin with an error.
abbrev pub IsLive : {E K : Type 0} → Out E K → Type 0
IsLive end = Unit
IsLive (stop e) = ⊥
IsLive (item k o) = Unit

module _ {E X Y K : Type 0} (ord : Ordered K) (ix : Unary E X K) (iy : Unary E Y K) where
  -- What the state holds of an input whose next value was read.
  abbrev pub SideX : UnionIter E X Y K → Out E K → Type 0
  SideX m end = m.x_has ≡ false
  SideX m (item k o) = (m.x_has ≡ true) × (m.x_next_k ≡ k) × Streams ix m.x o
  SideX m (stop e) = ⊥

  abbrev pub SideY : UnionIter E X Y K → Out E K → Type 0
  SideY m end = m.y_has ≡ false
  SideY m (item k o) = (m.y_has ≡ true) × (m.y_next_k ≡ k) × Streams iy m.y o
  SideY m (stop e) = ⊥

  -- `Dead a b e`: what is to hold when an error is met with `a` and `b` left.
  module _ (Dead : Out E K → Out E K → E → Type 0)
      (dead_x : (b : Out E K) (e : E) → Dead (stop e) b e)
      (dead_y : (a : Out E K) (e : E) → IsLive a → Dead a (stop e) e) where
    -- The state stands for what is left of the inputs, or has met an error.
    abbrev pub Rep : UnionIter E X Y K → Out E K → Out E K → Type 0
    Rep m a b =
        ((m.error ≡ none) × SideX m a × SideY m b) ⊎ ((e : E) × (m.error ≡ some e) × Dead a b e)

    pub advance_x-Rep :
        (m : UnionIter E X Y K) {o : Out E K} (b : Out E K)
        → m.error ≡ none
        → Streams ix m.x o
        → SideY m b
        → (m' : UnionIter E X Y K) × (advance_x ord ix iy m ≡ some m') × Rep m' o b
    unfolding advance_x
    advance_x-Rep m b none_ (ends {s' = x1} e) sy =
        (record m { x = x1; x_has = false }, rw (none_, e, advance_x), inl (none_, refl, sy))
    advance_x-Rep m b none_ (stops {s2 = x2} {e = e} h n) sy = (
      record m { x = x2; x_has = true; error = some e },
      rw (none_, h, n, advance_x),
      inr (e, refl, dead_x _ e),
    )
    advance_x-Rep m b none_ (gives {s2 = x2} {v = k} h n st) sy = (
      record m { x = x2; x_has = true; x_next_k = k },
      rw (none_, h, n, advance_x),
      inl (none_, (refl, refl, st), sy),
    )

    SideX-IsLive : (m : UnionIter E X Y K) (a : Out E K) → SideX m a → IsLive a
    SideX-IsLive m end s = tt
    SideX-IsLive m (stop x) s = s
    SideX-IsLive m (item k o) s = tt

    pub advance_y-Rep :
        (m : UnionIter E X Y K) (a : Out E K) {o : Out E K}
        → m.error ≡ none
        → SideX m a
        → Streams iy m.y o
        → (m' : UnionIter E X Y K) × (advance_y ord ix iy m ≡ some m') × Rep m' a o
    unfolding advance_y
    advance_y-Rep m a none_ sx (ends {s' = y1} e) =
        (record m { y = y1; y_has = false }, rw (none_, e, advance_y), inl (none_, sx, refl))
    advance_y-Rep m a none_ sx (stops {s2 = y2} {e = e} h n) = (
      record m { y = y2; y_has = true; error = some e },
      rw (none_, h, n, advance_y),
      inr (e, refl, dead_y a e (SideX-IsLive m a sx)),
    )
    advance_y-Rep m a none_ sx (gives {s2 = y2} {v = k} h n st) = (
      record m { y = y2; y_has = true; y_next_k = k },
      rw (none_, h, n, advance_y),
      inl (none_, sx, (refl, refl, st)),
    )

    advance_y_failed :
        (m : UnionIter E X Y K) (e : E) → m.error ≡ some e → advance_y ord ix iy m ≡ some m
    unfolding advance_y
    advance_y_failed m e h = rw (h, advance_y)

    -- Both sides are advanced, the first one first.
    pub advance_both-Rep :
        (m : UnionIter E X Y K) {a b : Out E K}
        → m.error ≡ none
        → Streams ix m.x a
        → Streams iy m.y b
        → (m1 : UnionIter E X Y K) × (m' : UnionIter E X Y K) × (advance_x ord ix iy m ≡ some m1)
          × (advance_y ord ix iy m1 ≡ some m')
          × Rep m' a b
    unfolding advance_x
    advance_both-Rep m none_ (stops {s2 = x2} {e = e} h n) sy =
        let m1 = record m { x = x2; x_has = true; error = some e } in
        (m1, m1, rw (none_, h, n, advance_x), advance_y_failed m1 e refl, inr (e, refl, dead_x _ e))
    advance_both-Rep m none_ (ends {s' = x1} e) sy =
        let m1 = record m { x = x1; x_has = false } in
        let (m', p, r) = advance_y-Rep m1 end none_ refl sy in
        (m1, m', rw (none_, e, advance_x), p, r)
    advance_both-Rep m none_ (gives {s2 = x2} {v = k} {o = o} h n st) sy =
        let m1 = record m { x = x2; x_has = true; x_next_k = k } in
        let (m', p, r) = advance_y-Rep m1 (item k o) none_ (refl, refl, st) sy in
        (m1, m', rw (none_, h, n, advance_x), p, r)
