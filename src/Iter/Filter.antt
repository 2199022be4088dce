-- ===== src/Iter/Filter.antt =====
-- kv/iter/iter.go: `FilterUnaryIter`, `FilterDualIter` (whose values are pairs) and
-- `TransformDualIter`.
use erigon_lib.Base.{
  ℕ, zero, suc, ◌≤◌, ◌<◌, ◌≡◌, refl, ap, ◌∙◌, arith, Bool, true, false, ◌||◌, Option, none, some,
  Result, ok, err, ◌⊎◌, inl, inr, Bool-cases,
}
use erigon_lib.Iter.{Unary, Out, end, stop, item, Streams, ends, stops, gives, on_next, size}
use erigon_lib.Iter.Union.{◌>>=◌, unless_error}

pub record FilterIter (E S V : Type 0) : Type 0 where
  pub it : S
  pub has : Bool
  pub error : Option E
  pub next_k : V

-- What is done without a next value, and with one.
abbrev on_has : {S A : Type 0} → Bool × S → (S → A) → (S → A) → A
on_has (false, s) f g = f s
on_has (true, s) f g = g s

-- `zero_value` is what `nextK` holds before a value is found.
module _ {E S V : Type 0} (src : Unary E S V) (accept : V → Bool) where
  -- The loop of `advance`, a round for each unit of fuel.
  unfoldable pub filter_loop : ℕ → FilterIter E S V → Option (FilterIter E S V)
  filter_loop zero m = none
  filter_loop (suc fuel) m =
      on_has (src.has_next m.it) (λ s1. some (record m { it = s1 }))
        (λ s1.
          on_next (src.next s1)
            (λ k s2. elim (accept k) [
              | true ↦ some (record m { it = s2; has = true; next_k = k })
              | false ↦ filter_loop fuel (record m { it = s2 })
            ])
            (λ e s2. some (record m { it = s2; error = some e })))

  unfoldable pub filter_advance : ℕ → FilterIter E S V → Option (FilterIter E S V)
  filter_advance fuel m =
      unless_error m.error (some m) (filter_loop fuel (record m { has = false }))

  -- `FilterUnary`, `FilterDual`
  unfoldable pub filter : ℕ → V → S → Option (FilterIter E S V)
  filter fuel zero_value it =
      filter_advance fuel (record { it = it; has = false; error = none; next_k = zero_value })

  abbrev failed : Option E → Bool
  failed none = false
  failed (some e) = true

  abbrev value_or : Option E → V → Result E V
  value_or none k = ok k
  value_or (some e) k = err e

  unfoldable pub filter_has_next : FilterIter E S V → Bool × FilterIter E S V
  filter_has_next m = (failed m.error || m.has, m)

  unfoldable pub filter_next : ℕ → FilterIter E S V → Option (Result E V × FilterIter E S V)
  filter_next fuel m = filter_advance fuel m >>= λ m'. some (value_or m.error m.next_k, m')

  unfoldable pub filter_iter : ℕ → Unary E (FilterIter E S V) V
  filter_iter fuel = record { has_next = filter_has_next; next = filter_next fuel }

-- The values of a sequence that are accepted, and its error.
unfoldable pub filter_of : {E V : Type 0} → (V → Bool) → Out E V → Out E V
filter_of accept end = end
filter_of accept (stop e) = stop e
filter_of accept (item v o) =
    let rest = filter_of accept o in elim (accept v) [ true ↦ item v rest | false ↦ rest ]

module _ {E S V : Type 0} (src : Unary E S V) (accept : V → Bool) where
  -- The state between calls, with fewer than `n` values left behind the next one.
  abbrev Ahead : FilterIter E S V → ℕ → Out E V → Type 0
  Ahead m n o =
      ((o ≡ end) × (m.error ≡ none) × (m.has ≡ false))
      ⊎ (((e : E) × (o ≡ stop e) × (m.error ≡ some e))
          ⊎ ((xs : Out E V) × (o ≡ item m.next_k (filter_of accept xs))
              × (m.error ≡ none)
              × (m.has ≡ true)
              × Streams src m.it xs
              × (size xs < n)))

  Ahead-mono : (m : FilterIter E S V) {k n : ℕ} {o : Out E V} → k ≤ n → Ahead m k o → Ahead m n o
  Ahead-mono m le (inl h) = inl h
  Ahead-mono m le (inr (inl h)) = inr (inl h)
  Ahead-mono m le (inr (inr (xs, q, n, h, st, lt))) = inr (inr (xs, q, n, h, st, omega arith))

  filter_loop_lem :
      (fuel : ℕ) (m : FilterIter E S V) {o : Out E V}
      → m.error ≡ none
      → m.has ≡ false
      → Streams src m.it o
      → size o < fuel
      → (m' : FilterIter E S V) × (filter_loop src accept fuel m ≡ some m')
        × Ahead m' (size o) (filter_of accept o)
  unfolding filter_loop filter_of
  filter_loop_lem zero m n h st lt = absurd (omega arith)
  filter_loop_lem (suc fuel) m n h (ends {s' = s1} p) lt =
      (record m { it = s1 }, rw (p, filter_loop), inl (refl, n, h))
  filter_loop_lem (suc fuel) m n h (stops {s2 = s2} {e = e} p q) lt =
      (record m { it = s2; error = some e }, rw (p, q, filter_loop), inr (inl (e, refl, refl)))
  filter_loop_lem (suc fuel) m n h (gives {s2 = s2} {v = v} {o = o} p q st) lt =
      elim (Bool-cases (accept v)) [
        | inl taken ↦ (
          record m { it = s2; has = true; next_k = v },
          rw (p, q, taken, filter_loop),
          inr (inr (o, rw (taken, filter_of), n, refl, st, omega arith)),
        )
        | inr dropped ↦
            let m1 = record m { it = s2 } in
            let (m', l, a) = filter_loop_lem fuel m1 n h st (omega arith) in
            (
              m',
              rw (p, q, dropped, filter_loop) l,
              rw (dropped, filter_of) (Ahead-mono m' (omega arith) a),
            )
      ]

  filter_advance_lem :
      (fuel : ℕ) (m : FilterIter E S V) {o : Out E V}
      → m.error ≡ none
      → Streams src m.it o
      → size o < fuel
      → (m' : FilterIter E S V) × (filter_advance src accept fuel m ≡ some m')
        × Ahead m' (size o) (filter_of accept o)
  unfolding filter_advance
  filter_advance_lem fuel m n st lt =
      let (m', p, a) = filter_loop_lem fuel (record m { has = false }) n refl st lt in
      let going : filter_advance src accept fuel m
          ≡ filter_loop src accept fuel (record m { has = false }) =
        ap (λ e. unless_error e (some m) (filter_loop src accept fuel (record m { has = false })))
          n in
      (m', going ∙ p, a)

  next_value :
      (fuel : ℕ) (m m' : FilterIter E S V)
      → m.error ≡ none
      → filter_advance src accept fuel m ≡ some m'
      → filter_next src accept fuel m ≡ some (ok m.next_k, m')
  unfolding filter_next
  next_value fuel m m' n p = simp (n, p, filter_next)

  next_error :
      (fuel : ℕ) (m : FilterIter E S V) (e : E)
      → m.error ≡ some e
      → filter_next src accept fuel m ≡ some (err e, m)
  unfolding filter_next filter_advance
  next_error fuel m e h = simp (h, filter_next, filter_advance)

  Ahead-Streams :
      (bound fuel : ℕ) (m : FilterIter E S V) (k : ℕ) {o : Out E V}
      → Ahead m k o
      → k ≤ bound
      → k ≤ fuel
      → Streams (filter_iter src accept fuel) m o
  unfolding filter_iter filter_has_next
  Ahead-Streams bound fuel m k (inl (e, n, h)) le lf = rw e (ends {s' = m} (simp (n, h)))
  Ahead-Streams bound fuel m k (inr (inl (e, q, h))) le lf =
      rw q (stops {s1 = m} {s2 = m} (simp (h)) (next_error fuel m e h))
  Ahead-Streams zero fuel m k (inr (inr (xs, q, n, h, st, lt))) le lf = absurd (omega arith)
  Ahead-Streams (suc bound) fuel m k (inr (inr (xs, q, n, h, st, lt))) le lf =
      let (m', p, a) = filter_advance_lem fuel m n st (omega arith) in
      rw q (
        gives {s1 = m} (simp (n, h)) (next_value fuel m m' n p)
          (Ahead-Streams bound fuel m' _ a (omega arith) (omega arith)))

  -- A filter over an input that streams `o` streams the accepted values of `o` and the error that
  -- `o` stops with. Fuel above the number of values is enough for every call of `advance`.
  pub filter-Streams :
      (fuel : ℕ) (zero_value : V) (x : S) {o : Out E V}
      → Streams src x o
      → size o < fuel
      → (m : FilterIter E S V) × (filter src accept fuel zero_value x ≡ some m)
        × Streams (filter_iter src accept fuel) m (filter_of accept o)
  unfolding filter
  filter-Streams fuel z x {o} st lt =
      let m0 : FilterIter E S V = record { it = x; has = false; error = none; next_k = z } in
      let (m, p, a) = filter_advance_lem fuel m0 refl st lt in
      (m, p, Ahead-Streams (size o) fuel m _ a (omega arith) (omega arith))

-- `TransformDualIter`. A transform gives a value or an error.
module _ {E S V : Type 0} (src : Unary E S V) (transform : V → E ⊎ V) where
  abbrev pub to_result : E ⊎ V → Result E V
  to_result (inl e) = err e
  to_result (inr w) = ok w

  unfoldable pub transform_next : S → Option (Result E V × S)
  transform_next s =
      on_next (src.next s) (λ v s2. some (to_result (transform v), s2)) (λ e s2. some (err e, s2))

  unfoldable pub transform_iter : Unary E S V
  transform_iter = record { has_next = src.has_next; next = transform_next }

-- The first error of the transform or of the input ends the sequence.
unfoldable pub transform_of : {E V : Type 0} → (V → E ⊎ V) → Out E V → Out E V
transform_of transform end = end
transform_of transform (stop e) = stop e
transform_of transform (item v o) =
    let rest = transform_of transform o in
    elim (transform v) [ inl e ↦ stop e | inr w ↦ item w rest ]

sum_cases : {A B : Type 0} (t : A ⊎ B) → ((a : A) × (t ≡ inl a)) ⊎ ((b : B) × (t ≡ inr b))
sum_cases (inl a) = inl (a, refl)
sum_cases (inr b) = inr (b, refl)

-- A transformed iterator streams the images of the values of its input up to the first error of
-- the input or of the transform.
pub transform-Streams :
    {E S V : Type 0} (src : Unary E S V) (transform : V → E ⊎ V) (x : S) {o : Out E V}
    → Streams src x o
    → Streams (transform_iter src transform) x (transform_of transform o)
unfolding transform_iter transform_next transform_of
transform-Streams src t x (ends p) = ends p
transform-Streams src t x (stops {s2 = s2} p q) = stops {s2 = s2} p (rw (q))
transform-Streams src t x (gives {s1 = s1} {s2 = s2} {v = v} {o = o} p q st) =
    elim (sum_cases (t v)) [
      | inl (e, w) ↦ rw (w, transform_of) (stops {s2 = s2} p (rw (q, w)))
      | inr (u, w) ↦ rw (w, transform_of) (gives p (rw (q, w)) (transform-Streams src t s2 st))
    ]
