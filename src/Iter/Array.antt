-- ===== src/Iter/Array.antt =====
-- kv/iter/iter.go: `ArrStream`, `RangeIter`, and `ToArr` of kv/iter/helpers.go over any iterator.
use mathlib.Core.List.{append_assoc, append-nil}
use erigon_lib.Base.{
  ℕ, zero, suc, ◌+◌, ◌-◌, ◌%◌, ◌^◌, ◌<◌, ◌≡◌, refl, ap, ◌∙◌, arith, true, false, Option, none, some,
  List, [], ◌∷◌, ◌++◌, length, get_elem?, drop, length-append, drop-length_append,
  get_elem?-length_append, lt→ltb, le→ltb, Result, ok, ltb, ◌==◌, if◌then◌else◌,
}
use erigon_lib.Iter.{
  Unary, Out, end, item, Streams, ends, stops, gives, to_arr_loop, to_arr, values, error_of, size,
  then_out,
}

-- `ToArr` returns the values before the error, and the error.
to_arr_loop_lem :
    {E S V : Type 0} (it : Unary E S V) {s : S} {o : Out E V} (fuel : ℕ) (res : List V)
    → Streams it s o
    → size o < fuel
    → to_arr_loop fuel it s res ≡ some (res ++ values o, error_of o)
unfolding to_arr_loop
to_arr_loop_lem it zero res st h = absurd (omega arith)
to_arr_loop_lem it (suc fuel) res (ends e) h = rw (e, to_arr_loop, append-nil res)
to_arr_loop_lem it (suc fuel) res (stops e n) h = rw (e, n, to_arr_loop, append-nil res)
to_arr_loop_lem it (suc fuel) res (gives {v = v} {o = o} e n st) h =
    rw (e, n, to_arr_loop)
      (to_arr_loop_lem it fuel (res ++ (v ∷ [])) st (omega arith)
        ∙ rw (append_assoc res (v ∷ []) (values o)))

-- With fuel for one round more than there are values, `ToArr` ends and returns the values of the
-- iterator in order, and the error that it stopped with, if it did.
pub to_arr-Streams :
    {E S V : Type 0} (it : Unary E S V) {s : S} {o : Out E V} (fuel : ℕ)
    → Streams it s o
    → size o < fuel
    → to_arr fuel it s ≡ some (values o, error_of o)
unfolding to_arr
to_arr-Streams it fuel st h = to_arr_loop_lem it fuel [] st h

pub record ArrStream (V : Type 0) : Type 0 where
  pub arr : List V
  pub i : ℕ

module _ {V : Type 0} where
  unfoldable pub array : List V → ArrStream V
  array arr = record { arr = arr; i = 0 }

  unfoldable pub arr_next_batch : ArrStream V → List V × ArrStream V
  arr_next_batch it = (drop it.i it.arr, record it { i = length it.arr })

module _ {E V : Type 0} where
  -- The index of a read past the end panics.
  unfoldable pub arr_next : ArrStream V → Option (Result E V × ArrStream V)
  arr_next it = elim (get_elem? it.arr it.i) [
    | none ↦ none
    | some v ↦ some (ok v, record it { i = it.i + 1 })
  ]

  unfoldable pub arr_stream : Unary E (ArrStream V) V
  arr_stream = record { has_next = λ it. (ltb it.i (length it.arr), it); next = arr_next }

  -- The elements from `i` on, of which the first one is the next value.
  arr_next_lem :
      (read : List V) (v : V) (left : List V) (i : ℕ)
      → i ≡ length read
      → arr_next (record { arr = read ++ (v ∷ left); i = i })
        ≡ some (ok v, record { arr = read ++ (v ∷ left); i = i + 1 })
  unfolding arr_next
  arr_next_lem read v left i h =
      let here : get_elem? (read ++ (v ∷ left)) i ≡ some v =
        rw h (get_elem?-length_append read v left) in
      rw (here, arr_next)

  arr_left :
      (read left : List V) (i : ℕ)
      → i ≡ length read
      → Streams arr_stream (record { arr = read ++ left; i = i }) (then_out left end)
  unfolding arr_stream
  arr_left read [] i h =
      let all_read : length (read ++ []) ≡ i = length-append read [] ∙ omega arith in
      ends (
        ap (λ b. (b, record { arr = read ++ []; i = i }))
          (le→ltb i (length (read ++ [])) (omega arith)))
  arr_left read (v ∷ left) i h =
      let some_left = length-append read (v ∷ left) in
      let one_read = length-append read (v ∷ []) in
      let rest = arr_left (read ++ (v ∷ [])) left (i + 1) (omega (arith, one_read)) in
      gives
        (ap (λ b. (b, record { arr = read ++ (v ∷ left); i = i }))
          (lt→ltb i (length (read ++ (v ∷ left))) (omega (arith, some_left))))
        (arr_next_lem read v left i h) (rw (append_assoc read (v ∷ []) left) at rest)

  -- The stream of an array gives its elements in order and ends.
  pub array-Streams : (arr : List V) → Streams arr_stream (array arr) (then_out arr end)
  unfolding array
  array-Streams arr = arr_left [] arr 0 refl

-- `NextBatch` gives what is left of the array, and leaves nothing.
pub arr_next_batch-all :
    {V : Type 0} (read left : List V)
    → arr_next_batch (record { arr = read ++ left; i = length read })
      ≡ (left, record { arr = read ++ left; i = length (read ++ left) })
unfolding arr_next_batch
arr_next_batch-all read left = rw (drop-length_append read left)

-- `RangeIter[uint64]`
pub record RangeIter : Type 0 where
  pub i : ℕ
  pub to : ℕ

-- `to++` of a range with nothing in it
unfoldable pub range : ℕ → ℕ → RangeIter
range from to = record { i = from; to = if from == to then (to + 1) % 2 ^ 64 else to }

module _ {E : Type 0} where
  unfoldable pub range_iter : Unary E RangeIter ℕ
  range_iter = record {
    has_next = λ it. (ltb it.i it.to, it);
    next = λ it. some (ok it.i, record it { i = (it.i + 1) % 2 ^ 64 });
  }

  -- `count` numbers from `i` on.
  abbrev pub upwards : ℕ → ℕ → Out E ℕ
  upwards zero i = end
  upwards (suc count) i = item i (upwards count (i + 1))

  range_left :
      (count i to : ℕ)
      → i + count ≡ to
      → to < 2 ^ 64
      → Streams range_iter (record { i = i; to = to }) (upwards count i)
  unfolding range_iter
  range_left zero i to h b =
      ends (ap (λ t. (t, record { i = i; to = to })) (le→ltb i to (omega arith)))
  range_left (suc count) i to h b =
      gives {s2 = record { i = i + 1; to = to }}
        (ap (λ t. (t, record { i = i; to = to })) (lt→ltb i to (omega arith)))
        (ap (λ n. some (ok i, record { i = n; to = to })) (omega arith))
        (range_left count (i + 1) to (omega arith) b)

  -- A range from `from` to a greater `to` gives the numbers from `from` up to and without `to`.
  pub range-Streams :
      (from to : ℕ)
      → from < to
      → to < 2 ^ 64
      → Streams range_iter (range from to) (upwards (to - from) from)
  unfolding range
  range-Streams from to h b =
      let other : (from == to) ≡ false = ground arith in
      rw other (range_left (to - from) from to (omega arith) b)

  -- A range from a number to itself gives that number, unless it is the greatest one.
  pub range-Streams_same :
      (from : ℕ) → from + 1 < 2 ^ 64 → Streams range_iter (range from from) (item from end)
  unfolding range
  range-Streams_same from b =
      let same : (from == from) ≡ true = ground arith in
      let small : (from + 1) % 2 ^ 64 ≡ from + 1 = omega arith in
      rw (same, small) (range_left 1 from (from + 1) (omega arith) (omega arith))
