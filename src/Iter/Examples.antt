-- ===== src/Iter/Examples.antt =====
-- Runs of the iterators of kv/iter/iter.go on small arrays.
use erigon_lib.Base.{
  ℕ, ◌+◌, ◌≡◌, refl, arith, Bool, true, false, none, some, List, [], ◌∷◌, ltb, ◌⊎◌, inl, inr,
}
use erigon_lib.Iter.{Unary, end, stop, item, Streams, to_arr}
use erigon_lib.Iter.Order.{nat_ordered}
use erigon_lib.Iter.Array.{ArrStream, array, arr_stream, array-Streams, to_arr-Streams}
use erigon_lib.Iter.Union.{UnionIter, union, union_iter}
use erigon_lib.Iter.UnionSpec.{union_of, union-Streams}
use erigon_lib.Iter.UnionKv.{union_kv, union_kv_iter, union_kv-Streams}
use erigon_lib.Iter.Intersect.{intersect, intersect_iter, intersect_of, intersect-Streams}
use erigon_lib.Iter.Filter.{FilterIter, filter, filter_iter, filter_of, filter-Streams}
use erigon_lib.Iter.Paginate.{
  page_more, page_error, paginate, paginated, paginated_has_next, at_page, paginate-Streams,
  paginated_has_next-empty_page,
}

-- Errors are numbers here.
abbrev numbers : Unary ℕ (ArrStream ℕ) ℕ
numbers = arr_stream

abbrev one_three : List ℕ
one_three = 1 ∷ 3 ∷ []

abbrev one_two : List ℕ
one_two = 1 ∷ 2 ∷ []

to_arr-Streams_example : to_arr 3 numbers (array one_three) ≡ some (one_three, none)
to_arr-Streams_example = to_arr-Streams numbers 3 (array-Streams one_three) (omega arith)

union-Streams_example :
    (m : UnionIter ℕ (ArrStream ℕ) (ArrStream ℕ) ℕ) × (union nat_ordered numbers numbers
        (array one_three)
        (array one_two)
      ≡ some m)
    × Streams (union_iter nat_ordered numbers numbers) m (item 1 (item 2 (item 3 end)))
unfolding union_of
union-Streams_example =
    union-Streams nat_ordered numbers numbers (array one_three) (array one_two)
      (array-Streams one_three) (array-Streams one_two)

abbrev pairs : Unary ℕ (ArrStream (List ℕ × List ℕ)) (List ℕ × List ℕ)
pairs = arr_stream

abbrev older : List (List ℕ × List ℕ)
older = ((1 ∷ []), (10 ∷ [])) ∷ ((2 ∷ []), (20 ∷ [])) ∷ []

abbrev newer : List (List ℕ × List ℕ)
newer = ((2 ∷ []), (21 ∷ [])) ∷ []

union_kv-Streams_example :
    (m : UnionIter ℕ (ArrStream (List ℕ × List ℕ)) (ArrStream (List ℕ × List ℕ)) (List ℕ × List ℕ))
    × (union_kv pairs pairs (array newer) (array older) ≡ some m)
    × Streams
        (union_kv_iter pairs pairs)
        m
        (item ((1 ∷ []), (10 ∷ [])) (item ((2 ∷ []), (21 ∷ [])) end))
unfolding union_of
union_kv-Streams_example =
    union_kv-Streams pairs pairs (array newer) (array older) (array-Streams newer)
      (array-Streams older)

intersect-Streams_example :
    (m : UnionIter ℕ (ArrStream ℕ) (ArrStream ℕ) ℕ) × (intersect nat_ordered numbers numbers 5
        (array one_three)
        (array one_two)
      ≡ some m)
    × Streams (intersect_iter nat_ordered numbers numbers 5) m (item 1 end)
unfolding intersect_of
intersect-Streams_example =
    intersect-Streams nat_ordered numbers numbers 5 (array one_three) (array one_two)
      (array-Streams one_three) (array-Streams one_two) (omega arith)

abbrev above_two : ℕ → Bool
above_two n = ltb 2 n

filter-Streams_example :
    (m : FilterIter ℕ (ArrStream ℕ) ℕ) × (filter numbers above_two 3 0 (array one_three) ≡ some m)
    × Streams (filter_iter numbers above_two 3) m (item 3 end)
unfolding filter_of
filter-Streams_example =
    filter-Streams numbers above_two 3 0 (array one_three) (array-Streams one_three) (omega arith)

-- Doubles a number and refuses those above 2 with the error 7.
abbrev double : ℕ → ℕ ⊎ ℕ
double n = elim (ltb 2 n) [ true ↦ inl 7 | false ↦ inr (n + n) ]

-- Two pages and an error on the third one; and one page that is followed by an empty one.
abbrev server : List ℕ → ℕ ⊎ (List ℕ × List ℕ)
server [] = inr (4 ∷ [], 1 ∷ [])
server (b ∷ bs) = inl 9

paginate-Streams_example : Streams (paginated server) (paginate server) (item 4 (stop 9))
paginate-Streams_example =
    paginate-Streams server (page_more [] 4 [] 1 [] (stop 9) refl (page_error (1 ∷ []) 9 refl))

abbrev gap : List ℕ → ℕ ⊎ (List ℕ × List ℕ)
gap [] = inr (4 ∷ [], 1 ∷ [])
gap (b ∷ []) = inr ([], 1 ∷ 1 ∷ [])
gap (b ∷ c ∷ bs) = inr (5 ∷ [], [])

paginated_has_next-empty_page_example :
    (paginated_has_next gap (at_page gap (4 ∷ []) 1 (1 ∷ []) true)
      ≡ (false, at_page gap [] 0 (1 ∷ 1 ∷ []) true))
    × (paginated_has_next gap (at_page gap [] 0 (1 ∷ 1 ∷ []) true)
        ≡ (true, at_page gap (5 ∷ []) 0 [] true))
paginated_has_next-empty_page_example =
    paginated_has_next-empty_page gap (4 ∷ []) 1 [] 1 (1 ∷ []) 5 [] [] refl refl
