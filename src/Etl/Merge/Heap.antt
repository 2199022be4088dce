-- ===== src/Etl/Merge/Heap.antt =====
-- The order of the heap of etl/heap.go.
use erigon_lib.Base.{
  ℕ, ◌≤◌, ◌<◌, ◌≡◌, sym, ◌∙◌, arith, true, false, List, ltb, Bool-cases, ◌⊎◌, inl, inr,
}
use erigon_lib.Iter.Order.{bytes_lt, bytes_eq, bytes-IsOrdered}
use erigon_lib.Etl.Sorting.{IsWeakOrder}
use erigon_lib.Etl.Merge.{HeapElem, heap_less}

bytes_eq-lt : (a b : List ℕ) → bytes_lt a b ≡ true → bytes_eq a b ≡ false
bytes_eq-lt a b h = elim (Bool-cases (bytes_eq a b)) [
  | inr n ↦ n
  | inl e ↦
      let same = bytes-IsOrdered.eq_sound a b e in
      let loop : bytes_lt b b ≡ true = rw same at h in let none_ = bytes-IsOrdered.lt_irrefl b in cc
]

pub bytes_lt_cases : (a b : List ℕ) → bytes_lt a b ≡ false → (bytes_lt b a ≡ true) ⊎ (a ≡ b)
bytes_lt_cases a b h = elim (Bool-cases (bytes_eq a b)) [
  | inl e ↦ inr (bytes-IsOrdered.eq_sound a b e)
  | inr n ↦ inl (bytes-IsOrdered.total a b h n)
]

pub bytes_lt_asym : (a b : List ℕ) → bytes_lt a b ≡ true → bytes_lt b a ≡ false
bytes_lt_asym a b h = elim (Bool-cases (bytes_lt b a)) [
  | inr n ↦ n
  | inl k ↦
      let loop = bytes-IsOrdered.lt_trans a b a h k in let none_ = bytes-IsOrdered.lt_irrefl a in cc
]

-- The four ways to compare two elements.
pub less_key : (a b : HeapElem) → bytes_lt a.key b.key ≡ true → heap_less a b ≡ true
less_key a b h = rw (bytes_eq-lt a.key b.key h) h

pub not_less_key : (a b : HeapElem) → bytes_lt b.key a.key ≡ true → heap_less a b ≡ false
not_less_key a b h = elim (Bool-cases (bytes_eq a.key b.key)) [
  | inr n ↦ rw n (bytes_lt_asym b.key a.key h)
  | inl e ↦
      let same = bytes-IsOrdered.eq_sound a.key b.key e in
      let loop : bytes_lt b.key b.key ≡ true = rw same at h in
      let none_ = bytes-IsOrdered.lt_irrefl b.key in cc
]

same_key : (a b : HeapElem) → a.key ≡ b.key → heap_less a b ≡ ltb a.time_idx b.time_idx
same_key a b h = let e : bytes_eq a.key b.key ≡ true = rw h (bytes-IsOrdered.eq_refl b.key) in rw e

pub less_idx : (a b : HeapElem) → a.key ≡ b.key → a.time_idx < b.time_idx → heap_less a b ≡ true
less_idx a b h k = let t : ltb a.time_idx b.time_idx ≡ true = ground arith in same_key a b h ∙ t

pub not_less_idx :
    (a b : HeapElem) → a.key ≡ b.key → b.time_idx ≤ a.time_idx → heap_less a b ≡ false
not_less_idx a b h k =
    let t : ltb a.time_idx b.time_idx ≡ false = ground arith in same_key a b h ∙ t

pub less_true_cases :
    (a b : HeapElem)
    → heap_less a b ≡ true
    → (bytes_lt a.key b.key ≡ true) ⊎ ((a.key ≡ b.key) × (a.time_idx < b.time_idx))
less_true_cases a b h = elim (Bool-cases (bytes_eq a.key b.key)) [
  | inl e ↦
      let t : ltb a.time_idx b.time_idx ≡ true = rw e at h in
      inr (bytes-IsOrdered.eq_sound a.key b.key e, ground arith)
  | inr n ↦ inl (rw n at h)
]

pub less_false_cases :
    (a b : HeapElem)
    → heap_less a b ≡ false
    → (bytes_lt b.key a.key ≡ true) ⊎ ((a.key ≡ b.key) × (b.time_idx ≤ a.time_idx))
less_false_cases a b h = elim (Bool-cases (bytes_eq a.key b.key)) [
  | inl e ↦
      let t : ltb a.time_idx b.time_idx ≡ false = rw e at h in
      inr (bytes-IsOrdered.eq_sound a.key b.key e, ground arith)
  | inr n ↦ inl (bytes-IsOrdered.total a.key b.key (rw n at h) n)
]

heap_less_trans :
    (a b c : HeapElem) → heap_less a b ≡ true → heap_less b c ≡ true → heap_less a c ≡ true
heap_less_trans a b c h k = elim (less_true_cases a b h) [
  | inl ab ↦ elim (less_true_cases b c k) [
    | inl bc ↦ less_key a c (bytes-IsOrdered.lt_trans a.key b.key c.key ab bc)
    | inr (e, i) ↦ less_key a c (rw e at ab)
  ]
  | inr (e, i) ↦ elim (less_true_cases b c k) [
    | inl bc ↦ less_key a c (rw e bc)
    | inr (f, j) ↦ less_idx a c (e ∙ f) (omega arith)
  ]
]

heap_less_asym : (a b : HeapElem) → heap_less a b ≡ true → heap_less b a ≡ false
heap_less_asym a b h = elim (less_true_cases a b h) [
  | inl ab ↦ not_less_key b a ab
  | inr (e, i) ↦ not_less_idx b a (sym e) (omega arith)
]

heap_not_less_trans :
    (a b c : HeapElem) → heap_less b a ≡ false → heap_less c b ≡ false → heap_less c a ≡ false
heap_not_less_trans a b c h k = elim (less_false_cases b a h) [
  | inl ab ↦ elim (less_false_cases c b k) [
    | inl bc ↦ not_less_key c a (bytes-IsOrdered.lt_trans a.key b.key c.key ab bc)
    | inr (e, i) ↦ not_less_key c a (rw e ab)
  ]
  | inr (e, i) ↦ elim (less_false_cases c b k) [
    | inl bc ↦ not_less_key c a (rw e at bc)
    | inr (f, j) ↦ not_less_idx c a (f ∙ e) (omega arith)
  ]
]

pub heap_less-IsWeakOrder : IsWeakOrder heap_less
heap_less-IsWeakOrder = record {
  less_trans = heap_less_trans;
  less_asym = heap_less_asym;
  not_less_trans = heap_not_less_trans;
}
