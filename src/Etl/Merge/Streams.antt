-- ===== src/Etl/Merge/Streams.antt =====
-- The lists of entries that are left to merge, and the elements of the heap that stand for them.
use mathlib.Core.List.{append_assoc}
use erigon_lib.Base.{
  ℕ, suc, ◌+◌, ◌≤◌, ◌<◌, ◌≡◌, refl, sym, ap, ◌∙◌, arith, false, List, [], ◌∷◌, ◌++◌, length, All,
  All-append, Bool-cases, ◌⊎◌, inl, inr,
}
use erigon_lib.Etl.Sorting.{
  Entry, by_key, by_key-IsWeakOrder, stable_sort, inserts, AtLeast, Above, AtLeast-mono, Apart,
  insert-inserts, stable_sort_first, inserts-append,
}
use erigon_lib.Etl.Merge.{HeapElem, elem, heap_less, push}
use erigon_lib.Etl.Merge.Heap.{
  bytes_lt_cases, less_key, not_less_key, not_less_idx, less_false_cases, heap_less-IsWeakOrder,
}

abbrev pub Streams : Type 0
Streams = List (List Entry)

abbrev pub concat : Streams → List Entry
concat [] = []
concat (es ∷ ess) = es ++ concat ess

-- The first entries of those that have one.
abbrev pub heads : Streams → List Entry
heads [] = []
heads ([] ∷ ess) = heads ess
heads ((e ∷ es) ∷ ess) = e ∷ heads ess

-- Their elements in the heap.
abbrev pub tops : ℕ → Streams → List HeapElem
tops i [] = []
tops i ([] ∷ ess) = tops (suc i) ess
tops i ((e ∷ es) ∷ ess) = elem e i ∷ tops (suc i) ess

pub concat-append : (ps bs : Streams) → concat (ps ++ bs) ≡ concat ps ++ concat bs
concat-append [] bs = refl
concat-append (a ∷ ps) bs =
    ap (λ t. a ++ t) (concat-append ps bs) ∙ sym (append_assoc a (concat ps) (concat bs))

pub heads-append : (ps bs : Streams) → heads (ps ++ bs) ≡ heads ps ++ heads bs
heads-append [] bs = refl
heads-append ([] ∷ ps) bs = heads-append ps bs
heads-append ((e ∷ es) ∷ ps) bs = ap (λ t. e ∷ t) (heads-append ps bs)

pub tops-append :
    (i : ℕ) (ps bs : Streams) → tops i (ps ++ bs) ≡ tops i ps ++ tops (i + length ps) bs
tops-append i [] bs = ap (λ t. tops t bs) (omega arith)
tops-append i ([] ∷ ps) bs =
    tops-append (suc i) ps bs ∙ ap (λ t. tops (suc i) ps ++ tops t bs) (omega arith)
tops-append i ((e ∷ es) ∷ ps) bs =
    ap (λ t. elem e i ∷ t)
      (tops-append (suc i) ps bs ∙ ap (λ t. tops (suc i) ps ++ tops t bs) (omega arith))

tops_from_0 : (ps bs : Streams) → tops 0 (ps ++ bs) ≡ tops 0 ps ++ tops (length ps) bs
tops_from_0 ps bs = tops-append 0 ps bs ∙ ap (λ t. tops 0 ps ++ tops t bs) (omega arith)

pub no_heads : (i : ℕ) (ess : Streams) → heads ess ≡ [] → (tops i ess ≡ []) × (concat ess ≡ [])
no_heads i [] h = (refl, refl)
no_heads i ([] ∷ ess) h = no_heads (suc i) ess h
no_heads i ((e ∷ es) ∷ ess) h = cc

Above-AtLeast : (x : Entry) (l : List Entry) → Above by_key x l → AtLeast by_key x l
Above-AtLeast x [] h = tt
Above-AtLeast x (y ∷ l) h = (by_key-IsWeakOrder.less_asym x y h.0, Above-AtLeast x l h.1)

-- The first of the least heads, between the lists before it and those behind it.
pub record Least (ess : Streams) : Type 0 where
  pub before : Streams
  pub first : Entry
  pub others : List Entry
  pub behind : Streams
  pub splits : ess ≡ before ++ ((first ∷ others) ∷ behind)
  pub above : Above by_key first (heads before)
  pub at_least : AtLeast by_key first (heads behind)

heads_bound : (ess : Streams) (l : Least ess) → AtLeast by_key l.first (heads ess)
heads_bound ess l =
    rw (l.splits, heads-append l.before ((l.first ∷ l.others) ∷ l.behind))
      (All-append (λ (y : Entry). by_key y l.first ≡ false) (heads l.before)
        (l.first ∷ heads l.behind) (Above-AtLeast l.first (heads l.before) l.above)
        (irrefl l.first, l.at_least))
  where
    irrefl : (e : Entry) → by_key e e ≡ false
    irrefl e = elim (Bool-cases (by_key e e)) [
      | inl h ↦ by_key-IsWeakOrder.less_asym e e h
      | inr h ↦ h
    ]

pub least : (ess : Streams) → (heads ess ≡ []) ⊎ Least ess
least [] = inl refl
least ([] ∷ ess) = elim (least ess) [
  | inl h ↦ inl h
  | inr l ↦ inr (record {
    before = [] ∷ l.before;
    first = l.first;
    others = l.others;
    behind = l.behind;
    splits = ap (λ (t : Streams). [] ∷ t) l.splits;
    above = l.above;
    at_least = l.at_least;
  })
]
least ((e ∷ es) ∷ ess) = elim (least ess) [
  | inl h ↦ inr (record {
    before = [];
    first = e;
    others = es;
    behind = ess;
    splits = refl;
    above = tt;
    at_least = rw h tt;
  })
  | inr l ↦ elim (Bool-cases (by_key l.first e)) [
    | inl k ↦ inr (record {
      before = (e ∷ es) ∷ l.before;
      first = l.first;
      others = l.others;
      behind = l.behind;
      splits = ap (λ (t : Streams). (e ∷ es) ∷ t) l.splits;
      above = (k, l.above);
      at_least = l.at_least;
    })
    | inr k ↦ inr (record {
      before = [];
      first = e;
      others = es;
      behind = ess;
      splits = refl;
      above = tt;
      at_least = AtLeast-mono by_key by_key-IsWeakOrder e l.first (heads ess) k (heads_bound ess l);
    })
  ]
]

tops-Above :
    (e : Entry) (i k : ℕ) (ess : Streams)
    → Above by_key e (heads ess)
    → Above heap_less (elem e k) (tops i ess)
tops-Above e i k [] h = tt
tops-Above e i k ([] ∷ ess) h = tops-Above e (suc i) k ess h
tops-Above e i k ((x ∷ xs) ∷ ess) h =
    (less_key (elem e k) (elem x i) h.0, tops-Above e (suc i) k ess h.1)

tops-AtLeast :
    (e : Entry) (i k : ℕ) (ess : Streams)
    → k ≤ i
    → AtLeast by_key e (heads ess)
    → AtLeast heap_less (elem e k) (tops i ess)
tops-AtLeast e i k [] le h = tt
tops-AtLeast e i k ([] ∷ ess) le h = tops-AtLeast e (suc i) k ess (omega arith) h
tops-AtLeast e i k ((x ∷ xs) ∷ ess) le h = (
  elim (bytes_lt_cases x.0 e.0 h.0) [
    | inl l ↦ not_less_key (elem x i) (elem e k) l
    | inr q ↦ not_less_idx (elem x i) (elem e k) q le
  ],
  tops-AtLeast e (suc i) k ess (omega arith) h.1,
)

indices-Apart :
    (x : HeapElem) (e : Entry) (i : ℕ)
    → (x.time_idx < i) ⊎ (i < x.time_idx)
    → Apart heap_less x (elem e i)
indices-Apart x e i (inl h) = elim (Bool-cases (heap_less x (elem e i))) [
  | inl k ↦ inr k
  | inr k ↦ elim (less_false_cases x (elem e i) k) [
    | inl l ↦ inl (less_key (elem e i) x l)
    | inr (q, j) ↦ absurd (omega arith)
  ]
]
indices-Apart x e i (inr h) = elim (Bool-cases (heap_less (elem e i) x)) [
  | inl k ↦ inl k
  | inr k ↦ elim (less_false_cases (elem e i) x k) [
    | inl l ↦ inr (less_key x (elem e i) l)
    | inr (q, j) ↦ absurd (omega arith)
  ]
]

-- Elements of other providers are not equal.
tops-Apart :
    (x : HeapElem) (i : ℕ) (ess : Streams)
    → i + length ess ≤ x.time_idx
    → All (Apart heap_less x) (tops i ess)
tops-Apart x i [] h = tt
tops-Apart x i ([] ∷ ess) h = tops-Apart x (suc i) ess (omega arith)
tops-Apart x i ((e ∷ es) ∷ ess) h =
    (indices-Apart x e i (inr (omega arith)), tops-Apart x (suc i) ess (omega arith))

pub later-Apart :
    (x : HeapElem) (i : ℕ) (ess : Streams) → x.time_idx < i → All (Apart heap_less x) (tops i ess)
later-Apart x i [] h = tt
later-Apart x i ([] ∷ ess) h = later-Apart x (suc i) ess (omega arith)
later-Apart x i ((e ∷ es) ∷ ess) h =
    (indices-Apart x e i (inl h), later-Apart x (suc i) ess (omega arith))

-- The heap of the lists.
abbrev pub heap_of : Streams → List HeapElem
heap_of ess = stable_sort heap_less (tops 0 ess)

-- Its first element is the first of the least heads.
pub heap_of_first :
    (ps : Streams) (e : Entry) (es : List Entry) (bs : Streams)
    → Above by_key e (heads ps)
    → AtLeast by_key e (heads bs)
    → heap_of (ps ++ ((e ∷ es) ∷ bs)) ≡ elem e (length ps) ∷ heap_of (ps ++ ([] ∷ bs))
heap_of_first ps e es bs h k =
    rw (tops_from_0 ps ((e ∷ es) ∷ bs), tops_from_0 ps ([] ∷ bs))
      (stable_sort_first heap_less heap_less-IsWeakOrder (elem e (length ps)) (tops 0 ps)
        (tops (suc (length ps)) bs) (tops-Above e 0 (length ps) ps h)
        (tops-AtLeast e (suc (length ps)) (length ps) bs (omega arith) k))

-- The next entry of a list goes into the heap.
pub push-heap_of :
    (ps : Streams) (e : Entry) (es : List Entry) (bs : Streams)
    → push (elem e (length ps)) (heap_of (ps ++ ([] ∷ bs))) ≡ heap_of (ps ++ ((e ∷ es) ∷ bs))
unfolding stable_sort inserts
push-heap_of ps e es bs =
    rw
      (
        tops_from_0 ps ((e ∷ es) ∷ bs),
        tops_from_0 ps ([] ∷ bs),
        inserts-append heap_less (tops 0 ps) (tops (suc (length ps)) bs) [],
        inserts-append heap_less (tops 0 ps) (elem e (length ps) ∷ tops (suc (length ps)) bs) [],
      )
      (insert-inserts heap_less heap_less-IsWeakOrder (elem e (length ps)) (tops 0 ps)
        (inserts heap_less (tops (suc (length ps)) bs) [])
        (tops-Apart (elem e (length ps)) 0 ps (omega arith)))
