-- ===== src/Etl/Entries/Order.antt =====
-- The order of the map buffers of etl/buffers.go after `Sort`, whatever order `range` has.
use erigon_lib.Base.{
  ℕ, ◌≡◌, refl, sym, ap, ◌∙◌, false, none, some, List, [], ◌∷◌, ◌++◌, All, Option-cases, Bool-cases,
  ◌⊎◌, inl, inr,
}
use erigon_lib.Iter.Order.{bytes_lt, bytes_eq, bytes-IsOrdered}
use erigon_lib.Etl.Sorting.{
  Entry, by_key, by_key-IsWeakOrder, stable_sort, inserts, insert, Apart, insert-inserts, IsSorted,
  stable_sort-IsSorted,
}
use erigon_lib.Etl.LoadNext.Laws.{Ascending, keys}
use erigon_lib.Etl.Entries.{
  EntriesBuffer, lookup, store, append_put, oldest_put, sort_entries, append_puts, oldest_puts,
}
use erigon_lib.Etl.Entries.Values.{eq_sym}

-- No key is there twice.
abbrev pub Differs : Entry → List Entry → Type 0
Differs e es = All (λ (f : Entry). bytes_eq e.0 f.0 ≡ false) es

abbrev pub Distinct : List Entry → Type 0
Distinct [] = Unit
Distinct (e ∷ es) = Differs e es × Distinct es

-- The same entries in another order.
pub data Reordered : List Entry → List Entry → Type 0 where
  done : Reordered [] []
  keep : (e : Entry) {xs ys : List Entry} → Reordered xs ys → Reordered (e ∷ xs) (e ∷ ys)
  swap : (e f : Entry) (xs : List Entry) → Reordered (e ∷ f ∷ xs) (f ∷ e ∷ xs)
  both : {xs ys zs : List Entry} → Reordered xs ys → Reordered ys zs → Reordered xs zs

Reordered-Differs : (e : Entry) {xs ys : List Entry} → Reordered xs ys → Differs e xs → Differs e ys
Reordered-Differs e done h = tt
Reordered-Differs e (keep f p) h = (h.0, Reordered-Differs e p h.1)
Reordered-Differs e (swap f g xs) h = (h.1.0, (h.0, h.1.1))
Reordered-Differs e (both p q) h = Reordered-Differs e q (Reordered-Differs e p h)

Reordered-Distinct : {xs ys : List Entry} → Reordered xs ys → Distinct xs → Distinct ys
Reordered-Distinct done h = tt
Reordered-Distinct (keep f p) h = (Reordered-Differs f p h.0, Reordered-Distinct p h.1)
Reordered-Distinct (swap f g xs) h = ((eq_sym f.0 g.0 h.0.0, h.1.0), (h.0.1, h.1.1))
Reordered-Distinct (both p q) h = Reordered-Distinct q (Reordered-Distinct p h)

distinct-Apart : (x y : Entry) → bytes_eq x.0 y.0 ≡ false → Apart by_key x y
distinct-Apart x y h = elim (Bool-cases (bytes_lt x.0 y.0)) [
  | inl l ↦ inr l
  | inr n ↦ inl (bytes-IsOrdered.total x.0 y.0 n h)
]

Reordered-inserts :
    {xs ys : List Entry}
    → Reordered xs ys
    → Distinct xs
    → (t : List Entry) → inserts by_key xs t ≡ inserts by_key ys t
unfolding inserts
Reordered-inserts done h t = refl
Reordered-inserts (keep f p) h t = ap (insert by_key f) (Reordered-inserts p h.1 t)
Reordered-inserts (swap f g xs) h t =
    insert-inserts by_key by_key-IsWeakOrder f (g ∷ []) (inserts by_key xs t)
      (distinct-Apart f g h.0.0, tt)
Reordered-inserts (both p q) h t =
    Reordered-inserts p h t ∙ Reordered-inserts q (Reordered-Distinct p h) t

insert-Differs :
    (e x : Entry) (l : List Entry)
    → bytes_eq e.0 x.0 ≡ false
    → Differs e l
    → Differs e (insert by_key x l)
unfolding insert
insert-Differs e x [] n h = (n, tt)
insert-Differs e x (y ∷ l) n h = elim (Bool-cases (by_key y x)) [
  | inl k ↦ rw (k) (h.0, insert-Differs e x l n h.1)
  | inr k ↦ rw (k) (n, h)
]

insert-Distinct :
    (x : Entry) (l : List Entry) → Differs x l → Distinct l → Distinct (insert by_key x l)
unfolding insert
insert-Distinct x [] n h = (tt, tt)
insert-Distinct x (y ∷ l) n h = elim (Bool-cases (by_key y x)) [
  | inl k ↦ rw (k) (insert-Differs y x l (eq_sym x.0 y.0 n.0) h.0, insert-Distinct x l n.1 h.1)
  | inr k ↦ rw (k) (n, h)
]

inserts-Differs :
    (e : Entry) (xs t : List Entry) → Differs e xs → Differs e t → Differs e (inserts by_key xs t)
unfolding inserts
inserts-Differs e [] t a b = b
inserts-Differs e (x ∷ xs) t a b =
    insert-Differs e x (inserts by_key xs t) a.0 (inserts-Differs e xs t a.1 b)

stable_sort-Distinct : (xs : List Entry) → Distinct xs → Distinct (stable_sort by_key xs)
unfolding stable_sort inserts
stable_sort-Distinct [] h = tt
stable_sort-Distinct (x ∷ xs) h =
    insert-Distinct x (inserts by_key xs []) (inserts-Differs x xs [] h.0 tt)
      (stable_sort-Distinct xs h.1)

sorted-Ascending :
    (e : Entry) (es : List Entry)
    → Distinct (e ∷ es)
    → IsSorted by_key (e ∷ es)
    → Ascending (some e.0) (keys es)
sorted-Ascending e [] d s = tt
sorted-Ascending e (f ∷ es) d s =
    (bytes-IsOrdered.total f.0 e.0 s.0.0 (eq_sym e.0 f.0 d.0.0), sorted-Ascending f es d.1 s.1)

all-Ascending : (es : List Entry) → Distinct es → IsSorted by_key es → Ascending none (keys es)
all-Ascending [] d s = tt
all-Ascending (e ∷ es) d s = (tt, sorted-Ascending e es d s)

-- After `Sort` of a buffer that was not sorted before and has no key twice, the keys ascend strictly, and
-- the entries are the stable sort of the map's, in whatever order the map gave them.
pub sort_entries-Ascending :
    (order : List Entry → List Entry) (b : EntriesBuffer)
    → Reordered b.entries (order b.entries)
    → b.sorted_buf ≡ []
    → Distinct b.entries
    → ((sort_entries order b).sorted_buf ≡ stable_sort by_key b.entries)
      × Ascending none (keys (sort_entries order b).sorted_buf)
unfolding sort_entries
sort_entries-Ascending order b p empty d =
    let same : (sort_entries order b).sorted_buf ≡ stable_sort by_key b.entries =
      ap (λ t. stable_sort by_key (t ++ order b.entries)) empty
      ∙ unfold stable_sort in sym (Reordered-inserts p d []) in
    (
      same,
      rw same (
          all-Ascending (stable_sort by_key b.entries) (stable_sort-Distinct b.entries d)
            (stable_sort-IsSorted by_key by_key-IsWeakOrder b.entries)),
    )

store-Differs :
    (e : Entry) (k v : List ℕ) (m : List Entry)
    → bytes_eq e.0 k ≡ false
    → Differs e m
    → Differs e (store k v m)
store-Differs e k v [] n h = (n, tt)
store-Differs e k v (f ∷ m) n h = elim (Bool-cases (bytes_eq f.0 k)) [
  | inl s ↦ rw s (h.0, h.1)
  | inr s ↦ rw s (h.0, store-Differs e k v m n h.1)
]

store-Distinct : (k v : List ℕ) (m : List Entry) → Distinct m → Distinct (store k v m)
store-Distinct k v [] h = (tt, tt)
store-Distinct k v (f ∷ m) h = elim (Bool-cases (bytes_eq f.0 k)) [
  | inl s ↦ rw s (h.0, h.1)
  | inr s ↦ rw s (store-Differs f k v m s h.0, store-Distinct k v m h.1)
]

-- `Put` keeps the keys distinct and does not sort.
abbrev pub IsMap : EntriesBuffer → Type 0
IsMap b = Distinct b.entries × (b.sorted_buf ≡ [])

pub append_puts-IsMap : (b : EntriesBuffer) (es : List Entry) → IsMap b → IsMap (append_puts b es)
append_puts-IsMap b [] h = h
append_puts-IsMap b (e ∷ es) h =
    append_puts-IsMap (append_put b e.0 e.1) es (one (Option-cases (lookup e.0 b.entries)))
  where
    one :
        (lookup e.0 b.entries ≡ none) ⊎ ((s : List ℕ) × (lookup e.0 b.entries ≡ some s))
        → IsMap (append_put b e.0 e.1)
    one (inl n) =
        unfold append_put in rw (append_put, n) (store-Distinct e.0 e.1 b.entries h.0, h.1)
    one (inr (s, q)) =
        unfold append_put in rw (append_put, q) (store-Distinct e.0 (s ++ e.1) b.entries h.0, h.1)

pub oldest_puts-IsMap : (b : EntriesBuffer) (es : List Entry) → IsMap b → IsMap (oldest_puts b es)
oldest_puts-IsMap b [] h = h
oldest_puts-IsMap b (e ∷ es) h =
    oldest_puts-IsMap (oldest_put b e.0 e.1) es (one (Option-cases (lookup e.0 b.entries)))
  where
    one :
        (lookup e.0 b.entries ≡ none) ⊎ ((s : List ℕ) × (lookup e.0 b.entries ≡ some s))
        → IsMap (oldest_put b e.0 e.1)
    one (inl n) =
        unfold oldest_put in rw (oldest_put, n) (store-Distinct e.0 e.1 b.entries h.0, h.1)
    one (inr (s, q)) = unfold oldest_put in rw (oldest_put, q) h
