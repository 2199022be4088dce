-- ===== src/Etl/Entries/Values.antt =====
-- The values that the map buffers of etl/buffers.go keep, and their sizes.
use erigon_lib.Base.{
  ℕ, ◌+◌, ◌*◌, ◌≡◌, refl, ap, ◌∙◌, arith, false, Option, none, some, List, [], ◌∷◌, ◌++◌, length,
  length-append, Option-cases, Bool-cases, inl, inr, if◌then◌else◌,
}
use erigon_lib.Iter.Order.{bytes_eq, bytes-IsOrdered}
use erigon_lib.Etl.Sorting.{Entry}
use erigon_lib.Etl.Entries.{
  EntriesBuffer, lookup, store, append_put, oldest_put, append_puts, oldest_puts,
}

pub eq_sym : (a b : List ℕ) → bytes_eq a b ≡ false → bytes_eq b a ≡ false
eq_sym a b h = elim (Bool-cases (bytes_eq b a)) [
  | inr n ↦ n
  | inl e ↦
      let same = bytes-IsOrdered.eq_sound b a e in
      let wrong : bytes_eq a a ≡ false = rw same at h in let right = bytes-IsOrdered.eq_refl a in cc
]

-- A write is read at its key.
lookup-store : (k v : List ℕ) (m : List Entry) → lookup k (store k v m) ≡ some v
lookup-store k v [] = rw (bytes-IsOrdered.eq_refl k)
lookup-store k v (e ∷ m) = elim (Bool-cases (bytes_eq e.0 k)) [
  | inl h ↦ rw (h, h)
  | inr h ↦ rw (h, h) (lookup-store k v m)
]

-- And at no other one.
lookup-store_other :
    (j k v : List ℕ) (m : List Entry) → bytes_eq k j ≡ false → lookup j (store k v m) ≡ lookup j m
lookup-store_other j k v [] h = rw h
lookup-store_other j k v (e ∷ m) h = elim (Bool-cases (bytes_eq e.0 k)) [
  | inl same ↦
      let is_k = bytes-IsOrdered.eq_sound e.0 k same in
      let other : bytes_eq e.0 j ≡ false = rw is_k h in rw (same, other)
  | inr n ↦ elim (Bool-cases (bytes_eq e.0 j)) [
    | inl same ↦ rw (n, same)
    | inr other ↦ rw (n, other) (lookup-store_other j k v m h)
  ]
]

-- A value that is added to what is stored.
abbrev pub added : Option (List ℕ) → List ℕ → List ℕ
added none v = v
added (some stored) v = stored ++ v

-- What the entries add to the value of a key.
abbrev pub appended : List ℕ → Option (List ℕ) → List Entry → Option (List ℕ)
appended k stored [] = stored
appended k stored (e ∷ es) =
    let with_e = appended k (some (added stored e.1)) es in
    let without = appended k stored es in if bytes_eq e.0 k then with_e else without

-- The first value of a key, after what is stored.
abbrev pub oldest : List ℕ → Option (List ℕ) → List Entry → Option (List ℕ)
oldest k (some stored) es = some stored
oldest k none [] = none
oldest k none (e ∷ es) = let rest = oldest k none es in if bytes_eq e.0 k then some e.1 else rest

append_put_entries :
    (b : EntriesBuffer) (k v : List ℕ)
    → (append_put b k v).entries ≡ store k (added (lookup k b.entries) v) b.entries
unfolding append_put
append_put_entries b k v = elim (Option-cases (lookup k b.entries)) [
  | inl n ↦ rw (append_put, n)
  | inr (s, h) ↦ rw (append_put, h)
]

-- After `Put` of entries into an `appendSortableBuffer`, the map has for a key what it had, with the
-- values of the entries with that key one behind another after it.
pub append_puts-appended :
    (b : EntriesBuffer) (k : List ℕ) (es : List Entry)
    → lookup k (append_puts b es).entries ≡ appended k (lookup k b.entries) es
append_puts-appended b k [] = refl
append_puts-appended b k (e ∷ es) =
    append_puts-appended (append_put b e.0 e.1) k es
    ∙ ap (λ m. appended k (lookup k m) es) (append_put_entries b e.0 e.1)
    ∙ elim (Bool-cases (bytes_eq e.0 k)) [
      | inl h ↦
          let same = bytes-IsOrdered.eq_sound e.0 k h in
          rw (h, same)
            (ap (λ o. appended k o es) (lookup-store k (added (lookup k b.entries) e.1) b.entries))
      | inr h ↦ rw h (
          ap (λ o. appended k o es)
            (lookup-store_other k e.0 (added (lookup e.0 b.entries) e.1) b.entries h))
    ]

oldest_put-lookup :
    (b : EntriesBuffer) (k j v : List ℕ) (es : List Entry)
    → oldest j (lookup j (oldest_put b k v).entries) es
      ≡ oldest j (lookup j b.entries) ((k, v) ∷ es)
unfolding oldest_put
oldest_put-lookup b k j v es = elim (Bool-cases (bytes_eq k j)) [
  | inl h ↦
      let same = bytes-IsOrdered.eq_sound k j h in
      elim (Option-cases (lookup j b.entries)) [
        | inl n ↦
            let n' : lookup k b.entries ≡ none = rw same n in
            rw (oldest_put, n', n, h, same, lookup-store j v b.entries)
        | inr (s, q) ↦ let q' : lookup k b.entries ≡ some s = rw same q in rw (oldest_put, q', q)
      ]
  | inr h ↦ elim (Option-cases (lookup k b.entries)) [
    | inl n ↦ rw (oldest_put, n, lookup-store_other j k v b.entries h) (skip (lookup j b.entries) h)
    | inr (s, q) ↦ rw (oldest_put, q) (skip (lookup j b.entries) h)
  ]
]
  where
    skip : (o : Option (List ℕ)) → bytes_eq k j ≡ false → oldest j o es ≡ oldest j o ((k, v) ∷ es)
    skip none m = rw m
    skip (some s) m = refl

-- A key's value is the first one that was put.
pub oldest_puts-oldest :
    (b : EntriesBuffer) (k : List ℕ) (es : List Entry)
    → lookup k (oldest_puts b es).entries ≡ oldest k (lookup k b.entries) es
oldest_puts-oldest b k [] = none_more (lookup k b.entries)
  where
    none_more : (o : Option (List ℕ)) → o ≡ oldest k o []
    none_more none = refl
    none_more (some s) = refl
oldest_puts-oldest b k (e ∷ es) =
    oldest_puts-oldest (oldest_put b e.0 e.1) k es ∙ oldest_put-lookup b e.0 k e.1 es

-- The bytes of the map.
abbrev pub key_bytes : List Entry → ℕ
key_bytes [] = 0
key_bytes (e ∷ es) = length e.0 + key_bytes es

abbrev pub value_bytes : List Entry → ℕ
value_bytes [] = 0
value_bytes (e ∷ es) = length e.1 + value_bytes es

store_new :
    (k v : List ℕ) (m : List Entry)
    → lookup k m ≡ none
    → (key_bytes (store k v m) ≡ key_bytes m + length k)
      × (value_bytes (store k v m) ≡ value_bytes m + length v)
store_new k v [] h = (omega arith, omega arith)
store_new k v (e ∷ m) h = elim (Bool-cases (bytes_eq e.0 k)) [
  | inl same ↦ let wrong : some e.1 ≡ none = rw same at h in cc
  | inr n ↦ let (a, c) = store_new k v m (rw n at h) in rw n (omega (arith, a), omega (arith, c))
]

store_old :
    (k v s : List ℕ) (m : List Entry)
    → lookup k m ≡ some s
    → (key_bytes (store k v m) ≡ key_bytes m)
      × (value_bytes (store k v m) + length s ≡ value_bytes m + length v)
store_old k v s [] h = cc
store_old k v s (e ∷ m) h = elim (Bool-cases (bytes_eq e.0 k)) [
  | inl same ↦
      let is_s : some e.1 ≡ some s = rw same at h in
      let l : length e.1 ≡ length s = cc in rw same (refl, omega (arith, l))
  | inr n ↦ let (a, c) = store_old k v s m (rw n at h) in rw n (omega (arith, a), omega (arith, c))
]

-- The size is the number of bytes of the map, and `oldestEntrySortableBuffer` counts keys twice.
abbrev pub AppendSized : EntriesBuffer → Type 0
AppendSized b = b.size ≡ key_bytes b.entries + value_bytes b.entries

abbrev pub OldestSized : EntriesBuffer → Type 0
OldestSized b = b.size ≡ key_bytes b.entries * 2 + value_bytes b.entries

append_put-AppendSized :
    (b : EntriesBuffer) (k v : List ℕ) → AppendSized b → AppendSized (append_put b k v)
unfolding append_put
append_put-AppendSized b k v h = elim (Option-cases (lookup k b.entries)) [
  | inl n ↦ let (a, c) = store_new k v b.entries n in rw (append_put, n) (omega (arith, h, a, c))
  | inr (s, q) ↦
      let (a, c) = store_old k (s ++ v) s b.entries q in
      rw (append_put, q) (omega (arith, h, a, c, length-append s v))
]

oldest_put-OldestSized :
    (b : EntriesBuffer) (k v : List ℕ) → OldestSized b → OldestSized (oldest_put b k v)
unfolding oldest_put
oldest_put-OldestSized b k v h = elim (Option-cases (lookup k b.entries)) [
  | inl n ↦ let (a, c) = store_new k v b.entries n in rw (oldest_put, n) (omega (arith, h, a, c))
  | inr (s, q) ↦ rw (oldest_put, q) h
]

pub append_puts-AppendSized :
    (b : EntriesBuffer) (es : List Entry) → AppendSized b → AppendSized (append_puts b es)
append_puts-AppendSized b [] h = h
append_puts-AppendSized b (e ∷ es) h =
    append_puts-AppendSized (append_put b e.0 e.1) es (append_put-AppendSized b e.0 e.1 h)

pub oldest_puts-OldestSized :
    (b : EntriesBuffer) (es : List Entry) → OldestSized b → OldestSized (oldest_puts b es)
oldest_puts-OldestSized b [] h = h
oldest_puts-OldestSized b (e ∷ es) h =
    oldest_puts-OldestSized (oldest_put b e.0 e.1) es (oldest_put-OldestSized b e.0 e.1 h)
