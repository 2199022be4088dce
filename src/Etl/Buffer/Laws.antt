-- ===== src/Etl/Buffer/Laws.antt =====
-- `sortableBuffer` of etl/buffers.go as a list of entries.
use mathlib.Core.List.{append_assoc}
use erigon_lib.Base.{
  ℕ, zero, suc, ◌+◌, ◌*◌, ◌≤◌, ◌≡◌, refl, sym, ap, ◌∙◌, arith, true, false, some, List, [], ◌∷◌,
  ◌++◌, length, get_elem?, drop, map, All, length-append, length-take, length-drop, Bool-cases, inl,
  inr,
}
use erigon_lib.Etl.Sorting.{
  Entry, by_key, stable_sort, stable_sort-map, IsSorted, less_by, less_by-IsWeakOrder, AtLeast-mono,
  stable_sort-IsSorted_id, stable_sort-All,
}
use erigon_lib.Etl.Varint.{put_uvarint}
use erigon_lib.Etl.Buffer.{
  SortableBuffer, new_sortable_buffer, put, len, reset, cut, get, Slot, slots, offsets_of, lens_of,
  slot_key, is_sorted, sort, write_all, write,
}

abbrev pub entry_of : List ℕ → Slot → Entry
entry_of bytes s = (cut bytes s.key_offset s.key_len, cut bytes s.val_offset s.val_len)

-- The entries of a buffer, in its order.
abbrev pub entries : SortableBuffer → List Entry
entries b = map (entry_of b.bytes) (slots b.offsets b.lens)

-- A slot lies inside the bytes.
abbrev pub Inside : ℕ → Slot → Type 0
Inside n s = (s.key_offset + s.key_len ≤ n) × (s.val_offset + s.val_len ≤ n)

-- The offsets and the lengths belong to slots inside the bytes.
abbrev pub IsBuffer : SortableBuffer → Type 0
IsBuffer b =
    (ss : List Slot) × (b.offsets ≡ offsets_of ss)
    × (b.lens ≡ lens_of ss)
    × All (Inside (length b.bytes)) ss

pub slots_lem : (ss : List Slot) → slots (offsets_of ss) (lens_of ss) ≡ ss
unfolding slots
slots_lem [] = refl
slots_lem (s ∷ ss) = ap (λ t. s ∷ t) (slots_lem ss)

pub new-IsBuffer :
    (n : ℕ) → IsBuffer (new_sortable_buffer n) × (entries (new_sortable_buffer n) ≡ [])
unfolding new_sortable_buffer slots
new-IsBuffer n = (([], refl, refl, tt), refl)

pub reset-IsBuffer : (b : SortableBuffer) → IsBuffer (reset b) × (entries (reset b) ≡ [])
unfolding reset slots
reset-IsBuffer b = (([], refl, refl, tt), refl)

offsets_of-append : (ss ts : List Slot) → offsets_of (ss ++ ts) ≡ offsets_of ss ++ offsets_of ts
offsets_of-append [] ts = refl
offsets_of-append (s ∷ ss) ts = ap (λ t. s.key_offset ∷ s.val_offset ∷ t) (offsets_of-append ss ts)

lens_of-append : (ss ts : List Slot) → lens_of (ss ++ ts) ≡ lens_of ss ++ lens_of ts
lens_of-append [] ts = refl
lens_of-append (s ∷ ss) ts = ap (λ t. s.key_len ∷ s.val_len ∷ t) (lens_of-append ss ts)

-- What lies inside is not moved when bytes are added.
cut-append :
    (bytes more : List ℕ) (o n : ℕ) → o + n ≤ length bytes → cut (bytes ++ more) o n ≡ cut bytes o n
cut-append bytes more zero zero h = refl
cut-append [] more zero (suc n) h = absurd (omega arith)
cut-append (b ∷ bytes) more zero (suc n) h =
    ap (λ t. b ∷ t) (cut-append bytes more zero n (omega arith))
cut-append [] more (suc o) n h = absurd (omega arith)
cut-append (b ∷ bytes) more (suc o) n h = cut-append bytes more o n (omega arith)

entries-append :
    (bytes more : List ℕ) (ss : List Slot)
    → All (Inside (length bytes)) ss
    → map (entry_of (bytes ++ more)) ss ≡ map (entry_of bytes) ss
entries-append bytes more [] h = refl
entries-append bytes more (s ∷ ss) h =
    rw
      (
        cut-append bytes more s.key_offset s.key_len h.0.0,
        cut-append bytes more s.val_offset s.val_len h.0.1,
      )
      (ap (λ t. entry_of bytes s ∷ t) (entries-append bytes more ss h.1))

Inside-mono : (m n : ℕ) (ss : List Slot) → m ≤ n → All (Inside m) ss → All (Inside n) ss
Inside-mono m n [] le h = tt
Inside-mono m n (s ∷ ss) le h = ((omega arith, omega arith), Inside-mono m n ss le h.1)

All-snoc : (P : Slot → Type 0) (ss : List Slot) (s : Slot) → All P ss → P s → All P (ss ++ (s ∷ []))
All-snoc P [] s h p = (p, tt)
All-snoc P (t ∷ ss) s h p = (h.0, All-snoc P ss s h.1 p)

map-append : (f : Slot → Entry) (ss ts : List Slot) → map f (ss ++ ts) ≡ map f ss ++ map f ts
map-append f [] ts = refl
map-append f (s ∷ ss) ts = ap (λ t. f s ∷ t) (map-append f ss ts)

cut_last : (bytes k : List ℕ) → cut (bytes ++ k) (length bytes) (length k) ≡ k
cut_last [] [] = refl
cut_last [] (x ∷ k) = ap (λ t. x ∷ t) (cut_last [] k)
cut_last (b ∷ bytes) k = cut_last bytes k

module _ (b : SortableBuffer) (k v : List ℕ) where
  abbrev new_slot : Slot
  new_slot = record {
    key_offset = length b.bytes;
    key_len = length k;
    val_offset = length (b.bytes ++ k);
    val_len = length v;
  }

  new_slot-Inside : Inside (length ((b.bytes ++ k) ++ v)) new_slot
  new_slot-Inside =
      let a = length-append b.bytes k in
      let c = length-append (b.bytes ++ k) v in (omega arith, omega arith)

  new_slot_entry : entry_of ((b.bytes ++ k) ++ v) new_slot ≡ (k, v)
  new_slot_entry = rw (
    cut-append (b.bytes ++ k) v (length b.bytes) (length k)
        (omega (arith, length-append b.bytes k)),
    cut_last b.bytes k,
    cut_last (b.bytes ++ k) v,
  )

  -- `Put` adds an entry at the end.
  pub put-IsBuffer :
      IsBuffer b → IsBuffer (put b k v) × (entries (put b k v) ≡ entries b ++ ((k, v) ∷ []))
  unfolding put
  put-IsBuffer (ss, o, l, inside) =
      let ext = append_assoc b.bytes k v in
      let small = length-append b.bytes (k ++ v) in
      let ts : List Slot = ss ++ (new_slot ∷ []) in
      let o' =
        ap (λ t. t ++ (length b.bytes ∷ length (b.bytes ++ k) ∷ [])) o
        ∙ sym (offsets_of-append ss (new_slot ∷ [])) in
      let l' =
        ap (λ t. t ++ (length k ∷ length v ∷ [])) l ∙ sym (lens_of-append ss (new_slot ∷ [])) in
      let kept : map (entry_of ((b.bytes ++ k) ++ v)) ss ≡ map (entry_of b.bytes) ss =
        rw ext (entries-append b.bytes (k ++ v) ss inside) in
      (
        (
          ts,
          o',
          l',
          All-snoc (Inside (length ((b.bytes ++ k) ++ v))) ss new_slot
              (Inside-mono (length b.bytes) (length ((b.bytes ++ k) ++ v)) ss
                (omega (arith, ap length ext)) inside)
              new_slot-Inside,
        ),
        rw (
          o',
          l',
          o,
          l,
          slots_lem ts,
          slots_lem ss,
          map-append (entry_of ((b.bytes ++ k) ++ v)) ss (new_slot ∷ []),
          kept,
          new_slot_entry,
        ),
      )

is_sorted-IsSorted :
    (bytes : List ℕ) (ss : List Slot)
    → is_sorted bytes ss ≡ true
    → IsSorted (less_by (slot_key bytes)) ss
unfolding is_sorted
is_sorted-IsSorted bytes [] h = tt
is_sorted-IsSorted bytes (s ∷ []) h = (tt, tt)
is_sorted-IsSorted bytes (s ∷ t ∷ ss) h = elim (Bool-cases (less_by (slot_key bytes) t s)) [
  | inl k ↦ let no_ : false ≡ true = rw (k, is_sorted) at h in cc
  | inr k ↦
      let rest = is_sorted-IsSorted bytes (t ∷ ss) (rw (k, is_sorted) at h) in
      (
        (
          k,
          AtLeast-mono (less_by (slot_key bytes)) (less_by-IsWeakOrder (slot_key bytes)) s t ss k
              rest.0,
        ),
        rest,
      )
]

-- `Sort` keeps a buffer well-formed and puts its entries in the stable order of their keys.
pub sort-IsBuffer :
    (b : SortableBuffer)
    → IsBuffer b
    → IsBuffer (sort b) × (entries (sort b) ≡ stable_sort by_key (entries b))
unfolding sort
sort-IsBuffer b (ss, o, l, inside) =
    elim (Bool-cases (is_sorted b.bytes (slots b.offsets b.lens))) [
      | inl h ↦
          let same : slots b.offsets b.lens ≡ ss = rw (o, l) (slots_lem ss) in
          rw h (
            (ss, o, l, inside),
            ap (map (entry_of b.bytes)) (
                  sym (
                    stable_sort-IsSorted_id (less_by (slot_key b.bytes))
                      (less_by-IsWeakOrder (slot_key b.bytes)) (slots b.offsets b.lens)
                      (is_sorted-IsSorted b.bytes (slots b.offsets b.lens) h)))
                ∙ stable_sort-map by_key (entry_of b.bytes) (slots b.offsets b.lens),
          )
      | inr h ↦
          let same : slots b.offsets b.lens ≡ ss = rw (o, l) (slots_lem ss) in
          let new : List Slot = stable_sort (less_by (slot_key b.bytes)) (slots b.offsets b.lens) in
          rw h (
            (
              new,
              refl,
              refl,
              stable_sort-All (less_by (slot_key b.bytes)) (Inside (length b.bytes))
                  (slots b.offsets b.lens) (rw same inside),
            ),
            ap (map (entry_of b.bytes)) (slots_lem new)
                ∙ stable_sort-map by_key (entry_of b.bytes) (slots b.offsets b.lens),
          )
    ]

offsets_at :
    (ss : List Slot) (i : ℕ) (s : Slot)
    → get_elem? ss i ≡ some s
    → (get_elem? (offsets_of ss) (2 * i) ≡ some s.key_offset)
      × (get_elem? (offsets_of ss) (2 * i + 1) ≡ some s.val_offset)
      × (get_elem? (lens_of ss) (2 * i) ≡ some s.key_len)
      × (get_elem? (lens_of ss) (2 * i + 1) ≡ some s.val_len)
offsets_at [] i s h = cc
offsets_at (t ∷ ss) zero s h =
    let same : t ≡ s = cc in
    (
      ap (λ (r : Slot). some r.key_offset) same,
      ap (λ (r : Slot). some r.val_offset) same,
      ap (λ (r : Slot). some r.key_len) same,
      ap (λ (r : Slot). some r.val_len) same,
    )
offsets_at (t ∷ ss) (suc i) s h =
    let twice : 2 * suc i ≡ suc (suc (2 * i)) = omega arith in
    let twice' : suc (suc (2 * i)) + 1 ≡ suc (suc (2 * i + 1)) = omega arith in
    rw (twice, twice') (offsets_at ss i s h)

map_at :
    (f : Slot → Entry) (ss : List Slot) (i : ℕ) (e : Entry)
    → get_elem? (map f ss) i ≡ some e
    → (s : Slot) × (get_elem? ss i ≡ some s) × (f s ≡ e)
map_at f [] i e h = cc
map_at f (s ∷ ss) zero e h = (s, refl, cc)
map_at f (s ∷ ss) (suc i) e h = map_at f ss i e h

-- `Get` appends the key and the value of an entry to its buffers.
pub get-entries :
    (b : SortableBuffer) (i : ℕ) (e : Entry) (kb vb : List ℕ)
    → IsBuffer b
    → get_elem? (entries b) i ≡ some e
    → get b i kb vb ≡ some (kb ++ e.0, vb ++ e.1)
unfolding get
get-entries b i e kb vb (ss, o, l, inside) h =
    let same : slots b.offsets b.lens ≡ ss = rw (o, l) (slots_lem ss) in
    let (s, at, q) = map_at (entry_of b.bytes) ss i e (rw same at h) in
    let (a, c, d, f) = offsets_at ss i s at in
    let a' : get_elem? b.offsets (2 * i) ≡ some s.key_offset = rw o a in
    let c' : get_elem? b.offsets (2 * i + 1) ≡ some s.val_offset = rw o c in
    let d' : get_elem? b.lens (2 * i) ≡ some s.key_len = rw l d in
    let f' : get_elem? b.lens (2 * i + 1) ≡ some s.val_len = rw l f in
    rw (a', c', d', f') (ap (λ (t : Entry). some (kb ++ t.0, vb ++ t.1)) q)

-- The bytes of a file of entries.
unfoldable pub encoded : List Entry → List ℕ
encoded [] = []
encoded (e ∷ es) =
    put_uvarint (length e.0) ++ (e.0 ++ (put_uvarint (length e.1) ++ (e.1 ++ encoded es)))

length-cut : (bytes : List ℕ) (o n : ℕ) → o + n ≤ length bytes → length (cut bytes o n) ≡ n
length-cut bytes o n h = omega (arith, length-take n (drop o bytes), length-drop o bytes)

write_all_lem :
    (bytes : List ℕ) (ss : List Slot)
    → All (Inside (length bytes)) ss
    → write_all bytes (offsets_of ss) (lens_of ss) ≡ encoded (map (entry_of bytes) ss)
unfolding write_all encoded
write_all_lem bytes [] h = refl
write_all_lem bytes (s ∷ ss) h =
    rw
      (length-cut bytes s.key_offset s.key_len h.0.0, length-cut bytes s.val_offset s.val_len h.0.1)
      (ap
        (λ t.
          put_uvarint s.key_len
          ++ (cut bytes s.key_offset s.key_len
              ++ (put_uvarint s.val_len ++ (cut bytes s.val_offset s.val_len ++ t))))
        (write_all_lem bytes ss h.1))

-- `Write` writes the entries in the buffer's order.
pub write-encoded : (b : SortableBuffer) → IsBuffer b → write b ≡ encoded (entries b)
unfolding write
write-encoded b (ss, o, l, inside) =
    let same : slots b.offsets b.lens ≡ ss = rw (o, l) (slots_lem ss) in
    rw (same, o, l) (write_all_lem b.bytes ss inside)

-- `Len` counts the entries.
pub len-entries : (b : SortableBuffer) → IsBuffer b → len b ≡ length (entries b)
unfolding len
len-entries b (ss, o, l, inside) =
    let same : slots b.offsets b.lens ≡ ss = rw (o, l) (slots_lem ss) in
    rw (same, o) (omega (arith, twice ss, length-map ss))
  where
    twice : (ss : List Slot) → length (offsets_of ss) ≡ 2 * length ss
    twice [] = refl
    twice (s ∷ ss) = omega (arith, twice ss)

    length-map : (ss : List Slot) → length (map (entry_of b.bytes) ss) ≡ length ss
    length-map [] = refl
    length-map (s ∷ ss) = ap suc (length-map ss)
