-- ===== src/Etl/Provider/Laws.antt =====
-- The entries that the providers of etl/dataprovider.go give.
use mathlib.Core.List.{append-nil}
use erigon_lib.Base.{
  ℕ, zero, suc, ◌^◌, ◌≤◌, ◌<◌, ◌≡◌, refl, arith, true, false, Option, none, some, List, [], ◌∷◌,
  ◌++◌, length, drop, All, get_elem?, leb, Result, ok, err, length-append, take-length_append,
  drop-length_append, le→leb,
}
use erigon_lib.Etl.Buffers.{slice_buffer}
use erigon_lib.Etl.Sorting.{Entry}
use erigon_lib.Etl.Varint.{put_uvarint, read_uvarint, read_within, read_uvarint-put_uvarint}
use erigon_lib.Etl.Buffer.{SortableBuffer, len, write}
use erigon_lib.Etl.Buffer.Laws.{IsBuffer, entries, get-entries, encoded, len-entries, write-encoded}
use erigon_lib.Etl.Provider.{
  ReadError, eof, file, memory, unread, read_full, read_bytes, read_part, read_element_from_disk,
  next_file, next_memory, next,
}

-- A provider gives these entries, whatever the buffers of its caller hold, and then the end.
module _ {P : Type 0} (more : P → List ℕ → List ℕ → Result ReadError (Entry × P)) where
  abbrev pub Yields : P → List Entry → Type 0
  Yields p [] = (kb vb : List ℕ) → more p kb vb ≡ err eof
  Yields p (e ∷ es) =
      (p' : P) × ((kb vb : List ℕ) → more p kb vb ≡ ok ((kb ++ e.0, vb ++ e.1), p')) × Yields p' es

-- The slices of an entry have lengths that a Go `int` holds.
abbrev pub Fits : Entry → Type 0
Fits e = (length e.0 < 2 ^ 63) × (length e.1 < 2 ^ 63)

read_full_all :
    (x : ℕ) (xs rest : List ℕ) → read_full (length (x ∷ xs)) ((x ∷ xs) ++ rest) ≡ ok (x ∷ xs, rest)
unfolding read_full
read_full_all x xs rest =
    let enough : leb (suc (length xs)) (suc (length (xs ++ rest))) ≡ true =
      le→leb (suc (length xs)) (suc (length (xs ++ rest))) (omega (arith, length-append xs rest)) in
    rw (enough, take-length_append xs rest, drop-length_append xs rest)

-- A slice is read back behind what its buffer held.
pub read_part_lem :
    (part rest buf : List ℕ)
    → length part < 2 ^ 63
    → read_part (put_uvarint (length part) ++ (part ++ rest)) buf ≡ ok (buf ++ part, rest)
unfolding read_part read_bytes
read_part_lem [] rest buf h =
    let none_ = read_uvarint-put_uvarint 0 rest (omega arith) in rw (none_, append-nil buf)
read_part_lem (x ∷ xs) rest buf h =
    let n = read_uvarint-put_uvarint (length (x ∷ xs)) ((x ∷ xs) ++ rest) (omega arith) in
    let fits : leb (2 ^ 63) (suc (length xs)) ≡ false = ground arith in
    rw (n, fits, read_full_all x xs rest)

-- An entry is read back, and the bytes behind it are left.
pub read_element_lem :
    (e : Entry) (es : List Entry) (kb vb : List ℕ)
    → Fits e
    → read_element_from_disk (encoded (e ∷ es)) kb vb ≡ ok ((kb ++ e.0, vb ++ e.1), encoded es)
unfolding read_element_from_disk encoded
read_element_lem e es kb vb h = rw (
  read_part_lem e.0 (put_uvarint (length e.1) ++ (e.1 ++ encoded es)) kb h.0,
  read_part_lem e.1 (encoded es) vb h.1,
)

read_element_end : (kb vb : List ℕ) → read_element_from_disk (encoded []) kb vb ≡ err eof
unfolding read_element_from_disk encoded read_part read_uvarint read_within
read_element_end kb vb = refl

reader-Yields :
    (buf : SortableBuffer) (contents : List ℕ) (reader : Option (List ℕ)) (es : List Entry)
    → unread contents reader ≡ encoded es
    → All Fits es
    → Yields (next slice_buffer buf) (file contents reader) es
unfolding next next_file encoded
reader-Yields buf contents reader [] at h = λ kb vb. rw (at, read_element_end kb vb)
reader-Yields buf contents reader (e ∷ es) at h = (
  file contents (some (encoded es)),
  λ kb vb. rw (at, read_element_lem e es kb vb h.0),
  reader-Yields buf contents (some (encoded es)) es refl h.1,
)

pub file-Yields :
    (buf : SortableBuffer) (es : List Entry)
    → All Fits es
    → Yields (next slice_buffer buf) (file (encoded es) none) es
file-Yields buf es h = reader-Yields buf (encoded es) none es refl h

-- The file that `Write` makes of a well-formed `sortableBuffer` gives the buffer's entries back in
-- their order, and then the end, for keys and values of less than 2 ^ 63 bytes.
pub write-Yields :
    (buf b : SortableBuffer)
    → IsBuffer b
    → All Fits (entries b)
    → Yields (next slice_buffer buf) (file (write b) none) (entries b)
write-Yields buf b well fits = rw (write-encoded b well) (file-Yields buf (entries b) fits)

drop_at :
    (i : ℕ) (xs : List Entry) (e : Entry) (es : List Entry)
    → drop i xs ≡ e ∷ es
    → (get_elem? xs i ≡ some e) × (drop (suc i) xs ≡ es) × (i < length xs)
drop_at zero [] e es h = cc
drop_at zero (x ∷ xs) e es h = (cc, cc, omega arith)
drop_at (suc i) [] e es h = cc
drop_at (suc i) (x ∷ xs) e es h = let (a, b, c) = drop_at i xs e es h in (a, b, omega arith)

drop_end : (i : ℕ) (xs : List Entry) → drop i xs ≡ [] → length xs ≤ i
drop_end zero [] h = omega arith
drop_end zero (x ∷ xs) h = cc
drop_end (suc i) [] h = omega arith
drop_end (suc i) (x ∷ xs) h = omega (arith, drop_end i xs h)

-- A buffer in memory gives its entries from the place on.
pub memory-Yields :
    (buf : SortableBuffer) (i : ℕ) (es : List Entry)
    → IsBuffer buf
    → drop i (entries buf) ≡ es
    → Yields (next slice_buffer buf) (memory i) es
unfolding next next_memory
memory-Yields buf i [] well at =
    let over : leb (len buf) i ≡ true =
      le→leb (len buf) i (omega (arith, drop_end i (entries buf) at, len-entries buf well)) in
    λ kb vb. rw over
memory-Yields buf i (e ∷ es) well at =
    let (here, rest, small) = drop_at i (entries buf) e es at in
    let size : i < len buf = omega (arith, small, len-entries buf well) in
    let under : leb (len buf) i ≡ false = ground arith in
    (
      memory (suc i),
      λ kb vb. rw (under, get-entries buf i e kb vb well here),
      memory-Yields buf (suc i) es well rest,
    )
