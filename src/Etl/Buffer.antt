-- ===== src/Etl/Buffer.antt =====
-- etl/buffers.go: `sortableBuffer`. An index out of range is `none`.
pub mod Laws
use erigon_lib.Base.{
  ℕ, ◌+◌, ◌*◌, ◌/◌, ◌≡◌, Bool, true, false, Option, none, some, List, [], ◌∷◌, ◌++◌, length,
  get_elem?, take, drop, leb, not, if◌then◌else◌,
}
use erigon_lib.Iter.Order.{bytes_lt}
use erigon_lib.Iter.Union.{◌>>=◌}
use erigon_lib.Etl.Sorting.{less_by, stable_sort}
use erigon_lib.Etl.Varint.{put_uvarint}

-- `bytes` is the field `data`.
pub record SortableBuffer : Type 0 where
  pub offsets : List ℕ
  pub lens : List ℕ
  pub bytes : List ℕ
  pub optimal_size : ℕ

unfoldable pub new_sortable_buffer : ℕ → SortableBuffer
new_sortable_buffer optimal_size = record {
  offsets = [];
  lens = [];
  bytes = [];
  optimal_size = optimal_size;
}

unfoldable pub put : SortableBuffer → List ℕ → List ℕ → SortableBuffer
put b k v = record b {
  offsets = b.offsets ++ (length b.bytes ∷ length (b.bytes ++ k) ∷ []);
  lens = b.lens ++ (length k ∷ length v ∷ []);
  bytes = (b.bytes ++ k) ++ v;
}

unfoldable pub size : SortableBuffer → ℕ
size b = length b.bytes + 8 * length b.offsets + 8 * length b.lens

unfoldable pub len : SortableBuffer → ℕ
len b = length b.offsets / 2

unfoldable pub check_flush_size : SortableBuffer → Bool
unfolding size
check_flush_size b = leb b.optimal_size (size b)

unfoldable pub reset : SortableBuffer → SortableBuffer
reset b = record b { offsets = []; lens = []; bytes = [] }

-- `b.data[offset : offset+len]`, of a place and length that `Put` stored.
abbrev pub cut : List ℕ → ℕ → ℕ → List ℕ
cut bytes offset n = take n (drop offset bytes)

-- `Get` appends to the two buffers that it is given.
unfoldable pub get : SortableBuffer → ℕ → List ℕ → List ℕ → Option (List ℕ × List ℕ)
get b i key_buf val_buf = do
  key_offset ← get_elem? b.offsets (2 * i)
  val_offset ← get_elem? b.offsets (2 * i + 1)
  key_len ← get_elem? b.lens (2 * i)
  val_len ← get_elem? b.lens (2 * i + 1)
  some (key_buf ++ cut b.bytes key_offset key_len, val_buf ++ cut b.bytes val_offset val_len)

-- What `Swap` moves: the places and lengths of a key and its value.
pub record Slot : Type 0 where
  pub key_offset : ℕ
  pub key_len : ℕ
  pub val_offset : ℕ
  pub val_len : ℕ

unfoldable pub slots : List ℕ → List ℕ → List Slot
slots (ko ∷ vo ∷ os) (kl ∷ vl ∷ ls) =
    record { key_offset = ko; key_len = kl; val_offset = vo; val_len = vl } ∷ slots os ls
slots os ls = []

abbrev pub offsets_of : List Slot → List ℕ
offsets_of [] = []
offsets_of (s ∷ ss) = s.key_offset ∷ s.val_offset ∷ offsets_of ss

abbrev pub lens_of : List Slot → List ℕ
lens_of [] = []
lens_of (s ∷ ss) = s.key_len ∷ s.val_len ∷ lens_of ss

abbrev pub slot_key : List ℕ → Slot → List ℕ
slot_key bytes s = cut bytes s.key_offset s.key_len

-- `sort.IsSorted`: no element is less than the one before it.
unfoldable pub is_sorted : List ℕ → List Slot → Bool
is_sorted bytes [] = true
is_sorted bytes (s ∷ []) = true
is_sorted bytes (s ∷ t ∷ ss) =
    let rest = is_sorted bytes (t ∷ ss) in
    if bytes_lt (slot_key bytes t) (slot_key bytes s) then false else rest

-- `Less` is `bytes.Compare` of the keys, and `sort.Stable` gives the one stable order.
unfoldable pub sort : SortableBuffer → SortableBuffer
unfolding slots is_sorted
sort b =
    let old = slots b.offsets b.lens in
    let new = stable_sort (less_by (slot_key b.bytes)) old in
    if is_sorted b.bytes old then b else record b { offsets = offsets_of new; lens = lens_of new }

-- The loop of `Write`, over the offsets with their lengths.
unfoldable pub write_all : List ℕ → List ℕ → List ℕ → List ℕ
write_all bytes [] ls = []
write_all bytes (o ∷ os) [] = []
write_all bytes (o ∷ os) (l ∷ ls) = put_uvarint l ++ (cut bytes o l ++ write_all bytes os ls)

unfoldable pub write : SortableBuffer → List ℕ
unfolding write_all
write b = write_all b.bytes b.offsets b.lens
