-- ===== src/Etl/Entries.antt =====
-- etl/buffers.go: `appendSortableBuffer` and `oldestEntrySortableBuffer`, which have the same fields and
-- differ in `Put`. A Go map is the list of its pairs, of which `range` gives any order.
pub mod Values
pub mod Order
use erigon_lib.Base.{
  ℕ, ◌+◌, ◌*◌, Bool, true, false, Option, none, some, List, [], ◌∷◌, ◌++◌, length, get_elem?, leb,
  if◌then◌else◌,
}
use erigon_lib.Iter.Order.{bytes_eq}
use erigon_lib.Iter.Union.{◌>>=◌}
use erigon_lib.Etl.Sorting.{Entry, by_key, stable_sort}
use erigon_lib.Etl.Varint.{put_uvarint}

pub record EntriesBuffer : Type 0 where
  pub entries : List Entry
  pub sorted_buf : List Entry
  pub size : ℕ
  pub optimal_size : ℕ

unfoldable pub new_entries_buffer : ℕ → EntriesBuffer
new_entries_buffer optimal_size = record {
  entries = [];
  sorted_buf = [];
  size = 0;
  optimal_size = optimal_size;
}

-- A read and a write of the map.
abbrev pub lookup : List ℕ → List Entry → Option (List ℕ)
lookup k [] = none
lookup k (e ∷ es) = let rest = lookup k es in if bytes_eq e.0 k then some e.1 else rest

abbrev pub store : List ℕ → List ℕ → List Entry → List Entry
store k v [] = (k, v) ∷ []
store k v (e ∷ es) = let rest = store k v es in if bytes_eq e.0 k then (e.0, v) ∷ es else e ∷ rest

unfoldable pub append_put : EntriesBuffer → List ℕ → List ℕ → EntriesBuffer
append_put b k v = elim (lookup k b.entries) [
  | none ↦ record b { size = b.size + length k + length v; entries = store k v b.entries }
  | some stored ↦ record b { size = b.size + length v; entries = store k (stored ++ v) b.entries }
]

unfoldable pub oldest_put : EntriesBuffer → List ℕ → List ℕ → EntriesBuffer
oldest_put b k v = elim (lookup k b.entries) [
  | some stored ↦ b
  | none ↦ record b { size = b.size + (length k * 2 + length v); entries = store k v b.entries }
]

unfoldable pub entries_len : EntriesBuffer → ℕ
entries_len b = length b.entries

-- `order` is the order in which `range` gives the entries.
unfoldable pub sort_entries : (List Entry → List Entry) → EntriesBuffer → EntriesBuffer
sort_entries order b = record b {
  sorted_buf = stable_sort by_key (b.sorted_buf ++ order b.entries);
}

unfoldable pub get_entry : EntriesBuffer → ℕ → List ℕ → List ℕ → Option (List ℕ × List ℕ)
get_entry b i key_buf val_buf = do
  e ← get_elem? b.sorted_buf i
  some (key_buf ++ e.0, val_buf ++ e.1)

unfoldable pub reset_entries : EntriesBuffer → EntriesBuffer
reset_entries b = record b { sorted_buf = []; entries = []; size = 0 }

-- The loop of `Write`.
unfoldable pub write_entries : List Entry → List ℕ
write_entries [] = []
write_entries (e ∷ es) =
    put_uvarint (length e.0) ++ (e.0 ++ (put_uvarint (length e.1) ++ (e.1 ++ write_entries es)))

unfoldable pub is_full : EntriesBuffer → Bool
is_full b = leb b.optimal_size b.size

abbrev pub append_puts : EntriesBuffer → List Entry → EntriesBuffer
append_puts b [] = b
append_puts b (e ∷ es) = append_puts (append_put b e.0 e.1) es

abbrev pub oldest_puts : EntriesBuffer → List Entry → EntriesBuffer
oldest_puts b [] = b
oldest_puts b (e ∷ es) = oldest_puts (oldest_put b e.0 e.1) es
