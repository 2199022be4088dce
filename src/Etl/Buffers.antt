-- ===== src/Etl/Buffers.antt =====
-- etl/buffers.go: the interface `Buffer` with the three buffers that have it, and `getBufferByType`.
use erigon_lib.Base.{ℕ, Bool, Option, List}
use erigon_lib.Etl.Sorting.{Entry}
use erigon_lib.Etl.Buffer.{
  SortableBuffer, new_sortable_buffer, put, get, len, reset, write, sort, check_flush_size,
}
use erigon_lib.Etl.Entries.{
  EntriesBuffer, new_entries_buffer, append_put, oldest_put, get_entry, entries_len, reset_entries,
  write_entries, sort_entries, is_full,
}

-- `SortableSliceBuffer` and the other constants. Another number makes `getBufferByType` panic.
pub data BufferType : Type 0 where
  sortable_slice_buffer sortable_append_buffer sortable_oldest_appeared_buffer : BufferType

-- `buffer_type` is what `getTypeByBuffer` gives.
pub record Buffer (B : Type 0) : Type 0 where
  pub buffer_type : BufferType
  pub buffer_put : B → List ℕ → List ℕ → B
  pub buffer_get : B → ℕ → List ℕ → List ℕ → Option (List ℕ × List ℕ)
  pub buffer_len : B → ℕ
  pub buffer_reset : B → B
  pub buffer_write : B → List ℕ
  pub buffer_sort : B → B
  pub buffer_check_flush_size : B → Bool

abbrev pub slice_buffer : Buffer SortableBuffer
slice_buffer = record {
  buffer_type = sortable_slice_buffer;
  buffer_put = put;
  buffer_get = get;
  buffer_len = len;
  buffer_reset = reset;
  buffer_write = write;
  buffer_sort = sort;
  buffer_check_flush_size = check_flush_size;
}

-- The two map buffers; `order` is the order in which `range` gives the entries.
module _ (order : List Entry → List Entry) where
  abbrev pub append_buffer : Buffer EntriesBuffer
  append_buffer = record {
    buffer_type = sortable_append_buffer;
    buffer_put = append_put;
    buffer_get = get_entry;
    buffer_len = entries_len;
    buffer_reset = reset_entries;
    buffer_write = λ b. write_entries b.sorted_buf;
    buffer_sort = sort_entries order;
    buffer_check_flush_size = is_full;
  }

  abbrev pub oldest_buffer : Buffer EntriesBuffer
  oldest_buffer = record {
    buffer_type = sortable_oldest_appeared_buffer;
    buffer_put = oldest_put;
    buffer_get = get_entry;
    buffer_len = entries_len;
    buffer_reset = reset_entries;
    buffer_write = λ b. write_entries b.sorted_buf;
    buffer_sort = sort_entries order;
    buffer_check_flush_size = is_full;
  }

  -- The buffer, with its methods.
  abbrev pub get_buffer_by_type : BufferType → ℕ → (B : Type 0) × Buffer B × B
  get_buffer_by_type sortable_slice_buffer size =
      (SortableBuffer, slice_buffer, new_sortable_buffer size)
  get_buffer_by_type sortable_append_buffer size =
      (EntriesBuffer, append_buffer, new_entries_buffer size)
  get_buffer_by_type sortable_oldest_appeared_buffer size =
      (EntriesBuffer, oldest_buffer, new_entries_buffer size)
