-- ===== src/Etl/Examples.antt =====
-- Runs of the package etl on a few small entries.
use erigon_lib.Base.{
  ℕ, ◌+◌, ◌^◌, ◌≡◌, refl, arith, Bool, true, false, Option, none, some, List, [], ◌∷◌, ◌++◌, map,
  length, All, ◌⊎◌,
}
use erigon_lib.Etl.Sorting.{Entry, by_key, insert, inserts, stable_sort}
use erigon_lib.Etl.Buffer.{SortableBuffer, new_sortable_buffer, put, sort, slots, write}
use erigon_lib.Etl.Buffer.Laws.{
  IsBuffer, entries, encoded, new-IsBuffer, put-IsBuffer, sort-IsBuffer,
}
use erigon_lib.Etl.Buffers.{slice_buffer, sortable_slice_buffer}
use erigon_lib.Etl.Provider.{Provider, file, next}
use erigon_lib.Etl.Provider.Laws.{Yields, Fits, file-Yields, write-Yields}
use erigon_lib.Etl.Merge.{merge_sort_files, load_all, panicked}
use erigon_lib.Etl.Merge.Laws.{merge_sort_files-load_all, merge_sort_files-empty}
use erigon_lib.Etl.Collector.{new_collector, collect, collect_all, load}
use erigon_lib.Etl.Collector.Laws.{Holds, new-Holds, collect-Holds, load-collect_all}
use erigon_lib.Etl.LoadNext.{Target, start, load_nexts}
use erigon_lib.Etl.LoadNext.Laws.{append_keys, Ascending, keys, load_nexts-Ascending}
use erigon_lib.Etl.LoadNext.Oldest.{puts, load_nexts-oldest}
use erigon_lib.Etl.Transform.{row, transform, load_end, next_key}
use erigon_lib.Etl.Transform.Laws.{transform-load_all}
use erigon_lib.Etl.Transform.NextKey.{number, next_key_lem}
use erigon_lib.Etl.Entries.{EntriesBuffer, new_entries_buffer, append_puts, sort_entries, lookup}
use erigon_lib.Etl.Entries.Values.{append_puts-appended}
use erigon_lib.Etl.Entries.Order.{swap, sort_entries-Ascending}

-- Two entries with one key, and one before them.
abbrev three : List Entry
three = (2 ∷ [], 7 ∷ []) ∷ (1 ∷ [], 8 ∷ []) ∷ (2 ∷ [], 9 ∷ []) ∷ []

abbrev three_fit : All Fits three
three_fit =
    ((omega arith, omega arith), ((omega arith, omega arith), ((omega arith, omega arith), tt)))

-- The load slice_buffer keeps the entries.
abbrev keep_entries : List Entry → Entry → List Entry × Option ℕ
keep_entries s (k, v) = (s ++ ((k, v) ∷ []), none)

abbrev never : ℕ → Bool
never n = false

-- The stable order.
in_order : stable_sort by_key three ≡ (1 ∷ [], 8 ∷ []) ∷ (2 ∷ [], 7 ∷ []) ∷ (2 ∷ [], 9 ∷ []) ∷ []
unfolding stable_sort inserts insert
in_order = refl

load-collect_all_example :
    load slice_buffer keep_entries never 3
      (collect_all slice_buffer (new_collector slice_buffer (new_sortable_buffer 40)) three)
      []
    ≡ load_all keep_entries never 0 [] (stable_sort by_key three)
load-collect_all_example = load-collect_all keep_entries never 40 three [] three_fit

collect-Holds_example :
    Holds
      (collect slice_buffer (new_collector slice_buffer (new_sortable_buffer 40)) (2 ∷ []) (7 ∷ []))
      ((2 ∷ [], 7 ∷ []) ∷ [])
collect-Holds_example =
    collect-Holds (new_collector slice_buffer (new_sortable_buffer 40)) [] (2 ∷ []) (7 ∷ [])
      (new-Holds 40) (omega arith, omega arith)

abbrev two : List Entry
two = (1 ∷ [], 8 ∷ []) ∷ (2 ∷ [], 7 ∷ []) ∷ []

abbrev one : List Entry
one = (2 ∷ [], 9 ∷ []) ∷ []

abbrev two_fit : All Fits two
two_fit = ((omega arith, omega arith), ((omega arith, omega arith), tt))

abbrev empty : SortableBuffer
empty = new_sortable_buffer 40

abbrev two_files : List Provider
two_files = file (encoded two) none ∷ file (encoded one) none ∷ []

-- A buffer after two calls of `Put`.
abbrev two_puts : SortableBuffer
two_puts = put (put empty (2 ∷ []) (7 ∷ [])) (1 ∷ []) (8 ∷ [])

write-Yields_example :
    Yields (next slice_buffer empty) (file (write two_puts) none) (entries two_puts)
unfolding put new_sortable_buffer slots
write-Yields_example =
    write-Yields empty two_puts
      (put-IsBuffer (put empty (2 ∷ []) (7 ∷ [])) (1 ∷ []) (8 ∷ [])
        (put-IsBuffer empty (2 ∷ []) (7 ∷ []) (new-IsBuffer 40).0).0).0
      ((omega arith, omega arith), ((omega arith, omega arith), tt))

merge_sort_files-load_all_example :
    merge_sort_files (next slice_buffer empty) keep_entries never 3 two_files []
    ≡ load_all keep_entries never 0 [] (stable_sort by_key (two ++ (one ++ [])))
merge_sort_files-load_all_example =
    merge_sort_files-load_all (next slice_buffer empty) keep_entries never 3 two_files
      (two ∷ one ∷ []) []
      (
        file-Yields empty two two_fit,
        ((refl, tt), (tt, tt)),
        (file-Yields empty one ((omega arith, omega arith), tt), (tt, tt), tt),
      )
      (omega arith)

merge_sort_files-empty_example :
    merge_sort_files
      (next slice_buffer empty)
      keep_entries
      never
      3
      (file (encoded two) none ∷ file [] none ∷ [])
      []
    ≡ panicked
unfolding encoded
merge_sort_files-empty_example =
    merge_sort_files-empty (next slice_buffer empty) keep_entries never 3
      (file (encoded two) none ∷ []) (two ∷ []) (file [] none) [] []
      (file-Yields empty two two_fit, ((refl, tt), (tt, tt)), tt) (file-Yields empty [] tt)

abbrev filled : SortableBuffer
filled = put empty (2 ∷ []) (7 ∷ [])

sort-IsBuffer_example :
    IsBuffer (sort filled) × (entries (sort filled) ≡ stable_sort by_key (entries filled))
sort-IsBuffer_example =
    sort-IsBuffer filled (put-IsBuffer empty (2 ∷ []) (7 ∷ []) (new-IsBuffer 40).0).0

-- An identity load slice_buffer into a table that ends at the key 0.
abbrev appending : Target
appending = record {
  have_sorting_guaranties = true;
  last_key = some (0 ∷ []);
  oldest_appeared = false;
  is_dup_sort = false;
}

load_nexts-Ascending_example :
    Ascending (some (0 ∷ [])) (append_keys (load_nexts appending start two))
load_nexts-Ascending_example = load_nexts-Ascending appending two (tt, (refl, tt))

abbrev keeping_oldest : Target
keeping_oldest = record {
  have_sorting_guaranties = false;
  last_key = none;
  oldest_appeared = true;
  is_dup_sort = false;
}

-- Two files that have the same key.
abbrev repeated : List Entry
repeated = (2 ∷ [], 7 ∷ []) ∷ (2 ∷ [], 9 ∷ []) ∷ []

load_nexts-oldest_example : load_nexts keeping_oldest start repeated ≡ puts ((2 ∷ [], 7 ∷ []) ∷ [])
load_nexts-oldest_example =
    load_nexts-oldest keeping_oldest 2 [] (7 ∷ []) ((2 ∷ [], 9 ∷ []) ∷ []) refl refl
      ((refl, tt), (tt, tt)) ((λ p. cc), ((λ p. cc), tt))

-- Each pair is passed on with its key, before the key 2.
transform-load_all_example :
    transform {E = ℕ}
      (λ l. l)
      256
      (λ k v. ((k, v) ∷ [], none))
      never
      (some (2 ∷ []))
      keep_entries
      never
      1
      sortable_slice_buffer
      40
      (map row two)
      []
    ≡ load_end (load_all keep_entries never 0 [] (stable_sort by_key ((1 ∷ [], 8 ∷ []) ∷ [])))
transform-load_all_example =
    transform-load_all keep_entries never (λ k v. ((k, v) ∷ [], none)) never (some (2 ∷ []))
      (λ l. l) 256 40 two [] (λ i. refl) (λ k v. refl) ((omega arith, omega arith), tt)

next_key_lem_example :
    ((k : List ℕ) × (next_key (1 ∷ 255 ∷ []) ≡ some k)
      × (number k ≡ number (1 ∷ 255 ∷ []) + 1)
      × (length k ≡ 2))
    ⊎ ((next_key (1 ∷ 255 ∷ []) ≡ none) × (number (1 ∷ 255 ∷ []) + 1 ≡ 256 ^ 2))
next_key_lem_example = next_key_lem 1 (255 ∷ []) (omega arith, (omega arith, tt))

append_puts-appended_example :
    lookup (2 ∷ []) (append_puts (new_entries_buffer 40) three).entries ≡ some (7 ∷ 9 ∷ [])
unfolding new_entries_buffer
append_puts-appended_example = append_puts-appended (new_entries_buffer 40) (2 ∷ []) three

abbrev unsorted : EntriesBuffer
unsorted = record {
  entries = (2 ∷ [], 7 ∷ []) ∷ (1 ∷ [], 8 ∷ []) ∷ [];
  sorted_buf = [];
  size = 4;
  optimal_size = 40;
}

-- The map gives its two entries the other way round.
abbrev turned : List Entry → List Entry
turned (e ∷ f ∷ es) = f ∷ e ∷ es
turned es = es

sort_entries-Ascending_example :
    ((sort_entries turned unsorted).sorted_buf ≡ stable_sort by_key unsorted.entries)
    × Ascending none (keys (sort_entries turned unsorted).sorted_buf)
sort_entries-Ascending_example =
    sort_entries-Ascending turned unsorted (swap (2 ∷ [], 7 ∷ []) (1 ∷ [], 8 ∷ []) []) refl
      ((refl, tt), (tt, tt))
