-- ===== src/Etl/Transform/Laws.antt =====
-- `Transform` of etl/etl.go with a `sortableBuffer`, from the extracted entries to the loaded ones.
use mathlib.Core.List.{append_assoc, append-nil}
use erigon_lib.Base.{
  ℕ, suc, ◌≤◌, ◌≡◌, refl, ap, ◌∙◌, arith, Bool, true, false, Option, none, some, List, [], ◌∷◌,
  ◌++◌, length, map, All, not, ◌==◌, Bool-cases, inl, inr, if◌then◌else◌,
}
use erigon_lib.Iter.Order.{bytes_lt}
use erigon_lib.Etl.Buffers.{slice_buffer, sortable_slice_buffer}
use erigon_lib.Etl.Sorting.{Entry, by_key, stable_sort}
use erigon_lib.Etl.Buffer.{SortableBuffer, new_sortable_buffer, len}
use erigon_lib.Etl.Provider.Laws.{Fits}
use erigon_lib.Etl.Merge.{load_all}
use erigon_lib.Etl.Collector.{Collector, new_collector, flush_buffer, flush_last, collect_all, load}
use erigon_lib.Etl.Collector.Laws.{
  Holds, new-Holds, flush-Holds, collect_all-Holds, load-Holds, load_memory,
}
use erigon_lib.Etl.Transform.{
  Row, row, extracted, at_end, extract_bucket_into_files, load_end, after_extract, transform,
  buffer_size_or_optimal,
}

-- The half-open range of the extraction ends before the end key, where there is one.
abbrev pub before_end : Option (List ℕ) → List ℕ → Bool
before_end none k = true
before_end (some end_key) k = bytes_lt k end_key

at_end_lem :
    (end_key : Option (List ℕ)) (k : List ℕ) → at_end end_key k ≡ not (before_end end_key k)
at_end_lem none k = refl
at_end_lem (some end_key) k = refl

-- What the extract function passes on for the pairs before the end key.
abbrev pub extracted_entries :
    (List ℕ → List ℕ → List Entry) → Option (List ℕ) → List Entry → List Entry
extracted_entries f end_key [] = []
extracted_entries f end_key (e ∷ es) =
    let rest = extracted_entries f end_key es in
    if before_end end_key e.0 then f e.0 e.1 ++ rest else []

module _ {S L : Type 0} (load_func : S → Entry → S × Option L) (quit_load : ℕ → Bool) where
  disk_flush :
      (c : Collector SortableBuffer)
      → (length c.data_providers == 0) ≡ false
      → flush_buffer slice_buffer true c ≡ flush_buffer slice_buffer false c
  unfolding flush_buffer
  disk_flush c files = elim (Bool-cases (len c.buf == 0)) [
    | inl empty ↦ rw empty
    | inr some_ ↦ rw (some_, files)
  ]

  empty_flush :
      (c : Collector SortableBuffer)
      → (len c.buf == 0) ≡ true
      → flush_buffer slice_buffer true c ≡ c
  unfolding flush_buffer
  empty_flush c empty = rw empty

  memory_flush :
      (fuel : ℕ) (c : Collector SortableBuffer) (es : List Entry) (s : S)
      → Holds c es
      → length es ≤ fuel
      → (len c.buf == 0) ≡ false
      → (length c.data_providers == 0) ≡ true
      → load slice_buffer load_func quit_load fuel (flush_buffer slice_buffer true c) s
        ≡ load_all load_func quit_load 0 s (stable_sort by_key es)
  unfolding flush_buffer load flush_last
  memory_flush fuel c es s h le some_ no_ =
      rw (some_, no_) (load_memory load_func quit_load fuel c es s h le some_ no_)

  -- To flush before the load is of no use.
  flushed_load :
      (fuel : ℕ) (c : Collector SortableBuffer) (es : List Entry) (s : S)
      → Holds c es
      → length es ≤ fuel
      → load slice_buffer load_func quit_load fuel (flush_buffer slice_buffer true c) s
        ≡ load_all load_func quit_load 0 s (stable_sort by_key es)
  flushed_load fuel c es s h le = elim (Bool-cases (len c.buf == 0)) [
    | inl empty ↦
        ap (λ c'. load slice_buffer load_func quit_load fuel c' s) (empty_flush c empty)
        ∙ load-Holds load_func quit_load fuel c es s h le
    | inr some_ ↦ elim (Bool-cases (length c.data_providers == 0)) [
      | inl no_ ↦ memory_flush fuel c es s h le some_ no_
      | inr files ↦
          ap (λ c'. load slice_buffer load_func quit_load fuel c' s) (disk_flush c files)
          ∙ load-Holds load_func quit_load fuel (flush_buffer slice_buffer false c) es s
              (flush-Holds c es h) le
    ]
  ]

  module _ {E : Type 0} (extract_func : List ℕ → List ℕ → List Entry × Option E) (quit : ℕ → Bool)
      (end_key : Option (List ℕ)) where
    abbrev passed : List Entry → List Entry
    passed es = extracted_entries (λ k v. (extract_func k v).0) end_key es

    extract_last :
        (n : ℕ) (e : Entry) (rows : List (Row E)) (c : Collector SortableBuffer)
        → quit n ≡ false
        → before_end end_key e.0 ≡ false
        → extract_bucket_into_files slice_buffer extract_func quit end_key n (row e ∷ rows) c
          ≡ (c, extracted)
    unfolding extract_bucket_into_files
    extract_last n e rows c q last = rw (extract_bucket_into_files, q, at_end_lem end_key e.0, last)

    extract_more :
        (n : ℕ) (e : Entry) (rows : List (Row E)) (c : Collector SortableBuffer)
        → quit n ≡ false
        → before_end end_key e.0 ≡ true
        → (extract_func e.0 e.1).1 ≡ none
        → extract_bucket_into_files slice_buffer extract_func quit end_key n (row e ∷ rows) c
          ≡ extract_bucket_into_files slice_buffer extract_func quit end_key
              (suc n)
              rows
              (collect_all slice_buffer c (extract_func e.0 e.1).0)
    unfolding extract_bucket_into_files
    extract_more n e rows c q more fine =
        rw (extract_bucket_into_files, q, at_end_lem end_key e.0, more, fine)

    extract_lem :
        (fuel n : ℕ) (es held : List Entry) (c : Collector SortableBuffer) (s : S)
        → Holds c held
        → ((i : ℕ) → quit i ≡ false)
        → ((k v : List ℕ) → (extract_func k v).1 ≡ none)
        → All Fits (passed es)
        → length (held ++ passed es) ≤ fuel
        → after_extract
            (λ c'. load slice_buffer load_func quit_load fuel c' s)
            (extract_bucket_into_files slice_buffer extract_func quit end_key n (map row es) c)
          ≡ load_end (load_all load_func quit_load 0 s (stable_sort by_key (held ++ passed es)))
    unfolding extract_bucket_into_files
    extract_lem fuel n [] held c s h going fine fits le =
        let no_more = append-nil held in
        rw no_more
          (ap load_end (flushed_load fuel c held s h (omega (arith, le, ap length no_more))))
    extract_lem fuel n (e ∷ es) held c s h going fine fits le =
        elim (Bool-cases (before_end end_key e.0)) [
          | inr last ↦
              let no_more = append-nil held in
              let le' : length (held ++ []) ≤ fuel = rw last at le in
              rw (last, no_more)
                (ap (after_extract (λ c'. load slice_buffer load_func quit_load fuel c' s))
                    (extract_last n e (map row es) c (going n) last)
                  ∙ ap load_end (
                      load-Holds load_func quit_load fuel c held s h
                        (omega (arith, le', ap length no_more))))
          | inl more ↦
              let fits' : All Fits ((extract_func e.0 e.1).0 ++ passed es) = rw more at fits in
              let le' : length (held ++ ((extract_func e.0 e.1).0 ++ passed es)) ≤ fuel =
                rw more at le in
              let (here, rest) = All-split (extract_func e.0 e.1).0 (passed es) fits' in
              let all_ = append_assoc held (extract_func e.0 e.1).0 (passed es) in
              rw (more, ← all_)
                (ap (after_extract (λ c'. load slice_buffer load_func quit_load fuel c' s))
                    (extract_more n e (map row es) c (going n) more (fine e.0 e.1))
                  ∙ extract_lem fuel (suc n) es (held ++ (extract_func e.0 e.1).0)
                      (collect_all slice_buffer c (extract_func e.0 e.1).0) s
                      (collect_all-Holds c held (extract_func e.0 e.1).0 h here) going fine rest
                      (omega (arith, le', ap length all_)))
        ]
      where
        All-split : (xs ys : List Entry) → All Fits (xs ++ ys) → All Fits xs × All Fits ys
        All-split [] ys a = (tt, a)
        All-split (x ∷ xs) ys a = let (p, q) = All-split xs ys a.1 in ((a.0, p), q)

    -- Where nobody quits the extraction and neither the cursor nor the extract function fails,
    -- `Transform` with the buffer type `SortableSliceBuffer` loads what that function passes on
    -- for the pairs before the first one at or above the end key, in the stable order of its keys,
    -- whatever the size of the buffer. Its keys and values have less than 2 ^ 63 bytes.
    pub transform-load_all :
        (order : List Entry → List Entry) (optimal buffer_size : ℕ) (es : List Entry) (s : S)
        → ((i : ℕ) → quit i ≡ false)
        → ((k v : List ℕ) → (extract_func k v).1 ≡ none)
        → All Fits (passed es)
        → transform order optimal extract_func quit end_key load_func quit_load
            (length (passed es))
            sortable_slice_buffer
            buffer_size
            (map row es)
            s
          ≡ load_end (load_all load_func quit_load 0 s (stable_sort by_key (passed es)))
    unfolding transform
    transform-load_all order optimal buffer_size es s going fine fits =
        let size = buffer_size_or_optimal optimal buffer_size in
        extract_lem (length (passed es)) 0 es []
          (new_collector slice_buffer (new_sortable_buffer size)) s (new-Holds size) going fine fits
          (omega arith)
