-- ===== src/Etl/Collector/Laws.antt =====
-- A collector of etl/collector.go with a `sortableBuffer`, and the entries that were collected.
use mathlib.Core.List.{append_assoc, append-nil}
use erigon_lib.Base.{
  ℕ, ◌≤◌, ◌<◌, ◌≡◌, refl, sym, ap, ◌∙◌, arith, Bool, true, false, Option, none, some, List, [], ◌∷◌,
  ◌++◌, length, map, All, All-append, length-append, ◌==◌, Bool-cases, inl, inr,
}
use erigon_lib.Etl.Buffers.{slice_buffer}
use erigon_lib.Etl.Sorting.{
  Entry, by_key, by_key-IsWeakOrder, stable_sort, inserts, inserts-append, inserts-stable_sort,
  IsSorted, stable_sort-IsSorted, stable_sort-All, length-stable_sort,
}
use erigon_lib.Etl.Buffer.{
  SortableBuffer, new_sortable_buffer, slots, put, len, check_flush_size, sort, reset,
}
use erigon_lib.Etl.Buffer.Laws.{
  IsBuffer, entries, encoded, put-IsBuffer, sort-IsBuffer, reset-IsBuffer, len-entries,
  write-encoded,
}
use erigon_lib.Etl.Provider.{Provider, file, memory, next}
use erigon_lib.Etl.Provider.Laws.{Fits, file-Yields, memory-Yields}
use erigon_lib.Etl.Merge.{load_all, merge_sort_files}
use erigon_lib.Etl.Merge.Streams.{Streams, concat, concat-append}
use erigon_lib.Etl.Merge.Laws.{Sources, merge_sort_files-load_all}
use erigon_lib.Etl.Collector.{
  Collector, new_collector, flush_to_disk, flush_buffer, collect, close, flush_last, load,
  collect_all,
}

abbrev NotEmpty : List Entry → Type 0
NotEmpty [] = ⊥
NotEmpty (e ∷ es) = Unit

-- A file that was flushed: it has entries, they are in order and their lengths fit.
abbrev Flushed : List Entry → Type 0
Flushed es = NotEmpty es × IsSorted by_key es × All Fits es

abbrev file_of : List Entry → Provider
file_of es = file (encoded es) none

-- The collector's files and buffer hold these entries: sorted, they are the same.
pub record Holds (c : Collector SortableBuffer) (es : List Entry) : Type 0 where
  pub files : Streams
  pub buffer_ok : IsBuffer c.buf
  pub providers : c.data_providers ≡ map file_of files
  pub files_ok : All Flushed files
  pub fits : All Fits (entries c.buf)
  pub not_flushed : c.all_flushed ≡ false
  pub same :
      (t : List Entry) → inserts by_key es t ≡ inserts by_key (concat files ++ entries c.buf) t
  pub count : length es ≡ length (concat files ++ entries c.buf)

map-snoc :
    (ess : Streams) (es : List Entry)
    → map file_of (ess ++ (es ∷ [])) ≡ map file_of ess ++ (file_of es ∷ [])
map-snoc [] es = refl
map-snoc (x ∷ ess) es = ap (λ t. file_of x ∷ t) (map-snoc ess es)

-- To sort the last part does not change the order of all.
sorted_last :
    (xs ys t : List Entry)
    → inserts by_key (xs ++ ys) t ≡ inserts by_key (xs ++ stable_sort by_key ys) t
sorted_last xs ys t =
    inserts-append by_key xs ys t
    ∙ ap (inserts by_key xs) (sym (inserts-stable_sort by_key by_key-IsWeakOrder ys t))
    ∙ sym (inserts-append by_key xs (stable_sort by_key ys) t)

concat-snoc : (ess : Streams) (es : List Entry) → concat (ess ++ (es ∷ [])) ≡ concat ess ++ es
concat-snoc ess es = concat-append ess (es ∷ []) ∙ ap (λ t. concat ess ++ t) (append-nil es)

filled :
    (b : SortableBuffer)
    → IsBuffer b
    → (len b == 0) ≡ false
    → NotEmpty (stable_sort by_key (entries b))
filled b well h =
    go (stable_sort by_key (entries b))
      (omega (arith, length-stable_sort by_key (entries b), len-entries b well, pos (len b) h))
  where
    pos : (n : ℕ) → (n == 0) ≡ false → 0 < n
    pos n k = ground arith

    go : (l : List Entry) → 0 < length l → NotEmpty l
    go [] k = absurd (omega arith)
    go (x ∷ l) k = tt

module _ (c : Collector SortableBuffer) (es : List Entry) (h : Holds c es) where
  abbrev sorted_entries : List Entry
  sorted_entries = stable_sort by_key (entries c.buf)

  sorted-IsBuffer : IsBuffer (sort c.buf) × (entries (sort c.buf) ≡ sorted_entries)
  sorted-IsBuffer = sort-IsBuffer c.buf h.buffer_ok

  sorted_Flushed : (len c.buf == 0) ≡ false → Flushed sorted_entries
  sorted_Flushed some_ = (
    filled c.buf h.buffer_ok some_,
    stable_sort-IsSorted by_key by_key-IsWeakOrder (entries c.buf),
    stable_sort-All by_key Fits (entries c.buf) h.fits,
  )

  flush_to_disk_lem :
      (len c.buf == 0) ≡ false
      → flush_to_disk slice_buffer (sort c.buf)
        ≡ (some (file_of sorted_entries), reset (sort c.buf))
  unfolding flush_to_disk
  flush_to_disk_lem some_ =
      let (well, q) = sorted-IsBuffer in
      let count' : len (sort c.buf) ≡ len c.buf = omega (
        arith,
        len-entries (sort c.buf) well,
        len-entries c.buf h.buffer_ok,
        ap length q,
        length-stable_sort by_key (entries c.buf),
      ) in
      rw (count', some_, write-encoded (sort c.buf) well, q)

  -- The sorted entries go to a file and the buffer is empty.
  moved :
      (b : SortableBuffer)
      → IsBuffer b
      → entries b ≡ []
      → Flushed sorted_entries
      → Holds
          (record c { buf = b; data_providers = c.data_providers ++ (file_of sorted_entries ∷ []) })
          es
  moved b well none_ last =
      let all_ : concat (h.files ++ (sorted_entries ∷ [])) ++ entries b
          ≡ concat h.files ++ sorted_entries =
        ap (λ l. concat (h.files ++ (sorted_entries ∷ [])) ++ l) none_
        ∙ append-nil (concat (h.files ++ (sorted_entries ∷ [])))
        ∙ concat-snoc h.files sorted_entries in
      record {
        files = h.files ++ (sorted_entries ∷ []);
        buffer_ok = well;
        providers =
            ap (λ t. t ++ (file_of sorted_entries ∷ [])) h.providers
            ∙ sym (map-snoc h.files sorted_entries);
        files_ok = All-append Flushed h.files (sorted_entries ∷ []) h.files_ok (last, tt);
        fits = no_entries (entries b) none_;
        not_flushed = h.not_flushed;
        same = λ t.
            h.same t
            ∙ sorted_last (concat h.files) (entries c.buf) t
            ∙ sym (ap (λ l. inserts by_key l t) all_);
        count = omega (
          arith,
          h.count,
          ap length all_,
          length-append (concat h.files) (entries c.buf),
          length-append (concat h.files) sorted_entries,
          length-stable_sort by_key (entries c.buf),
        );
      }
    where
      no_entries : (l : List Entry) → l ≡ [] → All Fits l
      no_entries [] k = tt
      no_entries (x ∷ l) k = cc

  -- A flush to disk keeps what is held.
  pub flush-Holds : Holds (flush_buffer slice_buffer false c) es
  unfolding flush_buffer
  flush-Holds = elim (Bool-cases (len c.buf == 0)) [
    | inl empty ↦ rw empty h
    | inr some_ ↦
        let (well, none_) = reset-IsBuffer (sort c.buf) in
        rw (some_, flush_to_disk_lem some_)
          (moved (reset (sort c.buf)) well none_ (sorted_Flushed some_))
  ]

files-Sources :
    (buf : SortableBuffer) (ess : Streams)
    → All Flushed ess
    → Sources (next slice_buffer buf) (map file_of ess) ess
files-Sources buf [] h = tt
files-Sources buf ([] ∷ ess) h = absurd h.0.0
files-Sources buf ((e ∷ es) ∷ ess) h =
    (file-Yields buf (e ∷ es) h.0.2, h.0.1, files-Sources buf ess h.1)

-- A new collector, and one that was closed, hold nothing.
pub new-Holds : (n : ℕ) → Holds (new_collector slice_buffer (new_sortable_buffer n)) []
unfolding new_collector new_sortable_buffer slots inserts
new-Holds n = record {
  files = [];
  buffer_ok = ([], refl, refl, tt);
  providers = refl;
  files_ok = tt;
  fits = tt;
  not_flushed = refl;
  same = λ t. refl;
  count = refl;
}

pub close-Holds : (c : Collector SortableBuffer) → Holds (close slice_buffer c) []
unfolding close reset slots inserts
close-Holds c = record {
  files = [];
  buffer_ok = ([], refl, refl, tt);
  providers = refl;
  files_ok = tt;
  fits = tt;
  not_flushed = refl;
  same = λ t. refl;
  count = refl;
}

-- `Put` adds to what is held.
put-Holds :
    (c : Collector SortableBuffer) (es : List Entry) (k v : List ℕ)
    → Holds c es
    → Fits (k, v)
    → Holds (record c { buf = put c.buf k v }) (es ++ ((k, v) ∷ []))
put-Holds c es k v h fits' =
    let (well, q) = put-IsBuffer c.buf k v h.buffer_ok in
    let all_ : concat h.files ++ entries (put c.buf k v)
        ≡ (concat h.files ++ entries c.buf) ++ ((k, v) ∷ []) =
      ap (λ l. concat h.files ++ l) q
      ∙ sym (append_assoc (concat h.files) (entries c.buf) ((k, v) ∷ [])) in
    record {
      files = h.files;
      buffer_ok = well;
      providers = h.providers;
      files_ok = h.files_ok;
      fits = rw q (All-append Fits (entries c.buf) ((k, v) ∷ []) h.fits (fits', tt));
      not_flushed = h.not_flushed;
      same = λ t.
          inserts-append by_key es ((k, v) ∷ []) t
          ∙ h.same (inserts by_key ((k, v) ∷ []) t)
          ∙ sym (
              ap (λ l. inserts by_key l t) all_
              ∙ inserts-append by_key (concat h.files ++ entries c.buf) ((k, v) ∷ []) t);
      count = omega (
        arith,
        h.count,
        ap length all_,
        length-append es ((k, v) ∷ []),
        length-append (concat h.files ++ entries c.buf) ((k, v) ∷ []),
      );
    }

-- `Collect` keeps a collector over a `sortableBuffer` well-formed and adds an entry, with a key
-- and a value of less than 2 ^ 63 bytes, behind the entries that it holds, whether it flushes the
-- buffer or not.
pub collect-Holds :
    (c : Collector SortableBuffer) (es : List Entry) (k v : List ℕ)
    → Holds c es
    → Fits (k, v)
    → Holds (collect slice_buffer c k v) (es ++ ((k, v) ∷ []))
unfolding collect
collect-Holds c es k v h fits' = elim (Bool-cases (check_flush_size (put c.buf k v))) [
  | inl full ↦ rw full (
      flush-Holds (record c { buf = put c.buf k v }) (es ++ ((k, v) ∷ []))
        (put-Holds c es k v h fits'))
  | inr room ↦ rw room (put-Holds c es k v h fits')
]

pub collect_all-Holds :
    (c : Collector SortableBuffer) (es fs : List Entry)
    → Holds c es
    → All Fits fs
    → Holds (collect_all slice_buffer c fs) (es ++ fs)
collect_all-Holds c es [] h fits' = rw (append-nil es) h
collect_all-Holds c es (f ∷ fs) h fits' = rw (← append_assoc es (f ∷ []) fs) (
    collect_all-Holds (collect slice_buffer c f.0 f.1) (es ++ (f ∷ [])) fs
      (collect-Holds c es f.0 f.1 h fits'.0) fits'.1)

module _ {S L : Type 0} (load_func : S → Entry → S × Option L) (quit : ℕ → Bool) where
  files_load :
      (fuel : ℕ) (buf : SortableBuffer) (ess : Streams) (s : S)
      → All Flushed ess
      → length (concat ess) ≤ fuel
      → merge_sort_files (next slice_buffer buf) load_func quit fuel (map file_of ess) s
        ≡ load_all load_func quit 0 s (stable_sort by_key (concat ess))
  files_load fuel buf ess s h le =
      merge_sort_files-load_all (next slice_buffer buf) load_func quit fuel (map file_of ess) ess s
        (files-Sources buf ess h) le

  sorted_same :
      (c : Collector SortableBuffer) (es : List Entry) (h : Holds c es) (l : List Entry)
      → ((t : List Entry) → inserts by_key (concat h.files ++ entries c.buf) t ≡ inserts by_key l t)
      → (s : S)
      → load_all load_func quit 0 s (stable_sort by_key l)
        ≡ load_all load_func quit 0 s (stable_sort by_key es)
  unfolding stable_sort
  sorted_same c es h l q s = ap (λ t. load_all load_func quit 0 s t) (sym (h.same [] ∙ q []))

  no_files : (files : Streams) → (length (map file_of files) == 0) ≡ true → files ≡ []
  no_files [] k = refl
  no_files (x ∷ xs) k = absurd (ground arith)

  module _ (fuel : ℕ) (c : Collector SortableBuffer) (es : List Entry) (s : S) (h : Holds c es)
      (le : length es ≤ fuel) where
    files_sorted :
        (len c.buf == 0) ≡ false
        → All Flushed (h.files ++ (stable_sort by_key (entries c.buf) ∷ []))
    files_sorted some_ =
        All-append Flushed h.files (stable_sort by_key (entries c.buf) ∷ []) h.files_ok
          (sorted_Flushed c es h some_, tt)

    count_sorted : length (concat (h.files ++ (stable_sort by_key (entries c.buf) ∷ []))) ≤ fuel
    count_sorted = omega (
      arith,
      le,
      h.count,
      length-append (concat h.files) (entries c.buf),
      ap length (concat-snoc h.files (stable_sort by_key (entries c.buf))),
      length-append (concat h.files) (stable_sort by_key (entries c.buf)),
      length-stable_sort by_key (entries c.buf),
    )

    load_empty :
        (len c.buf == 0) ≡ true
        → merge_sort_files (next slice_buffer c.buf) load_func quit fuel c.data_providers s
          ≡ load_all load_func quit 0 s (stable_sort by_key es)
    load_empty empty =
        let none_ : entries c.buf ≡ [] =
          nothing (entries c.buf)
            (omega (arith, len-entries c.buf h.buffer_ok, is_zero (len c.buf) empty)) in
        let all_ : concat h.files ++ entries c.buf ≡ concat h.files =
          ap (λ l. concat h.files ++ l) none_ ∙ append-nil (concat h.files) in
        ap (λ ps. merge_sort_files (next slice_buffer c.buf) load_func quit fuel ps s) h.providers
        ∙ files_load fuel c.buf h.files s h.files_ok (omega (arith, le, h.count, ap length all_))
        ∙ sorted_same c es h (concat h.files) (λ t. ap (λ l. inserts by_key l t) all_) s
      where
        is_zero : (n : ℕ) → (n == 0) ≡ true → n ≡ 0
        is_zero n k = ground arith

        nothing : (l : List Entry) → length l ≡ 0 → l ≡ []
        nothing [] k = refl
        nothing (x ∷ l) k = absurd (omega arith)

    pub load_memory :
        (len c.buf == 0) ≡ false
        → (length c.data_providers == 0) ≡ true
        → merge_sort_files
            (next slice_buffer (sort c.buf))
            load_func
            quit
            fuel
            (c.data_providers ++ (memory 0 ∷ []))
            s
          ≡ load_all load_func quit 0 s (stable_sort by_key es)
    load_memory some_ no_ = go (stable_sort by_key (entries c.buf)) refl
      where
        go :
            (l : List Entry)
            → stable_sort by_key (entries c.buf) ≡ l
            → merge_sort_files
                (next slice_buffer (sort c.buf))
                load_func
                quit
                fuel
                (c.data_providers ++ (memory 0 ∷ []))
                s
              ≡ load_all load_func quit 0 s (stable_sort by_key es)
        go [] q = absurd (rw q at (sorted_Flushed c es h some_).0)
        go (x ∷ l) q =
            let none_ : h.files ≡ [] = no_files h.files (rw h.providers at no_) in
            let (well, sorted) = sorted-IsBuffer c es h in
            let providers : c.data_providers ≡ [] = h.providers ∙ ap (map file_of) none_ in
            let in_order : IsSorted by_key (x ∷ l) = rw q at (sorted_Flushed c es h some_).1 in
            let nothing_more : concat h.files ≡ [] = ap concat none_ in
            ap
              (λ ps.
                merge_sort_files (next slice_buffer (sort c.buf)) load_func quit fuel
                  (ps ++ (memory 0 ∷ [])) s)
              providers
            ∙ merge_sort_files-load_all (next slice_buffer (sort c.buf)) load_func quit fuel
                (memory 0 ∷ []) ((x ∷ l) ∷ []) s
                (memory-Yields (sort c.buf) 0 (x ∷ l) well (sorted ∙ q), in_order, tt)
                (omega (
                  arith,
                  count_sorted,
                  ap length (concat-snoc h.files (stable_sort by_key (entries c.buf))),
                  length-append (concat h.files) (stable_sort by_key (entries c.buf)),
                  ap length q,
                  ap length (append-nil (x ∷ l)),
                ))
            ∙ sorted_same c es h ((x ∷ l) ++ [])
                (λ t.
                  sorted_last (concat h.files) (entries c.buf) t
                  ∙ ap (λ m. inserts by_key (m ++ stable_sort by_key (entries c.buf)) t)
                      nothing_more
                  ∙ ap (λ m. inserts by_key m t) (q ∙ sym (append-nil (x ∷ l))))
                s

    load_disk :
        (b : SortableBuffer)
        → (len c.buf == 0) ≡ false
        → merge_sort_files
            (next slice_buffer b)
            load_func
            quit
            fuel
            (c.data_providers ++ (file_of (stable_sort by_key (entries c.buf)) ∷ []))
            s
          ≡ load_all load_func quit 0 s (stable_sort by_key es)
    load_disk b some_ =
        let files : Streams = h.files ++ (stable_sort by_key (entries c.buf) ∷ []) in
        ap (λ ps. merge_sort_files (next slice_buffer b) load_func quit fuel ps s)
          (ap (λ t. t ++ (file_of (stable_sort by_key (entries c.buf)) ∷ [])) h.providers
            ∙ sym (map-snoc h.files (stable_sort by_key (entries c.buf))))
        ∙ files_load fuel b files s (files_sorted some_) count_sorted
        ∙ sorted_same c es h (concat files)
            (λ t.
              sorted_last (concat h.files) (entries c.buf) t
              ∙ ap (λ l. inserts by_key l t)
                  (sym (concat-snoc h.files (stable_sort by_key (entries c.buf)))))
            s

    -- `Load` gives the entries that were collected to the load function, in the stable order of their
    -- keys, however they were flushed.
    pub load-Holds :
        load slice_buffer load_func quit fuel c s
        ≡ load_all load_func quit 0 s (stable_sort by_key es)
    unfolding load flush_last flush_buffer
    load-Holds = elim (Bool-cases (len c.buf == 0)) [
      | inl empty ↦ rw (h.not_flushed, empty) (load_empty empty)
      | inr some_ ↦ elim (Bool-cases (length c.data_providers == 0)) [
        | inl no_ ↦ rw (h.not_flushed, some_, no_) (load_memory some_ no_)
        | inr files ↦
            rw (h.not_flushed, some_, files, flush_to_disk_lem c es h some_)
              (load_disk (reset (sort c.buf)) some_)
      ]
    ]

  -- The entries that a new collector over a `sortableBuffer` was given, with keys and values of
  -- less than 2 ^ 63 bytes, are loaded one after another in the stable order of their keys,
  -- whatever the size of its buffer. A round for each entry is enough fuel.
  pub load-collect_all :
      (size : ℕ) (es : List Entry) (s : S)
      → All Fits es
      → load slice_buffer load_func quit
          (length es)
          (collect_all slice_buffer (new_collector slice_buffer (new_sortable_buffer size)) es)
          s
        ≡ load_all load_func quit 0 s (stable_sort by_key es)
  load-collect_all size es s fits' =
      load-Holds (length es)
        (collect_all slice_buffer (new_collector slice_buffer (new_sortable_buffer size)) es) es s
        (collect_all-Holds (new_collector slice_buffer (new_sortable_buffer size)) [] es
          (new-Holds size) fits')
        (omega arith)
