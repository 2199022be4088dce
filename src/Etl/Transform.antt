-- ===== src/Etl/Transform.antt =====
-- etl/etl.go: `NextKey`, and `Transform` with `extractBucketIntoFiles`, with the buffer of `BufferType`.
pub mod Laws
pub mod NextKey
use erigon_lib.Base.{
  ℕ, zero, suc, ◌+◌, Bool, true, false, Option, none, some, List, [], ◌∷◌, not, ltb, if◌then◌else◌,
}
use erigon_lib.Iter.Order.{bytes_lt}
use erigon_lib.Etl.Sorting.{Entry}
use erigon_lib.Etl.Buffers.{Buffer, BufferType, get_buffer_by_type}
use erigon_lib.Etl.Merge.{Outcome}
use erigon_lib.Etl.Collector.{Collector, new_collector, flush_buffer, collect_all, load}

-- The loop of `NextKey`, from the last byte on: whether a byte was raised, and the bytes after it.
unfoldable pub raise : List ℕ → Bool × List ℕ
raise [] = (false, [])
raise (b ∷ key) =
    let (raised, k) = raise key in
    if raised then (true, b ∷ k) else if ltb b 255 then (true, (b + 1) ∷ k) else (false, 0 ∷ k)

-- `none` is its error: the key is empty, or all bytes are 255.
unfoldable pub next_key : List ℕ → Option (List ℕ)
unfolding raise
next_key [] = none
next_key (b ∷ key) = let r = raise (b ∷ key) in if r.0 then some r.1 else none

-- What the cursor gives from the start key on: a pair, or an error, which comes with a key.
pub data Row (E : Type 0) : Type 0 where
  row : Entry → Row E
  row_error : E → Row E

pub data ExtractEnd (E : Type 0) : Type 0 where
  extracted : ExtractEnd E
  cursor_failed : E → ExtractEnd E
  extract_failed : E → ExtractEnd E
  extract_stopped : ExtractEnd E

-- `endkey != nil && bytes.Compare(k, endkey) >= 0`.
abbrev pub at_end : Option (List ℕ) → List ℕ → Bool
at_end none k = false
at_end (some end_key) k = not (bytes_lt k end_key)

-- `extract_func` gives what the extract function passes to its `next`, and its error; `quit` is what
-- `common.Stopped` gives in each round.
module _ {B E : Type 0} (ops : Buffer B) (extract_func : List ℕ → List ℕ → List Entry × Option E)
    (quit : ℕ → Bool) (end_key : Option (List ℕ)) where
  unfoldable pub extract_bucket_into_files :
      ℕ → List (Row E) → Collector B → Collector B × ExtractEnd E
  unfolding flush_buffer
  extract_bucket_into_files n [] c = (flush_buffer ops true c, extracted)
  extract_bucket_into_files n (row_error x ∷ rows) c = (c, cursor_failed x)
  extract_bucket_into_files n (row e ∷ rows) c = elim (quit n) [
    | true ↦ (c, extract_stopped)
    | false ↦ elim (at_end end_key e.0) [
      | true ↦ (c, extracted)
      | false ↦
          let r = extract_func e.0 e.1 in
          elim r.1 [
            | some x ↦ (collect_all ops c r.0, extract_failed x)
            | none ↦ extract_bucket_into_files (suc n) rows (collect_all ops c r.0)
          ]
    ]
  ]

pub data TransformEnd (S L E : Type 0) : Type 0 where
  load_end : Outcome S L → TransformEnd S L E
  not_extracted : ExtractEnd E → TransformEnd S L E

abbrev pub after_extract :
    {B S L E : Type 0}
    → (Collector B → Outcome S L)
    → Collector B × ExtractEnd E
    → TransformEnd S L E
after_extract loads (c, extracted) = load_end (loads c)
after_extract loads (c, cursor_failed x) = not_extracted (cursor_failed x)
after_extract loads (c, extract_failed x) = not_extracted (extract_failed x)
after_extract loads (c, extract_stopped) = not_extracted extract_stopped

-- `BufferOptimalSize`, where the arguments have no size.
abbrev pub buffer_size_or_optimal : ℕ → ℕ → ℕ
buffer_size_or_optimal optimal zero = optimal
buffer_size_or_optimal optimal (suc n) = suc n

-- `quit_load` is `quit` from the load on, `order` the order of a map, and `optimal` is `BufferOptimalSize`,
-- a variable.
unfoldable pub transform :
    {S L E : Type 0}
    → (List Entry → List Entry)
    → ℕ
    → (List ℕ → List ℕ → List Entry × Option E)
    → (ℕ → Bool)
    → Option (List ℕ)
    → (S → Entry → S × Option L)
    → (ℕ → Bool)
    → ℕ
    → BufferType
    → ℕ
    → List (Row E)
    → S
    → TransformEnd S L E
unfolding extract_bucket_into_files
transform order optimal extract_func quit end_key load_func quit_load fuel buffer_type buffer_size
      rows s =
    let (B, ops, buffer) =
      get_buffer_by_type order buffer_type (buffer_size_or_optimal optimal buffer_size) in
    after_extract (λ c. load ops load_func quit_load fuel c s)
      (extract_bucket_into_files ops extract_func quit end_key 0 rows (new_collector ops buffer))
