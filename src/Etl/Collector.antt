-- ===== src/Etl/Collector.antt =====
-- etl/collector.go: `Collector` over a buffer of any kind, up to the call of `mergeSortFiles`. The operating
-- system does not fail.
pub mod Laws
use erigon_lib.Base.{
  ℕ, zero, suc, Bool, true, false, Option, none, some, List, [], ◌∷◌, ◌++◌, length, ◌==◌, ◌&&◌,
  if◌then◌else◌,
}
use erigon_lib.Etl.Sorting.{Entry}
use erigon_lib.Etl.Buffers.{Buffer, BufferType}
use erigon_lib.Etl.Provider.{Provider, file, keep_in_ram, next}
use erigon_lib.Etl.Merge.{Outcome, merge_sort_files}

pub record Collector (B : Type 0) : Type 0 where
  pub buf : B
  pub data_providers : List Provider
  pub buf_type : BufferType
  pub all_flushed : Bool
  pub auto_clean : Bool

abbrev add_provider : List Provider → Option Provider → List Provider
add_provider ps none = ps
add_provider ps (some p) = ps ++ (p ∷ [])

module _ {B : Type 0} (ops : Buffer B) where
  unfoldable pub new_collector : B → Collector B
  new_collector b = record {
    buf = b;
    data_providers = [];
    buf_type = ops.buffer_type;
    all_flushed = false;
    auto_clean = true;
  }

  unfoldable pub new_critical_collector : B → Collector B
  unfolding new_collector
  new_critical_collector b = record (new_collector b) { auto_clean = false }

  -- `FlushToDisk`: the provider, where there is something to write, and the buffer after it.
  unfoldable pub flush_to_disk : B → Option Provider × B
  flush_to_disk b =
      if ops.buffer_len b == 0
      then (none, b)
      else (some (file (ops.buffer_write b) none), ops.buffer_reset b)

  unfoldable pub flush_buffer : Bool → Collector B → Collector B
  unfolding flush_to_disk
  flush_buffer can_store_in_ram c =
      let sorted = ops.buffer_sort c.buf in
      let flushed = flush_to_disk sorted in
      if ops.buffer_len c.buf == 0
      then c
      else if can_store_in_ram && (length c.data_providers == 0)
      then record c {
        buf = sorted;
        data_providers = c.data_providers ++ (keep_in_ram ∷ []);
        all_flushed = true;
      }
      else record c { buf = flushed.1; data_providers = add_provider c.data_providers flushed.0 }

  -- `Collect` through `extractNextFunc`.
  unfoldable pub collect : Collector B → List ℕ → List ℕ → Collector B
  collect c k v =
      let added = record c { buf = ops.buffer_put c.buf k v } in
      if ops.buffer_check_flush_size added.buf then flush_buffer false added else added

  -- `reset`, which `Close` calls: the files are removed.
  unfoldable pub close : Collector B → Collector B
  close c = record c { buf = ops.buffer_reset c.buf; data_providers = []; all_flushed = false }

  -- What `Load` does before it reads.
  unfoldable pub flush_last : Collector B → Collector B
  unfolding flush_buffer
  flush_last c = if c.all_flushed then c else flush_buffer true c

  -- The entries that `Load` gives to the load function. The places of its providers after it are not kept.
  unfoldable pub load :
      {S L : Type 0} → (S → Entry → S × Option L) → (ℕ → Bool) → ℕ → Collector B → S → Outcome S L
  unfolding flush_last merge_sort_files next
  load load_func quit fuel c s =
      let flushed = flush_last c in
      merge_sort_files (next ops flushed.buf) load_func quit fuel flushed.data_providers s

  -- Calls of `Collect` one after another.
  abbrev pub collect_all : Collector B → List Entry → Collector B
  collect_all c [] = c
  collect_all c (e ∷ es) = collect_all (collect c e.0 e.1) es
