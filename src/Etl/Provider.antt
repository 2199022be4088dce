-- ===== src/Etl/Provider.antt =====
-- etl/dataprovider.go: the entries of a flushed file, and of a buffer that is kept in memory. Room for an
-- entry, and the calls of the operating system, do not fail.
pub mod Laws
use erigon_lib.Base.{
  ℕ, zero, suc, ◌+◌, ◌^◌, Bool, true, false, Option, none, some, List, [], ◌∷◌, ◌++◌, length, take,
  drop, leb, ltb, Result, ok, err, fault, ◌>>=◌, if◌then◌else◌,
}
use erigon_lib.Etl.Sorting.{Entry}
use erigon_lib.Etl.Varint.{Varint, value, end_of_file, unexpected_end, overflow, read_uvarint}
use erigon_lib.Etl.Buffers.{Buffer}

-- `io.EOF`, `io.ErrUnexpectedEOF` and the overflow of `binary.ReadUvarint`.
pub data ReadError : Type 0 where
  eof : ReadError
  unexpected_eof : ReadError
  too_long : ReadError

abbrev varint_result : Varint → Result ReadError (ℕ × List ℕ)
varint_result (value n rest) = ok (n, rest)
varint_result end_of_file = err eof
varint_result unexpected_end = err unexpected_eof
varint_result overflow = err too_long

-- `io.ReadFull` of `n` bytes, `n` not 0.
unfoldable pub read_full : ℕ → List ℕ → Result ReadError (List ℕ × List ℕ)
read_full n [] = err eof
read_full n (b ∷ bytes) =
    if leb n (length (b ∷ bytes))
    then ok (take n (b ∷ bytes), drop n (b ∷ bytes))
    else err unexpected_eof

-- The slice is made longer by what is read.
unfoldable pub read_bytes : ℕ → List ℕ → List ℕ → Result ReadError (List ℕ × List ℕ)
unfolding read_full
read_bytes zero bytes buf = ok (buf, bytes)
read_bytes (suc m) bytes buf = do (part, behind) ← read_full (suc m) bytes; ok (buf ++ part, behind)

-- The half of `readElementFromDisk` for one slice. A length of 2 ^ 63 is a negative `int`, and the slice
-- then panics.
unfoldable pub read_part : List ℕ → List ℕ → Result ReadError (List ℕ × List ℕ)
unfolding read_bytes
read_part bytes buf = do
  (n, rest) ← varint_result (read_uvarint bytes)
  if leb (2 ^ 63) n then fault else read_bytes n rest buf

-- The entry, and the bytes behind it.
unfoldable pub read_element_from_disk : List ℕ → List ℕ → List ℕ → Result ReadError (Entry × List ℕ)
unfolding read_part
read_element_from_disk bytes key_buf val_buf = do
  (key, rest) ← read_part bytes key_buf
  (val, behind) ← read_part rest val_buf
  ok ((key, val), behind)

-- A file has a reader after its first `Next`. The buffer in memory is the collector's own, so a
-- provider of it has only the place.
pub data Provider : Type 0 where
  file : List ℕ → Option (List ℕ) → Provider
  memory : ℕ → Provider

abbrev pub unread : List ℕ → Option (List ℕ) → List ℕ
unread contents none = contents
unread contents (some rest) = rest

-- `fileDataProvider.Next`.
unfoldable pub next_file :
    List ℕ → Option (List ℕ) → List ℕ → List ℕ → Result ReadError (Entry × Provider)
unfolding read_element_from_disk
next_file contents reader key_buf val_buf = do
  (e, rest) ← read_element_from_disk (unread contents reader) key_buf val_buf
  ok (e, file contents (some rest))

abbrev pub keep_in_ram : Provider
keep_in_ram = memory 0

-- The interface's methods are those of the collector's buffer.
module _ {B : Type 0} (ops : Buffer B) where
  -- `memoryDataProvider.Next`.
  unfoldable pub next_memory : B → ℕ → List ℕ → List ℕ → Result ReadError (Entry × Provider)
  next_memory buf i key_buf val_buf =
      if leb (ops.buffer_len buf) i then err eof else elim (ops.buffer_get buf i key_buf val_buf) [
        | none ↦ fault
        | some e ↦ ok (e, memory (suc i))
      ]

  -- `Next` of a provider of either kind, with the collector's buffer.
  unfoldable pub next : B → Provider → List ℕ → List ℕ → Result ReadError (Entry × Provider)
  unfolding next_file next_memory
  next buf (file contents reader) key_buf val_buf = next_file contents reader key_buf val_buf
  next buf (memory i) key_buf val_buf = next_memory buf i key_buf val_buf
