-- ===== src/Rlp/Commitment.antt =====
-- rlp/commitment.go: what the commitment of the state root hashes, encoded once or twice. A writer is a
-- function from the bytes and its state to an error, if there is one, and its new state.
pub mod Laws
pub mod Single
mod Examples
use erigon_lib.Base.{
  ℕ, ◌+◌, ◌/◌, ◌%◌, ◌^◌, Bool, true, false, Option, none, some, List, [], ◌∷◌, length, take, ltb,
  leb, if◌then◌else◌, Result, ok, fault, ◌>>=◌,
}
use erigon_lib.Rlp.Encode.{Written, store, write_behind}

unfoldable pub generate_rlp_prefix_len_double : ℕ → ℕ → ℕ
generate_rlp_prefix_len_double l first_byte =
    if ltb l 2
    then (if leb 0x80 first_byte then 2 else 0)
    else if ltb l 55
    then 2
    else if ltb l 56
    then 3
    else if ltb l 254
    then 4
    else if ltb l 256
    then 5
    else if ltb l 65533
    then 6
    else if ltb l 65536
    then 7
    else 8

unfoldable pub multi_byte_header_prefix_of_len : ℕ → ℕ
multi_byte_header_prefix_of_len l = (0xb7 + l) % 256

-- The bytes that `generateByteArrayLen` stores.
unfoldable pub byte_array_len : ℕ → List ℕ
unfolding multi_byte_header_prefix_of_len
byte_array_len l =
    if ltb l 56
    then ((0x80 + l) % 256) ∷ []
    else if ltb l 256
    then multi_byte_header_prefix_of_len 1 ∷ (l % 256) ∷ []
    else if ltb l 65536
    then multi_byte_header_prefix_of_len 2 ∷ (l / 2 ^ 8 % 256) ∷ (l % 256) ∷ []
    else multi_byte_header_prefix_of_len 3 ∷ (l / 2 ^ 16 % 256) ∷ (l / 2 ^ 8 % 256) ∷ (l % 256) ∷ []

-- `buffer[pos] = b; pos++` for each of the bytes. The buffer and the position after it.
unfoldable pub generate_byte_array_len : List ℕ → ℕ → ℕ → Written
unfolding byte_array_len write_behind store
generate_byte_array_len buffer pos l =
    write_behind (λ to. store to (byte_array_len l)) (buffer, pos)

-- The bytes that `generateByteArrayLenDouble` stores.
unfoldable pub byte_array_len_double : ℕ → List ℕ
unfolding multi_byte_header_prefix_of_len
byte_array_len_double l =
    if ltb l 55
    then ((0x80 + l + 1) % 256) ∷ ((0x80 + l) % 256) ∷ []
    else if ltb l 56
    then multi_byte_header_prefix_of_len 1 ∷ ((l + 1) % 256) ∷ ((0x80 + l) % 256) ∷ []
    else if ltb l 254
    then multi_byte_header_prefix_of_len 1
      ∷ ((l + 2) % 256)
      ∷ multi_byte_header_prefix_of_len 1
      ∷ (l % 256)
      ∷ []
    else if ltb l 256
    then multi_byte_header_prefix_of_len 2
      ∷ ((l + 2) / 2 ^ 8 % 256)
      ∷ ((l + 2) % 256)
      ∷ multi_byte_header_prefix_of_len 1
      ∷ (l % 256)
      ∷ []
    else if ltb l 65533
    then multi_byte_header_prefix_of_len 2
      ∷ ((l + 3) / 2 ^ 8 % 256)
      ∷ ((l + 3) % 256)
      ∷ multi_byte_header_prefix_of_len 2
      ∷ (l / 2 ^ 8 % 256)
      ∷ (l % 256)
      ∷ []
    else if ltb l 65536
    then multi_byte_header_prefix_of_len 3
      ∷ ((l + 3) / 2 ^ 16 % 256)
      ∷ ((l + 3) / 2 ^ 8 % 256)
      ∷ ((l + 3) % 256)
      ∷ multi_byte_header_prefix_of_len 2
      ∷ (l / 2 ^ 8 % 256)
      ∷ (l % 256)
      ∷ []
    else multi_byte_header_prefix_of_len 3
      ∷ ((l + 4) / 2 ^ 16 % 256)
      ∷ ((l + 4) / 2 ^ 8 % 256)
      ∷ ((l + 4) % 256)
      ∷ multi_byte_header_prefix_of_len 3
      ∷ (l / 2 ^ 16 % 256)
      ∷ (l / 2 ^ 8 % 256)
      ∷ (l % 256)
      ∷ []

unfoldable pub generate_byte_array_len_double : List ℕ → ℕ → ℕ → Written
unfolding byte_array_len_double write_behind store
generate_byte_array_len_double buffer pos l =
    write_behind (λ to. store to (byte_array_len_double l)) (buffer, pos)

unfoldable pub generate_rlp_prefix_len : ℕ → ℕ
generate_rlp_prefix_len l =
    if ltb l 2
    then 0
    else if ltb l 56
    then 1
    else if ltb l 256
    then 2
    else if ltb l 65536
    then 3
    else 4

unfoldable pub double_rlp_len : List ℕ → ℕ
unfolding generate_rlp_prefix_len_double
double_rlp_len [] = 0
double_rlp_len (b ∷ bs) = generate_rlp_prefix_len_double (length (b ∷ bs)) b + length (b ∷ bs)

-- `RlpEncodedBytes.DoubleRLPLen`
unfoldable pub encoded_double_rlp_len : List ℕ → ℕ
unfolding generate_rlp_prefix_len
encoded_double_rlp_len b = generate_rlp_prefix_len (length b) + length b

-- `len(source) > 1 || (len(source) == 1 && source[0] >= 0x80)`
abbrev pub wants_prefix : List ℕ → Bool
wants_prefix [] = false
wants_prefix (b ∷ []) = leb 0x80 b
wants_prefix (a ∷ b ∷ s) = true

abbrev pub Writer : Type 0 → Type 0 → Type 0
Writer E S = List ℕ → S → Option E × S

module _ {E S : Type 0} where
  -- `if err != nil { return err }`, and the next write.
  abbrev pub and_write : Writer E S → List ℕ → Option E × S → Option E × S
  and_write w bytes (some e, s) = (some e, s)
  and_write w bytes (none, s) = w bytes s

  -- The buffer is only the place where the prefix is built; what is in it afterwards is left out.
  unfoldable pub encode_bytes_as_rlp_to_writer :
      List ℕ → Writer E S → (List ℕ → ℕ → ℕ → Written) → List ℕ → S → Result ⊥ (Option E × S)
  encode_bytes_as_rlp_to_writer source w prefix_gen_func prefix_buf s =
      if wants_prefix source
      then (prefix_gen_func prefix_buf 0 (length source) >>= λ p.
          ok (and_write w source (w (take p.1 p.0) s)))
      else ok (w source s)

  unfoldable pub to_double_rlp : List ℕ → Writer E S → List ℕ → S → Result ⊥ (Option E × S)
  unfolding encode_bytes_as_rlp_to_writer
  to_double_rlp b w prefix_buf s =
      encode_bytes_as_rlp_to_writer b w generate_byte_array_len_double prefix_buf s

  -- `RlpEncodedBytes.ToDoubleRLP`
  unfoldable pub encoded_to_double_rlp : List ℕ → Writer E S → List ℕ → S → Result ⊥ (Option E × S)
  unfolding encode_bytes_as_rlp_to_writer
  encoded_to_double_rlp b w prefix_buf s =
      encode_bytes_as_rlp_to_writer b w generate_byte_array_len prefix_buf s

  -- The count, or the error with a count of 0.
  abbrev pub with_count : ℕ → Option E × S → (ℕ × Option E) × S
  with_count n (some e, s) = ((0, some e), s)
  with_count n (none, s) = ((n, none), s)

  unfoldable pub encode_byte_array_as_rlp :
      List ℕ → Writer E S → List ℕ → S → Result ⊥ ((ℕ × Option E) × S)
  unfolding encode_bytes_as_rlp_to_writer generate_rlp_prefix_len
  encode_byte_array_as_rlp raw w prefix_buf s =
      encode_bytes_as_rlp_to_writer raw w generate_byte_array_len prefix_buf s >>= λ r.
      ok (with_count (generate_rlp_prefix_len (length raw) + length raw) r)

-- The bytes that `GenerateStructLen` stores.
unfoldable pub struct_len : ℕ → List ℕ
struct_len l =
    if ltb l 56
    then ((192 + l) % 256) ∷ []
    else if ltb l 256
    then 248 ∷ (l % 256) ∷ []
    else if ltb l 65536
    then 249 ∷ (l / 2 ^ 8 % 256) ∷ (l % 256) ∷ []
    else 250 ∷ (l / 2 ^ 16 % 256) ∷ (l / 2 ^ 8 % 256) ∷ (l % 256) ∷ []

unfoldable pub generate_struct_len : List ℕ → ℕ → Written
unfolding struct_len store
generate_struct_len buffer l = store buffer (struct_len l)
