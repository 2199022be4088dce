-- ===== src/Rlp/Commitment/Single.antt =====
-- `EncodeByteArrayAsRlp` of rlp/commitment.go and the parser of rlp/parse.go.
use mathlib.Core.List.{append-nil}
use erigon_lib.Base.{
  ℕ, ◌+◌, ◌-◌, ◌^◌, ◌≤◌, ◌<◌, ◌≡◌, refl, ap, ◌∙◌, arith, true, none, List, [], ◌∷◌, ◌++◌, length,
  length-append, ok,
}
use erigon_lib.Rlp.Parse.{string, slice}
use erigon_lib.Rlp.Headers.{rlp_string}
use erigon_lib.Rlp.Elements.{rlp_string_high_byte, string-rlp_string, slice-rlp_string}
use erigon_lib.Rlp.Commitment.{
  byte_array_len, generate_byte_array_len, generate_rlp_prefix_len, Writer, wants_prefix,
  encode_byte_array_as_rlp, generate_struct_len, struct_len,
}
use erigon_lib.Rlp.Encode.{encode_list_prefix}
use erigon_lib.Rlp.Writes.{store-Writes, encode_list_prefix-Writes}
use erigon_lib.Rlp.Commitment.Laws.{
  Keeps, prefixed, generate-Writes, byte_array_len_lem, length-byte_array_len, once, struct_len_lem,
}

length-byte_array_len_many : (l : ℕ) → 2 ≤ l → length (byte_array_len l) ≡ generate_rlp_prefix_len l
unfolding byte_array_len generate_rlp_prefix_len
length-byte_array_len_many l h = ground arith

many_want : (s : List ℕ) → 2 ≤ length s → wants_prefix s ≡ true
many_want [] h = absurd (omega arith)
many_want (b ∷ []) h = absurd (omega arith)
many_want (a ∷ b ∷ s) h = refl

module _ {E S : Type 0} (w : Writer E S) (out : S → List ℕ) (keeps : Keeps w out) (s : S) where
  -- The bytes and the count, for a string that wants a prefix.
  encoded :
      (raw to : List ℕ)
      → wants_prefix raw ≡ true
      → length raw < 2 ^ 24
      → 4 ≤ length to
      → (s' : S) × (encode_byte_array_as_rlp raw w to s
          ≡ ok ((generate_rlp_prefix_len (length raw) + length raw, none), s'))
        × (out s' ≡ out s ++ rlp_string raw)
  unfolding encode_byte_array_as_rlp
  encoded raw to h small room =
      let bytes : List ℕ = byte_array_len (length raw) in
      let (rest, e, size) =
        generate-Writes bytes to (omega (arith, length-byte_array_len (length raw))) in
      let (s', done, has) =
        prefixed w out keeps s raw bytes rest to generate_byte_array_len h
          (unfold generate_byte_array_len in e) in
      (s', rw done, has ∙ rw (once raw h, byte_array_len_lem (length raw) small))

  -- `EncodeByteArrayAsRlp` of two bytes or more, fewer than 2 ^ 24, with a buffer of four bytes
  -- and a writer that takes all and has fewer than 2 ^ 47 bytes, returns the number of bytes that
  -- it wrote, and `String` finds the bytes in them.
  pub string-encode_byte_array_as_rlp :
      (raw to : List ℕ)
      → 2 ≤ length raw
      → length raw < 2 ^ 24
      → 4 ≤ length to
      → length (out s) < 2 ^ 47
      → (n : ℕ) × (s' : S) × (encode_byte_array_as_rlp raw w to s ≡ ok ((n, none), s'))
        × (length (out s') ≡ length (out s) + n)
        × (string (out s') (length (out s)) ≡ ok (length (out s) + (n - length raw), length raw))
        × (slice
              (out s')
              (length (out s) + (n - length raw))
              (length (out s) + (n - length raw) + length raw)
            ≡ ok raw)
  string-encode_byte_array_as_rlp raw to many small room held =
      let n : ℕ = generate_rlp_prefix_len (length raw) + length raw in
      let want = many_want raw many in
      let (s', done, has) = encoded raw to want small room in
      let size : length (rlp_string raw) ≡ n =
        ap length (once raw want)
        ∙ rw (← byte_array_len_lem (length raw) small) (
            length-append (byte_array_len (length raw)) raw
            ∙ rw (length-byte_array_len_many (length raw) many)) in
      let at : out s' ≡ out s ++ (rlp_string raw ++ []) = has ∙ rw (append-nil (rlp_string raw)) in
      let le = length-byte_array_len (length raw) in
      let few : length (rlp_string raw) ≤ length raw + 4 =
        omega (arith, size, le, length-byte_array_len_many (length raw) many) in
      let whole = length-append (out s) (rlp_string raw ++ []) in
      let tail = length-append (rlp_string raw) [] in
      (
        n,
        s',
        done,
        omega (arith, ap length at, whole, tail, size),
        rw (at, ← size) (string-rlp_string (out s) [] raw (omega (arith, whole, tail, few))),
        rw (at, ← size) (slice-rlp_string (out s) [] raw),
      )

  -- Of one byte of 128 or more, with a buffer of four bytes and a writer that takes all,
  -- `EncodeByteArrayAsRlp` writes two bytes and returns 1, and no error.
  pub encode_byte_array_as_rlp-high_byte :
      (b : ℕ) (to : List ℕ)
      → 128 ≤ b
      → 4 ≤ length to
      → (s' : S) × (encode_byte_array_as_rlp (b ∷ []) w to s ≡ ok ((1, none), s'))
        × (length (out s') ≡ length (out s) + 2)
  encode_byte_array_as_rlp-high_byte b to h room =
      let (s', done, has) = encoded (b ∷ []) to (ground arith) (omega arith) room in
      (
        s',
        unfold generate_rlp_prefix_len in done,
        ap length has ∙ rw (rlp_string_high_byte b h) (length-append (out s) (129 ∷ b ∷ [])),
      )

-- Where a buffer has ten bytes, `GenerateStructLen` of a length below 2 ^ 24 puts the same bytes
-- in front as `EncodeListPrefix`, and returns the same count.
pub generate_struct_len-encode_list_prefix :
    (l : ℕ) (buffer : List ℕ)
    → l < 2 ^ 24
    → 10 ≤ length buffer
    → (bytes : List ℕ) × (rest : List ℕ) × (rest' : List ℕ) × (generate_struct_len buffer l
        ≡ ok (bytes ++ rest, length bytes))
      × (encode_list_prefix l buffer ≡ ok (bytes ++ rest', length bytes))
unfolding generate_struct_len
generate_struct_len-encode_list_prefix l buffer small room =
    let few : length (struct_len l) ≤ 10 = unfold struct_len in ground arith in
    let (rest, e, size) = store-Writes (struct_len l) buffer (omega (arith, few)) in
    let (rest', e', size') = encode_list_prefix-Writes l (omega arith) buffer (ground arith) in
    (struct_len l, rest, rest', e, rw (struct_len_lem l small) e')
