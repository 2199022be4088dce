-- ===== src/Rlp/RoundTrip.antt =====
-- The parsers of rlp/parse.go on what the encoders of rlp/encodel.go wrote into a buffer.
use mathlib.Core.List.{append-nil}
use erigon_lib.Base.{
  OnOk, OnOk-intro, ℕ, suc, ◌+◌, ◌^◌, ◌≤◌, ◌<◌, ◌≡◌, ◌≢◌, sym, ap, ◌∙◌, arith, List, [], ◌∷◌, ◌++◌,
  length, length-append, ok,
}
use erigon_lib.Rlp.Parse.{
  slice, string, list, u64, u32, checked, read_header, check_end, long_header, checked_len,
}
use erigon_lib.Rlp.Encode.{
  encode_string, encode_list_prefix, encode_u32, encode_u64, string_len, short_string_bytes,
  u64_len, u32_len, list_prefix_len, store,
}
use erigon_lib.Rlp.Headers.{len_prefix, rlp_string, rlp_list, prefix_at}
use erigon_lib.Rlp.Elements.{head_len, string-rlp_string, list-rlp_list, slice-rlp_string}
use erigon_lib.Rlp.Integers.{head_len-add, rlp_uint, u64-rlp_uint, u32-rlp_uint}
use erigon_lib.Rlp.Writes.{
  encode_u64-Writes, encode_u32-Writes, encode_list_prefix-Writes, prefix_room, store-Writes,
}
use erigon_lib.Rlp.Strings.{encode_string-Writes}
use erigon_lib.Rlp.Lengths.{
  length-rlp_uint, u32_len-u64_len, length-len_prefix, length-rlp_string, length-le-string_len,
}

encode_string_56 : (s to : List ℕ) → length s ≡ 56 → encode_string s to ≡ store to (184 ∷ s)
unfolding encode_string short_string_bytes
encode_string_56 [] to e = absurd (omega arith)
encode_string_56 (b ∷ []) to e = absurd (omega arith)
encode_string_56 (a ∷ b ∷ s) to e = rw e

string_184 :
    (front back : List ℕ)
    → length (front ++ (184 ∷ back)) < 2 ^ 48
    → (d : ℕ × ℕ) → string (front ++ (184 ∷ back)) (length front) ≡ ok d
    → d.0 ≡ length front + 2
unfolding string checked read_header long_header checked_len check_end
string_184 front back small d e =
    ground (arith, prefix_at front 184 back small, length-append front (184 ∷ back))

list_of_prefix :
    (front : List ℕ) (n : ℕ) (body : List ℕ)
    → length body ≡ n
    → length (front ++ (len_prefix 192 n ++ body)) < 2 ^ 48
    → list (front ++ (len_prefix 192 n ++ body)) (length front)
      ≡ ok (length front + length (len_prefix 192 n), n)
unfolding rlp_list
list_of_prefix front n body e small = rw (← e) (whole (rw (← e) at small))
  where
    whole :
        length (front ++ (len_prefix 192 (length body) ++ body)) < 2 ^ 48
        → list (front ++ (len_prefix 192 (length body) ++ body)) (length front)
          ≡ ok (length front + length (len_prefix 192 (length body)), length body)
    whole h =
        let nil = append-nil (rlp_list body) in rw nil at (list-rlp_list front [] body (rw nil h))

module _ (front to : List ℕ) (small : length front + length to < 2 ^ 48) where
  out-small :
      (bytes rest : List ℕ)
      → length bytes + length rest ≡ length to
      → length (front ++ (bytes ++ rest)) < 2 ^ 48
  out-small bytes rest e =
      omega (arith, length-append front (bytes ++ rest), length-append bytes rest)

  -- A buffer of `U64Len(n)` bytes is enough for `EncodeU64(n)`, which writes that many bytes, and
  -- `U64` reads `n` back, wherever the buffer stands in a payload.
  pub u64-encode_u64 :
      (n : ℕ)
      → n < 2 ^ 64
      → u64_len n ≤ length to
      → (out : List ℕ) × (encode_u64 n to ≡ ok (out, u64_len n))
        × (length out ≡ length to)
        × (u64 (front ++ out) (length front) ≡ ok (length front + u64_len n, n))
  u64-encode_u64 n h room =
      let len = length-rlp_uint n h in
      let (rest, e, size) = encode_u64-Writes n h to (omega (arith, len)) in
      (
        rlp_uint n ++ rest,
        rw (← len) e,
        omega (arith, length-append (rlp_uint n) rest),
        rw (← len) (u64-rlp_uint front rest n h (out-small (rlp_uint n) rest size)),
      )

  -- A buffer of `U32Len(n)` bytes is enough for `EncodeU32(n)`, which writes that many bytes, and
  -- `U32` reads `n` back, wherever the buffer stands in a payload.
  pub u32-encode_u32 :
      (n : ℕ)
      → n < 2 ^ 32
      → u32_len n ≤ length to
      → (out : List ℕ) × (encode_u32 n to ≡ ok (out, u32_len n))
        × (length out ≡ length to)
        × (u32 (front ++ out) (length front) ≡ ok (length front + u32_len n, n))
  u32-encode_u32 n h room =
      let len = length-rlp_uint n (omega arith) ∙ sym (u32_len-u64_len n h) in
      let (rest, e, size) = encode_u32-Writes n h to (omega (arith, len)) in
      (
        rlp_uint n ++ rest,
        rw (← len) e,
        omega (arith, length-append (rlp_uint n) rest),
        rw (← len) (u32-rlp_uint front rest n h (out-small (rlp_uint n) rest size)),
      )

  -- A buffer of `StringLen(s)` bytes is enough for `EncodeString(s)` if `s` has not 56 bytes. The
  -- encoder writes that many bytes, `String` finds an element of the length of `s` that ends with
  -- them, and its bytes are those of `s`.
  pub string-encode_string :
      (s : List ℕ)
      → length s ≢ 56
      → string_len s ≤ length to
      → (out : List ℕ) × (p : ℕ) × (encode_string s to ≡ ok (out, string_len s))
        × (length out ≡ length to)
        × (string (front ++ out) (length front) ≡ ok (p, length s))
        × (p + length s ≡ length front + string_len s)
        × (slice (front ++ out) p (p + length s) ≡ ok s)
  string-encode_string s other room =
      let fits : length s < 2 ^ 63 = omega (arith, length-le-string_len s) in
      let len = length-rlp_string s fits other in
      let (rest, e, size) = encode_string-Writes s fits other to (omega (arith, len)) in
      let data_len = head_len-add s in
      (
        rlp_string s ++ rest,
        length front + head_len s,
        rw (← len) e,
        omega (arith, length-append (rlp_string s) rest),
        string-rlp_string front rest s (out-small (rlp_string s) rest size),
        omega arith,
        slice-rlp_string front rest s,
      )

  -- A string of 56 bytes is stored behind the byte 184, which announces a length of one byte. So
  -- `String` never finds the string: where it succeeds it takes the first byte for the length.
  pub string-encode_string_56 :
      (s : List ℕ)
      → length s ≡ 56
      → 57 ≤ length to
      → (out : List ℕ) × (encode_string s to ≡ ok (out, 57))
        × OnOk (λ d. d.0 ≡ length front + 2) (string (front ++ out) (length front))
  string-encode_string_56 s e56 room =
      let (rest, e, size) = store-Writes (184 ∷ s) to (omega arith) in
      (
        (184 ∷ s) ++ rest,
        encode_string_56 s to e56 ∙ e ∙ ap (λ (t : ℕ). ok ((184 ∷ s) ++ rest, suc t)) e56,
        OnOk-intro (λ d. d.0 ≡ length front + 2)
            (string (front ++ ((184 ∷ s) ++ rest)) (length front))
            (string_184 front (s ++ rest) (out-small (184 ∷ s) rest size)),
      )

  -- `EncodeListPrefix` writes `ListPrefixLen(n)` bytes, and once `n` bytes follow them `List` finds
  -- these.
  pub list-encode_list_prefix :
      (n : ℕ) (body : List ℕ)
      → length body ≡ n
      → prefix_room n ≤ length to
      → length front + list_prefix_len n + n < 2 ^ 48
      → (pre rest : List ℕ) × (encode_list_prefix n to ≡ ok (pre ++ rest, list_prefix_len n))
        × (length pre ≡ list_prefix_len n)
        × (length pre + length rest ≡ length to)
        × (list (front ++ (pre ++ body)) (length front) ≡ ok (length front + list_prefix_len n, n))
  list-encode_list_prefix n body e room fits =
      let w : n < 2 ^ 63 = omega arith in
      let len = length-len_prefix 192 n w in
      let (rest, written, size) = encode_list_prefix-Writes n w to room in
      (
        len_prefix 192 n,
        rest,
        rw (← len) written,
        len,
        size,
        list_of_prefix front n body e (
              omega (
                arith,
                len,
                length-append front (len_prefix 192 n ++ body),
                length-append (len_prefix 192 n) body,
              ))
            ∙ rw len,
      )
