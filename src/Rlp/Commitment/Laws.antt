-- ===== src/Rlp/Commitment/Laws.antt =====
-- The encodings of rlp/commitment.go against those of rlp/encodel.go.
use native.Mathlib.Decide.{dec_lt}
use mathlib.Core.List.{append_assoc}
use erigon_lib.Base.{
  ◌⊎◌, inl, inr, ℕ, suc, ◌+◌, ◌/◌, ◌%◌, ◌^◌, ◌≤◌, ◌<◌, ◌≡◌, refl, ◌∙◌, arith, Bool-cases, true,
  false, none, List, [], ◌∷◌, ◌++◌, length, length-append, take-length_append, ok, ltb,
  if◌then◌else◌,
}
use erigon_lib.Rlp.Encode.{Written, store, write_behind, u32_bytes}
use erigon_lib.Rlp.Bytes.{HasDigits, has_digits, u32_bytes_lem}
use erigon_lib.Rlp.Headers.{len_prefix, rlp_string}
use erigon_lib.Rlp.Elements.{
  len_prefix_short, len_prefix_long, rlp_string_byte, rlp_string_high_byte,
}
use erigon_lib.Rlp.Writes.{Writes, store-Writes}
use erigon_lib.Rlp.Strings.{rlp_string_many, write_behind-Writes}
use erigon_lib.Rlp.Commitment.{
  generate_rlp_prefix_len_double, multi_byte_header_prefix_of_len, byte_array_len,
  byte_array_len_double, generate_byte_array_len_double, double_rlp_len, Writer, wants_prefix,
  encode_bytes_as_rlp_to_writer, to_double_rlp, struct_len,
}

-- The prefix of a length of up to three bytes, spelled out.
unfoldable spelled_prefix : ℕ → ℕ → List ℕ
spelled_prefix base n =
    if ltb n 56
    then (base + n) ∷ []
    else if ltb n 256
    then (base + 56) ∷ (n % 256) ∷ []
    else if ltb n 65536
    then (base + 57) ∷ (n / 2 ^ 8 % 256) ∷ (n % 256) ∷ []
    else (base + 58) ∷ (n / 2 ^ 16 % 256) ∷ (n / 2 ^ 8 % 256) ∷ (n % 256) ∷ []

spelled_long :
    (base k n : ℕ)
    → 56 ≤ n
    → k < 3
    → HasDigits n k
    → (base + (k + 56)) ∷ u32_bytes n ≡ spelled_prefix base n
unfolding spelled_prefix u32_bytes
spelled_long base (suc (suc (suc k))) n h l d = absurd (omega arith)
spelled_long base _ n h l d = ground arith

len_prefix_spelled : (base n : ℕ) → n < 2 ^ 24 → len_prefix base n ≡ spelled_prefix base n
unfolding spelled_prefix
len_prefix_spelled base n w = elim (dec_lt n 56) [
  | yes h ↦ rw (len_prefix_short base n h) (ground arith)
  | no h ↦
      let (k, le, d) = has_digits 2 n (omega arith) (omega arith) in
      rw
        (
          len_prefix_long base k n (omega arith) (omega arith) d,
          ← u32_bytes_lem k n (omega arith) d,
        )
        (unfold spelled_prefix in spelled_long base k n (omega arith) (omega arith) d)
]

pub byte_array_len_lem : (l : ℕ) → l < 2 ^ 24 → byte_array_len l ≡ len_prefix 128 l
unfolding byte_array_len multi_byte_header_prefix_of_len spelled_prefix
byte_array_len_lem l w = rw (len_prefix_spelled 128 l w) (ground arith)

pub struct_len_lem : (l : ℕ) → l < 2 ^ 24 → struct_len l ≡ len_prefix 192 l
unfolding struct_len spelled_prefix
struct_len_lem l w = rw (len_prefix_spelled 192 l w) (ground arith)

spelled_size :
    (base l : ℕ)
    → length (spelled_prefix base l)
      ≡ (if ltb l 56 then 1 else if ltb l 256 then 2 else if ltb l 65536 then 3 else 4)
unfolding spelled_prefix
spelled_size base l = ground arith

-- The prefix of the prefixed string, and the prefix of the string.
byte_array_len_double_lem :
    (l : ℕ)
    → l + 4 < 2 ^ 24
    → byte_array_len_double l ≡ len_prefix 128 (length (len_prefix 128 l) + l) ++ len_prefix 128 l
byte_array_len_double_lem l w =
    let small : length (spelled_prefix 128 l) + l < 2 ^ 24 = ground (arith, spelled_size 128 l) in
    rw
      (
        len_prefix_spelled 128 l (omega arith),
        len_prefix_spelled 128 (length (spelled_prefix 128 l) + l) small,
        spelled_size 128 l,
      )
      (unfold byte_array_len_double multi_byte_header_prefix_of_len spelled_prefix in ground arith)

length-byte_array_len_double :
    (l b : ℕ)
    → ltb l 2 ≡ false ⊎ ((l ≡ 1) × (128 ≤ b))
    → (length (byte_array_len_double l) ≡ generate_rlp_prefix_len_double l b)
      × (length (byte_array_len_double l) ≤ 8)
unfolding byte_array_len_double generate_rlp_prefix_len_double
length-byte_array_len_double l b (inl h) = (ground arith, ground arith)
length-byte_array_len_double l b (inr (e, h)) = (ground arith, ground arith)

pub length-byte_array_len : (l : ℕ) → length (byte_array_len l) ≤ 4
unfolding byte_array_len
length-byte_array_len l = ground arith

-- A string that wants a prefix, with the prefix.
pub once : (s : List ℕ) → wants_prefix s ≡ true → rlp_string s ≡ len_prefix 128 (length s) ++ s
once [] h = cc
once (b ∷ []) h = rlp_string_high_byte b (ground arith) ∙ rw (len_prefix_short 128 1 (omega arith))
once (a ∷ b ∷ s) h = rlp_string_many (a ∷ b ∷ s) (omega arith)

wants_prefix-length : (s : List ℕ) → wants_prefix s ≡ true → 1 ≤ length s
wants_prefix-length [] h = cc
wants_prefix-length (b ∷ s) h = omega arith

len_prefix-length : (base n : ℕ) → n < 2 ^ 24 → 1 ≤ length (len_prefix base n)
len_prefix-length base n w = rw (len_prefix_spelled base n w, spelled_size base n) (ground arith)

twice :
    (s : List ℕ)
    → wants_prefix s ≡ true
    → length s + 4 < 2 ^ 24
    → rlp_string (rlp_string s) ≡ byte_array_len_double (length s) ++ s
twice s h w =
    let pre : List ℕ = len_prefix 128 (length s) in
    let size = length-append pre s in
    let many : 2 ≤ length (pre ++ s) =
      omega
        (arith, size, wants_prefix-length s h, len_prefix-length 128 (length s) (omega arith)) in
    rw
      (
        once s h,
        byte_array_len_double_lem (length s) w,
        append_assoc (len_prefix 128 (length pre + length s)) pre s,
        ← size,
      )
      (rlp_string_many (pre ++ s) many)

pub generate-Writes :
    (bytes : List ℕ)
    → Writes (λ to. write_behind (λ rest. store rest bytes) (to, 0)) bytes (length bytes)
generate-Writes bytes to h =
    write_behind-Writes (λ rest. store rest bytes) bytes (length bytes) [] to (store-Writes bytes) h

wide :
    (b : ℕ) (bs : List ℕ)
    → wants_prefix (b ∷ bs) ≡ true
    → ltb (length (b ∷ bs)) 2 ≡ false ⊎ ((length (b ∷ bs) ≡ 1) × (128 ≤ b))
wide b [] h = inr (refl, ground arith)
wide b (c ∷ bs) h = inl (ground arith)

-- A byte below 128 is its own encoding.
low :
    (b : ℕ) (bs : List ℕ)
    → wants_prefix (b ∷ bs) ≡ false
    → rlp_string (rlp_string (b ∷ bs)) ≡ b ∷ bs
low b [] h =
    let byte : b < 128 = ground arith in rw (rlp_string_byte b byte, rlp_string_byte b byte)
low b (c ∷ bs) h = cc

short :
    (b : ℕ) (bs : List ℕ)
    → wants_prefix (b ∷ bs) ≡ false
    → generate_rlp_prefix_len_double (length (b ∷ bs)) b + length (b ∷ bs) ≡ length (b ∷ bs)
unfolding generate_rlp_prefix_len_double
short b [] h = ground arith
short b (c ∷ bs) h = cc

-- A writer that takes all bytes and keeps them behind those it has.
abbrev pub Keeps : {E S : Type 0} → Writer E S → (S → List ℕ) → Type 0
Keeps {S = S} w out =
    (bytes : List ℕ) (s : S) → (s' : S) × (w bytes s ≡ (none, s')) × (out s' ≡ out s ++ bytes)

module _ {E S : Type 0} (w : Writer E S) (out : S → List ℕ) (keeps : Keeps w out) (s : S) where
  pub prefixed :
      (source bytes rest to : List ℕ) (gen : List ℕ → ℕ → ℕ → Written)
      → wants_prefix source ≡ true
      → gen to 0 (length source) ≡ ok (bytes ++ rest, length bytes)
      → (s' : S) × (encode_bytes_as_rlp_to_writer source w gen to s ≡ ok (none, s'))
        × (out s' ≡ out s ++ (bytes ++ source))
  unfolding encode_bytes_as_rlp_to_writer
  prefixed source bytes rest to gen h e =
      let (s1, first, has) = keeps bytes s in
      let (s2, second, has') = keeps source s1 in
      (
        s2,
        rw (h, e, take-length_append bytes rest, first, second),
        has' ∙ rw (has, append_assoc (out s) bytes source),
      )

  plain :
      (source to : List ℕ) (gen : List ℕ → ℕ → ℕ → Written)
      → wants_prefix source ≡ false
      → (s' : S) × (encode_bytes_as_rlp_to_writer source w gen to s ≡ ok (none, s'))
        × (out s' ≡ out s ++ source)
  unfolding encode_bytes_as_rlp_to_writer
  plain source to gen h = let (s1, first, has) = keeps source s in (s1, rw (h, first), has)

  -- `ToDoubleRLP` of bytes that are not empty and fewer than 2 ^ 24 - 4, with a buffer of eight
  -- bytes and a writer that takes all, writes the encoding of their encoding, as many bytes as
  -- `DoubleRLPLen` says.
  pub to_double_rlp-rlp_string :
      (source to : List ℕ)
      → 1 ≤ length source
      → length source + 4 < 2 ^ 24
      → 8 ≤ length to
      → (s' : S) × (to_double_rlp source w to s ≡ ok (none, s'))
        × (out s' ≡ out s ++ rlp_string (rlp_string source))
        × (double_rlp_len source ≡ length (rlp_string (rlp_string source)))
  unfolding to_double_rlp generate_byte_array_len_double double_rlp_len
  to_double_rlp-rlp_string [] to some_ small room = absurd (omega arith)
  to_double_rlp-rlp_string (b ∷ bs) to some_ small room =
      elim (Bool-cases (wants_prefix (b ∷ bs))) [
        | inl h ↦
            let bytes : List ℕ = byte_array_len_double (length (b ∷ bs)) in
            let (count, le) = length-byte_array_len_double (length (b ∷ bs)) b (wide b bs h) in
            let (rest, e, size) = generate-Writes bytes to (omega (arith, le)) in
            let (s', done, has) =
              prefixed (b ∷ bs) bytes rest to generate_byte_array_len_double h
                (unfold generate_byte_array_len_double in e) in
            (
              s',
              done,
              rw (twice (b ∷ bs) h small) has,
              rw (twice (b ∷ bs) h small) (omega (arith, count, length-append bytes (b ∷ bs))),
            )
        | inr f ↦
            let (s', done, has) = plain (b ∷ bs) to generate_byte_array_len_double f in
            let same = low b bs f in (s', done, rw same has, rw same (short b bs f))
      ]
