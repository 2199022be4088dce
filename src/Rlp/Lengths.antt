-- ===== src/Rlp/Lengths.antt =====
-- The length functions of rlp/encodel.go against the lengths of the encodings.
use native.Mathlib.Decide.{dec_lt}
use erigon_lib.Base.{
  ℕ, suc, ◌+◌, ◌^◌, ◌≤◌, ◌<◌, ◌≡◌, ◌≢◌, arith, List, [], ◌∷◌, length, length-append, lt→ltb, le→ltb,
  le→leb,
}
use erigon_lib.Rlp.Encode.{string_len, short_string_len, u64_len, u32_len, list_prefix_len}
use erigon_lib.Rlp.Bytes.{length-be_bytes, has_digits, be_len_lem, be_len32_lem}
use erigon_lib.Rlp.Headers.{len_prefix, rlp_string}
use erigon_lib.Rlp.Elements.{
  len_prefix_short, length-len_prefix_long, rlp_string_byte, rlp_string_high_byte,
}
use erigon_lib.Rlp.Integers.{rlp_uint}
use erigon_lib.Rlp.Writes.{prefix_room, uint_byte, uint_zero, uint_prefixed}
use erigon_lib.Rlp.Strings.{rlp_string_many}

-- The length functions give the lengths of the encodings.
pub length-rlp_uint : (n : ℕ) → n < 2 ^ 64 → length (rlp_uint n) ≡ u64_len n
unfolding u64_len
length-rlp_uint n w = elim (dec_lt n 128) [
  | yes h ↦ rw (lt→ltb n 128 h) (elim (dec_lt 0 n) [
    | yes p ↦ rw (uint_byte n p h)
    | no p ↦ let z : n ≡ 0 = omega arith in rw (z, uint_zero)
  ])
  | no h ↦
      let (k, le, d) = has_digits 7 n (omega arith) (omega arith) in
      rw
        (
          le→ltb n 128 (omega arith),
          be_len_lem k n (omega arith) d,
          uint_prefixed k n (omega arith) (omega arith) d,
        )
        (omega (arith, length-be_bytes (suc k) n))
]

pub u32_len-u64_len : (n : ℕ) → n < 2 ^ 32 → u32_len n ≡ u64_len n
unfolding u32_len u64_len
u32_len-u64_len n w = elim (dec_lt n 128) [
  | yes h ↦ rw (lt→ltb n 128 h)
  | no h ↦
      let (k, le, d) = has_digits 3 n (omega arith) (omega arith) in
      rw (
        le→ltb n 128 (omega arith),
        be_len_lem k n (omega arith) d,
        be_len32_lem k n (omega arith) d,
      )
]

pub length-len_prefix : (base n : ℕ) → n < 2 ^ 63 → length (len_prefix base n) ≡ list_prefix_len n
unfolding list_prefix_len
length-len_prefix base n w = elim (dec_lt n 56) [
  | yes h ↦ rw (len_prefix_short base n h) (ground arith)
  | no h ↦
      let (k, le, d) = has_digits 7 n (omega arith) (omega arith) in
      rw
        (
          length-len_prefix_long base k n (omega arith) (omega arith) d,
          le→leb 56 n (omega arith),
          be_len_lem k n (omega arith) d,
        )
        (omega arith)
]

short_string_len_lem : (s : List ℕ) → length s < 56 → length (rlp_string s) ≡ short_string_len s
unfolding short_string_len
short_string_len_lem [] h = unfold rlp_string in rw (len_prefix_short 128 0 h)
short_string_len_lem (b ∷ []) h = elim (dec_lt b 128) [
  | yes l ↦ rw (rlp_string_byte b l, lt→ltb b 128 l)
  | no l ↦ rw (rlp_string_high_byte b (omega arith), le→ltb b 128 (omega arith))
]
short_string_len_lem (a ∷ b ∷ s) h =
    rw (rlp_string_many (a ∷ b ∷ s) (omega arith), len_prefix_short 128 (length (a ∷ b ∷ s)) h)
      (omega arith)

pub length-rlp_string :
    (s : List ℕ) → length s < 2 ^ 63 → length s ≢ 56 → length (rlp_string s) ≡ string_len s
unfolding string_len
length-rlp_string s w other = elim (dec_lt (length s) 56) [
  | yes h ↦ rw (le→ltb 56 (length s) (omega arith)) (short_string_len_lem s h)
  | no h ↦
      let (k, le, d) = has_digits 7 (length s) (omega arith) (omega arith) in
      rw
        (
          lt→ltb 56 (length s) (omega arith),
          be_len_lem k (length s) (omega arith) d,
          rlp_string_many s (omega arith),
        )
        (omega (
          arith,
          length-append (len_prefix 128 (length s)) s,
          length-len_prefix_long 128 k (length s) (omega arith) (omega arith) d,
        ))
]

length-le-short_string_len : (s : List ℕ) → length s ≤ short_string_len s
unfolding short_string_len
length-le-short_string_len [] = omega arith
length-le-short_string_len (b ∷ []) = ground arith
length-le-short_string_len (a ∷ b ∷ s) = omega arith

pub length-le-string_len : (s : List ℕ) → length s ≤ string_len s
unfolding string_len
length-le-string_len s = ground (arith, length-le-short_string_len s)

-- What a prefix needs as scratch is there, if the data behind it have their room.
pub prefix_room-le : (n : ℕ) → prefix_room n ≤ list_prefix_len n + n
unfolding list_prefix_len
prefix_room-le n = ground arith
