-- ===== src/Rlp/Writes.antt =====
-- What the encoders of rlp/encodel.go leave in a buffer, against the encodings.
use native.Mathlib.Decide.{dec_lt}
use erigon_lib.Base.{
  ℕ, zero, suc, ◌+◌, ◌-◌, ◌%◌, ◌^◌, ◌≤◌, ◌<◌, ◌≡◌, refl, ◌∙◌, arith, List, [], ◌∷◌, ◌++◌, length,
  length-drop, take, drop, ok, ltb, lt→ltb, le→leb, if◌then◌else◌,
}
use erigon_lib.Rlp.Encode.{
  Written, be_len, be8, tagged, long_prefix, store, encode_list_prefix, encode_u32, encode_u64,
}
use erigon_lib.Rlp.Bytes.{
  be_bytes, length-be_bytes, HasDigits, has_digits, be_len_lem, drop-be8, u64_bytes_lem,
  u32_bytes_lem,
}
use erigon_lib.Rlp.Headers.{len_prefix, rlp_string}
use erigon_lib.Rlp.Elements.{
  len_prefix_short, len_prefix_long, rlp_string_byte, rlp_string_high_byte,
}
use erigon_lib.Rlp.Integers.{rlp_uint, digits_of, digits_of_zero}

-- On every buffer of at least `room` bytes the encoder puts `bytes` in front, says how many they are,
-- and keeps the size of the buffer.
abbrev pub Writes : (List ℕ → Written) → List ℕ → ℕ → Type 0
Writes f bytes room =
    (to : List ℕ)
    → room ≤ length to
    → (rest : List ℕ) × (f to ≡ ok (bytes ++ rest, length bytes))
      × (length bytes + length rest ≡ length to)

pub store-Writes : (bytes : List ℕ) → Writes (λ to. store to bytes) bytes (length bytes)
unfolding store
store-Writes bytes to h = (
  drop (length bytes) to,
  rw (le→leb (length bytes) (length to) h),
  omega (arith, length-drop (length bytes) to),
)

-- The tag and the digits, copied down.
tagged_bytes :
    (k base n t0 t1 t2 t3 t4 t5 t6 t7 t8 : ℕ) (to : List ℕ)
    → k < 8
    → let buf : List ℕ = t0 ∷ t1 ∷ t2 ∷ t3 ∷ t4 ∷ t5 ∷ t6 ∷ t7 ∷ t8 ∷ to in
      (take (suc k + 1) (drop (8 - suc k) (tagged base (suc k) n buf))
        ≡ ((base + suc k) % 256) ∷ drop (7 - k) (be8 n))
      × (length (tagged base (suc k) n buf) ≡ length buf)
unfolding tagged
tagged_bytes (suc (suc (suc (suc (suc (suc (suc (suc k)))))))) base n _ _ _ _ _ _ _ _ _ to l =
    absurd (omega arith)
tagged_bytes _ base n t0 t1 t2 t3 t4 t5 t6 t7 t8 to l = (refl, refl)

long_prefix_nine :
    (k base n t0 t1 t2 t3 t4 t5 t6 t7 t8 : ℕ) (to : List ℕ)
    → k < 8
    → let buf : List ℕ = t0 ∷ t1 ∷ t2 ∷ t3 ∷ t4 ∷ t5 ∷ t6 ∷ t7 ∷ t8 ∷ to in
      (rest : List ℕ) × (long_prefix base (suc k) n buf
        ≡ (((base + suc k) % 256) ∷ be_bytes (suc k) n) ++ rest)
      × (length rest + (k + 2) ≡ length buf)
unfolding long_prefix
long_prefix_nine k base n t0 t1 t2 t3 t4 t5 t6 t7 t8 to l =
    let buf : List ℕ = t0 ∷ t1 ∷ t2 ∷ t3 ∷ t4 ∷ t5 ∷ t6 ∷ t7 ∷ t8 ∷ to in
    let t : List ℕ = tagged base (suc k) n buf in
    let (bytes, size) = tagged_bytes k base n t0 t1 t2 t3 t4 t5 t6 t7 t8 to l in
    let digits = drop-be8 k n l in
    (
      drop (suc (length (be_bytes (suc k) n))) t,
      rw (bytes, digits),
      omega (
        arith,
        size,
        length-be_bytes (suc k) n,
        length-drop (suc (length (be_bytes (suc k) n))) t,
      ),
    )

-- The long form of a prefix in a buffer of nine bytes or more.
pub long_prefix_lem :
    (k base n : ℕ) (to : List ℕ)
    → k < 8
    → 9 ≤ length to
    → (rest : List ℕ) × (long_prefix base (suc k) n to
        ≡ (((base + suc k) % 256) ∷ be_bytes (suc k) n) ++ rest)
      × (length rest + (k + 2) ≡ length to)
long_prefix_lem k base n (t0 ∷ t1 ∷ t2 ∷ t3 ∷ t4 ∷ t5 ∷ t6 ∷ t7 ∷ t8 ∷ to) l h =
    long_prefix_nine k base n t0 t1 t2 t3 t4 t5 t6 t7 t8 to l
long_prefix_lem k base n _ l h = absurd (omega arith)

-- The room that a prefix needs: the long form uses ten bytes of the buffer.
abbrev pub prefix_room : ℕ → ℕ
prefix_room n = if ltb n 56 then 1 else 10

encode_list_prefix_short :
    (n : ℕ) (to : List ℕ) → n < 56 → encode_list_prefix n to ≡ store to ((192 + n) ∷ [])
unfolding encode_list_prefix
encode_list_prefix_short n to h =
    let tag : (192 + n) % 256 ≡ 192 + n = omega arith in ground (arith, tag)

encode_list_prefix_long :
    (n : ℕ) (to : List ℕ)
    → 56 ≤ n
    → 10 ≤ length to
    → encode_list_prefix n to ≡ ok (long_prefix 247 (be_len n) n to, 1 + be_len n)
unfolding encode_list_prefix
encode_list_prefix_long n to h r = rw (le→leb 56 n h, lt→ltb 9 (length to) (omega arith))

-- `EncodeListPrefix` writes the prefix of a list of `n` bytes.
pub encode_list_prefix-Writes :
    (n : ℕ) → n < 2 ^ 63 → Writes (encode_list_prefix n) (len_prefix 192 n) (prefix_room n)
encode_list_prefix-Writes n fits to h = elim (dec_lt n 56) [
  | yes s ↦
      let (rest, e, size) = store-Writes ((192 + n) ∷ []) to (ground arith) in
      rw (len_prefix_short 192 n s) (rest, encode_list_prefix_short n to s ∙ e, size)
  | no s ↦
      let (k, le, d) = has_digits 7 n (omega arith) (omega arith) in
      let l : k < 8 = omega arith in
      let room : 10 ≤ length to = ground arith in
      let (rest, e, size) = long_prefix_lem k 247 n to l (omega arith) in
      let len : be_len n ≡ suc k = be_len_lem k n l d in
      let tag : (247 + suc k) % 256 ≡ 192 + (k + 56) = omega arith in
      let digits = length-be_bytes (suc k) n in
      let count : 1 + suc k ≡ suc (length (be_bytes (suc k) n)) = omega (arith, digits) in
      rw (len_prefix_long 192 k n (omega arith) l d) (
        rest,
        encode_list_prefix_long n to (omega arith) room ∙ rw (len, e, tag, count),
        omega (arith, digits),
      )
]

-- The encodings without `len_prefix`: of a short string, and of a number from 128 on.
pub rlp_string_short :
    (s : List ℕ) → 2 ≤ length s → length s < 56 → rlp_string s ≡ (128 + length s) ∷ s
unfolding rlp_string
rlp_string_short [] h l = absurd (omega arith)
rlp_string_short (b ∷ []) h l = absurd (omega arith)
rlp_string_short (a ∷ b ∷ s) h l = rw (len_prefix_short 128 (length (a ∷ b ∷ s)) l)

pub uint_prefixed :
    (k n : ℕ)
    → k < 8
    → 128 ≤ n
    → HasDigits n k
    → rlp_uint n ≡ ((128 + length (be_bytes (suc k) n)) % 256) ∷ be_bytes (suc k) n
unfolding rlp_uint digits_of
uint_prefixed zero n l h d =
    let e : n % 256 ≡ n = omega arith in
    rw (be_len_lem 0 n l d) (unfold be_bytes in rlp_string_high_byte (n % 256) (omega arith))
uint_prefixed (suc k) n l h d =
    let size = length-be_bytes (suc (suc k)) n in
    let tag : (128 + length (be_bytes (suc (suc k)) n)) % 256
        ≡ 128 + length (be_bytes (suc (suc k)) n) =
      omega (arith, size) in
    rw (be_len_lem (suc k) n l d, tag)
      (rlp_string_short (be_bytes (suc (suc k)) n) (omega (arith, size)) (omega (arith, size)))

pub uint_byte : (n : ℕ) → 0 < n → n < 128 → rlp_uint n ≡ n ∷ []
unfolding rlp_uint digits_of
uint_byte n p h =
    let e : n % 256 ≡ n = omega arith in
    rw (be_len_lem 0 n (omega arith) (omega arith, omega arith))
      (unfold be_bytes in rw e (rlp_string_byte n h))

pub uint_zero : rlp_uint 0 ≡ 128 ∷ []
unfolding rlp_uint
uint_zero = rw digits_of_zero (unfold rlp_string in len_prefix_short 128 0 (omega arith))

-- What the encoders of integers store, on each of their branches.
encode_u64_lem : (n : ℕ) (to : List ℕ) → n < 2 ^ 64 → encode_u64 n to ≡ store to (rlp_uint n)
unfolding encode_u64
encode_u64_lem n to w = elim (dec_lt n 128) [
  | yes h ↦ elim (dec_lt 0 n) [
    | yes p ↦ rw (uint_byte n p h) (ground arith)
    | no p ↦ let z : n ≡ 0 = omega arith in rw (z, uint_zero)
  ]
  | no h ↦
      let (k, le, d) = has_digits 7 n (omega arith) (omega arith) in
      rw (uint_prefixed k n (omega arith) (omega arith) d)
        (ground (arith, u64_bytes_lem k n (omega arith) d))
]

encode_u32_lem : (n : ℕ) (to : List ℕ) → n < 2 ^ 32 → encode_u32 n to ≡ store to (rlp_uint n)
unfolding encode_u32
encode_u32_lem n to w = elim (dec_lt n 128) [
  | yes h ↦ elim (dec_lt 0 n) [
    | yes p ↦ rw (uint_byte n p h) (ground arith)
    | no p ↦ let z : n ≡ 0 = omega arith in rw (z, uint_zero)
  ]
  | no h ↦
      let (k, le, d) = has_digits 3 n (omega arith) (omega arith) in
      rw (uint_prefixed k n (omega arith) (omega arith) d)
        (ground (arith, u32_bytes_lem k n (omega arith) d))
]

pub encode_u64-Writes :
    (n : ℕ) → n < 2 ^ 64 → Writes (encode_u64 n) (rlp_uint n) (length (rlp_uint n))
encode_u64-Writes n w to h = rw (encode_u64_lem n to w) (store-Writes (rlp_uint n) to h)

pub encode_u32-Writes :
    (n : ℕ) → n < 2 ^ 32 → Writes (encode_u32 n) (rlp_uint n) (length (rlp_uint n))
encode_u32-Writes n w to h = rw (encode_u32_lem n to w) (store-Writes (rlp_uint n) to h)
