-- ===== src/Rlp/Strings.antt =====
-- `EncodeString` and `EncodeHash` of rlp/encodel.go, and encoders that run one behind the other.
use mathlib.Core.List.{append_assoc}
use native.Mathlib.Decide.{dec_lt}
use erigon_lib.Base.{
  ℕ, suc, ◌+◌, ◌%◌, ◌^◌, ◌≤◌, ◌<◌, ◌≡◌, ◌≢◌, refl, sym, ap, ◌∙◌, arith, List, [], ◌∷◌, ◌++◌, length,
  length-append, length-drop, take, drop, take-length_append, drop-length_append, ok, lt→ltb,
  le→ltb, le→leb,
}
use erigon_lib.Rlp.Encode.{
  Written, be_len, overwrite_at, long_prefix, store, encode_string, encode_hash, write_behind,
  short_string_bytes,
}
use erigon_lib.Rlp.Bytes.{be_bytes, length-be_bytes, HasDigits, has_digits, be_len_lem}
use erigon_lib.Rlp.Headers.{len_prefix, rlp_string}
use erigon_lib.Rlp.Elements.{
  len_prefix_short, len_prefix_long, length-len_prefix_long, rlp_string_byte, rlp_string_high_byte,
}
use erigon_lib.Rlp.Writes.{Writes, store-Writes, long_prefix_lem, rlp_string_short}

-- A write at the end of a prefix of the buffer keeps the prefix.
overwrite_at-append :
    (front rest bytes : List ℕ)
    → overwrite_at (length front) (front ++ rest) bytes
      ≡ (front ++ bytes) ++ drop (length bytes) rest
unfolding overwrite_at
overwrite_at-append front rest bytes = rw (
  take-length_append front rest,
  drop-length_append front rest,
  append_assoc front bytes (drop (length bytes) rest),
)

written :
    (front rest s : List ℕ) (m : ℕ)
    → m ≡ length front
    → ◌≡◌ {A = Written}
        (ok (overwrite_at m (front ++ rest) s, m + length s))
        (ok ((front ++ s) ++ drop (length s) rest, length (front ++ s)))
written front rest s m e = rw (e, length-append front s, overwrite_at-append front rest s)

-- The three short cases store the encoding; a string of 56 bytes is not among them.
short_string_bytes_lem : (s : List ℕ) → length s < 56 → short_string_bytes s ≡ rlp_string s
unfolding short_string_bytes
short_string_bytes_lem [] h = sym (unfold rlp_string in len_prefix_short 128 0 h)
short_string_bytes_lem (b ∷ []) h = elim (dec_lt b 128) [
  | yes l ↦ rw (rlp_string_byte b l) (ground arith)
  | no l ↦ rw (rlp_string_high_byte b (omega arith)) (ground arith)
]
short_string_bytes_lem (a ∷ b ∷ s) h =
    let tag : (length (a ∷ b ∷ s) + 128) % 256 ≡ 128 + length (a ∷ b ∷ s) = omega arith in
    rw tag (sym (rlp_string_short (a ∷ b ∷ s) (omega arith) h))

pub rlp_string_many : (s : List ℕ) → 2 ≤ length s → rlp_string s ≡ len_prefix 128 (length s) ++ s
unfolding rlp_string
rlp_string_many [] h = absurd (omega arith)
rlp_string_many (b ∷ []) h = absurd (omega arith)
rlp_string_many (a ∷ b ∷ s) h = refl

encode_string_short : (s to : List ℕ) → length s < 56 → encode_string s to ≡ store to (rlp_string s)
unfolding encode_string
encode_string_short s to h = rw (le→ltb 56 (length s) (omega arith), short_string_bytes_lem s h)

encode_string_long :
    (s to : List ℕ)
    → 56 < length s
    → 9 ≤ length to
    → be_len (length s) + length s < length to
    → encode_string s to
      ≡ ok (
        overwrite_at (1 + be_len (length s)) (long_prefix 183 (be_len (length s)) (length s) to) s,
        1 + be_len (length s) + length s,
      )
unfolding encode_string
encode_string_long s to h room fits = rw (
  lt→ltb 56 (length s) h,
  le→leb 9 (length to) room,
  lt→ltb (be_len (length s) + length s) (length to) fits,
)

module _ (s to : List ℕ) (k : ℕ) (l : k < 8) (d : HasDigits (length s) k)
    (long : 56 < length s) where
  length-long_string : length (rlp_string s) ≡ k + 2 + length s
  length-long_string =
      ap length (rlp_string_many s (omega arith))
      ∙ omega (
        arith,
        length-append (len_prefix 128 (length s)) s,
        length-len_prefix_long 128 k (length s) (omega arith) l d,
      )

  -- The long case, the prefix in front of `rest` being in the buffer.
  long_string_at :
      (rest : List ℕ)
      → length (rlp_string s) ≤ length to
      → long_prefix 183 (suc k) (length s) to
        ≡ (((183 + suc k) % 256) ∷ be_bytes (suc k) (length s)) ++ rest
      → encode_string s to ≡ ok (rlp_string s ++ drop (length s) rest, length (rlp_string s))
  long_string_at rest h e =
      let len = be_len_lem k (length s) l d in
      let form = rlp_string_many s (omega arith) in
      let tag : (183 + suc k) % 256 ≡ 128 + (k + 56) = omega arith in
      encode_string_long s to long (omega (arith, length-long_string))
        (omega (arith, len, length-long_string))
      ∙ rw (form, len_prefix_long 128 k (length s) (omega arith) l d, len, e, tag)
          (written ((128 + (k + 56)) ∷ be_bytes (suc k) (length s)) rest s (1 + suc k)
            (omega (arith, length-be_bytes (suc k) (length s))))

  long_string-Writes :
      length (rlp_string s) ≤ length to
      → (rest : List ℕ) × (encode_string s to ≡ ok (rlp_string s ++ rest, length (rlp_string s)))
        × (length (rlp_string s) + length rest ≡ length to)
  long_string-Writes h =
      let (rest, e, kept) =
        long_prefix_lem k 183 (length s) to l (omega (arith, length-long_string)) in
      (
        drop (length s) rest,
        long_string_at rest h e,
        omega (arith, length-drop (length s) rest, length-long_string),
      )

-- `EncodeString` writes the encoding of every string but those of 56 bytes.
pub encode_string-Writes :
    (s : List ℕ)
    → length s < 2 ^ 63
    → length s ≢ 56
    → Writes (encode_string s) (rlp_string s) (length (rlp_string s))
encode_string-Writes s fits other to h = elim (dec_lt (length s) 56) [
  | yes l ↦ rw (encode_string_short s to l) (store-Writes (rlp_string s) to h)
  | no l ↦
      let (k, le, d) = has_digits 7 (length s) (omega arith) (omega arith) in
      long_string-Writes s to k (omega arith) d (omega arith) h
]

-- `EncodeHash` writes the encoding of the first 32 bytes.
pub encode_hash-Writes :
    (hash more : List ℕ)
    → length hash ≡ 32
    → Writes (encode_hash (hash ++ more)) (rlp_string hash) 33
unfolding encode_hash
encode_hash-Writes hash more e to h =
    let form : rlp_string hash ≡ 160 ∷ hash =
      rlp_string_short hash (omega arith) (omega arith) ∙ ap (λ (t : ℕ). (128 + t) ∷ hash) e in
    let cut : take 32 (hash ++ more) ≡ hash = rw (← e) (take-length_append hash more) in
    let (rest, w, size) = store-Writes (160 ∷ hash) to (omega arith) in
    rw form (
      rest,
      rw (cut, le→leb 32 (length (hash ++ more)) (omega (arith, length-append hash more))) w,
      size,
    )

-- An encoder that runs behind the bytes `acc` that earlier ones wrote.
pub write_behind-Writes :
    (f : List ℕ → Written) (bytes : List ℕ) (room : ℕ) (acc rest : List ℕ)
    → Writes f bytes room
    → room ≤ length rest
    → (rest' : List ℕ) × (write_behind f (acc ++ rest, length acc)
        ≡ ok ((acc ++ bytes) ++ rest', length (acc ++ bytes)))
      × (length bytes + length rest' ≡ length rest)
unfolding write_behind
write_behind-Writes f bytes room acc rest w h =
    let (rest', e, size) = w rest h in
    (
      rest',
      rw (
        le→leb (length acc) (length (acc ++ rest)) (omega (arith, length-append acc rest)),
        drop-length_append acc rest,
        take-length_append acc rest,
        e,
        append_assoc acc bytes rest',
        length-append acc bytes,
      ),
      size,
    )
