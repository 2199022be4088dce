-- ===== src/Rlp/Integers.antt =====
-- Integers of rlp: the encoding of a number is that of the string of its digits.
use native.Mathlib.Decide.{dec_lt}
use erigon_lib.Base.{
  ℕ, suc, ◌+◌, ◌^◌, ◌≤◌, ◌<◌, ◌≡◌, refl, sym, ap, ◌∙◌, arith, List, [], ◌∷◌, ◌++◌, length,
  length-append, ok,
}
use erigon_lib.Rlp.Parse.{slice, index, shift_in, starts_with_zero, read_int, u64, u32}
use erigon_lib.Rlp.Encode.{be_len, bit_len}
use erigon_lib.Rlp.Bytes.{
  be_bytes, length-be_bytes, be_bytes_head, shift_in-be_bytes, has_digits, be_len_lem,
}
use erigon_lib.Rlp.Headers.{rlp_string}
use erigon_lib.Rlp.Elements.{
  string_data, head_len, Small, string_found, slice-rlp_string, index-rlp_string,
}

-- The digits of a number, with no leading zero.
unfoldable pub digits_of : ℕ → List ℕ
digits_of n = be_bytes (be_len n) n

unfoldable pub rlp_uint : ℕ → List ℕ
unfolding digits_of
rlp_uint n = rlp_string (digits_of n)

shift_in_nil : (w : ℕ) → shift_in w 0 [] ≡ 0
unfolding shift_in
shift_in_nil w = refl

pub digits_of_zero : digits_of 0 ≡ []
unfolding digits_of be_len bit_len be_bytes
digits_of_zero = refl

-- Of a number other than 0 there are 1 to `w + 1` digits, and the first is not 0.
pub digits_of_pos :
    (w n : ℕ)
    → w < 8
    → 0 < n
    → n < 256 ^ suc w
    → (b : ℕ) × (bs : List ℕ) × (digits_of n ≡ b ∷ bs)
      × (0 < b)
      × (length bs ≤ w)
      × (shift_in (256 ^ suc w) 0 (b ∷ bs) ≡ n)
unfolding digits_of
digits_of_pos w n l p h =
    let (k, le, d) = has_digits w n p h in
    let (b, bs, e, pos) = be_bytes_head k n d.0 d.1 in
    let size : suc (length bs) ≡ suc k = sym (ap length e) ∙ length-be_bytes (suc k) n in
    (
      b,
      bs,
      rw (be_len_lem k n (omega arith) d) e,
      pos,
      omega arith,
      rw (← e) (shift_in-be_bytes (256 ^ suc w) (suc k) n (omega arith) d.1 h),
    )

-- The end of `U64` and `U32`, where the data are the bytes `ds` and do not begin with 0.
read_int_empty :
    (f : List ℕ → ℕ) (payload : List ℕ) (p : ℕ)
    → p < 2 ^ 48
    → slice payload p (p + 0) ≡ ok []
    → read_int f payload p 0 ≡ ok (p + 0, f [])
unfolding read_int starts_with_zero
read_int_empty f payload p small e = ground (arith, e)

read_int_digits :
    (f : List ℕ → ℕ) (payload : List ℕ) (p b : ℕ) (bs : List ℕ)
    → p + suc (length bs) < 2 ^ 48
    → slice payload p (p + suc (length bs)) ≡ ok (b ∷ bs)
    → index payload p ≡ ok b
    → 0 < b
    → read_int f payload p (suc (length bs)) ≡ ok (p + suc (length bs), f (b ∷ bs))
unfolding read_int starts_with_zero
read_int_digits f payload p b bs small e i pos = ground (arith, e, i)

pub head_len-add : (s : List ℕ) → head_len s + length s ≡ length (rlp_string s)
head_len-add s =
    let (pre, e, len) = string_data s in
    let size : length (rlp_string s) ≡ length pre + length s = ap length e ∙ length-append pre s in
    omega arith

module _ (front back : List ℕ) where
  ends-lt :
      (s : List ℕ) → Small front back (rlp_string s) → length front + head_len s + length s < 2 ^ 48
  ends-lt s small = omega (
    arith,
    head_len-add s,
    length-append front (rlp_string s ++ back),
    length-append (rlp_string s) back,
  )

  read_int_zero :
      (f : List ℕ → ℕ)
      → Small front back (rlp_string [])
      → read_int f (front ++ (rlp_string [] ++ back)) (length front + head_len []) 0
        ≡ ok (length front + head_len [] + 0, f [])
  read_int_zero f small =
      read_int_empty f (front ++ (rlp_string [] ++ back)) (length front + head_len [])
        (omega (arith, ends-lt [] small)) (slice-rlp_string front back [])

  read_int_pos :
      (f : List ℕ → ℕ) (b : ℕ) (bs : List ℕ)
      → 0 < b
      → Small front back (rlp_string (b ∷ bs))
      → read_int f
          (front ++ (rlp_string (b ∷ bs) ++ back))
          (length front + head_len (b ∷ bs))
          (suc (length bs))
        ≡ ok (length front + head_len (b ∷ bs) + suc (length bs), f (b ∷ bs))
  read_int_pos f b bs pos small =
      read_int_digits f (front ++ (rlp_string (b ∷ bs) ++ back)) (length front + head_len (b ∷ bs))
        b bs (ends-lt (b ∷ bs) small) (slice-rlp_string front back (b ∷ bs))
        (index-rlp_string front back b bs) pos

  -- The loop that ends `U64` and `U32`, at an encoded number.
  pub read_int-rlp_uint :
      (w n : ℕ)
      → w < 8
      → n < 256 ^ suc w
      → Small front back (rlp_uint n)
      → read_int
          (shift_in (256 ^ suc w) 0)
          (front ++ (rlp_uint n ++ back))
          (length front + head_len (digits_of n))
          (length (digits_of n))
        ≡ ok (length front + length (rlp_uint n), n)
  unfolding rlp_uint
  read_int-rlp_uint w n l h small = elim (dec_lt 0 n) [
    | yes p ↦
        let (b, bs, e, pos, len, value) = digits_of_pos w n l p h in
        let ends : length front + head_len (b ∷ bs) + suc (length bs)
            ≡ length front + length (rlp_string (b ∷ bs)) =
          omega (arith, head_len-add (b ∷ bs)) in
        rw e (
          read_int_pos (shift_in (256 ^ suc w) 0) b bs pos (rw e at small)
          ∙ ap ok (cc (ends, value)))
    | no p ↦
        let zero_ : n ≡ 0 = omega arith in
        let ends : length front + head_len [] + 0 ≡ length front + length (rlp_string []) =
          omega (arith, head_len-add []) in
        let e : digits_of n ≡ [] = ap digits_of zero_ ∙ digits_of_zero in
        rw e (
          read_int_zero (shift_in (256 ^ suc w) 0) (rw e at small)
          ∙ ap ok (cc (ends, zero_, shift_in_nil (256 ^ suc w))))
  ]

  length-digits_of : (w n : ℕ) → w < 8 → n < 256 ^ suc w → length (digits_of n) ≤ suc w
  length-digits_of w n l h = elim (dec_lt 0 n) [
    | yes p ↦ let (b, bs, e, pos, len, value) = digits_of_pos w n l p h in rw e (omega arith)
    | no p ↦
        let zero_ : n ≡ 0 = omega arith in
        let e : digits_of n ≡ [] = ap digits_of zero_ ∙ digits_of_zero in rw e (omega arith)
  ]

  -- `U64` and `U32` read the number that is encoded at the position, and end behind it.
  pub u64-rlp_uint :
      (n : ℕ)
      → n < 2 ^ 64
      → Small front back (rlp_uint n)
      → u64 (front ++ (rlp_uint n ++ back)) (length front)
        ≡ ok (length front + length (rlp_uint n), n)
  unfolding u64 rlp_uint
  u64-rlp_uint n h small = ground (
    arith,
    string_found front back (digits_of n) small,
    length-digits_of 7 n (omega arith) h,
    read_int-rlp_uint 7 n (omega arith) h small,
  )

  pub u32-rlp_uint :
      (n : ℕ)
      → n < 2 ^ 32
      → Small front back (rlp_uint n)
      → u32 (front ++ (rlp_uint n ++ back)) (length front)
        ≡ ok (length front + length (rlp_uint n), n)
  unfolding u32 rlp_uint
  u32-rlp_uint n h small = ground (
    arith,
    string_found front back (digits_of n) small,
    length-digits_of 3 n (omega arith) h,
    read_int-rlp_uint 3 n (omega arith) h small,
  )
