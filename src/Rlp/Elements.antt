-- ===== src/Rlp/Elements.antt =====
-- The parsers of rlp/parse.go on the encoding of one element, wherever it stands in a payload.
use mathlib.Core.List.{append_assoc, append-nil}
use native.Mathlib.Decide.{dec_lt}
use erigon_lib.Base.{
  ℕ, suc, ◌+◌, ◌-◌, ◌^◌, ◌≤◌, ◌<◌, ◌≡◌, refl, sym, ap, ◌∙◌, arith, true, false, List, [], ◌∷◌, ◌++◌,
  length, length-append, ok, lt→ltb, le→ltb,
}
use erigon_lib.Rlp.Parse.{slice, index, prefix, checked, list, string}
use erigon_lib.Rlp.Bytes.{be_bytes, length-be_bytes, HasDigits, has_digits, be_len_lem}
use erigon_lib.Rlp.Headers.{
  len_prefix, rlp_string, rlp_list, index-append, slice-append, found, short_list,
  short_string_found, byte_found, prefixed_byte_found, long_list_found, long_string_found,
}

-- The two forms of a prefix.
pub len_prefix_short : (base n : ℕ) → n < 56 → len_prefix base n ≡ (base + n) ∷ []
unfolding len_prefix
len_prefix_short base n h = ground arith

pub len_prefix_long :
    (base k n : ℕ)
    → 56 ≤ n
    → k < 8
    → HasDigits n k
    → len_prefix base n ≡ (base + (k + 56)) ∷ be_bytes (suc k) n
unfolding len_prefix
len_prefix_long base k n h l d = rw (be_len_lem k n l d, le→ltb n 56 h, len_prefix) (ground arith)

pub length-len_prefix_long :
    (base k n : ℕ) → 56 ≤ n → k < 8 → HasDigits n k → length (len_prefix base n) ≡ k + 2
length-len_prefix_long base k n h l d =
    rw (len_prefix_long base k n h l d) (omega (arith, length-be_bytes (suc k) n))

pub rlp_string_byte : (b : ℕ) → b < 128 → rlp_string (b ∷ []) ≡ b ∷ []
unfolding rlp_string
rlp_string_byte b h = rw (lt→ltb b 128 h, rlp_string)

pub rlp_string_high_byte : (b : ℕ) → 128 ≤ b → rlp_string (b ∷ []) ≡ 129 ∷ b ∷ []
unfolding rlp_string len_prefix
rlp_string_high_byte b h = rw (le→ltb b 128 h, rlp_string)

-- What an encoded string has in front of its bytes.
abbrev pub head_len : List ℕ → ℕ
head_len s = length (rlp_string s) - length s

data_of_string : (s : List ℕ) → (pre : List ℕ) × (rlp_string s ≡ pre ++ s)
data_of_string [] = (rlp_string [], sym (append-nil (rlp_string [])))
data_of_string (b ∷ []) = elim (dec_lt b 128) [
  | yes h ↦ ([], rlp_string_byte b h)
  | no h ↦ (129 ∷ [], rlp_string_high_byte b (omega arith))
]
data_of_string (a ∷ b ∷ s) = (len_prefix 128 (length (a ∷ b ∷ s)), unfold rlp_string in refl)

-- An encoded string ends with the string.
pub string_data :
    (s : List ℕ) → (pre : List ℕ) × (rlp_string s ≡ pre ++ s) × (length pre ≡ head_len s)
string_data s =
    let (pre, e) = data_of_string s in
    let size : length (rlp_string s) ≡ length pre + length s = ap length e ∙ length-append pre s in
    (pre, e, omega (arith, size))

-- The digits of the length of a payload's part.
digits_of_len : (n : ℕ) → 56 ≤ n → n < 2 ^ 48 → (k : ℕ) × (k < 8) × HasDigits n k
digits_of_len n h l =
    let (k, le, d) = has_digits 7 n (omega arith) (omega arith) in (k, omega arith, d)

-- A prefix with the data behind it, in the form that the readers' lemmas speak of.
long_form :
    (base k : ℕ) (front : List ℕ) (x : ℕ) (xs back : List ℕ)
    → let n = suc (length xs) in
      56 ≤ n
      → k < 8
      → HasDigits n k
      → front ++ ((len_prefix base n ++ (x ∷ xs)) ++ back)
        ≡ front ++ ((base + (k + 56)) ∷ (be_bytes (suc k) n ++ (x ∷ (xs ++ back))))
long_form base k front x xs back h l d = rw (len_prefix_long base k (suc (length xs)) h l d) (
    ap (λ t. front ++ ((base + (k + 56)) ∷ t))
      (append_assoc (be_bytes (suc k) (suc (length xs))) (x ∷ xs) back))

module _ (front back : List ℕ) where
  abbrev pub Small : List ℕ → Type 0
  Small element = length (front ++ (element ++ back)) < 2 ^ 48

  part-lt : (element : List ℕ) → Small element → length element < 2 ^ 48
  part-lt element small =
      omega (arith, length-append front (element ++ back), length-append element back)

  long_list :
      (x : ℕ) (xs : List ℕ)
      → 56 ≤ suc (length xs)
      → Small (len_prefix 192 (suc (length xs)) ++ (x ∷ xs))
      → checked (
          prefix (front ++ ((len_prefix 192 (suc (length xs)) ++ (x ∷ xs)) ++ back)) (length front))
        ≡ found (length front + length (len_prefix 192 (suc (length xs)))) (suc (length xs)) true
  long_list x xs h small =
      let n : ℕ = suc (length xs) in
      let fits = part-lt (len_prefix 192 n ++ (x ∷ xs)) small in
      let (k, l, d) =
        digits_of_len n h (omega (arith, length-append (len_prefix 192 n) (x ∷ xs))) in
      let form = long_form 192 k front x xs back h l d in
      let e : 192 + (k + 56) ≡ 248 + k = omega arith in
      rw (form, length-len_prefix_long 192 k n h l d, e)
        (long_list_found front k n x xs back refl l d h (rw (form, e) at small))

  long_string :
      (x : ℕ) (xs : List ℕ)
      → 56 ≤ suc (length xs)
      → Small (len_prefix 128 (suc (length xs)) ++ (x ∷ xs))
      → checked (
          prefix (front ++ ((len_prefix 128 (suc (length xs)) ++ (x ∷ xs)) ++ back)) (length front))
        ≡ found (length front + length (len_prefix 128 (suc (length xs)))) (suc (length xs)) false
  long_string x xs h small =
      let n : ℕ = suc (length xs) in
      let fits = part-lt (len_prefix 128 n ++ (x ∷ xs)) small in
      let (k, l, d) =
        digits_of_len n h (omega (arith, length-append (len_prefix 128 n) (x ∷ xs))) in
      let form = long_form 128 k front x xs back h l d in
      let e : 128 + (k + 56) ≡ 184 + k = omega arith in
      rw (form, length-len_prefix_long 128 k n h l d, e)
        (long_string_found front k n x xs back refl l d h (rw (form, e) at small))

  -- `Prefix` finds the body of an encoded list.
  pub list_found :
      (body : List ℕ)
      → Small (rlp_list body)
      → checked (prefix (front ++ (rlp_list body ++ back)) (length front))
        ≡ found (length front + length (len_prefix 192 (length body))) (length body) true
  unfolding rlp_list
  list_found [] small =
      let form = len_prefix_short 192 0 (omega arith) in
      rw form (short_list front 0 [] back refl (rw form at small) (omega arith))
  list_found (x ∷ xs) small = elim (dec_lt (suc (length xs)) 56) [
    | yes h ↦
        let form = len_prefix_short 192 (suc (length xs)) h in
        rw form (short_list front (suc (length xs)) (x ∷ xs) back refl (rw form at small) h)
    | no h ↦ long_list x xs (omega arith) small
  ]

  many_found :
      (a b : ℕ) (s : List ℕ)
      → Small (rlp_string (a ∷ b ∷ s))
      → checked (prefix (front ++ (rlp_string (a ∷ b ∷ s) ++ back)) (length front))
        ≡ found (length front + head_len (a ∷ b ∷ s)) (length (a ∷ b ∷ s)) false
  unfolding rlp_string
  many_found a b s small =
      let n : ℕ = suc (suc (length s)) in
      let len : length (len_prefix 128 n ++ (a ∷ b ∷ s)) - n ≡ length (len_prefix 128 n) =
        omega (arith, length-append (len_prefix 128 n) (a ∷ b ∷ s)) in
      rw len (elim (dec_lt n 56) [
        | yes h ↦
            let form = len_prefix_short 128 n h in
            rw form
              (short_string_found front n (a ∷ b ∷ s) back refl (rw form at small) h (omega arith))
        | no h ↦ long_string a (b ∷ s) (omega arith) small
      ])

  single_found :
      (b : ℕ)
      → Small (rlp_string (b ∷ []))
      → checked (prefix (front ++ (rlp_string (b ∷ []) ++ back)) (length front))
        ≡ found (length front + head_len (b ∷ [])) 1 false
  single_found b small = elim (dec_lt b 128) [
    | yes h ↦
        let form = rlp_string_byte b h in
        let e : length front + 0 ≡ length front = omega arith in
        rw (form, e) (byte_found front b back (rw form at small) h)
    | no h ↦
        let form = rlp_string_high_byte b (omega arith) in
        rw form (prefixed_byte_found front b back (rw form at small) (omega arith))
  ]

  -- `Prefix` finds the bytes of an encoded string.
  pub string_found :
      (s : List ℕ)
      → Small (rlp_string s)
      → checked (prefix (front ++ (rlp_string s ++ back)) (length front))
        ≡ found (length front + head_len s) (length s) false
  unfolding rlp_string
  string_found [] small =
      let form = len_prefix_short 128 0 (omega arith) in
      rw form
        (short_string_found front 0 [] back refl (rw form at small) (omega arith) (omega arith))
  string_found (b ∷ []) small = single_found b small
  string_found (a ∷ b ∷ s) small = many_found a b s small

  -- `String` finds the string that is encoded at the position, and its bytes.
  pub string-rlp_string :
      (s : List ℕ)
      → Small (rlp_string s)
      → string (front ++ (rlp_string s ++ back)) (length front)
        ≡ ok (length front + head_len s, length s)
  unfolding string
  string-rlp_string s small = rw (string_found s small)

  pub list-rlp_list :
      (body : List ℕ)
      → Small (rlp_list body)
      → list (front ++ (rlp_list body ++ back)) (length front)
        ≡ ok (length front + length (len_prefix 192 (length body)), length body)
  unfolding list
  list-rlp_list body small = rw (list_found body small)

  -- The slice of an encoded string's data is the string.
  pub slice-rlp_string :
      (s : List ℕ)
      → slice
          (front ++ (rlp_string s ++ back))
          (length front + head_len s)
          (length front + head_len s + length s)
        ≡ ok s
  slice-rlp_string s =
      let (pre, e, len) = string_data s in
      let place : length (front ++ pre) ≡ length front + head_len s =
        omega (arith, length-append front pre) in
      rw (← place, e, append_assoc pre s back, ← append_assoc front pre (s ++ back))
        (slice-append (front ++ pre) s back)

  -- The first byte of an encoded string's data.
  pub index-rlp_string :
      (b : ℕ) (s : List ℕ)
      → index (front ++ (rlp_string (b ∷ s) ++ back)) (length front + head_len (b ∷ s)) ≡ ok b
  index-rlp_string b s =
      let (pre, e, len) = string_data (b ∷ s) in
      let place : length (front ++ pre) ≡ length front + head_len (b ∷ s) =
        omega (arith, length-append front pre) in
      rw (← place, e, append_assoc pre (b ∷ s) back, ← append_assoc front pre ((b ∷ s) ++ back))
        (index-append (front ++ pre) b (s ++ back))
