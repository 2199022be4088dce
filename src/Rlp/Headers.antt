-- ===== src/Rlp/Headers.antt =====
-- What the readers of rlp/parse.go find at the place where an element begins, the payload written
-- as what stands before it, the element, and what follows.
use mathlib.Core.List.{append_assoc}
use native.Mathlib.Nat.{add-sub_cancel_left}
use erigon_lib.Base.{
  ℕ, suc, ◌+◌, ◌^◌, ◌≤◌, ◌<◌, ◌≡◌, ◌≢◌, sym, ap, ◌∙◌, arith, Bool, true, false, none, List, [], ◌∷◌,
  ◌++◌, length, length-append, get_elem?-length_append, take-length_append, drop-length_append,
  Result, ok, ◌>>=◌, ltb, if◌then◌else◌,
}
use erigon_lib.Rlp.Parse.{
  Error, Header, header, slice, index, starts_with_zero, be_int, short_string, long_header,
  read_header, check_end, prefix, checked,
}
use erigon_lib.Rlp.Encode.{be_len}
use erigon_lib.Rlp.Bytes.{be_bytes, length-be_bytes, be_bytes_head, shift_in-be_bytes, HasDigits}
use erigon_lib.Rlp.Bounds.{slice_total}

-- The prefix of the encoding of an element with `n` bytes of data: `base` is 128 for a string and
-- 192 for a list.
unfoldable pub len_prefix : ℕ → ℕ → List ℕ
len_prefix base n =
    if ltb n 56 then (base + n) ∷ [] else (base + 55 + be_len n) ∷ be_bytes (be_len n) n

-- The encoding of a string: a byte below 128 stands for itself.
unfoldable pub rlp_string : List ℕ → List ℕ
rlp_string [] = len_prefix 128 0
rlp_string (b ∷ []) = if ltb b 128 then b ∷ [] else len_prefix 128 1 ++ (b ∷ [])
rlp_string (a ∷ b ∷ s) = len_prefix 128 (length (a ∷ b ∷ s)) ++ (a ∷ b ∷ s)

-- The encoding of a list whose items are encoded in `body`.
unfoldable pub rlp_list : List ℕ → List ℕ
rlp_list body = len_prefix 192 (length body) ++ body

pub index-append :
    (front : List ℕ) (b : ℕ) (back : List ℕ) → index (front ++ (b ∷ back)) (length front) ≡ ok b
unfolding index
index-append front b back = rw (get_elem?-length_append front b back, index)

pub slice-append :
    (front mid back : List ℕ)
    → slice (front ++ (mid ++ back)) (length front) (length front + length mid) ≡ ok mid
slice-append front mid back =
    slice_total (front ++ (mid ++ back)) (length front) (length front + length mid) (omega arith)
      (omega (arith, length-append front (mid ++ back), length-append mid back))
    ∙ rw (drop-length_append front (mid ++ back), add-sub_cancel_left)
        (ap ok (take-length_append mid back))

module _ (front : List ℕ) where
  -- `BeInt` reads the digits that stand at the position, if something follows them.
  pub be_int_digits :
      (k n x : ℕ) (back : List ℕ)
      → length (front ++ (be_bytes (suc k) n ++ (x ∷ back))) < 2 ^ 48
      → k < 8
      → HasDigits n k
      → n < 2 ^ 64
      → be_int (front ++ (be_bytes (suc k) n ++ (x ∷ back))) (length front) (suc k) ≡ ok n
  unfolding be_int starts_with_zero
  be_int_digits k n x back small l d w =
      let (b, bs, e, p) = be_bytes_head k n d.0 d.1 in
      ground (
        arith,
        length-append front (be_bytes (suc k) n ++ (x ∷ back)),
        length-append (be_bytes (suc k) n) (x ∷ back),
        length-be_bytes (suc k) n,
        slice-append front (be_bytes (suc k) n) (x ∷ back),
        shift_in-be_bytes (2 ^ 64) (suc k) n,
        index-append front b (bs ++ (x ∷ back)),
        e,
        p,
      )

  -- `Prefix` at the place of a first byte.
  pub prefix_at :
      (first : ℕ) (back : List ℕ)
      → length (front ++ (first ∷ back)) < 2 ^ 48
      → prefix (front ++ (first ∷ back)) (length front) ≡ (
          read_header (front ++ (first ∷ back)) (length front) first >>= λ h.
          ok (check_end (front ++ (first ∷ back)) h))
  unfolding prefix
  prefix_at first back small =
      ground (arith, length-append front (first ∷ back), index-append front first back)

-- The element that `checked` passes on: its data lie at `p` and are `n` bytes long.
abbrev pub found : ℕ → ℕ → Bool → Result Error Header
found p n list = ok (header p n list none)

module _ (front : List ℕ) (n : ℕ) (data_ back : List ℕ) (sized : length data_ ≡ n) where
  -- A short prefix, for `n` below 56, read by the second or the fourth branch of the switch.
  abbrev pub short_payload : ℕ → List ℕ
  short_payload base = front ++ ((base + n) ∷ (data_ ++ back))

  pub short_list :
      length (short_payload 192) < 2 ^ 48
      → n < 56
      → checked (prefix (short_payload 192) (length front)) ≡ found (length front + 1) n true
  unfolding checked read_header check_end
  short_list small h = ground (
    arith,
    prefix_at front (192 + n) (data_ ++ back) small,
    length-append front ((192 + n) ∷ (data_ ++ back)),
    length-append data_ back,
  )

  -- A single byte has its own case.
  pub short_string_found :
      length (short_payload 128) < 2 ^ 48
      → n < 56
      → n ≢ 1
      → checked (prefix (short_payload 128) (length front)) ≡ found (length front + 1) n false
  unfolding checked read_header check_end short_string
  short_string_found small h other = ground (
    arith,
    prefix_at front (128 + n) (data_ ++ back) small,
    length-append front ((128 + n) ∷ (data_ ++ back)),
    length-append data_ back,
  )

-- The place behind a byte: what stands before it grows by that byte.
pub behind :
    (front : List ℕ) (a : ℕ) (back : List ℕ) → front ++ (a ∷ back) ≡ (front ++ (a ∷ [])) ++ back
behind front a back = sym (append_assoc front (a ∷ []) back)

pub length-behind : (front : List ℕ) (a : ℕ) → length (front ++ (a ∷ [])) ≡ length front + 1
length-behind front a = omega (arith, length-append front (a ∷ []))

index_second :
    (front : List ℕ) (a b : ℕ) (back : List ℕ)
    → index (front ++ (a ∷ b ∷ back)) (length front + 1) ≡ ok b
index_second front a b back =
    rw (behind front a (b ∷ back), ← length-behind front a)
      (index-append (front ++ (a ∷ [])) b back)

module _ (front : List ℕ) where
  pub byte_found :
      (b : ℕ) (back : List ℕ)
      → length (front ++ (b ∷ back)) < 2 ^ 48
      → b < 128
      → checked (prefix (front ++ (b ∷ back)) (length front)) ≡ found (length front) 1 false
  unfolding checked read_header check_end
  byte_found b back small h =
      ground (arith, prefix_at front b back small, length-append front (b ∷ back))

  pub prefixed_byte_found :
      (b : ℕ) (back : List ℕ)
      → length (front ++ (129 ∷ b ∷ back)) < 2 ^ 48
      → 128 ≤ b
      → checked (prefix (front ++ (129 ∷ b ∷ back)) (length front))
        ≡ found (length front + 1) 1 false
  unfolding checked read_header check_end short_string
  prefixed_byte_found b back small h = ground (
    arith,
    prefix_at front 129 (b ∷ back) small,
    length-append front (129 ∷ b ∷ back),
    index_second front 129 b back,
  )

  -- `BeInt` behind the first byte.
  be_int_behind :
      (first k n x : ℕ) (back : List ℕ)
      → length (front ++ (first ∷ (be_bytes (suc k) n ++ (x ∷ back)))) < 2 ^ 48
      → k < 8
      → HasDigits n k
      → n < 2 ^ 64
      → be_int (front ++ (first ∷ (be_bytes (suc k) n ++ (x ∷ back)))) (length front + 1) (suc k)
        ≡ ok n
  be_int_behind first k n x back small l d w =
      rw (behind front first (be_bytes (suc k) n ++ (x ∷ back)), ← length-behind front first)
        (be_int_digits (front ++ (first ∷ [])) k n x back
          (rw (behind front first (be_bytes (suc k) n ++ (x ∷ back))) at small) l d w)

  -- A long prefix, read by the third or the last branch of the switch.
  module _ (k n x : ℕ) (xs back : List ℕ) (sized : suc (length xs) ≡ n) (l : k < 8)
      (d : HasDigits n k) (long : 56 ≤ n) where
    abbrev pub long_payload : ℕ → List ℕ
    long_payload first = front ++ (first ∷ (be_bytes (suc k) n ++ (x ∷ (xs ++ back))))

    pub long_list_found :
        length (long_payload (248 + k)) < 2 ^ 48
        → checked (prefix (long_payload (248 + k)) (length front))
          ≡ found (length front + (k + 2)) n true
    unfolding checked read_header check_end long_header
    long_list_found small = ground (
      arith,
      prefix_at front (248 + k) (be_bytes (suc k) n ++ (x ∷ (xs ++ back))) small,
      length-append front ((248 + k) ∷ (be_bytes (suc k) n ++ (x ∷ (xs ++ back)))),
      length-append (be_bytes (suc k) n) (x ∷ (xs ++ back)),
      length-append xs back,
      length-be_bytes (suc k) n,
      be_int_behind (248 + k) k n x (xs ++ back) small l d,
    )

    pub long_string_found :
        length (long_payload (184 + k)) < 2 ^ 48
        → checked (prefix (long_payload (184 + k)) (length front))
          ≡ found (length front + (k + 2)) n false
    unfolding checked read_header check_end long_header
    long_string_found small = ground (
      arith,
      prefix_at front (184 + k) (be_bytes (suc k) n ++ (x ∷ (xs ++ back))) small,
      length-append front ((184 + k) ∷ (be_bytes (suc k) n ++ (x ∷ (xs ++ back)))),
      length-append (be_bytes (suc k) n) (x ∷ (xs ++ back)),
      length-append xs back,
      length-be_bytes (suc k) n,
      be_int_behind (184 + k) k n x (xs ++ back) small l d,
    )
