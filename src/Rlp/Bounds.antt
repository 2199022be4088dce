-- ===== src/Rlp/Bounds.antt =====
-- What the parsers of rlp/parse.go do on any payload: they stay inside it, and do not panic.
use erigon_lib.Base.{
  Option, some, ℕ, ◌+◌, ◌-◌, ◌*◌, ◌%◌, ◌^◌, ◌≤◌, ◌<◌, ◌≡◌, ◌≢◌, arith, Bool, true, false, none,
  List, [], ◌∷◌, length, get_elem?-some, All, All-get_elem?, take, drop, ok, fault, ◌>>=◌, inl, inr,
  Result-cases, Bool-cases, Safe, Safe-intro, Safe->>=,
}
use erigon_lib.Base.Words.{IsByte, add64, int_lt}
use erigon_lib.Rlp.Parse.{
  Header, slice, index, shift_in, starts_with_zero, be_int, short_string, long_header, read_header,
  check_end, prefix,
}

shift_in-lt : (w r : ℕ) (bs : List ℕ) → r < w → shift_in w r bs < w
unfolding shift_in
shift_in-lt w r [] h = h
shift_in-lt w r (b ∷ bs) h = shift_in-lt w ((r * 256 + b) % w) bs (omega arith)

pub index-ne-fault : (payload : List ℕ) (i : ℕ) → i < length payload → index payload i ≢ fault
unfolding index
index-ne-fault payload i h = let (b, e) = get_elem?-some payload i h in rw (e, index) (λ p. cc)

pub index-IsByte :
    (payload : List ℕ) (i b : ℕ) → All IsByte payload → index payload i ≡ ok b → IsByte b
unfolding index
index-IsByte payload i b h e = ground (arith, All-get_elem? IsByte payload i b h)

pub starts_with_zero-ne-fault :
    (payload : List ℕ) (p n : ℕ) → p + n ≤ length payload → starts_with_zero payload p n ≢ fault
unfolding starts_with_zero
starts_with_zero-ne-fault payload p n h = ground (arith, index-ne-fault payload p)

pub slice_total :
    (payload : List ℕ) (a b : ℕ)
    → a ≤ b
    → b ≤ length payload
    → slice payload a b ≡ ok (take (b - a) (drop a payload))
unfolding slice
slice_total payload a b h k = ground arith

-- What is to hold without an error.
abbrev pub OnNone {ℓ} : {E : Type ℓ} → Option E → Type 0 → Type 0
OnNone none P = P
OnNone (some e) P = Unit

module _ (payload : List ℕ) (small : length payload < 2 ^ 48) where
  -- `BeInt` of at most 8 bytes does not panic, and what it reads ends before the payload does.
  be_int-ne-fault : (p n : ℕ) → p ≤ length payload → n ≤ 8 → be_int payload p n ≢ fault
  unfolding be_int
  be_int-ne-fault p n h k =
      ground (arith, starts_with_zero-ne-fault payload p n, slice_total payload p (add64 p n))

  be_int_bounds :
      (p n r : ℕ)
      → p ≤ length payload
      → n ≤ 8
      → be_int payload p n ≡ ok r
      → (p + n < length payload) × (r < 2 ^ 64)
  unfolding be_int
  be_int_bounds p n r h k e = ground (
    arith,
    starts_with_zero-ne-fault payload p n,
    slice_total payload p (add64 p n),
    shift_in-lt (2 ^ 64) 0 (take (add64 p n - p) (drop p payload)) (omega arith),
  )

  short_string-ne-fault :
      (p first : ℕ) → p < length payload → first < 256 → short_string payload p first ≢ fault
  unfolding short_string
  short_string-ne-fault p first h k = ground (arith, index-ne-fault payload (add64 p 1))

  long_header-ne-fault :
      (p n : ℕ) (b : Bool) → p < length payload → n ≤ 8 → long_header payload p n b ≢ fault
  unfolding long_header
  long_header-ne-fault p n b h k = ground (arith, be_int-ne-fault (add64 p 1) n)

  read_header-ne-fault :
      (p first : ℕ) → p < length payload → first < 256 → read_header payload p first ≢ fault
  unfolding read_header
  read_header-ne-fault p first h k = ground (
    arith,
    short_string-ne-fault p first,
    long_header-ne-fault p (first - 183) false,
    long_header-ne-fault p (first - 247) true,
  )

  -- The data begins behind the position, but for a byte that stands for itself.
  abbrev Starts : ℕ → Header → Type 0
  Starts p h =
      (p ≤ h.data_pos)
      × (h.data_pos ≤ p + 9)
      × (p < h.data_pos + h.data_len)
      × (h.data_len < 2 ^ 63)

  long_header-Starts :
      (p n : ℕ) (b : Bool) (h : Header)
      → p < length payload
      → 0 < n
      → n ≤ 8
      → long_header payload p n b ≡ ok h
      → h.error ≡ none
      → Starts p h
  unfolding long_header
  long_header-Starts p n b h l k m e x =
      elim (Result-cases (be_int payload (add64 p 1) n)
        (be_int-ne-fault (add64 p 1) n (omega arith) m)) [
          | inl (r, q) ↦ ground (arith, q, be_int_bounds (add64 p 1) n r)
          | inr (r, q) ↦ ground (arith, q)
        ]

  read_header-Starts :
      (p first : ℕ) (h : Header)
      → p < length payload
      → first < 256
      → read_header payload p first ≡ ok h
      → h.error ≡ none
      → Starts p h
  unfolding read_header
  read_header-Starts p first h l k e n =
      ground (
        arith,
        long_header-Starts p (first - 183) false h,
        long_header-Starts p (first - 247) true h,
      )

  -- An element without an error begins at the position and ends in the payload.
  abbrev pub Within : ℕ → Header → Type 0
  Within p h = OnNone h.error (
      (p ≤ h.data_pos) × (p < h.data_pos + h.data_len) × (h.data_pos + h.data_len ≤ length payload))

  check_end-Within :
      (p : ℕ) (h : Header)
      → p < length payload
      → (h.error ≡ none → Starts p h)
      → Within p (check_end payload h)
  unfolding check_end
  check_end-Within p h l k = ground (arith, k)

  -- `Prefix` panics at no position of a payload of bytes below 2 ^ 48 bytes. Where it gives no error,
  -- the element begins at the position, is not empty and ends in the payload.
  pub prefix-Safe : All IsByte payload → (p : ℕ) → p < 2 ^ 64 → Safe (Within p) (prefix payload p)
  unfolding prefix
  prefix-Safe bytes p l = elim (Bool-cases (int_lt p 0)) [
    | inl neg ↦ rw neg tt
    | inr pos ↦ elim (Bool-cases (int_lt p (length payload))) [
      | inr out ↦ rw (pos, out) tt
      | inl ins ↦ rw (pos, ins) (inside (ground arith))
    ]
  ]
    where
      inside :
          p < length payload
          → Safe (Within p) (
              index payload p >>= λ first.
              read_header payload p first >>= λ h. ok (check_end payload h))
      inside m =
          Safe->>= IsByte (Within p) (index payload p) _
            (Safe-intro IsByte _ (index-ne-fault payload p m)
              (λ b e. index-IsByte payload p b bytes e))
            (λ b _ byte.
              Safe->>= (λ h. h.error ≡ none → Starts p h) (Within p) (read_header payload p b) _
                (Safe-intro _ _ (read_header-ne-fault p b m byte)
                  (λ h e. read_header-Starts p b h m byte e))
                (λ h _ st. check_end-Within p h m st))
