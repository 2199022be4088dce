-- ===== src/Etl/Varint.antt =====
-- encoding/binary: `PutUvarint` and `ReadUvarint`, seven bits in a byte, the least ones first, as etl
-- writes the lengths of its entries.
use erigon_lib.Base.{
  ℕ, zero, suc, ◌+◌, ◌*◌, ◌/◌, ◌%◌, ◌^◌, ◌<◌, ◌≡◌, ap, ◌∙◌, arith, Bool, true, false, List, [], ◌∷◌,
  ◌++◌, ltb, if◌then◌else◌, Bool-cases, inl, inr,
}

-- Ten bytes hold 64 bits. `put_within` is run with ten rounds.
unfoldable pub put_within : ℕ → ℕ → List ℕ
put_within zero n = []
put_within (suc rounds) n =
    let rest = put_within rounds (n / 128) in if ltb n 128 then n ∷ [] else (n % 128 + 128) ∷ rest

unfoldable pub put_uvarint : ℕ → List ℕ
put_uvarint n = put_within 10 n

-- The outcome of a read: the value and the bytes behind it, the end of the bytes before the first or
-- behind it, or a number of more than 64 bits.
pub data Varint : Type 0 where
  value : ℕ → List ℕ → Varint
  end_of_file : Varint
  unexpected_end : Varint
  overflow : Varint

abbrev ended : Bool → Varint
ended true = end_of_file
ended false = unexpected_end

-- The tenth byte has one bit.
abbrev last_too_big : ℕ → ℕ → Bool
last_too_big zero b = ltb 1 b
last_too_big (suc r) b = false

-- `weight` is 2 to the `s` of the source, and `first` says that no byte was read.
unfoldable pub read_within : ℕ → Bool → ℕ → ℕ → List ℕ → Varint
read_within zero first weight x bytes = overflow
read_within (suc rounds) first weight x [] = ended first
read_within (suc rounds) first weight x (b ∷ bytes) = elim (ltb b 128) [
  | true ↦ elim (last_too_big rounds b) [ true ↦ overflow | false ↦ value (x + b * weight) bytes ]
  | false ↦ read_within rounds false (weight * 128) (x + (b % 128) * weight) bytes
]

unfoldable pub read_uvarint : List ℕ → Varint
read_uvarint bytes = read_within 10 true 1 0 bytes

-- The numbers that a count of bytes holds, when the tenth one has one bit.
abbrev limit : ℕ → ℕ
limit zero = 0
limit (suc zero) = 2
limit (suc (suc rounds)) = 128 * limit (suc rounds)

weighed : (n weight : ℕ) → (n % 128) * weight + (n / 128) * (weight * 128) ≡ n * weight
weighed n weight = omega (arith, ap (λ (t : ℕ). t * weight) (parts n))
  where
    parts : (n : ℕ) → n ≡ (n / 128) * 128 + n % 128
    parts n = omega arith

-- A byte with its high bit adds its seven others.
read_within_more :
    (rounds c : ℕ) (first : Bool) (weight x : ℕ) (bytes : List ℕ)
    → c < 128
    → read_within (suc rounds) first weight x ((c + 128) ∷ bytes)
      ≡ read_within rounds false (weight * 128) (x + c * weight) bytes
unfolding read_within
read_within_more rounds c first weight x bytes h =
    let next : ltb (c + 128) 128 ≡ false = ground arith in
    let bits : (c + 128) % 128 ≡ c = omega arith in
    rw (read_within, next)
      (ap (λ t. read_within rounds false (weight * 128) (x + t * weight) bytes) bits)

read_within-put_within :
    (rounds n : ℕ) (first : Bool) (weight x : ℕ) (rest : List ℕ)
    → n < limit rounds
    → read_within rounds first weight x (put_within rounds n ++ rest) ≡ value (x + n * weight) rest
unfolding read_within put_within
read_within-put_within zero n first weight x rest h = absurd (omega arith)
read_within-put_within (suc zero) n first weight x rest h =
    let small : ltb n 128 ≡ true = ground arith in
    let fits : ltb 1 n ≡ false = ground arith in rw (small, read_within, small, fits)
read_within-put_within (suc (suc r)) n first weight x rest h = elim (Bool-cases (ltb n 128)) [
  | inl small ↦ rw (small, read_within, small)
  | inr big ↦ rw (big) (
      read_within_more (suc r) (n % 128) first weight x (put_within (suc r) (n / 128) ++ rest)
        (omega arith)
      ∙ read_within-put_within (suc r) (n / 128) false (weight * 128) (x + (n % 128) * weight) rest
          (omega arith)
      ∙ ap (λ t. value t rest) (omega (arith, weighed n weight)))
]

-- A number of 64 bits is read back, with the bytes behind it.
pub read_uvarint-put_uvarint :
    (n : ℕ) (rest : List ℕ) → n < 2 ^ 64 → read_uvarint (put_uvarint n ++ rest) ≡ value n rest
unfolding read_uvarint put_uvarint
read_uvarint-put_uvarint n rest h =
    read_within-put_within 10 n true 1 0 rest (omega arith) ∙ ap (λ t. value t rest) (omega arith)
