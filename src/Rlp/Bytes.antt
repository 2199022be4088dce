-- ===== src/Rlp/Bytes.antt =====
-- Big-endian digits of a number, the independent description of the integers that rlp/encodel.go
-- writes and rlp/parse.go reads, with the number of bytes that math/bits gives.
use native.Mathlib.Decide.{dec_lt}
use native.Mathlib.Nat.{pow-suc, mod-eq_of_lt}
use erigon_lib.Base.{
  ℕ, zero, suc, ◌+◌, ◌-◌, ◌*◌, ◌/◌, ◌%◌, ◌^◌, ◌≤◌, ◌<◌, ◌≡◌, refl, ◌∙◌, ap, arith, List, [], ◌∷◌,
  ◌++◌, length, length-append, All, All-append, drop,
}
use erigon_lib.Base.Words.{IsByte}
use erigon_lib.Rlp.Parse.{shift_in}
use erigon_lib.Rlp.Encode.{bit_len, be_len, be_len32, be8, u32_bytes, u64_bytes}

-- The `k` low digits of `n` in base 256, the highest first.
unfoldable pub be_bytes : ℕ → ℕ → List ℕ
be_bytes zero n = []
be_bytes (suc k) n = be_bytes k (n / 256) ++ ((n % 256) ∷ [])

pub length-be_bytes : (k n : ℕ) → length (be_bytes k n) ≡ k
unfolding be_bytes
length-be_bytes zero n = refl
length-be_bytes (suc k) n =
    omega
      (arith, length-append (be_bytes k (n / 256)) ((n % 256) ∷ []), length-be_bytes k (n / 256))

pub be_bytes-IsByte : (k n : ℕ) → All IsByte (be_bytes k n)
unfolding be_bytes
be_bytes-IsByte zero n = tt
be_bytes-IsByte (suc k) n =
    All-append IsByte (be_bytes k (n / 256)) ((n % 256) ∷ []) (be_bytes-IsByte k (n / 256))
      (omega arith, tt)

shift_in-append :
    (w r : ℕ) (xs : List ℕ) (b : ℕ)
    → shift_in w r (xs ++ (b ∷ [])) ≡ (shift_in w r xs * 256 + b) % w
unfolding shift_in
shift_in-append w r [] b = refl
shift_in-append w r (x ∷ xs) b = shift_in-append w ((r * 256 + x) % w) xs b

256_pow_suc : (k : ℕ) → 256 ^ suc k ≡ 256 ^ k * 256
256_pow_suc k = pow-suc 256 k

-- The digits of `n`, shifted in one after the other, give `n` back.
pub shift_in-be_bytes : (w k n : ℕ) → 0 < w → n < 256 ^ k → n < w → shift_in w 0 (be_bytes k n) ≡ n
unfolding be_bytes
shift_in-be_bytes w zero n p h q = unfold shift_in in omega arith
shift_in-be_bytes w (suc k) n p h q =
    let whole : n / 256 * 256 + n % 256 ≡ n = omega arith in
    shift_in-append w 0 (be_bytes k (n / 256)) (n % 256)
    ∙ rw (shift_in-be_bytes w k (n / 256) p (omega (arith, 256_pow_suc k)) (omega arith), whole)
        (mod-eq_of_lt q)

-- The first of `k + 1` digits is not 0 if the number has no fewer digits.
pub be_bytes_head :
    (k n : ℕ)
    → 256 ^ k ≤ n
    → n < 256 ^ suc k
    → (b : ℕ) × (bs : List ℕ) × (be_bytes (suc k) n ≡ b ∷ bs) × (0 < b)
unfolding be_bytes
be_bytes_head zero n h l = (n % 256, [], refl, omega arith)
be_bytes_head (suc k) n h l =
    let (b, bs, e, p) =
      be_bytes_head k (n / 256) (omega (arith, 256_pow_suc k))
        (omega (arith, 256_pow_suc k, 256_pow_suc (suc k))) in
    (b, bs ++ ((n % 256) ∷ []), ap (λ t. t ++ ((n % 256) ∷ [])) e, p)

2_pow_suc : (k : ℕ) → 2 ^ suc k ≡ 2 ^ k * 2
2_pow_suc k = pow-suc 2 k

bit_len-le : (f k n : ℕ) → n < 2 ^ k → bit_len f n ≤ k
unfolding bit_len
bit_len-le zero k n h = omega arith
bit_len-le (suc f) zero n h = ground arith
bit_len-le (suc f) (suc k) n h =
    ground (arith, 2_pow_suc k, bit_len-le f k (n / 2) (omega (arith, 2_pow_suc k)))

pow_pos : (k : ℕ) → 0 < 2 ^ k
pow_pos zero = omega arith
pow_pos (suc k) = omega (arith, 2_pow_suc k, pow_pos k)

lt-bit_len : (f k n : ℕ) → k < f → 2 ^ k ≤ n → k < bit_len f n
unfolding bit_len
lt-bit_len zero k n l h = absurd (omega arith)
lt-bit_len (suc f) zero n l h = ground arith
lt-bit_len (suc f) (suc k) n l h =
    ground
      (arith, pow_pos (suc k), lt-bit_len f k (n / 2) (omega arith) (omega (arith, 2_pow_suc k)))

-- `beLen` of a number below 2 ^ 64 is the number of its digits in base 256.
abbrev pub HasDigits : ℕ → ℕ → Type 0
HasDigits n k = (256 ^ k ≤ n) × (n < 256 ^ suc k)

-- Every number below 2 ^ (8 * (w + 1)) other than 0 has 1 to `w + 1` digits.
pub has_digits : (w n : ℕ) → 0 < n → n < 256 ^ suc w → (k : ℕ) × (k ≤ w) × HasDigits n k
has_digits zero n p h = (0, omega arith, (omega arith, h))
has_digits (suc w) n p h = elim (dec_lt n (256 ^ suc w)) [
  | yes l ↦ let (k, le, d) = has_digits w n p l in (k, omega arith, d)
  | no l ↦ (suc w, omega arith, (omega arith, h))
]

pub be_len_lem : (k n : ℕ) → k < 8 → HasDigits n k → be_len n ≡ suc k
unfolding be_len
be_len_lem (suc (suc (suc (suc (suc (suc (suc (suc k)))))))) n l h = absurd (omega arith)
be_len_lem k n l h = omega (
  arith,
  bit_len-le 64 (8 * suc k) n (omega arith),
  lt-bit_len 64 (8 * k) n (omega arith) (omega arith),
)

pub be_len32_lem : (k n : ℕ) → k < 4 → HasDigits n k → be_len32 n ≡ suc k
unfolding be_len32
be_len32_lem (suc (suc (suc (suc k)))) n l h = absurd (omega arith)
be_len32_lem k n l h = omega (
  arith,
  bit_len-le 32 (8 * suc k) n (omega arith),
  lt-bit_len 32 (8 * k) n (omega arith) (omega arith),
)

-- The bytes that the encoders store are the digits.
pub u64_bytes_lem : (k n : ℕ) → k < 8 → HasDigits n k → u64_bytes n ≡ be_bytes (suc k) n
unfolding u64_bytes be_bytes
u64_bytes_lem (suc (suc (suc (suc (suc (suc (suc (suc k)))))))) n l h = absurd (omega arith)
u64_bytes_lem _ n l h = ground arith

pub u32_bytes_lem : (k n : ℕ) → k < 4 → HasDigits n k → u32_bytes n ≡ be_bytes (suc k) n
unfolding u32_bytes be_bytes
u32_bytes_lem (suc (suc (suc (suc k)))) n l h = absurd (omega arith)
u32_bytes_lem _ n l h = ground arith

-- The eight bytes of `PutUint64` from the place where the digits begin.
pub drop-be8 : (k n : ℕ) → k < 8 → drop (7 - k) (be8 n) ≡ be_bytes (suc k) n
unfolding be8 be_bytes
drop-be8 (suc (suc (suc (suc (suc (suc (suc (suc k)))))))) n l = absurd (omega arith)
drop-be8 _ n l = ground arith
