-- ===== src/TxPool/Gas.antt =====
-- `CalcIntrinsicGas` and `toWordSize` of txpool/pool.go, `SafeMul` and `SafeAdd` of
-- common/math/integer.go. The prices are those of common/fixedgas/protocol.go.
use erigon_lib.Base.{
  ℕ, ◌+◌, ◌-◌, ◌*◌, ◌/◌, ◌%◌, ◌^◌, ◌≤◌, ◌<◌, ◌≡◌, refl, ap, ◌∙◌, arith, Bool, true, false, ◌&&◌,
  not, Option, none, some, List, [], ◌∷◌, length, Result, ok, err, fault, ◌>>=◌, ltb, ◌==◌,
  if◌then◌else◌, Bool-cases, inl, inr,
}

-- A 64-bit result and whether the true one did not fit.
unfoldable pub safe_mul : ℕ → ℕ → ℕ × Bool
safe_mul x y = ((x * y) % 2 ^ 64, not ((x * y) / 2 ^ 64 == 0))

unfoldable pub safe_add : ℕ → ℕ → ℕ × Bool
safe_add x y = ((x + y) % 2 ^ 64, not ((x + y) / 2 ^ 64 == 0))

pub data DiscardReason : Type 0 where
  not_set : DiscardReason
  success : DiscardReason
  already_known : DiscardReason
  mined : DiscardReason
  replaced_by_higher_tip : DiscardReason
  under_priced : DiscardReason
  replace_underpriced : DiscardReason
  fee_too_low : DiscardReason
  oversized_data : DiscardReason
  invalid_sender : DiscardReason
  negative_value : DiscardReason
  spammer : DiscardReason
  pending_pool_overflow : DiscardReason
  base_fee_pool_overflow : DiscardReason
  queued_pool_overflow : DiscardReason
  gas_uint_overflow : DiscardReason
  intrinsic_gas : DiscardReason
  rlp_too_long : DiscardReason
  nonce_too_low : DiscardReason
  insufficient_funds : DiscardReason
  not_replaced : DiscardReason
  duplicate_hash : DiscardReason
  init_code_too_large : DiscardReason

-- `types.AccessList`: the number of storage keys of each address. `StorageKeys` sums them up.
abbrev pub storage_keys : List ℕ → ℕ
storage_keys [] = 0
storage_keys (keys ∷ list) = keys + storage_keys list

unfoldable pub to_word_size : ℕ → ℕ
to_word_size size =
    if ltb (2 ^ 64 - 1 - 31) size then (2 ^ 64 - 1) / 32 + 1 else ((size + 31) % 2 ^ 64) / 32

-- `product, overflow = SafeMul(n, price)`, `gas, overflow = SafeAdd(gas, product)`, with the
-- return of `GasUintOverflow` after each.
unfoldable pub charge : ℕ → ℕ → ℕ → Result DiscardReason ℕ
unfolding safe_mul safe_add
charge n price gas =
    let (product, over) = safe_mul n price in
    let (sum, over') = safe_add gas product in
    if over then err gas_uint_overflow else if over' then err gas_uint_overflow else ok sum

-- `nonZeroGas`
abbrev pub non_zero_gas : Bool → ℕ
non_zero_gas true = 16
non_zero_gas false = 68

-- The block under `dataLen > 0`.
unfoldable pub data_gas : ℕ → ℕ → Bool → Bool → Bool → ℕ → Result DiscardReason ℕ
data_gas data_len nz creation eip2028 shanghai gas =
    charge nz (non_zero_gas eip2028) gas >>= charge ((data_len + 2 ^ 64 - nz) % 2 ^ 64) 4 >>= λ g.
    if creation && shanghai then charge (to_word_size data_len) 2 g else ok g

-- The block under `accessList != nil`.
unfoldable pub access_gas : Option (List ℕ) → ℕ → Result DiscardReason ℕ
access_gas none gas = ok gas
access_gas (some list) gas = charge (length list) 2400 gas >>= charge (storage_keys list) 1900

-- Success comes with the gas, and `GasUintOverflow` with 0.
unfoldable pub calc_intrinsic_gas :
    ℕ → ℕ → Option (List ℕ) → Bool → Bool → Bool → Bool → Result DiscardReason ℕ
calc_intrinsic_gas data_len nz list creation homestead eip2028 shanghai =
    let gas = if creation && homestead then 53000 else 21000 in
    (if ltb 0 data_len then data_gas data_len nz creation eip2028 shanghai gas else ok gas)
    >>= access_gas list

-- The gas without bound: a price for each byte, for each word of the code of a new contract, and
-- for each address and storage key of the access list.
abbrev pub code_words : ℕ → Bool → ℕ
code_words data_len true = (data_len + 31) / 32
code_words data_len false = 0

abbrev pub list_gas : Option (List ℕ) → ℕ
list_gas none = 0
list_gas (some list) = length list * 2400 + storage_keys list * 1900

abbrev pub exact_gas : ℕ → ℕ → Option (List ℕ) → Bool → Bool → Bool → Bool → ℕ
exact_gas data_len nz list creation homestead eip2028 shanghai =
    (if creation && homestead then 53000 else 21000)
    + nz * non_zero_gas eip2028
    + (data_len - nz) * 4
    + code_words data_len (creation && shanghai) * 2
    + list_gas list

-- A sum as a `uint64`, or the overflow.
abbrev pub fits64 : ℕ → Result DiscardReason ℕ
fits64 n = if ltb n (2 ^ 64) then ok n else err gas_uint_overflow

charge-fits64 : (n price gas : ℕ) → gas < 2 ^ 64 → charge n price gas ≡ fits64 (gas + n * price)
unfolding charge safe_mul safe_add
charge-fits64 n price gas h = ground arith

charge_on : (n price gas : ℕ) → (fits64 gas >>= charge n price) ≡ fits64 (gas + n * price)
charge_on n price gas = elim (Bool-cases (ltb gas (2 ^ 64))) [
  | inl fits ↦ rw fits (charge-fits64 n price gas (ground arith))
  | inr over ↦ let more : ltb (gas + n * price) (2 ^ 64) ≡ false = ground arith in rw (over, more)
]

to_word_size_lem : (size : ℕ) → size < 2 ^ 64 → to_word_size size ≡ (size + 31) / 32
unfolding to_word_size
to_word_size_lem size h = ground arith

words_on :
    (data_len gas : ℕ) (code : Bool)
    → data_len < 2 ^ 64
    → (fits64 gas >>= λ g. if code then charge (to_word_size data_len) 2 g else ok g)
      ≡ fits64 (gas + code_words data_len code * 2)
words_on data_len gas true h =
    rw (to_word_size_lem data_len h) (charge_on ((data_len + 31) / 32) 2 gas)
words_on data_len gas false h = elim (Bool-cases (ltb gas (2 ^ 64))) [
  | inl fits ↦ rw (fits) (ground arith)
  | inr over ↦ rw (over) (ground arith)
]

data_gas_lem :
    (data_len nz gas : ℕ) (creation eip2028 shanghai : Bool)
    → data_len < 2 ^ 64
    → nz ≤ data_len
    → gas < 2 ^ 64
    → data_gas data_len nz creation eip2028 shanghai gas
      ≡ fits64 (
          gas
          + nz * non_zero_gas eip2028
          + (data_len - nz) * 4
          + code_words data_len (creation && shanghai) * 2)
unfolding data_gas
data_gas_lem data_len nz gas creation eip2028 shanghai h le g =
    let zeros : (data_len + 2 ^ 64 - nz) % 2 ^ 64 ≡ data_len - nz = omega arith in
    rw
      (
        charge-fits64 nz (non_zero_gas eip2028) gas g,
        zeros,
        charge_on (data_len - nz) 4 (gas + nz * non_zero_gas eip2028),
      )
      (words_on data_len (gas + nz * non_zero_gas eip2028 + (data_len - nz) * 4)
        (creation && shanghai) h)

-- Two charges in a row, whatever was charged before.
charge_twice :
    (m price n price' : ℕ) (r : Result DiscardReason ℕ)
    → (r >>= λ g. charge m price g >>= charge n price') ≡ (r >>= charge m price >>= charge n price')
charge_twice m price n price' (ok g) = refl
charge_twice m price n price' (err e) = refl
charge_twice m price n price' fault = refl

access_gas_on :
    (list : Option (List ℕ)) (gas : ℕ)
    → (fits64 gas >>= access_gas list) ≡ fits64 (gas + list_gas list)
unfolding access_gas
access_gas_on none gas = elim (Bool-cases (ltb gas (2 ^ 64))) [
  | inl fits ↦ rw (fits) (ground arith)
  | inr over ↦ rw (over) (ground arith)
]
access_gas_on (some list) gas =
    charge_twice (length list) 2400 (storage_keys list) 1900 (fits64 gas)
    ∙ ap (λ r. r >>= charge (storage_keys list) 1900) (charge_on (length list) 2400 gas)
    ∙ charge_on (storage_keys list) 1900 (gas + length list * 2400)
    ∙ ap fits64 (omega arith)

-- `CalcIntrinsicGas` gives the exact gas where that fits in 64 bits, and `GasUintOverflow` where it
-- does not, for data of less than 2 ^ 64 bytes of which `nz` are not zero.
pub calc_intrinsic_gas-fits64 :
    (data_len nz : ℕ) (list : Option (List ℕ)) (creation homestead eip2028 shanghai : Bool)
    → data_len < 2 ^ 64
    → nz ≤ data_len
    → calc_intrinsic_gas data_len nz list creation homestead eip2028 shanghai
      ≡ fits64 (exact_gas data_len nz list creation homestead eip2028 shanghai)
unfolding calc_intrinsic_gas
calc_intrinsic_gas-fits64 data_len nz list creation homestead eip2028 shanghai h le = rw paid (
    access_gas_on list (
      gas
      + nz * non_zero_gas eip2028
      + (data_len - nz) * 4
      + code_words data_len (creation && shanghai) * 2))
  where
    gas : ℕ
    gas = if creation && homestead then 53000 else 21000

    paid :
        (if ltb 0 data_len then data_gas data_len nz creation eip2028 shanghai gas else ok gas)
        ≡ fits64 (
            gas
            + nz * non_zero_gas eip2028
            + (data_len - nz) * 4
            + code_words data_len (creation && shanghai) * 2)
    paid = ground (arith, data_gas_lem data_len nz gas creation eip2028 shanghai)
