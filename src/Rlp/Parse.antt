-- ===== src/Rlp/Parse.antt =====
-- rlp/parse.go. A payload is the list of its bytes, and a position is the bit pattern of an `int`.
use erigon_lib.Base.{
  ℕ, zero, suc, ◌+◌, ◌-◌, ◌*◌, ◌/◌, ◌%◌, ◌^◌, Bool, true, false, ◌&&◌, Option, none, some, List, [],
  ◌∷◌, ◌++◌, ltb, leb, ◌==◌, not, if◌then◌else◌, length, get_elem?, take, drop, Result, ok, err,
  fault, ◌>>=◌,
}
use erigon_lib.Base.Words.{add64, int_lt}

-- One constructor for each message of the file; all of them wrap `ErrParse`.
pub data Error : Type 0 where
  negative_position unexpected_end leading_zeros non_canonical too_big_len : Error
  not_a_list not_a_string wrong_len uint_is_list uint_too_long beyond_end : Error

-- `payload[a:b]`; a bound past the length is taken as a panic.
unfoldable pub slice : List ℕ → ℕ → ℕ → Result Error (List ℕ)
slice payload a b =
    if leb a b && leb b (length payload) then ok (take (b - a) (drop a payload)) else fault

-- `payload[i]`.
unfoldable pub index : List ℕ → ℕ → Result Error ℕ
index payload i = elim (get_elem? payload i) [ none ↦ fault | some b ↦ ok b ]

-- `for _, b := range bytes { r = (r << 8) | b }` in a type of `w` values: the low eight bits of
-- `r << 8` are 0, so the disjunction with a byte adds it.
unfoldable pub shift_in : ℕ → ℕ → List ℕ → ℕ
shift_in w r [] = r
shift_in w r (b ∷ bs) = shift_in w ((r * 256 + b) % w) bs

-- `payload[pos] == 0`, read only if the length is not 0.
unfoldable pub starts_with_zero : List ℕ → ℕ → ℕ → Result Error Bool
unfolding index
starts_with_zero payload pos len =
    if ltb 0 len then (index payload pos >>= λ b. ok (b == 0)) else ok false

unfoldable pub be_int : List ℕ → ℕ → ℕ → Result Error ℕ
unfolding starts_with_zero slice
be_int payload pos len =
    if not (int_lt (add64 pos len) (length payload)) then err unexpected_end else (do
      zeros ← starts_with_zero payload pos len
      if zeros
          then err leading_zeros
          else (do bytes ← slice payload pos (add64 pos len); ok (shift_in (2 ^ 64) 0 bytes)))

-- The four named results of `Prefix`.
pub record Header : Type 0 where
  pub data_pos : ℕ
  pub data_len : ℕ
  pub is_list : Bool
  pub error : Option Error

-- The results together, for the branches of the switch.
abbrev pub header : ℕ → ℕ → Bool → Option Error → Header
header p l b e = record { data_pos = p; data_len = l; is_list = b; error = e }

-- The second branch: a string of 0 to 55 bytes. A single byte below 128 must stand for itself.
unfoldable pub short_string : List ℕ → ℕ → ℕ → Result Error Header
unfolding index
short_string payload pos first =
    if (first - 128 == 1) && ltb (add64 pos 1) (length payload)
    then (index payload (add64 pos 1) >>= λ b.
        ok (
          header (add64 pos 1) (first - 128) false
            (if ltb b 128 then some non_canonical else none)))
    else ok (header (add64 pos 1) (first - 128) false none)

-- The length and the error after `dataLen, err = BeInt(...)` and the test `dataLen < 56`.
unfoldable pub checked_len : Result Error ℕ → Result Error (ℕ × Option Error)
checked_len (ok n) = ok (n, if int_lt n 56 then some non_canonical else none)
checked_len (err e) = ok (0, some non_canonical)
checked_len fault = fault

-- The third and the last branch: a length of `be_len` bytes follows the first byte.
unfoldable pub long_header : List ℕ → ℕ → ℕ → Bool → Result Error Header
unfolding checked_len
long_header payload pos be_len list = checked_len (be_int payload (add64 pos 1) be_len) >>= λ n.
    ok (header (add64 (add64 pos 1) be_len) n.0 list n.1)

-- The switch on the first byte.
unfoldable pub read_header : List ℕ → ℕ → ℕ → Result Error Header
unfolding short_string long_header
read_header payload pos first =
    if ltb first 128
    then ok (header pos 1 false none)
    else if ltb first 184
    then short_string payload pos first
    else if ltb first 192
    then long_header payload pos (first - 183) false
    else if ltb first 248
    then ok (header (add64 pos 1) (first - 192) true none)
    else long_header payload pos (first - 247) true

-- What follows the switch: the element must end inside the payload.
unfoldable pub check_end : List ℕ → Header → Header
check_end payload h = elim h.error [
  | some e ↦ h
  | none ↦
      if int_lt (length payload) (add64 h.data_pos h.data_len)
      then record h { error = some unexpected_end }
      else if int_lt (add64 h.data_pos h.data_len) 0
      then record h { error = some too_big_len }
      else h
]

unfoldable pub prefix : List ℕ → ℕ → Result Error Header
prefix payload pos =
    if int_lt pos 0
    then ok (header 0 0 false (some negative_position))
    else if not (int_lt pos (length payload))
    then ok (header 0 0 false (some unexpected_end))
    else (do first ← index payload pos; h ← read_header payload pos first; ok (check_end payload h))

-- `if err != nil { return ..., err }` after a call of `Prefix`.
unfoldable pub checked : Result Error Header → Result Error Header
checked r = r >>= λ h. elim h.error [ some e ↦ err e | none ↦ ok h ]

unfoldable pub list : List ℕ → ℕ → Result Error (ℕ × ℕ)
unfolding checked
list payload pos = checked (prefix payload pos) >>= λ h.
    if h.is_list then ok (h.data_pos, h.data_len) else err not_a_list

unfoldable pub string : List ℕ → ℕ → Result Error (ℕ × ℕ)
unfolding checked
string payload pos = checked (prefix payload pos) >>= λ h.
    if h.is_list then err not_a_string else ok (h.data_pos, h.data_len)

unfoldable pub string_of_len : List ℕ → ℕ → ℕ → Result Error ℕ
string_of_len payload pos expected =
    string payload pos >>= λ d. if d.1 == expected then ok d.0 else err wrong_len

-- The leading zero test and the loop that `U64`, `U32` and `U256` end with; `of_bytes` is the loop.
unfoldable pub read_int : (List ℕ → ℕ) → List ℕ → ℕ → ℕ → Result Error (ℕ × ℕ)
unfolding starts_with_zero slice
read_int of_bytes payload pos len = do
  zeros ← starts_with_zero payload pos len
  if zeros
      then err leading_zeros
      else (do bytes ← slice payload pos (add64 pos len); ok (add64 pos len, of_bytes bytes))

unfoldable pub u64 : List ℕ → ℕ → Result Error (ℕ × ℕ)
unfolding checked read_int
u64 payload pos = checked (prefix payload pos) >>= λ h.
    if h.is_list
    then err uint_is_list
    else if int_lt 8 h.data_len
    then err uint_too_long
    else read_int (shift_in (2 ^ 64) 0) payload h.data_pos h.data_len

unfoldable pub u32 : List ℕ → ℕ → Result Error (ℕ × ℕ)
unfolding checked read_int
u32 payload pos = checked (prefix payload pos) >>= λ h.
    if h.is_list
    then err uint_is_list
    else if int_lt 4 h.data_len
    then err uint_too_long
    else read_int (shift_in (2 ^ 32) 0) payload h.data_pos h.data_len

-- `set_bytes` is `(*uint256.Int).SetBytes` of the uint256 package.
unfoldable pub u256 : (List ℕ → ℕ) → List ℕ → ℕ → Result Error (ℕ × ℕ)
unfolding read_int
u256 set_bytes payload pos = string payload pos >>= λ d.
    if int_lt 32 d.1 then err uint_too_long else read_int set_bytes payload d.0 d.1

-- `none` is the nil pointer; `bit_len` is `(*uint256.Int).BitLen` of the uint256 package.
unfoldable pub u256_len : (ℕ → ℕ) → Option ℕ → ℕ
u256_len bit_len none = 1
u256_len bit_len (some z) =
    if bit_len z == 0 then 1 else if leb (bit_len z) 7 then 1 else 1 + (bit_len z + 7) / 8

-- The position behind the hash, and the 32 bytes that go into `hashbuf`.
unfoldable pub parse_hash : List ℕ → ℕ → Result Error (ℕ × List ℕ)
parse_hash payload pos = do
  p ← string_of_len payload pos 32
  h ← slice payload p (add64 p 32)
  ok (add64 p 32, h)

-- The loop over `sizes`: `n` numbers from `pos` on.
unfoldable pub parse_sizes : ℕ → List ℕ → ℕ → Result Error (ℕ × List ℕ)
parse_sizes zero payload pos = ok (pos, [])
parse_sizes (suc n) payload pos =
    u32 payload pos >>= λ s. parse_sizes n payload s.0 >>= λ r. ok (r.0, s.1 ∷ r.1)

-- The loop over `hashes`: `n` hashes from `pos` on, one behind the other.
unfoldable pub parse_hashes : ℕ → List ℕ → ℕ → Result Error (ℕ × List ℕ)
parse_hashes zero payload pos = ok (pos, [])
parse_hashes (suc n) payload pos =
    parse_hash payload pos >>= λ h. parse_hashes n payload h.0 >>= λ r. ok (r.0, h.1 ++ r.1)

pub record Announcements : Type 0 where
  pub types : List ℕ
  pub sizes : List ℕ
  pub hashes : List ℕ

-- `if pos+len > len(payload) { return ..., err }`.
unfoldable pub within : List ℕ → ℕ × ℕ → Result Error (ℕ × ℕ)
within payload d = if int_lt (length payload) (add64 d.0 d.1) then err beyond_end else ok d

-- The position that comes beside an error is dropped.
unfoldable pub parse_announcements : List ℕ → ℕ → Result Error (Announcements × ℕ)
parse_announcements payload pos = do
  total ← list payload pos
  _ ← within payload total
  t ← string payload total.0
  _ ← within payload t
  types ← slice payload t.0 (add64 t.0 t.1)
  s ← list payload (add64 t.0 t.1)
  _ ← within payload s
  sizes ← parse_sizes t.1 payload s.0
  h ← list payload sizes.0
  _ ← within payload h
  hashes ← parse_hashes (h.1 / 33) payload h.0
  ok (record { types = types; sizes = sizes.1; hashes = hashes.1 }, hashes.0)
