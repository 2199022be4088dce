-- ===== src/Rlp/Encode.antt =====
-- rlp/encodel.go. A buffer is the list of its bytes; an encoder gives the buffer after the call and
-- the number of bytes it says it wrote. A buffer that is too small is a panic.
use erigon_lib.Base.{
  ℕ, zero, suc, ◌+◌, ◌-◌, ◌*◌, ◌/◌, ◌%◌, ◌^◌, List, [], ◌∷◌, ◌++◌, ltb, leb, ◌==◌, ◌&&◌,
  if◌then◌else◌, length, take, drop, Result, ok, fault, ◌>>=◌,
}

-- What an encoder returns: the buffer and the count. Encoders return no error.
abbrev pub Written : Type 0
Written = Result ⊥ (List ℕ × ℕ)

-- math/bits: the number of bits of `n`, 0 for 0. `fuel` is the width of the type.
unfoldable pub bit_len : ℕ → ℕ → ℕ
bit_len zero n = 0
bit_len (suc fuel) n = let rest = bit_len fuel (n / 2) in if n == 0 then 0 else suc rest

-- `(bits.Len64(n) + 7) / 8`
unfoldable pub be_len : ℕ → ℕ
unfolding bit_len
be_len n = (bit_len 64 n + 7) / 8

-- `(bits.Len32(n) + 7) / 8`
unfoldable pub be_len32 : ℕ → ℕ
unfolding bit_len
be_len32 n = (bit_len 32 n + 7) / 8

-- encoding/binary: the eight bytes that `BigEndian.PutUint64` stores.
unfoldable pub be8 : ℕ → List ℕ
be8 n =
    (n / 2 ^ 56 % 256)
    ∷ (n / 2 ^ 48 % 256)
    ∷ (n / 2 ^ 40 % 256)
    ∷ (n / 2 ^ 32 % 256)
    ∷ (n / 2 ^ 24 % 256)
    ∷ (n / 2 ^ 16 % 256)
    ∷ (n / 2 ^ 8 % 256)
    ∷ (n % 256)
    ∷ []

-- Writes at the front of a buffer that holds them: `copy(to, bytes)` with enough room.
unfoldable pub overwrite : List ℕ → List ℕ → List ℕ
overwrite to bytes = bytes ++ drop (length bytes) to

-- Writes from place `i` on.
unfoldable pub overwrite_at : ℕ → List ℕ → List ℕ → List ℕ
unfolding overwrite
overwrite_at i to bytes = take i to ++ overwrite (drop i to) bytes

-- Stores at fixed places `to[0]`, `to[1]`, ...; the first place past the end panics.
unfoldable pub store : List ℕ → List ℕ → Written
unfolding overwrite
store to bytes =
    if leb (length bytes) (length to) then ok (overwrite to bytes, length bytes) else fault

-- The long form of a prefix: the length `n` goes to `to[1..8]`, the tag `base + beLen` in front of
-- its last `be_len` bytes, and `to[8-beLen:9]` is copied down to the front.
unfoldable pub tagged : ℕ → ℕ → ℕ → List ℕ → List ℕ
unfolding be8 overwrite overwrite_at
tagged base be_len n to =
    overwrite_at (8 - be_len) (overwrite_at 1 to (be8 n)) (((base + be_len) % 256) ∷ [])

unfoldable pub long_prefix : ℕ → ℕ → ℕ → List ℕ → List ℕ
unfolding tagged overwrite
long_prefix base be_len n to =
    let t = tagged base be_len n to in overwrite t (take (be_len + 1) (drop (8 - be_len) t))

unfoldable pub list_prefix_len : ℕ → ℕ
list_prefix_len n = if leb 56 n then 1 + be_len n else 1

unfoldable pub encode_list_prefix : ℕ → List ℕ → Written
encode_list_prefix n to =
    if leb 56 n
    then (if ltb 9 (length to) then ok (long_prefix 247 (be_len n) n to, 1 + be_len n) else fault)
    else store to (((192 + n) % 256) ∷ [])

unfoldable pub u32_len : ℕ → ℕ
u32_len i = if ltb i 128 then 1 else 1 + be_len32 i

unfoldable pub u64_len : ℕ → ℕ
u64_len i = if ltb i 128 then 1 else 1 + be_len i

-- The switch of `EncodeU32`: the bytes that go to `to[1:]`.
unfoldable pub u32_bytes : ℕ → List ℕ
u32_bytes i =
    if ltb i (2 ^ 8)
    then (i % 256) ∷ []
    else if ltb i (2 ^ 16)
    then (i / 2 ^ 8 % 256) ∷ (i % 256) ∷ []
    else if ltb i (2 ^ 24)
    then (i / 2 ^ 16 % 256) ∷ (i / 2 ^ 8 % 256) ∷ (i % 256) ∷ []
    else (i / 2 ^ 24 % 256) ∷ (i / 2 ^ 16 % 256) ∷ (i / 2 ^ 8 % 256) ∷ (i % 256) ∷ []

-- The last four cases of the switch of `EncodeU64`.
unfoldable pub u64_bytes_wide : ℕ → List ℕ
unfolding be8
u64_bytes_wide i =
    if ltb i (2 ^ 40)
    then (i / 2 ^ 32 % 256)
      ∷ (i / 2 ^ 24 % 256)
      ∷ (i / 2 ^ 16 % 256)
      ∷ (i / 2 ^ 8 % 256)
      ∷ (i % 256)
      ∷ []
    else if ltb i (2 ^ 48)
    then (i / 2 ^ 40 % 256)
      ∷ (i / 2 ^ 32 % 256)
      ∷ (i / 2 ^ 24 % 256)
      ∷ (i / 2 ^ 16 % 256)
      ∷ (i / 2 ^ 8 % 256)
      ∷ (i % 256)
      ∷ []
    else if ltb i (2 ^ 56)
    then (i / 2 ^ 48 % 256)
      ∷ (i / 2 ^ 40 % 256)
      ∷ (i / 2 ^ 32 % 256)
      ∷ (i / 2 ^ 24 % 256)
      ∷ (i / 2 ^ 16 % 256)
      ∷ (i / 2 ^ 8 % 256)
      ∷ (i % 256)
      ∷ []
    else be8 i

-- The switch of `EncodeU64`.
unfoldable pub u64_bytes : ℕ → List ℕ
unfolding u64_bytes_wide
u64_bytes i =
    if ltb i (2 ^ 8)
    then (i % 256) ∷ []
    else if ltb i (2 ^ 16)
    then (i / 2 ^ 8 % 256) ∷ (i % 256) ∷ []
    else if ltb i (2 ^ 24)
    then (i / 2 ^ 16 % 256) ∷ (i / 2 ^ 8 % 256) ∷ (i % 256) ∷ []
    else if ltb i (2 ^ 32)
    then (i / 2 ^ 24 % 256) ∷ (i / 2 ^ 16 % 256) ∷ (i / 2 ^ 8 % 256) ∷ (i % 256) ∷ []
    else u64_bytes_wide i

unfoldable pub encode_u32 : ℕ → List ℕ → Written
encode_u32 i to =
    if i == 0
    then store to (128 ∷ [])
    else if ltb i 128
    then store to ((i % 256) ∷ [])
    else store to (((128 + length (u32_bytes i)) % 256) ∷ u32_bytes i)

unfoldable pub encode_u64 : ℕ → List ℕ → Written
encode_u64 i to =
    if i == 0
    then store to (128 ∷ [])
    else if ltb i 128
    then store to ((i % 256) ∷ [])
    else store to (((128 + length (u64_bytes i)) % 256) ∷ u64_bytes i)

-- The cases `sLen == 0`, `sLen == 1` and the default, by the bytes themselves.
unfoldable pub short_string_len : List ℕ → ℕ
short_string_len [] = 1
short_string_len (b ∷ []) = if ltb b 128 then 1 else 2
short_string_len s = 1 + length s

unfoldable pub string_len : List ℕ → ℕ
string_len s = if ltb 56 (length s) then 1 + be_len (length s) + length s else short_string_len s

-- The cases `len(s) == 0`, `len(s) == 1` and the default: what is stored at the front of `to`.
unfoldable pub short_string_bytes : List ℕ → List ℕ
short_string_bytes [] = 128 ∷ []
short_string_bytes (b ∷ []) = if ltb b 128 then b ∷ [] else 129 ∷ b ∷ []
short_string_bytes s = ((length s + 128) % 256) ∷ s

-- `PutUint64` wants nine bytes, and `to[beLen+len(s)]` must be there too.
unfoldable pub encode_string : List ℕ → List ℕ → Written
encode_string s to =
    if ltb 56 (length s)
    then (if leb 9 (length to) && ltb (be_len (length s) + length s) (length to)
        then ok (
          overwrite_at (1 + be_len (length s)) (long_prefix 183 (be_len (length s)) (length s) to)
              s,
          1 + be_len (length s) + length s,
        )
        else fault)
    else store to (short_string_bytes s)

-- `h[:32]` wants 32 bytes in `h`.
unfoldable pub encode_hash : List ℕ → List ℕ → Written
encode_hash h to = if leb 32 (length h) then store to (160 ∷ take 32 h) else fault

-- `pos += f(encodeBuf[pos:])`: an encoder that writes behind the first `pos` bytes.
unfoldable pub write_behind : (List ℕ → Written) → List ℕ × ℕ → Written
write_behind f (buf, pos) =
    if leb pos (length buf)
    then (f (drop pos buf) >>= λ r. ok (take pos buf ++ r.0, pos + r.1))
    else fault

unfoldable pub hashes_len : List ℕ → ℕ
hashes_len hashes = let n = length hashes / 32 * 33 in list_prefix_len n + n

-- `for i := 0; i < len(hashes); i += 32 { pos += EncodeHash(hashes[i:], encodeBuf[pos:]) }`: every
-- round takes 32 bytes, so as many rounds as there are bytes are enough.
unfoldable pub encode_hash_loop : ℕ → List ℕ → List ℕ × ℕ → Written
encode_hash_loop fuel [] w = ok w
encode_hash_loop zero (b ∷ bs) w = fault
encode_hash_loop (suc fuel) (b ∷ bs) w =
    write_behind (encode_hash (b ∷ bs)) w >>= λ r. encode_hash_loop fuel (drop 31 bs) r

unfoldable pub encode_hashes : List ℕ → List ℕ → Written
encode_hashes hashes buf = encode_list_prefix (length hashes / 32 * 33) buf >>= λ w.
    encode_hash_loop (length hashes) hashes w

-- `for _, size := range sizes { sizesLen += U32Len(size) }`
unfoldable pub sizes_len : List ℕ → ℕ
sizes_len [] = 0
sizes_len (size ∷ sizes) = u32_len size + sizes_len sizes

-- `totalLen`
unfoldable pub total_len : List ℕ → List ℕ → List ℕ → ℕ
total_len types sizes hashes =
    let hs = length hashes / 32 * 33 in
    string_len types + sizes_len sizes + list_prefix_len (sizes_len sizes) + hs + list_prefix_len hs

unfoldable pub announcements_len : List ℕ → List ℕ → List ℕ → ℕ
announcements_len [] sizes hashes = 4
announcements_len (t ∷ ts) sizes hashes =
    list_prefix_len (total_len (t ∷ ts) sizes hashes) + total_len (t ∷ ts) sizes hashes

-- `for _, size := range sizes { pos += EncodeU32(size, encodeBuf[pos:]) }`
unfoldable pub encode_sizes : List ℕ → List ℕ × ℕ → Written
encode_sizes [] w = ok w
encode_sizes (size ∷ sizes) w = write_behind (encode_u32 size) w >>= λ r. encode_sizes sizes r

unfoldable pub encode_announcements : List ℕ → List ℕ → List ℕ → List ℕ → Written
encode_announcements [] sizes hashes buf = store buf (0xc3 ∷ 0x80 ∷ 0xc0 ∷ 0xc0 ∷ [])
encode_announcements (t ∷ ts) sizes hashes buf = do
  a ← encode_list_prefix (total_len (t ∷ ts) sizes hashes) buf
  b ← write_behind (encode_string (t ∷ ts)) a
  c ← write_behind (encode_list_prefix (sizes_len sizes)) b
  d ← encode_sizes sizes c
  e ← write_behind (encode_list_prefix (length hashes / 32 * 33)) d
  encode_hash_loop (length hashes) hashes e
