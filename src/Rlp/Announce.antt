-- ===== src/Rlp/Announce.antt =====
-- `EncodeAnnouncements` of rlp/encodel.go against the encoding of an announcement.
use mathlib.Core.List.{append_assoc, append-nil}
use erigon_lib.Base.{
  ℕ, zero, suc, ◌+◌, ◌*◌, ◌^◌, ◌≤◌, ◌<◌, ◌≡◌, refl, arith, List, [], ◌∷◌, ◌++◌, length,
  length-append, drop, drop-length_append, All, ok,
}
use erigon_lib.Rlp.Encode.{encode_u32, encode_hash, encode_hash_loop, encode_sizes, sizes_len}
use erigon_lib.Rlp.Headers.{rlp_string, rlp_list}
use erigon_lib.Rlp.Integers.{rlp_uint}
use erigon_lib.Rlp.Writes.{encode_u32-Writes, rlp_string_short}
use erigon_lib.Rlp.Strings.{encode_hash-Writes, write_behind-Writes}
use erigon_lib.Rlp.Lengths.{length-rlp_uint, u32_len-u64_len}

-- The items of the list of sizes and of the list of hashes, encoded one behind the other.
unfoldable pub size_items : List ℕ → List ℕ
size_items [] = []
size_items (s ∷ ss) = rlp_uint s ++ size_items ss

unfoldable pub hash_items : List (List ℕ) → List ℕ
hash_items [] = []
hash_items (h ∷ hs) = rlp_string h ++ hash_items hs

-- The hashes as the program holds them: 32 bytes each, in one slice.
unfoldable pub join : List (List ℕ) → List ℕ
join [] = []
join (h ∷ hs) = h ++ join hs

abbrev pub IsU32 : ℕ → Type 0
IsU32 s = s < 2 ^ 32

abbrev pub IsHash : List ℕ → Type 0
IsHash h = length h ≡ 32

-- The encoding of an announcement: a list of the types, the list of sizes and the list of hashes.
unfoldable pub announcement : List ℕ → List ℕ → List (List ℕ) → List ℕ
announcement types sizes hs =
    rlp_list (rlp_string types ++ (rlp_list (size_items sizes) ++ rlp_list (hash_items hs)))

pub length-size_items :
    (sizes : List ℕ) → All IsU32 sizes → length (size_items sizes) ≡ sizes_len sizes
unfolding size_items sizes_len
length-size_items [] h = refl
length-size_items (s ∷ ss) h = omega (
  arith,
  length-append (rlp_uint s) (size_items ss),
  length-rlp_uint s (omega arith),
  u32_len-u64_len s h.0,
  length-size_items ss h.1,
)

pub length-rlp_hash : (h : List ℕ) → IsHash h → length (rlp_string h) ≡ 33
length-rlp_hash h e = rw (rlp_string_short h (omega arith) (omega arith)) (omega arith)

pub length-hash_items :
    (hs : List (List ℕ)) → All IsHash hs → length (hash_items hs) ≡ 33 * length hs
unfolding hash_items
length-hash_items [] a = refl
length-hash_items (h ∷ hs) a = omega (
  arith,
  length-append (rlp_string h) (hash_items hs),
  length-rlp_hash h a.0,
  length-hash_items hs a.1,
)

pub length-join : (hs : List (List ℕ)) → All IsHash hs → length (join hs) ≡ 32 * length hs
unfolding join
length-join [] a = refl
length-join (h ∷ hs) a = omega (arith, length-append h (join hs), length-join hs a.1)

-- The loop over the sizes, behind `acc`.
pub encode_sizes_lem :
    (sizes acc rest : List ℕ)
    → All IsU32 sizes
    → length (size_items sizes) ≤ length rest
    → (rest' : List ℕ) × (encode_sizes sizes (acc ++ rest, length acc)
        ≡ ok ((acc ++ size_items sizes) ++ rest', length (acc ++ size_items sizes)))
      × (length (size_items sizes) + length rest' ≡ length rest)
unfolding encode_sizes size_items
encode_sizes_lem [] acc rest a room = (rest, rw (append-nil acc), omega arith)
encode_sizes_lem (s ∷ ss) acc rest a room =
    let parts = length-append (rlp_uint s) (size_items ss) in
    let (r1, e1, k1) =
      write_behind-Writes (encode_u32 s) (rlp_uint s) (length (rlp_uint s)) acc rest
        (encode_u32-Writes s a.0) (omega arith) in
    let (r2, e2, k2) = encode_sizes_lem ss (acc ++ rlp_uint s) r1 a.1 (omega arith) in
    (r2, rw e1 (rw (append_assoc acc (rlp_uint s) (size_items ss)) at e2), omega arith)

-- The loop over the hashes, behind `acc`.
pub encode_hash_loop_lem :
    (fuel : ℕ) (hs : List (List ℕ)) (acc rest : List ℕ)
    → All IsHash hs
    → length hs ≤ fuel
    → length (hash_items hs) ≤ length rest
    → (rest' : List ℕ) × (encode_hash_loop fuel (join hs) (acc ++ rest, length acc)
        ≡ ok ((acc ++ hash_items hs) ++ rest', length (acc ++ hash_items hs)))
      × (length (hash_items hs) + length rest' ≡ length rest)
unfolding encode_hash_loop hash_items join
encode_hash_loop_lem fuel [] acc rest a f room = (rest, rw (append-nil acc), omega arith)
encode_hash_loop_lem zero (h ∷ hs) acc rest a f room = absurd (omega arith)
encode_hash_loop_lem (suc fuel) ([] ∷ hs) acc rest a f room = absurd (omega (arith, a.0))
encode_hash_loop_lem (suc fuel) ((b ∷ bs) ∷ hs) acc rest a f room =
    let h : List ℕ = b ∷ bs in
    let parts = length-append (rlp_string h) (hash_items hs) in
    let size = length-rlp_hash h a.0 in
    let cut : drop 31 (bs ++ join hs) ≡ join hs =
      let e : length bs ≡ 31 = omega (arith, a.0) in rw (← e) (drop-length_append bs (join hs)) in
    let (r1, e1, k1) =
      write_behind-Writes (encode_hash (h ++ join hs)) (rlp_string h) 33 acc rest
        (encode_hash-Writes h (join hs) a.0) (omega arith) in
    let (r2, e2, k2) =
      encode_hash_loop_lem fuel hs (acc ++ rlp_string h) r1 a.1 (omega arith) (omega arith) in
    (r2, rw (e1, cut) (rw (append_assoc acc (rlp_string h) (hash_items hs)) at e2), omega arith)
