-- ===== src/Rlp/AnnounceLengths.antt =====
-- The lengths of an announcement's parts, by the length functions of rlp/encodel.go.
use erigon_lib.Base.{
  ℕ, ◌+◌, ◌*◌, ◌/◌, ◌^◌, ◌<◌, ◌≡◌, ◌≢◌, arith, List, ◌++◌, length, length-append, All,
}
use erigon_lib.Rlp.Encode.{list_prefix_len, total_len}
use erigon_lib.Rlp.Headers.{len_prefix, rlp_string, rlp_list}
use erigon_lib.Rlp.Lengths.{length-len_prefix, length-rlp_string, length-le-string_len}
use erigon_lib.Rlp.Announce.{
  size_items, hash_items, join, IsU32, IsHash, announcement, length-size_items, length-hash_items,
  length-join,
}

-- `len(hashes) / 32 * 33` is the length of the items of the list of hashes.
pub hashes_part :
    (hs : List (List ℕ)) → All IsHash hs → length (join hs) / 32 * 33 ≡ length (hash_items hs)
hashes_part hs a = omega (arith, length-join hs a, length-hash_items hs a)

pub length-rlp_list :
    (body : List ℕ)
    → length body < 2 ^ 63
    → length (rlp_list body) ≡ list_prefix_len (length body) + length body
unfolding rlp_list
length-rlp_list body w = omega (
  arith,
  length-append (len_prefix 192 (length body)) body,
  length-len_prefix 192 (length body) w,
)

-- The body of an announcement's list.
abbrev pub body_of : List ℕ → List ℕ → List (List ℕ) → List ℕ
body_of types sizes hs =
    rlp_string types ++ (rlp_list (size_items sizes) ++ rlp_list (hash_items hs))

module _ (types sizes : List ℕ) (hs : List (List ℕ)) (us : All IsU32 sizes) (ih : All IsHash hs)
    (other : length types ≢ 56) (fits : total_len types sizes (join hs) < 2 ^ 47) where
  pub parts_fit :
      (length types < 2 ^ 47)
      × (length (size_items sizes) < 2 ^ 47)
      × (length (hash_items hs) < 2 ^ 47)
  unfolding total_len
  parts_fit =
      let strings = length-le-string_len types in
      let s = length-size_items sizes us in let h = hashes_part hs ih in omega arith

  pub length-body_of : length (body_of types sizes hs) ≡ total_len types sizes (join hs)
  unfolding total_len
  length-body_of =
      rw (hashes_part hs ih, ← length-size_items sizes us)
        (omega (
          arith,
          parts_fit,
          length-rlp_string types (omega (arith, parts_fit)) other,
          length-rlp_list (size_items sizes) (omega (arith, parts_fit)),
          length-rlp_list (hash_items hs) (omega (arith, parts_fit)),
          length-append (rlp_string types)
              (rlp_list (size_items sizes) ++ rlp_list (hash_items hs)),
          length-append (rlp_list (size_items sizes)) (rlp_list (hash_items hs)),
        ))

  pub length-announcement :
      length (announcement types sizes hs)
      ≡ list_prefix_len (total_len types sizes (join hs)) + total_len types sizes (join hs)
  unfolding announcement
  length-announcement =
      rw (← length-body_of)
        (length-rlp_list (body_of types sizes hs) (omega (arith, length-body_of)))
