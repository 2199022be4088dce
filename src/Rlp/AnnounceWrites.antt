-- ===== src/Rlp/AnnounceWrites.antt =====
-- What `EncodeAnnouncements` of rlp/encodel.go leaves in a buffer.
use mathlib.Core.List.{append_assoc}
use erigon_lib.Base.{
  ℕ, ◌+◌, ◌*◌, ◌/◌, ◌^◌, ◌≤◌, ◌<◌, ◌≡◌, ◌≢◌, sym, ap, ◌∙◌, arith, List, ◌∷◌, ◌++◌, length,
  length-append, All, ok,
}
use erigon_lib.Rlp.Encode.{
  encode_string, encode_list_prefix, encode_hash_loop, encode_sizes, write_behind, sizes_len,
  total_len, encode_announcements,
}
use erigon_lib.Rlp.Headers.{len_prefix, rlp_string, rlp_list}
use erigon_lib.Rlp.Writes.{encode_list_prefix-Writes, prefix_room}
use erigon_lib.Rlp.Strings.{encode_string-Writes, write_behind-Writes}
use erigon_lib.Rlp.Lengths.{length-len_prefix, prefix_room-le}
use erigon_lib.Rlp.Announce.{
  size_items, hash_items, join, IsU32, IsHash, announcement, length-size_items, length-join,
  encode_sizes_lem, encode_hash_loop_lem,
}
use erigon_lib.Rlp.AnnounceLengths.{hashes_part, parts_fit, length-body_of, length-announcement}

-- The five steps of `EncodeAnnouncements` in front of the last loop, as equations.
encode_steps :
    (t : ℕ) (ts sizes hashes buf : List ℕ) (a b c d e f : List ℕ × ℕ)
    → encode_list_prefix (total_len (t ∷ ts) sizes hashes) buf ≡ ok a
    → write_behind (encode_string (t ∷ ts)) a ≡ ok b
    → write_behind (encode_list_prefix (sizes_len sizes)) b ≡ ok c
    → encode_sizes sizes c ≡ ok d
    → write_behind (encode_list_prefix (length hashes / 32 * 33)) d ≡ ok e
    → encode_hash_loop (length hashes) hashes e ≡ ok f
    → encode_announcements (t ∷ ts) sizes hashes buf ≡ ok f
unfolding encode_announcements
encode_steps t ts sizes hashes buf a b c d e f p q r s u v = rw (p, q, r, s, u) v

module _ (t : ℕ) (ts sizes : List ℕ) (hs : List (List ℕ)) where
  abbrev size_prefix : List ℕ
  size_prefix = len_prefix 192 (sizes_len sizes)

  abbrev hash_prefix : List ℕ
  hash_prefix = len_prefix 192 (length (join hs) / 32 * 33)

  abbrev total_prefix : List ℕ
  total_prefix = len_prefix 192 (total_len (t ∷ ts) sizes (join hs))

  -- The parts in the order in which they are written.
  abbrev written_parts : List ℕ
  written_parts =
      ((((total_prefix ++ rlp_string (t ∷ ts)) ++ size_prefix) ++ size_items sizes) ++ hash_prefix)
      ++ hash_items hs

  module _ (us : All IsU32 sizes) (ih : All IsHash hs) (other : length (t ∷ ts) ≢ 56)
      (fits : total_len (t ∷ ts) sizes (join hs) < 2 ^ 47) where
    written_parts_lem : written_parts ≡ announcement (t ∷ ts) sizes hs
    unfolding announcement rlp_list
    written_parts_lem =
        rw
          (
            ← length-body_of (t ∷ ts) sizes hs us ih other fits,
            hashes_part hs ih,
            ← length-size_items sizes us,
          )
          (simp append_assoc)

    -- The parts fill the encoding, and each prefix has its scratch room in what follows it.
    abbrev Rooms : Type 0
    Rooms =
        (length (announcement (t ∷ ts) sizes hs)
          ≡ length total_prefix
            + length (rlp_string (t ∷ ts))
            + length size_prefix
            + length (size_items sizes)
            + length hash_prefix
            + length (hash_items hs))
        × (prefix_room (total_len (t ∷ ts) sizes (join hs))
            ≤ length (announcement (t ∷ ts) sizes hs))
        × (prefix_room (sizes_len sizes) ≤ length size_prefix + length (size_items sizes))
        × (prefix_room (length (join hs) / 32 * 33) ≤ length hash_prefix + length (hash_items hs))
        × (sizes_len sizes < 2 ^ 63)
        × (length (join hs) / 32 * 33 < 2 ^ 63)

    parts_size :
        length (announcement (t ∷ ts) sizes hs)
        ≡ length total_prefix
          + length (rlp_string (t ∷ ts))
          + length size_prefix
          + length (size_items sizes)
          + length hash_prefix
          + length (hash_items hs)
    parts_size =
        ap length (sym written_parts_lem)
        ∙ omega (
          arith,
          length-append total_prefix (rlp_string (t ∷ ts)),
          length-append (total_prefix ++ rlp_string (t ∷ ts)) size_prefix,
          length-append ((total_prefix ++ rlp_string (t ∷ ts)) ++ size_prefix) (size_items sizes),
          length-append (((total_prefix ++ rlp_string (t ∷ ts)) ++ size_prefix) ++ size_items sizes)
              hash_prefix,
          length-append
              ((((total_prefix ++ rlp_string (t ∷ ts)) ++ size_prefix) ++ size_items sizes)
                ++ hash_prefix)
              (hash_items hs),
        )

    rooms : Rooms
    rooms =
        let total : ℕ = total_len (t ∷ ts) sizes (join hs) in
        let hashes : ℕ = length (join hs) / 32 * 33 in
        let small = parts_fit (t ∷ ts) sizes hs us ih other fits in
        let s = length-size_items sizes us in
        let h = hashes_part hs ih in
        (
          parts_size,
          omega
              (arith, prefix_room-le total, length-announcement (t ∷ ts) sizes hs us ih other fits),
          omega (
            arith,
            prefix_room-le (sizes_len sizes),
            length-len_prefix 192 (sizes_len sizes) (omega arith),
          ),
          omega (arith, prefix_room-le hashes, length-len_prefix 192 hashes (omega arith)),
          omega arith,
          omega arith,
        )

    -- The steps up to the prefix of the sizes.
    front_steps :
        (buf : List ℕ)
        → length (announcement (t ∷ ts) sizes hs) ≤ length buf
        → (b1 : List ℕ × ℕ) × (b2 : List ℕ × ℕ) × (rest : List ℕ) × (encode_list_prefix
              (total_len (t ∷ ts) sizes (join hs))
              buf
            ≡ ok b1)
          × (write_behind (encode_string (t ∷ ts)) b1 ≡ ok b2)
          × (write_behind (encode_list_prefix (sizes_len sizes)) b2
              ≡ ok (
                ((total_prefix ++ rlp_string (t ∷ ts)) ++ size_prefix) ++ rest,
                length ((total_prefix ++ rlp_string (t ∷ ts)) ++ size_prefix),
              ))
          × (length total_prefix + length (rlp_string (t ∷ ts)) + length size_prefix + length rest
              ≡ length buf)
    front_steps buf room =
        let (whole, room1, room3, room5, w3, w5) = rooms in
        let small = parts_fit (t ∷ ts) sizes hs us ih other fits in
        let (r1, e1, k1) =
          encode_list_prefix-Writes (total_len (t ∷ ts) sizes (join hs)) (omega arith) buf
            (omega arith) in
        let (r2, e2, k2) =
          write_behind-Writes (encode_string (t ∷ ts)) (rlp_string (t ∷ ts))
            (length (rlp_string (t ∷ ts))) total_prefix r1
            (encode_string-Writes (t ∷ ts) (omega arith) other) (omega arith) in
        let (r3, e3, k3) =
          write_behind-Writes (encode_list_prefix (sizes_len sizes)) size_prefix
            (prefix_room (sizes_len sizes)) (total_prefix ++ rlp_string (t ∷ ts)) r2
            (encode_list_prefix-Writes (sizes_len sizes) w3) (omega arith) in
        (
          (total_prefix ++ r1, length total_prefix),
          (
            (total_prefix ++ rlp_string (t ∷ ts)) ++ r2,
            length (total_prefix ++ rlp_string (t ∷ ts)),
          ),
          r3,
          e1,
          e2,
          e3,
          omega arith,
        )

    -- The steps behind it, from any bytes `acc`.
    back_steps :
        (acc rest : List ℕ)
        → length (size_items sizes) + length hash_prefix + length (hash_items hs) ≤ length rest
        → (b4 : List ℕ × ℕ) × (b5 : List ℕ × ℕ) × (rest' : List ℕ) × (encode_sizes sizes
              (acc ++ rest, length acc)
            ≡ ok b4)
          × (write_behind (encode_list_prefix (length (join hs) / 32 * 33)) b4 ≡ ok b5)
          × (encode_hash_loop (length (join hs)) (join hs) b5
              ≡ ok (
                (((acc ++ size_items sizes) ++ hash_prefix) ++ hash_items hs) ++ rest',
                length (((acc ++ size_items sizes) ++ hash_prefix) ++ hash_items hs),
              ))
          × (length (size_items sizes) + length hash_prefix + length (hash_items hs) + length rest'
              ≡ length rest)
    back_steps acc rest room =
        let (whole, room1, room3, room5, w3, w5) = rooms in
        let (r4, e4, k4) = encode_sizes_lem sizes acc rest us (omega arith) in
        let (r5, e5, k5) =
          write_behind-Writes (encode_list_prefix (length (join hs) / 32 * 33)) hash_prefix
            (prefix_room (length (join hs) / 32 * 33)) (acc ++ size_items sizes) r4
            (encode_list_prefix-Writes (length (join hs) / 32 * 33) w5) (omega arith) in
        let (r6, e6, k6) =
          encode_hash_loop_lem (length (join hs)) hs ((acc ++ size_items sizes) ++ hash_prefix) r5
            ih (omega (arith, length-join hs ih)) (omega arith) in
        (
          ((acc ++ size_items sizes) ++ r4, length (acc ++ size_items sizes)),
          (
            ((acc ++ size_items sizes) ++ hash_prefix) ++ r5,
            length ((acc ++ size_items sizes) ++ hash_prefix),
          ),
          r6,
          e4,
          e5,
          e6,
          omega arith,
        )

    -- `EncodeAnnouncements` writes the encoding, into any buffer that holds it.
    pub encode_announcements-Writes :
        (buf : List ℕ)
        → length (announcement (t ∷ ts) sizes hs) ≤ length buf
        → (rest : List ℕ) × (encode_announcements (t ∷ ts) sizes (join hs) buf
            ≡ ok (announcement (t ∷ ts) sizes hs ++ rest, length (announcement (t ∷ ts) sizes hs)))
          × (length (announcement (t ∷ ts) sizes hs) + length rest ≡ length buf)
    encode_announcements-Writes buf room =
        let (b1, b2, r3, e1, e2, e3, k3) = front_steps buf room in
        let acc : List ℕ = (total_prefix ++ rlp_string (t ∷ ts)) ++ size_prefix in
        let (b4, b5, r6, e4, e5, e6, k6) = back_steps acc r3 (omega (arith, rooms.0)) in
        (
          r6,
          rw written_parts_lem at (
              encode_steps t ts sizes (join hs) buf b1 b2 (acc ++ r3, length acc) b4 b5
                (written_parts ++ r6, length written_parts) e1 e2 e3 e4 e5 e6),
          omega (arith, rooms.0),
        )
