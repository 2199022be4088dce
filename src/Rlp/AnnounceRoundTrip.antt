-- ===== src/Rlp/AnnounceRoundTrip.antt =====
-- Announcements: what `EncodeAnnouncements` writes, and `ParseAnnouncements` on it.
use mathlib.Core.List.{append_assoc}
use erigon_lib.Base.{
  ℕ, ◌+◌, ◌/◌, ◌^◌, ◌≤◌, ◌<◌, ◌≡◌, ◌≢◌, ◌∙◌, arith, List, ◌∷◌, ◌++◌, length, length-append, All, ok,
}
use erigon_lib.Base.Words.{add64}
use erigon_lib.Rlp.Parse.{list, string, slice, parse_sizes, parse_hashes, parse_announcements}
use erigon_lib.Rlp.Encode.{total_len, announcements_len, encode_announcements}
use erigon_lib.Rlp.Headers.{len_prefix, rlp_string, rlp_list}
use erigon_lib.Rlp.Elements.{head_len, string-rlp_string, list-rlp_list, slice-rlp_string}
use erigon_lib.Rlp.Integers.{head_len-add}
use erigon_lib.Rlp.AnnounceLengths.{body_of, length-announcement}
use erigon_lib.Rlp.AnnounceWrites.{encode_announcements-Writes}
use erigon_lib.Rlp.Announce.{
  size_items, hash_items, join, IsU32, IsHash, announcement, length-hash_items,
}
use erigon_lib.Rlp.AnnounceItems.{
  announced, within_ok, parse_sizes_lem, parse_hashes_lem, parse_steps,
}

module _ (types sizes : List ℕ) (hs : List (List ℕ)) (front back : List ℕ) where
  abbrev payload : List ℕ
  payload = front ++ (announcement types sizes hs ++ back)

  -- What stands in front of each part of the announcement.
  abbrev at_types : List ℕ
  at_types = front ++ len_prefix 192 (length (body_of types sizes hs))

  abbrev at_sizes : List ℕ
  at_sizes = at_types ++ rlp_string types

  abbrev at_size_items : List ℕ
  at_size_items = at_sizes ++ len_prefix 192 (length (size_items sizes))

  abbrev at_hashes : List ℕ
  at_hashes = at_size_items ++ size_items sizes

  abbrev at_hash_items : List ℕ
  at_hash_items = at_hashes ++ len_prefix 192 (length (hash_items hs))

  types_view :
      payload
      ≡ at_types
        ++ (rlp_string types ++ (rlp_list (size_items sizes) ++ (rlp_list (hash_items hs) ++ back)))
  unfolding announcement rlp_list
  types_view = simp append_assoc

  sizes_view :
      payload ≡ at_sizes ++ (rlp_list (size_items sizes) ++ (rlp_list (hash_items hs) ++ back))
  unfolding announcement rlp_list
  sizes_view = simp append_assoc

  size_items_view :
      payload ≡ at_size_items ++ (size_items sizes ++ (rlp_list (hash_items hs) ++ back))
  unfolding announcement rlp_list
  size_items_view = simp append_assoc

  hashes_view : payload ≡ at_hashes ++ (rlp_list (hash_items hs) ++ back)
  unfolding announcement rlp_list
  hashes_view = simp append_assoc

  hash_items_view : payload ≡ at_hash_items ++ (hash_items hs ++ back)
  unfolding announcement rlp_list
  hash_items_view = simp append_assoc

  module _ (us : All IsU32 sizes) (ih : All IsHash hs) (small : length payload < 2 ^ 48) where
    total_read : list payload (length front) ≡ ok (length at_types, length (body_of types sizes hs))
    unfolding announcement
    total_read =
        list-rlp_list front back (body_of types sizes hs) small
        ∙ rw (length-append front (len_prefix 192 (length (body_of types sizes hs))))

    types_read :
        string payload (length at_types) ≡ ok (length at_types + head_len types, length types)
    types_read = rw types_view (
        string-rlp_string at_types
          (rlp_list (size_items sizes) ++ (rlp_list (hash_items hs) ++ back)) types
          (rw types_view at small))

    types_cut :
        slice payload
          (length at_types + head_len types)
          (length at_types + head_len types + length types)
        ≡ ok types
    types_cut = rw types_view (
        slice-rlp_string at_types
          (rlp_list (size_items sizes) ++ (rlp_list (hash_items hs) ++ back)) types)

    sizes_read :
        list payload (length at_sizes) ≡ ok (length at_size_items, length (size_items sizes))
    sizes_read =
        rw (sizes_view, length-append at_sizes (len_prefix 192 (length (size_items sizes))))
          (list-rlp_list at_sizes (rlp_list (hash_items hs) ++ back) (size_items sizes)
            (rw sizes_view at small))

    size_items_read :
        parse_sizes (length sizes) payload (length at_size_items) ≡ ok (length at_hashes, sizes)
    size_items_read =
        rw (size_items_view, length-append at_size_items (size_items sizes))
          (parse_sizes_lem sizes at_size_items (rlp_list (hash_items hs) ++ back) us
            (rw size_items_view at small))

    hashes_read :
        list payload (length at_hashes) ≡ ok (length at_hash_items, length (hash_items hs))
    hashes_read =
        rw (hashes_view, length-append at_hashes (len_prefix 192 (length (hash_items hs))))
          (list-rlp_list at_hashes back (hash_items hs) (rw hashes_view at small))

    hash_items_read :
        parse_hashes (length hs) payload (length at_hash_items)
        ≡ ok (length at_hash_items + length (hash_items hs), join hs)
    hash_items_read =
        rw hash_items_view (parse_hashes_lem hs at_hash_items back ih (rw hash_items_view at small))

    -- The places, and where the announcement ends.
    places :
        (length at_types + head_len types + length types ≡ length at_sizes)
        × (length at_types + length (body_of types sizes hs) ≤ length payload)
        × (length at_size_items + length (size_items sizes) ≤ length payload)
        × (length at_hash_items + length (hash_items hs) ≤ length payload)
        × (length at_hash_items + length (hash_items hs)
            ≡ length front + length (announcement types sizes hs))
    unfolding announcement rlp_list
    places =
        let types_end = length-append at_types (rlp_string types) in
        let head = head_len-add types in
        let l1 = length-append front (len_prefix 192 (length (body_of types sizes hs))) in
        let l2 =
          length-append (len_prefix 192 (length (body_of types sizes hs)))
            (body_of types sizes hs) in
        let l3 = length-append front (announcement types sizes hs ++ back) in
        let l4 = length-append (announcement types sizes hs) back in
        let l5 =
          length-append (rlp_string types)
            (rlp_list (size_items sizes) ++ rlp_list (hash_items hs)) in
        let l6 = length-append (rlp_list (size_items sizes)) (rlp_list (hash_items hs)) in
        let l7 = length-append (len_prefix 192 (length (size_items sizes))) (size_items sizes) in
        let l8 = length-append (len_prefix 192 (length (hash_items hs))) (hash_items hs) in
        let m1 = length-append at_sizes (len_prefix 192 (length (size_items sizes))) in
        let m2 = length-append at_size_items (size_items sizes) in
        let m3 = length-append at_hashes (len_prefix 192 (length (hash_items hs))) in
        (omega arith, omega arith, omega arith, omega arith, omega arith)

    -- `ParseAnnouncements` reads the encoding of an announcement back, wherever it stands.
    pub parse_announcements-announcement :
        length sizes ≡ length types
        → parse_announcements payload (length front)
          ≡ ok (announced types sizes hs, length front + length (announcement types sizes hs))
    parse_announcements-announcement same =
        let (ends, fit1, fit2, fit3, whole) = places in
        let start : ℕ = length at_types + head_len types in
        let mid = length-append at_sizes (len_prefix 192 (length (size_items sizes))) in
        let wrap : add64 start (length types) ≡ length at_sizes = omega arith in
        let wrap' : add64 start (length types) ≡ start + length types = omega (arith, wrap) in
        let count : length (hash_items hs) / 33 ≡ length hs =
          omega (arith, length-hash_items hs ih) in
        parse_steps payload (length front) (length at_types, length (body_of types sizes hs))
          (start, length types) (length at_size_items, length (size_items sizes))
          (length at_hash_items, length (hash_items hs)) types (length at_hashes, sizes)
          (length at_hash_items + length (hash_items hs), join hs) total_read
          (within_ok payload (length at_types) (length (body_of types sizes hs)) small fit1)
          types_read (within_ok payload start (length types) small (omega arith))
          (rw wrap' types_cut) (rw wrap sizes_read)
          (within_ok payload (length at_size_items) (length (size_items sizes)) small fit2)
          (rw (← same) size_items_read) hashes_read
          (within_ok payload (length at_hash_items) (length (hash_items hs)) small fit3)
          (rw count hash_items_read)
        ∙ rw whole

module _ (t : ℕ) (ts sizes : List ℕ) (hs : List (List ℕ)) where
  -- `EncodeAnnouncements` needs no more room than `AnnouncementsLen`, for any announcement of hashes
  -- of 32 bytes and sizes of 32 bits with a number of types other than 0 and 56, and
  -- `ParseAnnouncements` reads the announcement back and ends behind it.
  pub parse_announcements-encode_announcements :
      (front buf : List ℕ)
      → All IsU32 sizes
      → All IsHash hs
      → length sizes ≡ length (t ∷ ts)
      → length (t ∷ ts) ≢ 56
      → announcements_len (t ∷ ts) sizes (join hs) ≤ length buf
      → length front + length buf < 2 ^ 47
      → (out : List ℕ) × (encode_announcements (t ∷ ts) sizes (join hs) buf
          ≡ ok (out, announcements_len (t ∷ ts) sizes (join hs)))
        × (length out ≡ length buf)
        × (parse_announcements (front ++ out) (length front)
            ≡ ok (
              announced (t ∷ ts) sizes hs,
              length front + announcements_len (t ∷ ts) sizes (join hs),
            ))
  unfolding announcements_len
  parse_announcements-encode_announcements front buf us ih same other room small =
      let types : List ℕ = t ∷ ts in
      let fits : total_len types sizes (join hs) < 2 ^ 47 = omega arith in
      let size = length-announcement types sizes hs us ih other fits in
      let (rest, e, kept) =
        encode_announcements-Writes t ts sizes hs us ih other fits buf (omega (arith, size)) in
      let bytes = length-append (announcement types sizes hs) rest in
      (
        announcement types sizes hs ++ rest,
        rw (← size) e,
        omega arith,
        rw (← size) (
            parse_announcements-announcement types sizes hs front rest us ih
              (omega (arith, length-append front (announcement types sizes hs ++ rest))) same),
      )
