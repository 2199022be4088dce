-- ===== src/Rlp/AnnounceItems.antt =====
-- The loops and the chain of reads of `ParseAnnouncements` in rlp/parse.go, at encoded items.
use mathlib.Core.List.{append_assoc}
use erigon_lib.Base.{
  ℕ, ◌+◌, ◌/◌, ◌^◌, ◌≤◌, ◌<◌, ◌≡◌, ap, arith, List, [], ◌∷◌, ◌++◌, length, length-append, All, ok,
}
use erigon_lib.Base.Words.{add64}
use erigon_lib.Rlp.Parse.{
  Announcements, list, string, slice, parse_hash, parse_sizes, parse_hashes, within, string_of_len,
  parse_announcements,
}
use erigon_lib.Rlp.Headers.{rlp_string}
use erigon_lib.Rlp.Elements.{string-rlp_string, slice-rlp_string}
use erigon_lib.Rlp.Integers.{head_len-add, rlp_uint, u32-rlp_uint}
use erigon_lib.Rlp.Announce.{size_items, hash_items, join, IsU32, IsHash, length-rlp_hash}

abbrev pub announced : List ℕ → List ℕ → List (List ℕ) → Announcements
announced types sizes hs = record { types = types; sizes = sizes; hashes = join hs }

pub within_ok :
    (payload : List ℕ) (a n : ℕ)
    → length payload < 2 ^ 48
    → a + n ≤ length payload
    → within payload (a, n) ≡ ok (a, n)
unfolding within
within_ok payload a n small h = ground arith

-- The loop over the sizes, at their encodings.
pub parse_sizes_lem :
    (sizes front back : List ℕ)
    → All IsU32 sizes
    → length (front ++ (size_items sizes ++ back)) < 2 ^ 48
    → parse_sizes (length sizes) (front ++ (size_items sizes ++ back)) (length front)
      ≡ ok (length front + length (size_items sizes), sizes)
unfolding parse_sizes size_items
parse_sizes_lem [] front back a small = ap (λ t. ok (t, [])) (omega arith)
parse_sizes_lem (s ∷ ss) front back a small =
    let items = size_items ss in
    let e1 = append_assoc (rlp_uint s) items back in
    let e2 = append_assoc front (rlp_uint s) (items ++ back) in
    let small' = rw e1 at small in
    let l1 = length-append front (rlp_uint s) in
    let l2 = length-append (rlp_uint s) items in
    let first = u32-rlp_uint front (items ++ back) s a.0 small' in
    let later = rw (e2, l1) at (parse_sizes_lem ss (front ++ rlp_uint s) back a.1 (rw e2 small')) in
    let ends : length front + length (rlp_uint s) + length items
        ≡ length front + length (rlp_uint s ++ items) =
      omega arith in
    rw (e1, first, later, ends)

parse_hash_lem :
    (h front back : List ℕ)
    → IsHash h
    → length (front ++ (rlp_string h ++ back)) < 2 ^ 48
    → parse_hash (front ++ (rlp_string h ++ back)) (length front) ≡ ok (length front + 33, h)
unfolding parse_hash string_of_len
parse_hash_lem h front back e small = ground (
  arith,
  e,
  string-rlp_string front back h small,
  slice-rlp_string front back h,
  head_len-add h,
  length-rlp_hash h e,
  length-append front (rlp_string h ++ back),
  length-append (rlp_string h) back,
)

-- The loop over the hashes, at their encodings.
pub parse_hashes_lem :
    (hs : List (List ℕ)) (front back : List ℕ)
    → All IsHash hs
    → length (front ++ (hash_items hs ++ back)) < 2 ^ 48
    → parse_hashes (length hs) (front ++ (hash_items hs ++ back)) (length front)
      ≡ ok (length front + length (hash_items hs), join hs)
unfolding parse_hashes hash_items join
parse_hashes_lem [] front back a small = ap (λ t. ok (t, [])) (omega arith)
parse_hashes_lem (h ∷ hs) front back a small =
    let items = hash_items hs in
    let e1 = append_assoc (rlp_string h) items back in
    let e2 = append_assoc front (rlp_string h) (items ++ back) in
    let small' = rw e1 at small in
    let size = length-rlp_hash h a.0 in
    let l1 : length (front ++ rlp_string h) ≡ length front + 33 =
      omega (arith, length-append front (rlp_string h)) in
    let first = parse_hash_lem h front (items ++ back) a.0 small' in
    let later =
      rw (e2, l1) at (parse_hashes_lem hs (front ++ rlp_string h) back a.1 (rw e2 small')) in
    let ends : length front + 33 + length items ≡ length front + length (rlp_string h ++ items) =
      omega (arith, length-append (rlp_string h) items) in
    rw (e1, first, later, ends)

-- The reads of `ParseAnnouncements` one after the other, as equations.
pub parse_steps :
    (payload : List ℕ) (pos : ℕ) (total t s h : ℕ × ℕ) (types : List ℕ) (sizes hashes : ℕ × List ℕ)
    → list payload pos ≡ ok total
    → within payload total ≡ ok total
    → string payload total.0 ≡ ok t
    → within payload t ≡ ok t
    → slice payload t.0 (add64 t.0 t.1) ≡ ok types
    → list payload (add64 t.0 t.1) ≡ ok s
    → within payload s ≡ ok s
    → parse_sizes t.1 payload s.0 ≡ ok sizes
    → list payload sizes.0 ≡ ok h
    → within payload h ≡ ok h
    → parse_hashes (h.1 / 33) payload h.0 ≡ ok hashes
    → parse_announcements payload pos
      ≡ ok (record { types = types; sizes = sizes.1; hashes = hashes.1 }, hashes.0)
unfolding parse_announcements
parse_steps payload pos total t s h types sizes hashes e1 w1 e2 w2 e3 e4 w4 e5 e6 w6 e7 =
    rw (e1, w1, e2, w2, e3, e4, w4, e5, e6, w6, e7)
