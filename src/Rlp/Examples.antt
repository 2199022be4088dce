-- ===== src/Rlp/Examples.antt =====
-- Runs of rlp/parse.go and rlp/encodel.go on small payloads.
use erigon_lib.Base.{
  OnOk, ℕ, zero, suc, ◌+◌, ◌≤◌, ◌<◌, ◌≡◌, refl, arith, List, [], ◌∷◌, ◌++◌, length, All, ok, Safe,
}
use erigon_lib.Base.Words.{IsByte, IsSlice}
use erigon_lib.Rlp.Parse.{prefix, list, string, u64, u32, parse_announcements, slice}
use erigon_lib.Rlp.Encode.{
  total_len, sizes_len, hashes_len, short_string_len, be_len, be_len32, u64_len, u32_len,
  string_len, list_prefix_len, announcements_len, encode_u64, encode_u32, encode_string,
  encode_list_prefix, encode_announcements,
}
use erigon_lib.Rlp.Bounds.{prefix-Safe, Within}
use erigon_lib.Rlp.Safety.{Announced, parse_announcements-Safe}
use erigon_lib.Rlp.RoundTrip.{
  u64-encode_u64, u32-encode_u32, string-encode_string, string-encode_string_56,
  list-encode_list_prefix,
}
use erigon_lib.Rlp.Announce.{join, IsHash}
use erigon_lib.Rlp.AnnounceItems.{announced}
use erigon_lib.Rlp.AnnounceRoundTrip.{parse_announcements-encode_announcements}

-- The list of the numbers 1 and 1024, and a list that is cut off.
abbrev two_numbers : List ℕ
two_numbers = 196 ∷ 1 ∷ 130 ∷ 4 ∷ 0 ∷ []

abbrev cut_off : List ℕ
cut_off = 196 ∷ 1 ∷ 130 ∷ []

two_numbers-IsSlice : IsSlice two_numbers
two_numbers-IsSlice =
    ((omega arith, (omega arith, (omega arith, (omega arith, (omega arith, tt))))), omega arith)

prefix-Safe_example : Safe (Within two_numbers two_numbers-IsSlice.1 2) (prefix two_numbers 2)
prefix-Safe_example =
    prefix-Safe two_numbers two_numbers-IsSlice.1 two_numbers-IsSlice.0 2 (omega arith)

abbrev repeat : ℕ → ℕ → List ℕ
repeat zero b = []
repeat (suc n) b = b ∷ repeat n b

repeat-All : (n b : ℕ) → b < 256 → All IsByte (repeat n b)
repeat-All zero b h = tt
repeat-All (suc n) b h = (h, repeat-All n b h)

-- One transaction: its type, its size and its hash.
abbrev one_transaction : List ℕ
one_transaction = 229 ∷ 2 ∷ 193 ∷ 1 ∷ 225 ∷ 160 ∷ repeat 32 7

one_transaction-IsSlice : IsSlice one_transaction
one_transaction-IsSlice = (
  (
    omega arith,
    (
      omega arith,
      (omega arith, (omega arith, (omega arith, (omega arith, repeat-All 32 7 (omega arith))))),
    ),
  ),
  omega arith,
)

parse_announcements-Safe_example :
    Safe
      (Announced one_transaction one_transaction-IsSlice 0)
      (parse_announcements one_transaction 0)
parse_announcements-Safe_example =
    parse_announcements-Safe one_transaction one_transaction-IsSlice 0 (omega arith)

abbrev buf : List ℕ
buf = 0 ∷ 0 ∷ 0 ∷ 0 ∷ []

abbrev front : List ℕ
front = 196 ∷ 1 ∷ []

u64-encode_u64_example :
    (out : List ℕ) × (encode_u64 1024 buf ≡ ok (out, u64_len 1024))
    × (length out ≡ length buf)
    × (u64 (front ++ out) (length front) ≡ ok (length front + u64_len 1024, 1024))
unfolding u64_len be_len
u64-encode_u64_example = u64-encode_u64 front buf (omega arith) 1024 (omega arith) room
  where
    room : u64_len 1024 ≤ length buf
    room = omega arith

u32-encode_u32_example :
    (out : List ℕ) × (encode_u32 200 buf ≡ ok (out, u32_len 200))
    × (length out ≡ length buf)
    × (u32 (front ++ out) (length front) ≡ ok (length front + u32_len 200, 200))
unfolding u32_len be_len32
u32-encode_u32_example = u32-encode_u32 front buf (omega arith) 200 (omega arith) room
  where
    room : u32_len 200 ≤ length buf
    room = omega arith

string-encode_string_example :
    (out : List ℕ) × (p : ℕ) × (encode_string front buf ≡ ok (out, string_len front))
    × (length out ≡ length buf)
    × (string (front ++ out) (length front) ≡ ok (p, length front))
    × (p + length front ≡ length front + string_len front)
    × (slice (front ++ out) p (p + length front) ≡ ok front)
unfolding string_len short_string_len
string-encode_string_example =
    string-encode_string front buf (omega arith) front (λ e. omega arith) (omega arith)

abbrev bytes56 : List ℕ
bytes56 = repeat 56 7

string-encode_string_56_example :
    (out : List ℕ) × (encode_string bytes56 (repeat 57 0) ≡ ok (out, 57))
    × OnOk (λ d. d.0 ≡ 0 + 2) (string ([] ++ out) 0)
string-encode_string_56_example =
    string-encode_string_56 [] (repeat 57 0) (omega arith) bytes56 refl (omega arith)

list-encode_list_prefix_example :
    (pre rest : List ℕ) × (encode_list_prefix 2 buf ≡ ok (pre ++ rest, list_prefix_len 2))
    × (length pre ≡ list_prefix_len 2)
    × (length pre + length rest ≡ length buf)
    × (list (front ++ (pre ++ (1 ∷ 2 ∷ []))) (length front)
        ≡ ok (length front + list_prefix_len 2, 2))
unfolding list_prefix_len
list-encode_list_prefix_example =
    list-encode_list_prefix front buf (omega arith) 2 (1 ∷ 2 ∷ []) refl (omega arith) (omega arith)

abbrev one_hash : List (List ℕ)
one_hash = repeat 32 7 ∷ []

one_hash-IsHash : All IsHash one_hash
one_hash-IsHash = (refl, tt)

abbrev room40 : List ℕ
room40 = repeat 40 0

parse_announcements-encode_announcements_example :
    (out : List ℕ) × (encode_announcements (2 ∷ []) (1 ∷ []) (join one_hash) room40
      ≡ ok (out, announcements_len (2 ∷ []) (1 ∷ []) (join one_hash)))
    × (length out ≡ length room40)
    × (parse_announcements ([] ++ out) 0
        ≡ ok (
          announced (2 ∷ []) (1 ∷ []) one_hash,
          0 + announcements_len (2 ∷ []) (1 ∷ []) (join one_hash),
        ))
unfolding announcements_len total_len sizes_len hashes_len string_len list_prefix_len u32_len
    short_string_len be_len be_len32 join
parse_announcements-encode_announcements_example =
    parse_announcements-encode_announcements 2 [] (1 ∷ []) one_hash [] room40 (omega arith, tt)
      one_hash-IsHash refl (λ e. omega arith) (omega arith) (omega arith)
