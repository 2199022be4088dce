-- ===== src/Rlp/Commitment/Examples.antt =====
-- Runs of rlp/commitment.go with a writer that keeps what it is given.
use erigon_lib.Base.{
  ℕ, zero, suc, ◌+◌, ◌-◌, ◌≡◌, refl, arith, none, List, [], ◌∷◌, ◌++◌, length, ok,
}
use erigon_lib.Rlp.Parse.{string, slice}
use erigon_lib.Rlp.Headers.{rlp_string}
use erigon_lib.Rlp.Encode.{encode_list_prefix}
use erigon_lib.Rlp.Commitment.{
  Writer, to_double_rlp, double_rlp_len, encode_byte_array_as_rlp, generate_struct_len,
}
use erigon_lib.Rlp.Commitment.Laws.{Keeps, to_double_rlp-rlp_string}
use erigon_lib.Rlp.Commitment.Single.{
  string-encode_byte_array_as_rlp, encode_byte_array_as_rlp-high_byte,
  generate_struct_len-encode_list_prefix,
}

abbrev kept : Writer ⊥ (List ℕ)
kept bytes s = (none, s ++ bytes)

kept-Keeps : Keeps kept (λ s. s)
kept-Keeps bytes s = (s ++ bytes, refl, refl)

abbrev three : List ℕ
three = 1 ∷ 200 ∷ 3 ∷ []

abbrev zeros : ℕ → List ℕ
zeros zero = []
zeros (suc n) = 0 ∷ zeros n

to_double_rlp-rlp_string_example :
    (s' : List ℕ) × (to_double_rlp three kept (zeros 8) (9 ∷ []) ≡ ok (none, s'))
    × (s' ≡ (9 ∷ []) ++ rlp_string (rlp_string three))
    × (double_rlp_len three ≡ length (rlp_string (rlp_string three)))
to_double_rlp-rlp_string_example =
    to_double_rlp-rlp_string kept (λ s. s) kept-Keeps (9 ∷ []) three (zeros 8) (omega arith)
      (omega arith) (omega arith)

string-encode_byte_array_as_rlp_example :
    (n : ℕ) × (s' : List ℕ) × (encode_byte_array_as_rlp three kept (zeros 4) (9 ∷ [])
      ≡ ok ((n, none), s'))
    × (length s' ≡ 1 + n)
    × (string s' 1 ≡ ok (1 + (n - 3), 3))
    × (slice s' (1 + (n - 3)) (1 + (n - 3) + 3) ≡ ok three)
string-encode_byte_array_as_rlp_example =
    string-encode_byte_array_as_rlp kept (λ s. s) kept-Keeps (9 ∷ []) three (zeros 4) (omega arith)
      (omega arith) (omega arith) (omega arith)

encode_byte_array_as_rlp-high_byte_example :
    (s' : List ℕ) × (encode_byte_array_as_rlp (200 ∷ []) kept (zeros 4) (9 ∷ [])
      ≡ ok ((1, none), s'))
    × (length s' ≡ 3)
encode_byte_array_as_rlp-high_byte_example =
    encode_byte_array_as_rlp-high_byte kept (λ s. s) kept-Keeps (9 ∷ []) 200 (zeros 4) (omega arith)
      (omega arith)

generate_struct_len-encode_list_prefix_example :
    (bytes : List ℕ) × (rest : List ℕ) × (rest' : List ℕ) × (generate_struct_len (zeros 10) 300
      ≡ ok (bytes ++ rest, length bytes))
    × (encode_list_prefix 300 (zeros 10) ≡ ok (bytes ++ rest', length bytes))
generate_struct_len-encode_list_prefix_example =
    generate_struct_len-encode_list_prefix 300 (zeros 10) (omega arith) (omega arith)
