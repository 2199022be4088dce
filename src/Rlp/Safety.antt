-- ===== src/Rlp/Safety.antt =====
-- The parsers of rlp/parse.go above `Prefix`, on any payload and at any position.
use erigon_lib.Base.{
  ℕ, zero, suc, ◌+◌, ◌-◌, ◌*◌, ◌/◌, ◌%◌, ◌^◌, ◌≤◌, ◌<◌, ◌≡◌, arith, List, length, length-take,
  length-drop, length-append, drop, ok, ◌>>=◌, Safe, Safe->>=,
}
use erigon_lib.Base.Words.{IsSlice, add64}
use erigon_lib.Rlp.Parse.{
  Header, slice, shift_in, prefix, checked, list, string, string_of_len, read_int, u64, u32, u256,
  parse_hash, parse_sizes, parse_hashes, within, parse_announcements, Announcements,
}
use erigon_lib.Rlp.Bounds.{starts_with_zero-ne-fault, slice_total, prefix-Safe, Within}

module _ (payload : List ℕ) (ps : IsSlice payload) where
  -- An element that begins at `p`: where its data lie, and that they lie in the payload.
  abbrev pub Element : ℕ → ℕ × ℕ → Type 0
  Element p d = (p ≤ d.0) × (p < d.0 + d.1) × (d.0 + d.1 ≤ length payload)

  -- A parsed item that began at `p` ends behind it, inside the payload.
  abbrev pub Ends {ℓ} : {A : Type ℓ} → ℕ → ℕ × A → Type 0
  Ends p r = (p < r.0) × (r.0 ≤ length payload)

  checked-Safe :
      (p : ℕ)
      → p < 2 ^ 64
      → Safe (λ (h : Header). Element p (h.data_pos, h.data_len)) (checked (prefix payload p))
  unfolding checked
  checked-Safe p l =
      Safe->>= (Within payload ps.1 p) (λ (h : Header). Element p (h.data_pos, h.data_len))
        (prefix payload p) _ (prefix-Safe payload ps.1 ps.0 p l) (λ h _ w. ground (arith, w))

  -- `List` panics at no position, and where it succeeds the data begin at or behind the position and
  -- end behind it, inside the payload.
  pub list-Safe : (p : ℕ) → p < 2 ^ 64 → Safe (Element p) (list payload p)
  unfolding list
  list-Safe p l =
      Safe->>= (λ (h : Header). Element p (h.data_pos, h.data_len)) (Element p)
        (checked (prefix payload p)) _ (checked-Safe p l) (λ h _ w. ground (arith, w))

  -- `String` panics at no position, and where it succeeds the data begin at or behind the position
  -- and end behind it, inside the payload.
  pub string-Safe : (p : ℕ) → p < 2 ^ 64 → Safe (Element p) (string payload p)
  unfolding string
  string-Safe p l =
      Safe->>= (λ (h : Header). Element p (h.data_pos, h.data_len)) (Element p)
        (checked (prefix payload p)) _ (checked-Safe p l) (λ h _ w. ground (arith, w))

  read_int-Safe :
      (f : List ℕ → ℕ) (p : ℕ) (d : ℕ × ℕ)
      → Element p d
      → Safe (Ends p) (read_int f payload d.0 d.1)
  unfolding read_int
  read_int-Safe f p (a, n) e =
      ground (arith, starts_with_zero-ne-fault payload a n, slice_total payload a (add64 a n))

  -- `U64` panics at no position, and where it succeeds it ends behind the position, inside the
  -- payload.
  pub u64-Safe : (p : ℕ) → p < 2 ^ 64 → Safe (Ends p) (u64 payload p)
  unfolding u64
  u64-Safe p l =
      Safe->>= (λ (h : Header). Element p (h.data_pos, h.data_len)) (Ends p)
        (checked (prefix payload p)) _ (checked-Safe p l)
        (λ h _ w. ground (arith, read_int-Safe (shift_in (2 ^ 64) 0) p (h.data_pos, h.data_len) w))

  -- `U32` panics at no position, and where it succeeds it ends behind the position, inside the payload.
  pub u32-Safe : (p : ℕ) → p < 2 ^ 64 → Safe (Ends p) (u32 payload p)
  unfolding u32
  u32-Safe p l =
      Safe->>= (λ (h : Header). Element p (h.data_pos, h.data_len)) (Ends p)
        (checked (prefix payload p)) _ (checked-Safe p l)
        (λ h _ w. ground (arith, read_int-Safe (shift_in (2 ^ 32) 0) p (h.data_pos, h.data_len) w))

  -- `U256` panics at no position, whatever `SetBytes` gives, and where it succeeds it ends behind the
  -- position, inside the payload.
  pub u256-Safe :
      (set_bytes : List ℕ → ℕ) (p : ℕ) → p < 2 ^ 64 → Safe (Ends p) (u256 set_bytes payload p)
  unfolding u256
  u256-Safe set_bytes p l =
      Safe->>= (Element p) (Ends p) (string payload p) _ (string-Safe p l)
        (λ d _ w. ground (arith, read_int-Safe set_bytes p d w))

  string_of_len-Safe :
      (p n : ℕ) → p < 2 ^ 64 → Safe (λ q. Element p (q, n)) (string_of_len payload p n)
  unfolding string_of_len
  string_of_len-Safe p n l =
      Safe->>= (Element p) (λ q. Element p (q, n)) (string payload p) _ (string-Safe p l)
        (λ d _ w. ground (arith, w))

  -- A hash has 32 bytes.
  abbrev pub HashAt : ℕ → ℕ × List ℕ → Type 0
  HashAt p r = (p < r.0) × (r.0 ≤ length payload) × (length r.1 ≡ 32)

  -- `ParseHash` panics at no position, and where it succeeds it gives 32 bytes and ends behind the
  -- position, inside the payload.
  pub parse_hash-Safe : (p : ℕ) → p < 2 ^ 64 → Safe (HashAt p) (parse_hash payload p)
  unfolding parse_hash
  parse_hash-Safe p l =
      Safe->>= (λ q. Element p (q, 32)) (HashAt p) (string_of_len payload p 32) _
        (string_of_len-Safe p 32 l)
        (λ q _ w. ground (
          arith,
          slice_total payload q (add64 q 32),
          length-take (add64 q 32 - q) (drop q payload),
          length-drop q payload,
        ))

  -- The loops go on from where the last item ended, and give as many items as rounds.
  abbrev Many : ℕ → ℕ → ℕ × List ℕ → Type 0
  Many p n r = (p ≤ r.0) × (r.0 ≤ length payload) × (length r.1 ≡ n)

  parse_sizes-Safe : (n p : ℕ) → p ≤ length payload → Safe (Many p n) (parse_sizes n payload p)
  unfolding parse_sizes
  parse_sizes-Safe zero p l = omega arith
  parse_sizes-Safe (suc n) p l =
      Safe->>= (Ends p) (Many p (suc n)) (u32 payload p) _ (u32-Safe p (omega arith)) (λ s _ w.
        Safe->>= (Many s.0 n) (Many p (suc n)) (parse_sizes n payload s.0) _
          (parse_sizes-Safe n s.0 w.1) (λ r _ m. omega arith))

  parse_hashes-Safe :
      (n p : ℕ) → p ≤ length payload → Safe (Many p (32 * n)) (parse_hashes n payload p)
  unfolding parse_hashes
  parse_hashes-Safe zero p l = omega arith
  parse_hashes-Safe (suc n) p l =
      Safe->>= (HashAt p) (Many p (32 * suc n)) (parse_hash payload p) _
        (parse_hash-Safe p (omega arith))
        (λ h _ w.
          Safe->>= (Many h.0 (32 * n)) (Many p (32 * suc n)) (parse_hashes n payload h.0) _
            (parse_hashes-Safe n h.0 w.1) (λ r _ m. omega (arith, length-append h.1 r.1)))

  within-Safe : (p : ℕ) (d : ℕ × ℕ) → Element p d → Safe (Element p) (within payload d)
  unfolding within
  within-Safe p d e = ground (arith, e)

  -- As many sizes as types, whole hashes, and an end behind `p` inside the payload.
  abbrev pub Announced : ℕ → Announcements × ℕ → Type 0
  Announced p r =
      (p < r.1)
      × (r.1 ≤ length payload)
      × (length r.0.sizes ≡ length r.0.types)
      × (length r.0.hashes % 32 ≡ 0)

  -- The part of `ParseAnnouncements` behind the types: the two lists.
  sizes_and_hashes-Safe :
      (p q n : ℕ) (types : List ℕ)
      → p < q
      → q ≤ length payload
      → length types ≡ n
      → Safe (Announced p) (
          list payload q >>= λ s. within payload s >>= λ _. parse_sizes n payload s.0 >>= λ sizes.
          list payload sizes.0 >>= λ h. within payload h >>= λ _.
          parse_hashes (h.1 / 33) payload h.0 >>= λ hashes.
          ok (record { types = types; sizes = sizes.1; hashes = hashes.1 }, hashes.0))
  sizes_and_hashes-Safe p q n types l m c =
      Safe->>= (Element q) A (list payload q) _ (list-Safe q (omega arith)) λ s _ se.
        Safe->>= (Element q) A (within payload s) _ (within-Safe q s se) λ _ _ _.
          Safe->>= (Many s.0 n) A (parse_sizes n payload s.0) _
            (parse_sizes-Safe n s.0 (omega arith))
            λ sizes _ sm.
              Safe->>= (Element sizes.0) A (list payload sizes.0) _
                (list-Safe sizes.0 (omega arith))
                λ h _ he.
                  Safe->>= (Element sizes.0) A (within payload h) _ (within-Safe sizes.0 h he)
                    λ _ _ _.
                      Safe->>= (Many h.0 (32 * (h.1 / 33))) A (parse_hashes (h.1 / 33) payload h.0)
                        _ (parse_hashes-Safe (h.1 / 33) h.0 (omega arith))
                        λ hashes _ hm. omega arith
    where
      A : Announcements × ℕ → Type 0
      A = Announced p

  -- `ParseAnnouncements` panics on no payload. Where it succeeds there is a size for each type, the
  -- hashes are whole, and the end lies behind the position, inside the payload.
  pub parse_announcements-Safe :
      (p : ℕ) → p < 2 ^ 64 → Safe (Announced p) (parse_announcements payload p)
  unfolding parse_announcements
  parse_announcements-Safe p l =
      Safe->>= (Element p) A (list payload p) _ (list-Safe p l) λ total _ e.
        Safe->>= (Element p) A (within payload total) _ (within-Safe p total e) λ _ _ _.
          Safe->>= (Element total.0) A (string payload total.0) _
            (string-Safe total.0 (omega arith))
            λ t _ te.
              Safe->>= (Element total.0) A (within payload t) _ (within-Safe total.0 t te) λ _ _ _.
                Safe->>= (λ types. length types ≡ t.1) A (slice payload t.0 (add64 t.0 t.1)) _
                  (types-Safe t te.2)
                  λ types _ c.
                    sizes_and_hashes-Safe p (add64 t.0 t.1) t.1 types (omega arith) (omega arith) c
    where
      A : Announcements × ℕ → Type 0
      A = Announced p

      types-Safe :
          (t : ℕ × ℕ)
          → t.0 + t.1 ≤ length payload
          → Safe (λ types. length types ≡ t.1) (slice payload t.0 (add64 t.0 t.1))
      types-Safe (a, n) b =
          rw (slice_total payload a (add64 a n) (omega arith) (omega arith))
            (omega (arith, length-take (add64 a n - a) (drop a payload), length-drop a payload))
