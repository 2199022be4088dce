-- ===== src/Etl/Transform/NextKey.antt =====
-- `NextKey` of etl/etl.go as a count.
use erigon_lib.Base.{
  ℕ, suc, ◌+◌, ◌*◌, ◌^◌, ◌<◌, ◌≡◌, refl, arith, Bool, true, false, none, some, List, [], ◌∷◌,
  length, All, ltb, Bool-cases, ◌⊎◌, inl, inr, if◌then◌else◌,
}
use erigon_lib.Etl.Transform.{raise, next_key}

-- The key as a number, the first byte the greatest.
abbrev pub number : List ℕ → ℕ
number [] = 0
number (b ∷ key) = b * 256 ^ length key + number key

abbrev IsByte : ℕ → Type 0
IsByte b = b < 256

abbrev Raised : List ℕ → Bool × List ℕ → Type 0
Raised key (true, k) = (number k ≡ number key + 1) × (length k ≡ length key)
Raised key (false, k) =
    (number k ≡ 0) × (number key + 1 ≡ 256 ^ length key) × (length k ≡ length key)

raise_lem : (key : List ℕ) → All IsByte key → Raised key (raise key)
unfolding raise
raise_lem [] h = (refl, omega arith, refl)
raise_lem (b ∷ key) h = go (raise key) (raise_lem key h.1)
  where
    power : (x : ℕ) → 256 ^ suc x ≡ 256 * 256 ^ x
    power x = omega arith

    spread : (x y : ℕ) → (x + 1) * y ≡ x * y + y
    spread x y = omega arith

    go :
        (r : Bool × List ℕ)
        → Raised key r
        → Raised (b ∷ key) (
            if r.0
            then (true, b ∷ r.1)
            else if ltb b 255
            then (true, (b + 1) ∷ r.1)
            else (false, 0 ∷ r.1))
    go (true, k) (n, l) = (rw l (omega (arith, n)), omega (arith, l))
    go (false, k) (z, n, l) = elim (Bool-cases (ltb b 255)) [
      | inl t ↦ rw t (rw l (omega (arith, z, n, spread b (256 ^ length key))), omega (arith, l))
      | inr t ↦
          let top : b ≡ 255 = ground (arith, h.0) in
          rw t (omega (arith, z), rw top (omega (arith, n, power (length key))), omega (arith, l))
    ]

-- `NextKey` of a key that is not empty gives as many bytes, which are the next number, or it fails and
-- there is no next number of as many bytes.
pub next_key_lem :
    (b : ℕ) (key : List ℕ)
    → All IsByte (b ∷ key)
    → ((k : List ℕ) × (next_key (b ∷ key) ≡ some k)
        × (number k ≡ number (b ∷ key) + 1)
        × (length k ≡ length (b ∷ key)))
      ⊎ ((next_key (b ∷ key) ≡ none) × (number (b ∷ key) + 1 ≡ 256 ^ length (b ∷ key)))
unfolding next_key
next_key_lem b key h = go (raise (b ∷ key)) refl (raise_lem (b ∷ key) h)
  where
    go :
        (r : Bool × List ℕ)
        → raise (b ∷ key) ≡ r
        → Raised (b ∷ key) r
        → ((k : List ℕ) × (next_key (b ∷ key) ≡ some k)
            × (number k ≡ number (b ∷ key) + 1)
            × (length k ≡ length (b ∷ key)))
          ⊎ ((next_key (b ∷ key) ≡ none) × (number (b ∷ key) + 1 ≡ 256 ^ length (b ∷ key)))
    go (true, k) q (n, l) = inl (k, rw (next_key, q) refl, n, l)
    go (false, k) q (z, n, l) = inr (rw (next_key, q) refl, n)
